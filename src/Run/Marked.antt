-- ===== src/Run/Marked.antt =====
-- apps/scraper/ingest.py, `run_ingest`: what the row of a run says at its end.
use dsa_api.Base.{
  ◌≡◌, ◌≢◌, refl, sym, ap, subst, Bool-cases, ◌∙◌, some, get, ℕ_discrete, get-put_self, arith, inl,
  inr,
}
use dsa_api.Enums.{ScrapeRunStatus}
use dsa_api.Models.{ScrapeRunOrm}
use dsa_api.Text.{Text, is_empty}
use dsa_api.Ingest.Reconcile.{Session}
use dsa_api.Run.Scrape.{
  Attempt, returned, raised, ◌>>=◌, World, Outside, Found, IngestResult, find_rows, done_row,
  failed_row, stored, committed, with_timestamp, opened, begun, failed, finished, run_ingest,
  with_client, running_row,
}
use dsa_api.Run.Faults.{
  returned_raised, returned_injective, export-runs, timestamp-runs, closed_world,
}

module _ (o : Outside) where
  -- The row of this run has an end.
  abbrev pub IsSettled : World → Type 0
  IsSettled w =
      (row : ScrapeRunOrm) × (get ℕ_discrete o.run_id w.runs ≡ some row)
      × (row.status ≢ ScrapeRunStatus.running)

  not_failed : ScrapeRunStatus.failed ≢ ScrapeRunStatus.running
  not_failed h = grind arith

  done-settled :
      (found : Found) (s : Session) → (done_row o found s).status ≢ ScrapeRunStatus.running
  unfolding done_row
  done-settled found s = elim (Bool-cases (is_empty found.parse_errors)) [
    | inl e ↦ rw e (λ h. grind arith)
    | inr e ↦ rw e (λ h. grind arith)
  ]

  failed-IsSettled :
      (close : Attempt (Unit {0})) (w : World) (e : Text)
      → close ≡ returned tt
      → IsSettled (failed o close w e).0
  unfolding failed failed_row
  failed-IsSettled (returned _) w e h =
      (failed_row o e, get-put_self ℕ_discrete o.run_id (failed_row o e) w.runs, not_failed)
  failed-IsSettled (raised f) w e h = absurd (returned_raised tt f (sym h))

  stored-IsSettled :
      (commit : Attempt (Unit {0})) (w v : World) (found : Found) (s : Session) (r : IngestResult)
      → stored o commit w found s ≡ returned (v, r)
      → IsSettled v
  unfolding stored
  stored-IsSettled (raised e) w v found s r h = absurd (returned_raised (v, r) e (sym h))
  stored-IsSettled (returned _) w v found s r h =
      subst IsSettled (ap (λ p. p.0) (returned_injective _ (v, r) h)) (
        done_row o found s,
        get-put_self ℕ_discrete o.run_id (done_row o found s) w.runs,
        done-settled found s,
      )

  found-IsSettled :
      (r : Attempt Found) (w v : World) (result : IngestResult)
      → (r >>= committed o w) ≡ returned (v, result)
      → IsSettled v
  unfolding committed
  found-IsSettled (raised e) w v result h = absurd (returned_raised (v, result) e (sym h))
  found-IsSettled (returned found) w v result h = stored-IsSettled o.commit w v found _ result h

  finished-IsSettled :
      (w : World) (x : Attempt (World × IngestResult))
      → ((v : World) (r : IngestResult) → x ≡ returned (v, r) → IsSettled v)
      → o.close_run ≡ returned tt
      → IsSettled (finished o w x).0
  unfolding finished
  finished-IsSettled w (raised e) known close = failed-IsSettled o.close_run w e close
  finished-IsSettled w (returned (v, r)) known close =
      let (row, at, ended) = known v r refl in
      (
        row,
        ap (get ℕ_discrete o.run_id) (
              export-runs o o.export r.session (with_timestamp o o.redis v)
              ∙ timestamp-runs o o.redis v)
            ∙ at,
        ended,
      )

  -- With its client the run ends its row; without one the row goes on saying that it runs.
  abbrev pub Marks : Attempt (Unit {0}) → ScrapeRunStatus → Type 0
  Marks (returned _) status = status ≢ ScrapeRunStatus.running
  Marks (raised e) status = status ≡ ScrapeRunStatus.running

  abbrev pub IsMarked : Attempt (Unit {0}) → World → Type 0
  IsMarked client v =
      (row : ScrapeRunOrm) × (get ℕ_discrete o.run_id v.runs ≡ some row) × Marks client row.status

  client-IsMarked :
      (client : Attempt (Unit {0})) (w : World)
      → o.close_run ≡ returned tt
      → IsMarked client (with_client o client (opened o w)).0
  unfolding with_client running_row
  client-IsMarked (raised e) w close =
      (running_row o, get-put_self ℕ_discrete o.run_id (running_row o) w.runs, refl)
  client-IsMarked (returned _) w close = subst IsSettled (sym (closed_world o o.aclose _)) (
      finished-IsSettled (opened o w) (find_rows o >>= committed o (opened o w))
        (λ v r. found-IsSettled (find_rows o) (opened o w) v r) close)

  begun-IsMarked :
      (start : Attempt (Unit {0})) (w : World)
      → start ≡ returned tt
      → o.close_run ≡ returned tt
      → IsMarked o.client (begun o start w).0
  unfolding begun
  begun-IsMarked (raised e) w h close = absurd (returned_raised tt e (sym h))
  begun-IsMarked (returned _) w h close = client-IsMarked o.client w close

  -- If the row of a run could be made, and could be marked had the run failed, the row is there
  -- at the end, and says running exactly if the client of the run could not be made.
  pub run_ingest-IsMarked :
      (w : World)
      → o.open_run ≡ returned tt
      → o.close_run ≡ returned tt
      → IsMarked o.client (run_ingest o w).0
  unfolding run_ingest
  run_ingest-IsMarked w start close = begun-IsMarked o.open_run w start close
