-- ===== src/Run/Exit.antt =====
-- apps/scraper/__main__.py, `_amain`: the exit code of a run.
use dsa_api.Base.{
  ℕ, ◌≡◌, ◌⊎◌, inl, inr, refl, sym, ap, subst, ◌∙◌, some, List, [], ◌∷◌, get, get-put_self,
  ℕ_discrete,
}
use dsa_api.Enums.{ScrapeRunStatus}
use dsa_api.Models.{ScrapeRunOrm}
use dsa_api.Text.{Text}
use dsa_api.Ingest.Reconcile.{Session}
use dsa_api.Run.Scrape.{
  Attempt, returned, raised, ◌>>=◌, World, Outside, Found, IngestResult, find_rows, status_of,
  done_row, stored, committed, with_timestamp, opened, finished, run_ingest,
}
use dsa_api.Run.Steps.{failed_raises}
use dsa_api.Run.Faults.{
  begun_ran, Untouched, returned_raised, returned_injective, export-runs, timestamp-runs,
  run_ingest-Untouched,
}
use dsa_api.Run.Done.{IsDone, run_ingest-IsDone}

abbrev code_of : ScrapeRunStatus → ℕ
code_of ScrapeRunStatus.partial = 2
code_of _ = 0

-- What `_amain` returns, by what `run_ingest` does.
unfoldable pub exit_code : Attempt IngestResult → ℕ
exit_code (raised e) = 1
exit_code (returned r) = code_of r.status

-- `_amain` on the model of the run.
unfoldable pub amain : Outside → World → World × ℕ
amain o w = let ran = run_ingest o w in (ran.0, exit_code ran.1)

module _ (o : Outside) where
  -- The row of this run says so.
  abbrev pub Says : ScrapeRunStatus → World → Type 0
  Says status w =
      (row : ScrapeRunOrm) × (get ℕ_discrete o.run_id w.runs ≡ some row) × (row.status ≡ status)

  stored-Says :
      (commit : Attempt (Unit {0})) (w v : World) (found : Found) (s : Session) (r : IngestResult)
      → stored o commit w found s ≡ returned (v, r)
      → Says r.status v
  unfolding stored done_row
  stored-Says (raised e) w v found s r h = absurd (returned_raised (v, r) e (sym h))
  stored-Says (returned _) w v found s r h =
      subst (λ (p : World × IngestResult). Says p.1.status p.0) (returned_injective _ (v, r) h)
        (done_row o found s, get-put_self ℕ_discrete o.run_id (done_row o found s) w.runs, refl)

  found-Says :
      (f : Attempt Found) (w v : World) (r : IngestResult)
      → (f >>= committed o w) ≡ returned (v, r)
      → Says r.status v
  unfolding committed
  found-Says (raised e) w v r h = absurd (returned_raised (v, r) e (sym h))
  found-Says (returned found) w v r h = stored-Says o.commit w v found _ r h

  finished-Says :
      (w : World) (x : Attempt (World × IngestResult)) (r : IngestResult)
      → ((v : World) (s : IngestResult) → x ≡ returned (v, s) → Says s.status v)
      → (finished o w x).1 ≡ returned r
      → Says r.status (finished o w x).0
  unfolding finished
  finished-Says w (raised e) r known h = absurd (failed_raises o o.close_run w e r h)
  finished-Says w (returned (v, s)) r known h =
      let (row, at, same) = known v s refl in
      (
        row,
        ap (get ℕ_discrete o.run_id) (
              export-runs o o.export s.session (with_timestamp o o.redis v)
              ∙ timestamp-runs o o.redis v)
            ∙ at,
        same ∙ ap (λ (z : IngestResult). z.status) (returned_injective s r h),
      )

  run-Says :
      (w : World) (r : IngestResult)
      → (run_ingest o w).1 ≡ returned r
      → Says r.status (run_ingest o w).0
  unfolding run_ingest
  run-Says w r h =
      let (ran, same) = begun_ran o o.open_run w r h in
      subst (Says r.status) (sym same) (
        finished-Says (opened o w) (find_rows o >>= committed o (opened o w)) r
          (λ v s. found-Says (find_rows o) (opened o w) v s) ran)

  -- The three codes, and what each tells of what the run has left behind.
  abbrev pub Tells : ℕ → World → World → Type 0
  Tells code w v =
      ((code ≡ 1) × Untouched w v)
      ⊎ (((code ≡ 0) × Says ScrapeRunStatus.success v)
          ⊎ ((code ≡ 2) × Says ScrapeRunStatus.partial v))

  result-Tells :
      (w v : World) (errors : List Text) (status : ScrapeRunStatus)
      → status ≡ status_of o errors
      → Says status v
      → Tells (code_of status) w v
  result-Tells w v [] status e says = inr (inl (ap code_of e, subst (λ s. Says s v) e says))
  result-Tells w v (x ∷ errors) status e says =
      inr (inr (ap code_of e, subst (λ s. Says s v) e says))

  ended-Tells :
      (w v : World) (a : Attempt IngestResult)
      → ((e : Text) → a ≡ raised e → Untouched w v)
      → ((r : IngestResult) → a ≡ returned r → IsDone o w v r × Says r.status v)
      → Tells (exit_code a) w v
  unfolding exit_code
  ended-Tells w v (raised e) untouched done = inl (refl, untouched e refl)
  ended-Tells w v (returned r) untouched done =
      let (d, says) = done r refl in
      result-Tells w v r.found.parse_errors r.status d.same_status says

-- The exit code is 1 with the table, the changelog, the time stamp and the published data as
-- before, or 0 with a row of the run that says success, or 2 with one that says partial, if the
-- closing of the client does not raise.
pub amain-Tells :
    (o : Outside) (w : World) → o.aclose ≡ returned tt → Tells o (amain o w).1 w (amain o w).0
unfolding amain
amain-Tells o w closes =
    ended-Tells o w (run_ingest o w).0 (run_ingest o w).1
      (λ e h. run_ingest-Untouched o w e closes h)
      (λ r h. ((run_ingest-IsDone o w r).0 h, run-Says o w r h))
