-- ===== src/Run/Faults.antt =====
-- apps/scraper/ingest.py, `run_ingest`: what a run that fails leaves alone.
use dsa_api.Base.{
  Bool, true, false, ◌≡◌, refl, sym, subst, Bool-cases, ltb, ◌&&◌, Option, none, some, arith, inl,
  inr,
}
use dsa_api.Text.{Text}
use dsa_api.Ingest.Reconcile.{Session}
use dsa_api.Run.Scrape.{
  Attempt, returned, raised, ◌>>=◌, World, Outside, IngestResult, find_rows, done_row, failed_row,
  stored, changes, committed, with_timestamp, with_export, pushed, opened, begun, failed, finished,
  run_ingest, closed, with_client, with_alert, running_row,
}

-- Nothing that readers of the data see has changed.
pub record Untouched (w v : World) : Type 0 where
  pub same_flaggers : v.flaggers ≡ w.flaggers
  pub same_events : v.events ≡ w.events
  pub same_time : v.updated_at ≡ w.updated_at
  pub same_published : v.published ≡ w.published

pub returned_raised {ℓ} : {A : Type ℓ} (a : A) (e : Text) → ¬ (returned a ≡ raised e)
returned_raised a e h = grind arith

pub returned_injective {ℓ} : {A : Type ℓ} (a b : A) → returned a ≡ returned b → a ≡ b
returned_injective a b h = grind arith

module _ (o : Outside) where
  failed-Untouched :
      (close : Attempt (Unit {0})) (w : World) (e : Text) → Untouched w (failed o close w e).0
  unfolding failed
  failed-Untouched (returned _) w e = record {
    same_flaggers = refl;
    same_events = refl;
    same_time = refl;
    same_published = refl;
  }
  failed-Untouched (raised _) w e = record {
    same_flaggers = refl;
    same_events = refl;
    same_time = refl;
    same_published = refl;
  }

  finished-Untouched :
      (w : World) (x : Attempt (World × IngestResult)) (e : Text)
      → (finished o w x).1 ≡ raised e
      → Untouched w (finished o w x).0
  unfolding finished
  finished-Untouched w (returned (v, result)) e h = absurd (returned_raised result e h)
  finished-Untouched w (raised f) e h = failed-Untouched o.close_run w f

  -- What a run does with its client, but for the closing of it.
  abbrev pub ran_of : World → World × Attempt IngestResult
  ran_of w = finished o (opened o w) (find_rows o >>= committed o (opened o w))

  pub closed_world :
      (close : Attempt (Unit {0})) (ran : World × Attempt IngestResult)
      → (closed o close ran).0 ≡ ran.0
  unfolding closed
  closed_world (returned _) ran = refl
  closed_world (raised e) ran = refl

  closed_result :
      (close : Attempt (Unit {0})) (ran : World × Attempt IngestResult) (r : IngestResult)
      → (closed o close ran).1 ≡ returned r
      → ran.1 ≡ returned r
  unfolding closed
  closed_result (returned _) ran r h = h
  closed_result (raised e) ran r h = absurd (returned_raised r e (sym h))

  client_ran :
      (client : Attempt (Unit {0})) (w : World) (r : IngestResult)
      → (with_client o client (opened o w)).1 ≡ returned r
      → ((ran_of w).1 ≡ returned r) × ((with_client o client (opened o w)).0 ≡ (ran_of w).0)
  unfolding with_client
  client_ran (raised e) w r h = absurd (returned_raised r e (sym h))
  client_ran (returned _) w r h = (closed_result o.aclose _ r h, closed_world o.aclose _)

  -- A run that gives a result has been through all its steps.
  pub begun_ran :
      (start : Attempt (Unit {0})) (w : World) (r : IngestResult)
      → (begun o start w).1 ≡ returned r
      → ((ran_of w).1 ≡ returned r) × ((begun o start w).0 ≡ (ran_of w).0)
  unfolding begun
  begun_ran (raised e) w r h = absurd (returned_raised r e (sym h))
  begun_ran (returned _) w r h = client_ran o.client w r h

  opened-Untouched : (w v : World) → Untouched (opened o w) v → Untouched w v
  opened-Untouched w v u = record {
    same_flaggers = u.same_flaggers;
    same_events = u.same_events;
    same_time = u.same_time;
    same_published = u.same_published;
  }

  client-Untouched :
      (client : Attempt (Unit {0})) (w : World) (e : Text)
      → o.aclose ≡ returned tt
      → (with_client o client w).1 ≡ raised e
      → Untouched w (with_client o client w).0
  unfolding with_client closed
  client-Untouched (raised f) w e closes h = record {
    same_flaggers = refl;
    same_events = refl;
    same_time = refl;
    same_published = refl;
  }
  client-Untouched (returned _) w e closes h = subst (Untouched w) (sym (closed_world o.aclose _)) (
      finished-Untouched w (find_rows o >>= committed o w) e (
        subst (λ c. (closed o c (finished o w (find_rows o >>= committed o w))).1 ≡ raised e) closes
          h))

  begun-Untouched :
      (start : Attempt (Unit {0})) (w : World) (e : Text)
      → o.aclose ≡ returned tt
      → (begun o start w).1 ≡ raised e
      → Untouched w (begun o start w).0
  unfolding begun
  begun-Untouched (raised f) w e closes h = record {
    same_flaggers = refl;
    same_events = refl;
    same_time = refl;
    same_published = refl;
  }
  begun-Untouched (returned _) w e closes h =
      opened-Untouched w _ (client-Untouched o.client (opened o w) e closes h)

  -- If a run raises, whatever the step that failed, the table, the changelog, the time stamp
  -- and the published data are as before, if the closing of its client does not raise.
  pub run_ingest-Untouched :
      (w : World) (e : Text)
      → o.aclose ≡ returned tt
      → (run_ingest o w).1 ≡ raised e
      → Untouched w (run_ingest o w).0
  unfolding run_ingest
  run_ingest-Untouched w e closes h = begun-Untouched o.open_run w e closes h

  pushed-runs : (push : Attempt Bool) (w : World) → (pushed o push w).runs ≡ w.runs
  unfolding pushed
  pushed-runs (returned true) w = refl
  pushed-runs (returned false) w = refl
  pushed-runs (raised _) w = refl

  pub export-runs :
      (export : Option (Attempt (Unit {0}))) (s : Session) (w : World)
      → (with_export o export s w).runs ≡ w.runs
  unfolding with_export
  export-runs (some (raised _)) s w = refl
  export-runs none s w = refl
  export-runs (some (returned _)) s w = elim (Bool-cases (ltb 0 (changes o s) && o.has_remote)) [
    | inl e ↦ rw e (pushed-runs o.publish w)
    | inr e ↦ rw e refl
  ]

  pub timestamp-runs :
      (redis : Option (Attempt (Unit {0}))) (w : World) → (with_timestamp o redis w).runs ≡ w.runs
  unfolding with_timestamp
  timestamp-runs (some (returned _)) w = refl
  timestamp-runs (some (raised _)) w = refl
  timestamp-runs none w = refl

-- The run whose closing of the client does not raise.
abbrev pub closing : Outside → Outside
closing o = record o { aclose = returned tt }

module _ (o : Outside) where
  client-closing :
      (client : Attempt (Unit {0})) (w : World)
      → (with_client (closing o) client w).0 ≡ (with_client o client w).0
  unfolding with_client closed finished find_rows committed stored failed failed_row done_row
      running_row with_timestamp with_export pushed with_alert
  client-closing (raised e) w = refl
  client-closing (returned _) w = sym (closed_world o o.aclose _)

  begun-closing :
      (start : Attempt (Unit {0})) (w : World) → (begun (closing o) start w).0 ≡ (begun o start w).0
  unfolding begun running_row
  begun-closing (raised e) w = refl
  begun-closing (returned _) w = client-closing o.client (opened o w)

  -- Whether it raises makes no difference to what is left.
  pub run_ingest-closing : (w : World) → (run_ingest (closing o) w).0 ≡ (run_ingest o w).0
  unfolding run_ingest
  run_ingest-closing w = begun-closing o.open_run w
