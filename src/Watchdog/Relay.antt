-- ===== src/Watchdog/Relay.antt =====
-- apps/scraper/watchdog.py over what apps/scraper/ingest.py, `run_ingest`, leaves in Redis.
use dsa_api.Base.{
  Bool, true, false, ℕ, ◌≡◌, refl, ap, ◌∙◌, ltb, ◌&&◌, Bool-cases, Option, none, some, List, [],
  Dict, inl, inr,
}
use dsa_api.Models.{Time}
use dsa_api.Text.{Text}
use dsa_api.Timestamps.{
  Stored, text_stored, write_data_updated_at, read_data_updated_at,
  read_data_updated_at-write_data_updated_at,
}
use dsa_api.Ingest.Reconcile.{Session}
use dsa_api.Run.Scrape.{
  Attempt, returned, raised, ◌>>=◌, World, Outside, IngestResult, find_rows, changes, committed,
  with_timestamp, pushed, with_export, opened, finished, run_ingest,
}
use dsa_api.Run.Faults.{begun_ran, run_ingest-Untouched}
use dsa_api.Run.Steps.{failed_raises}
use dsa_api.Watchdog.Check.{Posted, IsoTime, aware, Watched, age_alert, ends_with_alert, watch}
use dsa_api.Watchdog.Silent.{held-watch}

module _ (o : Outside) where
  pushed-updated_at :
      (push : Attempt Bool) (w : World) → (pushed o push w).updated_at ≡ w.updated_at
  unfolding pushed
  pushed-updated_at (returned true) w = refl
  pushed-updated_at (returned false) w = refl
  pushed-updated_at (raised _) w = refl

  export-updated_at :
      (export : Option (Attempt (Unit {0}))) (s : Session) (w : World)
      → (with_export o export s w).updated_at ≡ w.updated_at
  unfolding with_export
  export-updated_at (some (raised _)) s w = refl
  export-updated_at none s w = refl
  export-updated_at (some (returned _)) s w =
      elim (Bool-cases (ltb 0 (changes o s) && o.has_remote)) [
        | inl e ↦ rw e (pushed-updated_at o.publish w)
        | inr e ↦ rw e refl
      ]

  timestamp-updated_at :
      (redis : Option (Attempt (Unit {0}))) (w : World)
      → redis ≡ some (returned tt)
      → (with_timestamp o redis w).updated_at ≡ some o.completed_at
  unfolding with_timestamp
  timestamp-updated_at redis w e = rw e refl

  finished-updated_at :
      (w : World) (x : Attempt (World × IngestResult)) (r : IngestResult)
      → o.redis ≡ some (returned tt)
      → (finished o w x).1 ≡ returned r
      → (finished o w x).0.updated_at ≡ some o.completed_at
  unfolding finished
  finished-updated_at w (raised e) r up h = absurd (failed_raises o o.close_run w e r h)
  finished-updated_at w (returned (v, s)) r up h =
      export-updated_at o.export s.session (with_timestamp o o.redis v)
      ∙ timestamp-updated_at o.redis v up

  run-updated_at :
      (w : World) (r : IngestResult)
      → o.redis ≡ some (returned tt)
      → (run_ingest o w).1 ≡ returned r
      → (run_ingest o w).0.updated_at ≡ some o.completed_at
  unfolding run_ingest
  run-updated_at w r up h =
      let (ran, same) = begun_ran o o.open_run w r h in
      ap (λ (v : World). v.updated_at) same
      ∙ finished-updated_at (opened o w) (find_rows o >>= committed o (opened o w)) r up ran

-- The clients of Redis and the texts of times, on both sides.
pub record Wire : Type 0 where
  pub iso : Time → Text
  pub encode : Text → Stored
  pub decode : List ℕ → Option Text
  pub fromisoformat : Text → IsoTime

-- A time that is written is read back with its zone.
pub record IsFaithful (wire : Wire) : Type 0 where
  pub decodes :
      (t : Time)
      → text_stored wire.decode (some (wire.encode (wire.iso t))) ≡ some (some (wire.iso t))
  pub parses : (t : Time) → wire.fromisoformat (wire.iso t) ≡ aware t

module _ (wire : Wire) where
  -- The key in Redis.
  abbrev pub redis_of : Option Time → Dict Text Stored
  redis_of none = []
  redis_of (some at) = write_data_updated_at wire.iso wire.encode at []

  module _ (url : Option Text) (posted : Posted) (now : Time) where
    -- The watchdog on the time stamp of a world.
    abbrev pub watch_stamp : Option Time → Watched
    watch_stamp stamp =
        watch wire.fromisoformat url posted now (read_data_updated_at wire.decode (redis_of stamp))

    stamped-watch :
        (at : Time)
        → IsFaithful wire
        → watch_stamp (some at) ≡ ends_with_alert wire.fromisoformat url posted (age_alert now at)
    stamped-watch at f =
        ap (watch wire.fromisoformat url posted now) (
          read_data_updated_at-write_data_updated_at wire.iso wire.encode wire.decode at []
            (f.decodes at))
        ∙ held-watch wire.fromisoformat url posted now (wire.iso at) (aware at) (f.parses at)

    -- What the watchdog does after a run, by what the run gave.
    abbrev pub expected : Outside → World → Attempt IngestResult → Watched
    expected o w (returned r) =
        ends_with_alert wire.fromisoformat url posted (age_alert now o.completed_at)
    expected o w (raised e) = watch_stamp w.updated_at

    relayed :
        (o : Outside) (w v : World) (a : Attempt IngestResult)
        → IsFaithful wire
        → ((r : IngestResult) → a ≡ returned r → v.updated_at ≡ some o.completed_at)
        → ((e : Text) → a ≡ raised e → v.updated_at ≡ w.updated_at)
        → watch_stamp v.updated_at ≡ expected o w a
    relayed o w v (returned r) f done undone =
        ap watch_stamp (done r refl) ∙ stamped-watch o.completed_at f
    relayed o w v (raised e) f done undone = ap watch_stamp (undone e refl)

    -- After a run that gives a result the watchdog goes by the time at which the run was
    -- completed; after one that raises it does what it would have done without the run, if
    -- Redis answers, the closing of the client of the run does not raise, and a time that is
    -- written is read back with its zone.
    pub run_ingest-watch :
        (o : Outside) (w : World)
        → o.redis ≡ some (returned tt)
        → o.aclose ≡ returned tt
        → IsFaithful wire
        → watch_stamp (run_ingest o w).0.updated_at ≡ expected o w (run_ingest o w).1
    run_ingest-watch o w up closes f =
        relayed o w (run_ingest o w).0 (run_ingest o w).1 f (λ r h. run-updated_at o w r up h)
          (λ e h. (run_ingest-Untouched o w e closes h).same_time)
