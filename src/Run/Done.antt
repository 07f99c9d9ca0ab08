-- ===== src/Run/Done.antt =====
-- apps/scraper/ingest.py, `run_ingest`: what a run that gives a result has done.
use dsa_api.Base.{
  Bool, true, false, ap, ◌↔◌, arith, ◌≡◌, refl, sym, subst, ◌∙◌, ltb, ◌&&◌, Option, none, some,
  ◌++◌, Bool-cases, inl, inr,
}
use dsa_api.Ingest.Reconcile.{Session, apply_diff, flushed_rows}
use dsa_api.Run.Scrape.{
  Attempt, returned, raised, ◌>>=◌, World, Outside, IngestResult, find_rows, changes, status_of,
  stored, committed, with_timestamp, pushed, with_export, opened, begun, finished, run_ingest,
  closed, with_client,
}
use dsa_api.Run.Steps.{Steps, Steps-find_rows, find_rows-Steps, ran-found, failed_raises}
use dsa_api.Run.Faults.{ran_of, begun_ran, returned_raised, returned_injective}

module _ (o : Outside) where
  -- The table and the changelog are those of `apply_diff` on the rows that were found.
  pub record IsDone (w v : World) (r : IngestResult) : Type 0 where
    pub opened_run : o.open_run ≡ returned tt
    pub made_client : o.client ≡ returned tt
    pub steps : Steps o r.found
    pub committed_run : o.commit ≡ returned tt
    pub closed_client : o.aclose ≡ returned tt
    pub same_session : r.session ≡ apply_diff o.run_id o.started_at w.flaggers r.found.normalized
    pub new_flaggers : v.flaggers ≡ flushed_rows r.session
    pub new_events : v.events ≡ w.events ++ r.session.events
    pub same_status : r.status ≡ status_of o r.found.parse_errors

  -- What the transaction has done.
  record IsStored (w v : World) (r : IngestResult) : Type 0 where
    wrote : o.commit ≡ returned tt
    diff : r.session ≡ apply_diff o.run_id o.started_at w.flaggers r.found.normalized
    flaggers : v.flaggers ≡ flushed_rows r.session
    events : v.events ≡ w.events ++ r.session.events
    status : r.status ≡ status_of o r.found.parse_errors

  stored-IsStored :
      (commit : Attempt (Unit {0})) (w v : World) (r : IngestResult)
      → o.commit ≡ commit
      → stored o commit w r.found (apply_diff o.run_id o.started_at w.flaggers r.found.normalized)
        ≡ returned (v, r)
      → IsStored w v r
  unfolding stored
  stored-IsStored (raised e) w v r same h = absurd (returned_raised (v, r) e (sym h))
  stored-IsStored (returned _) w v r same h =
      let e = returned_injective _ (v, r) h in
      record {
        wrote = same;
        diff = sym (ap (λ (p : World × IngestResult). p.1.session) e);
        flaggers =
            sym (ap (λ (p : World × IngestResult). p.0.flaggers) e)
            ∙ ap (λ (p : World × IngestResult). flushed_rows p.1.session) e;
        events =
            sym (ap (λ (p : World × IngestResult). p.0.events) e)
            ∙ ap (λ (p : World × IngestResult). w.events ++ p.1.session.events) e;
        status = sym (ap (λ (p : World × IngestResult). p.1.status) e);
      }

  -- The steps after the transaction leave the table and the changelog alone.
  record IsKept (w v : World) : Type 0 where
    kept_flaggers : v.flaggers ≡ w.flaggers
    kept_events : v.events ≡ w.events

  pushed-IsKept : (push : Attempt Bool) (w : World) → IsKept w (pushed o push w)
  unfolding pushed
  pushed-IsKept (returned true) w = record { kept_flaggers = refl; kept_events = refl }
  pushed-IsKept (returned false) w = record { kept_flaggers = refl; kept_events = refl }
  pushed-IsKept (raised _) w = record { kept_flaggers = refl; kept_events = refl }

  export-IsKept :
      (export : Option (Attempt (Unit {0}))) (s : Session) (w : World)
      → IsKept w (with_export o export s w)
  unfolding with_export
  export-IsKept (some (raised _)) s w = record { kept_flaggers = refl; kept_events = refl }
  export-IsKept none s w = record { kept_flaggers = refl; kept_events = refl }
  export-IsKept (some (returned _)) s w = elim (Bool-cases (ltb 0 (changes o s) && o.has_remote)) [
    | inl e ↦ rw e (pushed-IsKept o.publish w)
    | inr e ↦ rw e (record { kept_flaggers = refl; kept_events = refl })
  ]

  timestamp-IsKept :
      (redis : Option (Attempt (Unit {0}))) (w : World) → IsKept w (with_timestamp o redis w)
  unfolding with_timestamp
  timestamp-IsKept (some (returned _)) w = record { kept_flaggers = refl; kept_events = refl }
  timestamp-IsKept (some (raised _)) w = record { kept_flaggers = refl; kept_events = refl }
  timestamp-IsKept none w = record { kept_flaggers = refl; kept_events = refl }

  finished-IsStored :
      (w : World) (x : Attempt (World × IngestResult)) (r : IngestResult)
      → ((v : World) (s : IngestResult) → x ≡ returned (v, s) → s ≡ r → IsStored w v r)
      → (finished o w x).1 ≡ returned r
      → IsStored w (finished o w x).0 r
  unfolding finished
  finished-IsStored w (raised e) r known h = absurd (failed_raises o o.close_run w e r h)
  finished-IsStored w (returned (v, s)) r known h =
      let d = known v s refl (returned_injective s r h) in
      let stamped = timestamp-IsKept o.redis v in
      let exported = export-IsKept o.export s.session (with_timestamp o o.redis v) in
      record {
        wrote = d.wrote;
        diff = d.diff;
        flaggers = exported.kept_flaggers ∙ stamped.kept_flaggers ∙ d.flaggers;
        events = exported.kept_events ∙ stamped.kept_events ∙ d.events;
        status = d.status;
      }

  ran-IsStored :
      (w : World) (r : IngestResult)
      → (ran_of o w).1 ≡ returned r
      → IsStored (opened o w) (ran_of o w).0 r
  unfolding committed
  ran-IsStored w r h =
      let (at, _, _) = ran-found o w r h in
      finished-IsStored (opened o w) (find_rows o >>= committed o (opened o w)) r
        (λ v s e same.
          stored-IsStored o.commit (opened o w) v r refl (
            sym (ap (λ a. a >>= committed o (opened o w)) at) ∙ e ∙ ap (λ t. returned (v, t)) same))
        h

  closed-ok :
      (close : Attempt (Unit {0})) (ran : World × Attempt IngestResult) (r : IngestResult)
      → (closed o close ran).1 ≡ returned r
      → close ≡ returned tt
  unfolding closed
  closed-ok (returned _) ran r h = refl
  closed-ok (raised e) ran r h = absurd (returned_raised r e (sym h))

  client-ok :
      (client : Attempt (Unit {0})) (w : World) (r : IngestResult)
      → (with_client o client w).1 ≡ returned r
      → (client ≡ returned tt) × (o.aclose ≡ returned tt)
  unfolding with_client
  client-ok (returned _) w r h = (refl, closed-ok o.aclose _ r h)
  client-ok (raised e) w r h = absurd (returned_raised r e (sym h))

  begun-ok :
      (start : Attempt (Unit {0})) (w : World) (r : IngestResult)
      → (begun o start w).1 ≡ returned r
      → (start ≡ returned tt) × (o.client ≡ returned tt) × (o.aclose ≡ returned tt)
  unfolding begun
  begun-ok (returned _) w r h = let c = client-ok o.client (opened o w) r h in (refl, c.0, c.1)
  begun-ok (raised e) w r h = absurd (returned_raised r e (sym h))

  begun-IsDone :
      (w : World) (r : IngestResult)
      → (begun o o.open_run w).1 ≡ returned r
      → IsDone w (begun o o.open_run w).0 r
  begun-IsDone w r h =
      let (ran, same) = begun_ran o o.open_run w r h in
      let (at, _, _) = ran-found o w r ran in
      let (start, client, close) = begun-ok o.open_run w r h in
      let s = subst (λ v. IsStored (opened o w) v r) (sym same) (ran-IsStored w r ran) in
      record {
        opened_run = start;
        made_client = client;
        steps = find_rows-Steps o r.found at;
        committed_run = s.wrote;
        closed_client = close;
        same_session = s.diff;
        new_flaggers = s.flaggers;
        new_events = s.events;
        same_status = s.status;
      }

  result_eq :
      (r s : IngestResult) → r.status ≡ s.status → r.found ≡ s.found → r.session ≡ s.session → r ≡ s
  result_eq r s a b c = ground arith

  done-begun :
      (w v : World) (r : IngestResult) → IsDone w v r → (begun o o.open_run w).1 ≡ returned r
  unfolding begun with_client closed committed stored finished find_rows
  done-begun w v r d =
      rw
        (
          d.opened_run,
          d.made_client,
          d.closed_client,
          Steps-find_rows o r.found d.steps,
          d.committed_run,
        )
        (ap returned (result_eq _ r (sym d.same_status) refl (sym d.same_session)))

  -- A run gives a result exactly if the commit of its row, the making of its client, the commit
  -- of the transaction and the closing of the client do not raise, every step before the
  -- transaction gives a value from that of the one before it, and the result has what these
  -- found, the diff of the table with the normalized rows, and the status partial if there are
  -- errors of normalization and success otherwise, the table then being the one that this diff
  -- leaves, and its events being added to the changelog.
  pub run_ingest-IsDone :
      (w : World) (r : IngestResult)
      → ((run_ingest o w).1 ≡ returned r) ↔ IsDone w (run_ingest o w).0 r
  unfolding run_ingest
  run_ingest-IsDone w r = (begun-IsDone w r, done-begun w _ r)
