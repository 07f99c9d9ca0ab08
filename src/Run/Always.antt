-- ===== src/Run/Always.antt =====
-- apps/scraper/ingest.py, `run_ingest`, run after run: the table and the changelog always fit.
use mathlib.Core.List.{append_assoc}
use dsa_api.Base.{
  ◌≡◌, ◌≢◌, refl, sym, ap, subst, ◌∙◌, Option, none, some, List, [], ◌∷◌, ◌++◌, All, arith,
}
use dsa_api.Text.{Text}
use dsa_api.Models.{TrustedFlaggerOrm, NewEvent}
use dsa_api.Ingest.Reconcile.{Session, flushed_rows}
use dsa_api.Ingest.Table.{find}
use dsa_api.Ingest.Events.{events_of, events_of-append}
use dsa_api.Ingest.History.{
  Register, scrape_once, last_event, Explains, IsExplained, scrape_once-IsExplained,
}
use dsa_api.Run.Scrape.{Attempt, returned, raised, World, Outside, IngestResult, run_ingest}
use dsa_api.Run.Faults.{closing, run_ingest-closing, Untouched, run_ingest-Untouched}
use dsa_api.Run.Done.{IsDone, run_ingest-IsDone}

-- One run after the other, each with what it meets outside.
unfoldable pub run_all : List Outside → World → World
run_all [] w = w
run_all (o ∷ os) w = run_all os (run_ingest o w).0

-- The table and the changelog of a world.
abbrev pub register_of : World → Register
register_of w = record { rows = w.flaggers; log = w.events }

register_eq : (g h : Register) → g.rows ≡ h.rows → g.log ≡ h.log → g ≡ h
register_eq g h r l = ground arith

done-register :
    (o : Outside) (w v : World) (r : IngestResult)
    → IsDone o w v r
    → register_of v
      ≡ scrape_once
          (register_of w)
          (record { run_id = o.run_id; scraped_at = o.started_at; normalized = r.found.normalized })
unfolding scrape_once
done-register o w v r d =
    register_eq _ _ (d.new_flaggers ∙ ap flushed_rows d.same_session)
      (d.new_events ∙ ap (λ (s : Session). w.events ++ s.events) d.same_session)

ended-IsExplained :
    (o : Outside) (w v : World) (a : Attempt IngestResult)
    → ((e : Text) → a ≡ raised e → Untouched w v)
    → ((r : IngestResult) → a ≡ returned r → IsDone o w v r)
    → IsExplained (register_of w)
    → IsExplained (register_of v)
ended-IsExplained o w v (raised e) untouched done h =
    let u = untouched e refl in
    subst IsExplained (register_eq (register_of w) _ (sym u.same_flaggers) (sym u.same_events)) h
ended-IsExplained o w v (returned r) untouched done h =
    subst IsExplained (sym (done-register o w v r (done r refl)))
      (scrape_once-IsExplained (register_of w) _ h)

-- However many runs there are, and whichever of their steps fail, the changelog stays complete: if
-- before them the last event of every entry tells its row, and an entry without events has none,
-- so after them.
pub run_all-IsExplained :
    (os : List Outside) (w : World)
    → IsExplained (register_of w)
    → IsExplained (register_of (run_all os w))
unfolding run_all
run_all-IsExplained [] w h = h
run_all-IsExplained (o ∷ os) w h =
    let ran = run_ingest (closing o) w in
    run_all-IsExplained os (run_ingest o w).0 (
      subst (λ v. IsExplained (register_of v)) (run_ingest-closing o w)
        (ended-IsExplained (closing o) w ran.0 ran.1
          (λ e. run_ingest-Untouched (closing o) w e refl)
          (λ r. (run_ingest-IsDone (closing o) w r).0) h))

last_event-ne-none : (xs ys : List NewEvent) (e : NewEvent) → last_event (xs ++ e ∷ ys) ≢ none
unfolding last_event
last_event-ne-none [] ys e h = ground arith
last_event-ne-none (x ∷ xs) ys e h = ground (arith, last_event-ne-none xs ys e)

events_of-own :
    (e : NewEvent) (es : List NewEvent) → events_of e.tf_id (e ∷ es) ≡ e ∷ events_of e.tf_id es
unfolding events_of
events_of-own e es = ground arith

explained_row :
    (l : Option NewEvent) (o : Option TrustedFlaggerOrm) → l ≢ none → Explains l o → o ≢ none
explained_row none o n h e = n refl
explained_row (some l) o n (r, same, tells) e = absurd (grind arith)

-- Every event of the changelog has its row.
abbrev pub IsReferred : Register → Type 0
IsReferred g = All (λ e. find e.tf_id g.rows ≢ none) g.log

referred_from :
    (g : Register) (before es : List NewEvent)
    → g.log ≡ before ++ es
    → IsExplained g
    → All (λ e. find e.tf_id g.rows ≢ none) es
referred_from g before [] same h = tt
referred_from g before (e ∷ es) same h = (
  explained_row (last_event (events_of e.tf_id g.log)) (find e.tf_id g.rows)
      (subst (λ l. last_event l ≢ none)
        (sym (
          ap (events_of e.tf_id) same
          ∙ events_of-append e.tf_id before (e ∷ es)
          ∙ ap (λ l. events_of e.tf_id before ++ l) (events_of-own e es)))
        (last_event-ne-none (events_of e.tf_id before) (events_of e.tf_id es) e))
      (h.entries e.tf_id),
  referred_from g (before ++ e ∷ []) es (same ∙ sym (append_assoc before (e ∷ []) es)) h,
)

pub explained-IsReferred : (g : Register) → IsExplained g → IsReferred g
explained-IsReferred g h = referred_from g [] g.log refl h
