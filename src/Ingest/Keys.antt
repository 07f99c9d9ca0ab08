-- ===== src/Ingest/Keys.antt =====
-- What both loops of `apply_diff` keep: the tracked rows stay a dictionary by id, and the rows to
-- insert have ids of their own.
use mathlib.Core.Option.{or_else}
use dsa_api.Base.{
  ◌≡◌, refl, ◌∙◌, sym, ◌⊎◌, inl, inr, Bool-cases, Option-cases, Option, none, some, List, [], ◌∷◌,
  arith, Dict, get, put, get-cons_self, get-cons_ne, put-IsDict, IsDict, ℕ_discrete,
}
use dsa_api.Models.{Uuid, Time, ScrapedTrustedFlagger, TrustedFlaggerOrm}
use dsa_api.Ingest.Compare.{apply_scraped_to_orm}
use dsa_api.Ingest.Reconcile.{
  Session, is_removed, visit_scraped, visit_all_scraped, visit_current, visit_all_current,
}
use dsa_api.Ingest.Entity.{gone, refreshed}
use dsa_api.Ingest.Loops.{
  visit_existing_lem, listed, inserted, find-inserted_ne, visit_scraped_added,
}
use dsa_api.Ingest.Table.{find, find-append, IsTable, IsTable-append, IsKeyed, put-IsKeyed, get-id}

pub record IsSound (d : Dict Uuid TrustedFlaggerOrm) : Type 0 where
  pub once : IsDict ℕ_discrete d
  pub keyed : IsKeyed d

put-IsSound :
    (k : Uuid) (r : TrustedFlaggerOrm) (d : Dict Uuid TrustedFlaggerOrm)
    → r.id ≡ k
    → IsSound d
    → IsSound (put ℕ_discrete k r d)
put-IsSound k r d e h = record {
  once = put-IsDict ℕ_discrete k r d h.once;
  keyed = put-IsKeyed k r d e h.keyed;
}

module _ (run_id : Uuid) (scraped_at : Time) where
  refreshed_id :
      (r : TrustedFlaggerOrm) (sc : ScrapedTrustedFlagger)
      → (refreshed run_id scraped_at r sc).id ≡ r.id
  unfolding refreshed apply_scraped_to_orm
  refreshed_id r sc = ground arith

  visit_scraped-IsSound :
      (s : Session) (k : Uuid) (sc : ScrapedTrustedFlagger)
      → IsSound s.current
      → IsSound (visit_scraped run_id scraped_at s k sc).current
  unfolding visit_scraped
  visit_scraped-IsSound s k sc h = elim (Option-cases (get ℕ_discrete k s.current)) [
    | inl e ↦ rw (e, visit_scraped) h
    | inr (r, e) ↦
        rw (e, visit_scraped)
          (rw ((visit_existing_lem run_id scraped_at s k r sc).0) (
            put-IsSound k (refreshed run_id scraped_at r sc) s.current
              (refreshed_id r sc ∙ get-id k r s.current h.keyed e) h))
  ]

  pub visit_all_scraped-IsSound :
      (s : Session) (es : Dict Uuid ScrapedTrustedFlagger)
      → IsSound s.current
      → IsSound (visit_all_scraped run_id scraped_at s es).current
  unfolding visit_all_scraped
  visit_all_scraped-IsSound s [] h = h
  visit_all_scraped-IsSound s ((k, sc) ∷ es) h =
      visit_all_scraped-IsSound (visit_scraped run_id scraped_at s k sc) es
        (visit_scraped-IsSound s k sc h)

  -- No row to insert has an id that is still to come.
  abbrev AreFresh : Dict Uuid ScrapedTrustedFlagger → List TrustedFlaggerOrm → Type 0
  AreFresh es rows = (j : Uuid) → (get ℕ_discrete j es ≡ none) ⊎ (find j rows ≡ none)

  listed-IsTable : (o : Option TrustedFlaggerOrm) → IsTable (listed o)
  unfolding find
  listed-IsTable none = tt
  listed-IsTable (some r) = (refl, tt)

  module _ (s : Session) (k : Uuid) (sc : ScrapedTrustedFlagger)
      (es : Dict Uuid ScrapedTrustedFlagger) (f : AreFresh ((k, sc) ∷ es) s.added) where
    abbrev new : Option TrustedFlaggerOrm
    new = inserted run_id scraped_at k (some sc) (get ℕ_discrete k s.current)

    AreFresh-head : find k s.added ≡ none
    AreFresh-head = elim (f k) [
      | inl e ↦ absurd (cc (e, get-cons_self ℕ_discrete k sc es))
      | inr e ↦ e
    ]

    visit_scraped-IsTable : IsTable s.added → IsTable (visit_scraped run_id scraped_at s k sc).added
    visit_scraped-IsTable h = rw visit_scraped_added (
        IsTable-append s.added (listed new) h (listed-IsTable new) (λ j. elim (ℕ_discrete k j) [
          | yes p ↦ inl (rw (← p) AreFresh-head)
          | no p ↦ inr (find-inserted_ne run_id scraped_at k j sc (get ℕ_discrete k s.current) p)
        ]))

    AreFresh-tail :
        IsDict ℕ_discrete ((k, sc) ∷ es)
        → AreFresh es (visit_scraped run_id scraped_at s k sc).added
    unfolding or_else
    AreFresh-tail u j = elim (ℕ_discrete k j) [
      | yes p ↦ inl (rw (← p) (u.0))
      | no p ↦ elim (f j) [
        | inl e ↦ inl (sym (get-cons_ne ℕ_discrete k j sc es p) ∙ e)
        | inr e ↦ inr (
            rw (
              visit_scraped_added,
              find-append,
              e,
              find-inserted_ne run_id scraped_at k j sc (get ℕ_discrete k s.current) p,
            ))
      ]
    ]

  pub visit_all_scraped-IsTable :
      (s : Session) (es : Dict Uuid ScrapedTrustedFlagger)
      → IsDict ℕ_discrete es
      → IsTable s.added
      → AreFresh es s.added
      → IsTable (visit_all_scraped run_id scraped_at s es).added
  unfolding visit_all_scraped
  visit_all_scraped-IsTable s [] u h f = h
  visit_all_scraped-IsTable s ((k, sc) ∷ es) u h f =
      visit_all_scraped-IsTable (visit_scraped run_id scraped_at s k sc) es u.1
        (visit_scraped-IsTable s k sc es f h) (AreFresh-tail s k sc es f u)

module _ (run_id : Uuid) (scraped_by_id : Dict Uuid ScrapedTrustedFlagger) where
  visit_current-IsSound :
      (s : Session) (k : Uuid) (r : TrustedFlaggerOrm)
      → r.id ≡ k
      → IsSound s.current
      → IsSound (visit_current run_id scraped_by_id s k r).current
  unfolding visit_current
  visit_current-IsSound s k r e h = elim (Option-cases (get ℕ_discrete k scraped_by_id)) [
    | inr (sc, q) ↦ rw (q, visit_current) h
    | inl q ↦ elim (Bool-cases (is_removed r)) [
      | inl p ↦ rw (q, visit_current) (rw p h)
      | inr p ↦ rw (q, visit_current) (rw p (put-IsSound k (gone r) s.current e h))
    ]
  ]

  pub visit_all_current-IsSound :
      (s : Session) (es : Dict Uuid TrustedFlaggerOrm)
      → IsKeyed es
      → IsSound s.current
      → IsSound (visit_all_current run_id scraped_by_id s es).current
  unfolding visit_all_current
  visit_all_current-IsSound s [] e h = h
  visit_all_current-IsSound s ((k, r) ∷ es) e h =
      visit_all_current-IsSound (visit_current run_id scraped_by_id s k r) es e.1
        (visit_current-IsSound s k r e.0 h)
