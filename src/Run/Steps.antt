-- ===== src/Run/Steps.antt =====
-- apps/scraper/ingest.py, `run_ingest`: the steps before the transaction, each on what the one
-- before it gave.
use dsa_api.Base.{◌≡◌, refl, sym, ap, subst, ◌∙◌, List, length}
use dsa_api.Text.{Text}
use dsa_api.Json.{Json}
use dsa_api.Fetch.Attempts.{FetchResult}
use dsa_api.Ingest.Reconcile.{Session}
use dsa_api.Run.Scrape.{
  Attempt, returned, raised, ◌>>=◌, World, Outside, Found, IngestResult, find_rows, saved, stored,
  committed, opened, failed, finished,
}
use dsa_api.Run.Faults.{returned_raised, returned_injective, ran_of}

module _ (o : Outside) where
  pub failed_raises :
      (close : Attempt (Unit {0})) (w : World) (e : Text) (r : IngestResult)
      → ¬ ((failed o close w e).1 ≡ returned r)
  unfolding failed
  failed_raises (returned _) w e r h = returned_raised r e (sym h)
  failed_raises (raised f) w e r h = returned_raised r f (sym h)

bind-returned {ℓ κ} :
    {A : Type ℓ} {B : Type κ} (a : Attempt A) (f : A → Attempt B) (b : B)
    → (a >>= f) ≡ returned b
    → (x : A) × (a ≡ returned x) × (f x ≡ returned b)
bind-returned (returned x) f b h = (x, refl, h)
bind-returned (raised e) f b h = absurd (returned_raised b e (sym h))

module _ (o : Outside) where
  stored-found :
      (commit : Attempt (Unit {0})) (w v : World) (found : Found) (s : Session) (r : IngestResult)
      → stored o commit w found s ≡ returned (v, r)
      → found ≡ r.found
  unfolding stored
  stored-found (raised e) w v found s r h = absurd (returned_raised (v, r) e (sym h))
  stored-found (returned _) w v found s r h =
      ap (λ (p : World × IngestResult). p.1.found) (returned_injective _ (v, r) h)

  finished-returned :
      (w : World) (x : Attempt (World × IngestResult)) (r : IngestResult)
      → (finished o w x).1 ≡ returned r
      → (v : World) × (x ≡ returned (v, r))
  unfolding finished
  finished-returned w (raised e) r h = absurd (failed_raises o o.close_run w e r h)
  finished-returned w (returned (v, s)) r h =
      (v, ap (λ z. returned (v, z)) (returned_injective s r h))

  pub ran-found :
      (w : World) (r : IngestResult)
      → (ran_of o w).1 ≡ returned r
      → (find_rows o ≡ returned r.found)
        × (v : World) × (committed o (opened o w) r.found ≡ returned (v, r))
  unfolding committed
  ran-found w r h =
      let (v, whole) = finished-returned (opened o w) _ r h in
      let (found, at, rest) = bind-returned (find_rows o) _ (v, r) whole in
      let same = stored-found o.commit (opened o w) v found _ r rest in
      (
        at ∙ ap returned same,
        v,
        subst (λ f. committed o (opened o w) f ≡ returned (v, r)) same rest,
      )

bind-elim {ℓ κ τ} :
    {A : Type ℓ} {B : Type κ} {P : Type τ} (a : Attempt A) (f : A → Attempt B) (b : B)
    → (a >>= f) ≡ returned b
    → ((x : A) → a ≡ returned x → f x ≡ returned b → P)
    → P
bind-elim (returned x) f b h k = k x refl h
bind-elim (raised e) f b h k = absurd (returned_raised b e (sym h))

-- The values that the steps gave.
pub record Steps (o : Outside) (f : Found) : Type 0 where
  pub page : FetchResult
  pub url : Text
  pub items : List Json
  pub page_given : o.page ≡ returned page
  pub kept : saved o.snapshot ≡ returned f.snapshot_path
  pub extracted : o.extract page.body ≡ returned url
  pub answered : o.answer url ≡ returned f.response
  pub parsed : o.parse f.response.body ≡ returned items
  pub normalized : o.normalize items ≡ returned (f.normalized, f.parse_errors)
  pub all_seen : f.seen ≡ length items

pub find_rows-Steps : (o : Outside) (f : Found) → find_rows o ≡ returned f → Steps o f
unfolding find_rows
find_rows-Steps o f h = bind-elim o.page _ f h (λ page page_given h1.
    bind-elim (saved o.snapshot) _ f h1 (λ path kept h2.
      bind-elim (o.extract page.body) _ f h2 (λ url extracted h3.
        bind-elim (o.answer url) _ f h3 (λ json answered h4.
          bind-elim (o.parse json.body) _ f h4 (λ items parsed h5.
            bind-elim (o.normalize items) _ f h5 (λ out normalized h6.
              subst (Steps o) (returned_injective _ f h6) (record {
                page = page;
                url = url;
                items = items;
                page_given = page_given;
                kept = kept;
                extracted = extracted;
                answered = answered;
                parsed = parsed;
                normalized = normalized;
                all_seen = refl;
              })))))))

pub Steps-find_rows : (o : Outside) (f : Found) → Steps o f → find_rows o ≡ returned f
unfolding find_rows
Steps-find_rows o f s =
    rw (s.page_given, s.kept, s.extracted, s.answered, s.parsed, s.normalized)
      (ap (λ n. returned (record f { seen = n })) (sym s.all_seen))
