-- ===== src/Ingest/Table.antt =====
-- A table of rows by primary key, and the dictionaries that `apply_diff` makes of one.
use mathlib.Core.Option.{or_else}
use dsa_api.Base.{
  ◌≡◌, refl, ◌∙◌, ◌⊎◌, Option, none, some, List, [], ◌∷◌, ◌++◌, arith, Dict, values, get, put,
  get-put, put-IsDict, IsDict, ℕ_discrete,
}
use dsa_api.Models.{Uuid, TrustedFlaggerOrm}
use dsa_api.Ingest.Reconcile.{index_onto, index_by}

-- The row with a primary key: `session.get(TrustedFlaggerORM, tf_id)`.
unfoldable pub find : Uuid → List TrustedFlaggerOrm → Option TrustedFlaggerOrm
find j [] = none
find j (r ∷ rs) = elim (ℕ_discrete r.id j) [ yes _ ↦ some r | no _ ↦ find j rs ]

-- The primary key: no two rows have one id.
abbrev pub IsTable : List TrustedFlaggerOrm → Type 0
IsTable [] = Unit
IsTable (r ∷ rs) = (find r.id rs ≡ none) × IsTable rs

-- Each key is its row's id.
abbrev pub IsKeyed : Dict Uuid TrustedFlaggerOrm → Type 0
IsKeyed [] = Unit
IsKeyed ((k, r) ∷ d) = (r.id ≡ k) × IsKeyed d

pub find-append :
    (j : Uuid) (xs ys : List TrustedFlaggerOrm)
    → find j (xs ++ ys) ≡ or_else (find j xs) (find j ys)
unfolding find or_else
find-append j [] ys = refl
find-append j (x ∷ xs) ys = ground (arith, find-append j xs ys)

pub find-id :
    (j : Uuid) (r : TrustedFlaggerOrm) (xs : List TrustedFlaggerOrm) → find j xs ≡ some r → r.id ≡ j
unfolding find
find-id j r [] h = cc
find-id j r (x ∷ xs) h = ground (arith, find-id j r xs)

pub IsTable-append :
    (xs ys : List TrustedFlaggerOrm)
    → IsTable xs
    → IsTable ys
    → ((j : Uuid) → (find j xs ≡ none) ⊎ (find j ys ≡ none))
    → IsTable (xs ++ ys)
unfolding find or_else
IsTable-append [] ys hx hy apart = hy
IsTable-append (x ∷ xs) ys hx hy apart = (
  ground (arith, find-append x.id xs ys, apart x.id),
  IsTable-append xs ys hx.1 hy (λ j. ground (arith, apart j)),
)

pub find-values :
    (j : Uuid) (d : Dict Uuid TrustedFlaggerOrm)
    → IsKeyed d
    → find j (values d) ≡ get ℕ_discrete j d
unfolding get put find
find-values j [] h = refl
find-values j ((k, r) ∷ d) h = ground (arith, find-values j d)

pub values-IsTable :
    (d : Dict Uuid TrustedFlaggerOrm) → IsKeyed d → IsDict ℕ_discrete d → IsTable (values d)
unfolding get put
values-IsTable [] h u = tt
values-IsTable ((k, r) ∷ d) h u = (find-values r.id d h.1 ∙ cc (u.0), values-IsTable d h.1 u.1)

pub put-IsKeyed :
    (k : Uuid) (r : TrustedFlaggerOrm) (d : Dict Uuid TrustedFlaggerOrm)
    → r.id ≡ k
    → IsKeyed d
    → IsKeyed (put ℕ_discrete k r d)
unfolding get put
put-IsKeyed k r [] e h = ground arith
put-IsKeyed k r ((j, w) ∷ d) e h = ground (arith, put-IsKeyed k r d e)

pub get-id :
    (j : Uuid) (r : TrustedFlaggerOrm) (d : Dict Uuid TrustedFlaggerOrm)
    → IsKeyed d
    → get ℕ_discrete j d ≡ some r
    → r.id ≡ j
unfolding get put
get-id j r [] h e = cc
get-id j r ((k, w) ∷ d) h e = ground (arith, get-id j r d h.1)

-- The last item of a list with the given id.
module _ {A : Type 0} (id_of : A → Uuid) where
  unfoldable pub last_with : Uuid → List A → Option A
  last_with j [] = none
  last_with j (x ∷ xs) = elim (last_with j xs) [
    | some y ↦ some y
    | none ↦ elim (ℕ_discrete (id_of x) j) [ yes _ ↦ some x | no _ ↦ none ]
  ]

  get-index_onto :
      (j : Uuid) (d : Dict Uuid A) (xs : List A)
      → get ℕ_discrete j (index_onto id_of d xs) ≡ or_else (last_with j xs) (get ℕ_discrete j d)
  unfolding index_onto last_with or_else
  get-index_onto j d [] = refl
  get-index_onto j d (x ∷ xs) = ground (
    arith,
    get-index_onto j (put ℕ_discrete (id_of x) x d) xs,
    get-put ℕ_discrete (id_of x) j x d,
  )

  -- A dictionary by id gives, for each id, the last item with it.
  pub get-index_by :
      (j : Uuid) (xs : List A) → get ℕ_discrete j (index_by id_of xs) ≡ last_with j xs
  unfolding index_by or_else get
  get-index_by j xs = ground (arith, get-index_onto j [] xs)

  index_onto-IsDict :
      (d : Dict Uuid A) (xs : List A)
      → IsDict ℕ_discrete d
      → IsDict ℕ_discrete (index_onto id_of d xs)
  unfolding index_onto
  index_onto-IsDict d [] h = h
  index_onto-IsDict d (x ∷ xs) h =
      index_onto-IsDict (put ℕ_discrete (id_of x) x d) xs (put-IsDict ℕ_discrete (id_of x) x d h)

  pub index_by-IsDict : (xs : List A) → IsDict ℕ_discrete (index_by id_of xs)
  unfolding index_by
  index_by-IsDict xs = index_onto-IsDict [] xs tt

index_onto-IsKeyed :
    (d : Dict Uuid TrustedFlaggerOrm) (xs : List TrustedFlaggerOrm)
    → IsKeyed d
    → IsKeyed (index_onto (λ r. r.id) d xs)
unfolding index_onto
index_onto-IsKeyed d [] h = h
index_onto-IsKeyed d (x ∷ xs) h =
    index_onto-IsKeyed (put ℕ_discrete x.id x d) xs (put-IsKeyed x.id x d refl h)

pub index_by-IsKeyed : (xs : List TrustedFlaggerOrm) → IsKeyed (index_by (λ r. r.id) xs)
unfolding index_by
index_by-IsKeyed xs = index_onto-IsKeyed [] xs tt

last_with_absent :
    (j : Uuid) (rs : List TrustedFlaggerOrm) → find j rs ≡ none → last_with (λ r. r.id) j rs ≡ none
unfolding find last_with
last_with_absent j [] h = refl
last_with_absent j (r ∷ rs) h = ground (arith, last_with_absent j rs)

-- In a table the last row with an id is the row with that id.
pub last_with-eq-find :
    (j : Uuid) (rows : List TrustedFlaggerOrm)
    → IsTable rows
    → last_with (λ r. r.id) j rows ≡ find j rows
unfolding find last_with
last_with-eq-find j [] h = refl
last_with-eq-find j (r ∷ rs) h = elim (ℕ_discrete r.id j) [
  | yes p ↦ ground (arith, last_with_absent r.id rs h.0, last_with_absent j rs)
  | no p ↦ ground (arith, last_with-eq-find j rs h.1)
]
