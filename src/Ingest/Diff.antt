-- ===== src/Ingest/Diff.antt =====
-- apps/scraper/ingest.py, `compute_diff`: which fields a diff names, and what it says of them.
use dsa_api.Base.{
  ◌≡◌, refl, ◌≢◌, ◌↔◌, true, Option, none, some, List, [], ◌∷◌, ◌++◌, arith, keys, get,
  get-put_self, get-put_ne, ◌⊎◌, inl, inr, sym, ◌∙◌,
}
use dsa_api.Models.{Value, Value-discrete, Field, Field-discrete, Change, Snapshot, Diff, null}
use dsa_api.Ingest.Compare.{value_at, union_keys, changes_at, compute_diff, same_at, same_dict}

abbrev change : Snapshot → Snapshot → Field → Change
change d e f = record { from = value_at f d; to = value_at f e }

abbrev In : Field → List Field → Type 0
In f [] = ⊥
In f (k ∷ ks) = (k ≡ f) ⊎ In f ks

module _ (f : Field) (d e : Snapshot) where
  changes_at_same :
      (ks : List Field)
      → value_at f d ≡ value_at f e
      → get Field-discrete f (changes_at d e ks) ≡ none
  unfolding changes_at get
  changes_at_same [] h = refl
  changes_at_same (key ∷ rest) h = ground (
    arith,
    changes_at_same rest h,
    get-put_ne Field-discrete key f (change d e key) (changes_at d e rest),
  )

  changes_at_listed :
      (ks : List Field)
      → value_at f d ≢ value_at f e
      → In f ks
      → get Field-discrete f (changes_at d e ks) ≡ some (change d e f)
  unfolding changes_at
  changes_at_listed [] h m = absurd m
  changes_at_listed (key ∷ rest) h m = ground (
    arith,
    changes_at_listed rest h,
    get-put_self Field-discrete key (change d e key) (changes_at d e rest),
    get-put_ne Field-discrete key f (change d e key) (changes_at d e rest),
  )

-- A key of neither side reads as `None` on both.
value_at_absent : (f : Field) (d : Snapshot) → ¬ In f (keys d) → value_at f d ≡ null
unfolding value_at
value_at_absent f [] h = refl
value_at_absent f ((key, v) ∷ d) h = ground (arith, value_at_absent f d)

In-append : (f : Field) (xs ys : List Field) → In f xs ⊎ In f ys → In f (xs ++ ys)
In-append f [] ys h = ground arith
In-append f (x ∷ xs) ys h = ground (arith, In-append f xs ys)

In-dec : (f : Field) (ks : List Field) → Dec (In f ks)
In-dec f [] = no (λ h. h)
In-dec f (k ∷ ks) = elim (Field-discrete k f) [
  | yes p ↦ yes (inl p)
  | no p ↦ elim (In-dec f ks) [ yes q ↦ yes (inr q) | no q ↦ no (λ h. ground arith) ]
]

In-union_keys : (f : Field) (d e : Snapshot) → value_at f d ≢ value_at f e → In f (union_keys d e)
unfolding union_keys
In-union_keys f d e h = elim (In-dec f (keys d)) [
  | yes p ↦ In-append f (keys d) (keys e) (inl p)
  | no p ↦ elim (In-dec f (keys e)) [
    | yes q ↦ In-append f (keys d) (keys e) (inr q)
    | no q ↦ absurd (h (value_at_absent f d p ∙ sym (value_at_absent f e q)))
  ]
]

-- The entry that a diff should have for a field.
abbrev pub expected_change : Snapshot → Snapshot → Field → Option Change
expected_change d e f = elim (Value-discrete (value_at f d) (value_at f e)) [
  | yes _ ↦ none
  | no _ ↦ some (record { from = value_at f d; to = value_at f e })
]

-- For every field, the diff of two dictionaries has no entry where the two values agree, and
-- the entry with the old value and the new one where they differ.
pub get-compute_diff :
    (d e : Snapshot) (f : Field) → get Field-discrete f (compute_diff d e) ≡ expected_change d e f
unfolding compute_diff
get-compute_diff d e f =
    elim (Value-discrete (value_at f d) (value_at f e))
      as (λ c. get Field-discrete f (compute_diff d e) ≡ (elim c [
        | yes _ ↦ none
        | no _ ↦ some (record { from = value_at f d; to = value_at f e })
      ])) [
        | yes h ↦ changes_at_same f d e (union_keys d e) h
        | no h ↦ changes_at_listed f d e (union_keys d e) h (In-union_keys f d e h)
      ]

abbrev after : Value → Option Change → Value
after old none = old
after old (some c) = c.to

-- The reading of a field after a diff: the new value of its entry, or the old dictionary's value.
unfoldable pub patched : Snapshot → Diff → Field → Value
patched d diff f = after (value_at f d) (get Field-discrete f diff)

-- A diff is enough to go from the first dictionary to the second: at every field the patched
-- value is the second dictionary's.
pub patched-compute_diff :
    (d e : Snapshot) (f : Field) → patched d (compute_diff d e) f ≡ value_at f e
unfolding patched
patched-compute_diff d e f =
    rw get-compute_diff
      (elim (Value-discrete (value_at f d) (value_at f e))
        as (λ c.
          after (value_at f d) (elim c [
            | yes _ ↦ none
            | no _ ↦ some (record { from = value_at f d; to = value_at f e })
          ])
          ≡ value_at f e) [ yes h ↦ h | no h ↦ refl ])

same_at_sound :
    (f : Field) (d e : Snapshot) (ks : List Field)
    → same_at d e ks ≡ true
    → In f ks
    → get Field-discrete f d ≡ get Field-discrete f e
unfolding same_at
same_at_sound f d e [] h m = absurd m
same_at_sound f d e (key ∷ rest) h m = ground (arith, same_at_sound f d e rest)

get_absent : (f : Field) (d : Snapshot) → ¬ In f (keys d) → get Field-discrete f d ≡ none
unfolding get
get_absent f [] h = refl
get_absent f ((key, v) ∷ d) h = ground (arith, get_absent f d)

same_at_complete :
    (d e : Snapshot) (ks : List Field)
    → ((f : Field) → get Field-discrete f d ≡ get Field-discrete f e)
    → same_at d e ks ≡ true
unfolding same_at
same_at_complete d e [] h = refl
same_at_complete d e (key ∷ rest) h = ground (arith, h key, same_at_complete d e rest h)

-- The comparison of two dictionaries is true exactly when they give every field alike.
pub same_dict_iff :
    (d e : Snapshot)
    → (same_dict d e ≡ true) ↔ ((f : Field) → get Field-discrete f d ≡ get Field-discrete f e)
unfolding same_dict union_keys
same_dict_iff d e = (λ h f. agree h f, same_at_complete d e (union_keys d e))
  where
    agree : same_dict d e ≡ true → (f : Field) → get Field-discrete f d ≡ get Field-discrete f e
    agree h f = elim (In-dec f (keys d)) [
      | yes p ↦ same_at_sound f d e _ h (In-append f (keys d) (keys e) (inl p))
      | no p ↦ elim (In-dec f (keys e)) [
        | yes q ↦ same_at_sound f d e _ h (In-append f (keys d) (keys e) (inr q))
        | no q ↦ get_absent f d p ∙ sym (get_absent f e q)
      ]
    ]
