-- ===== src/Normalize/Dedup.antt =====
-- core/normalize.py, `normalize_areas`: first occurrences, in order.
use dsa_api.Base.{
  Bool, true, false, not, ◌≡◌, refl, sym, ◌∙◌, List, [], ◌∷◌, ◌++◌, map, filter_by, arith, subst,
  if◌then◌else◌, Bool-cases, inl, inr,
}
use mathlib.Core.List.{append-nil, append_assoc}
use dsa_api.Enums.{AreaEnum, AreaEnum-discrete}
use dsa_api.Text.{Text}
use dsa_api.Normalize.Chars.{Unicode}
use dsa_api.Normalize.Areas.{set_default, area_of, add_areas, normalize_areas}

-- `a == b` of areas.
unfoldable pub same_area : AreaEnum → AreaEnum → Bool
same_area a b = elim (AreaEnum-discrete b a) [ yes _ ↦ true | no _ ↦ false ]

-- `a in areas`
unfoldable pub has_area : AreaEnum → List AreaEnum → Bool
has_area a [] = false
has_area a (b ∷ bs) = if same_area a b then true else has_area a bs

-- The first occurrence of every element, in order.
abbrev pub firsts : List AreaEnum → List AreaEnum
firsts [] = []
firsts (a ∷ rest) = a ∷ filter_by (λ b. not (same_area b a)) (firsts rest)

-- Those that are not in a list.
abbrev without : List AreaEnum → List AreaEnum → List AreaEnum
without seen = filter_by (λ b. not (has_area b seen))

same_sound : (a b : AreaEnum) → same_area a b ≡ true → b ≡ a
unfolding same_area
same_sound a b h = ground arith

has_same :
    (x a : AreaEnum) (seen : List AreaEnum)
    → same_area x a ≡ true
    → has_area a seen ≡ true
    → has_area x seen ≡ true
has_same x a seen e h = subst (λ b. has_area b seen ≡ true) (same_sound x a e) h

set_default_seen :
    (a : AreaEnum) (seen : List AreaEnum) → has_area a seen ≡ true → set_default a seen ≡ seen
unfolding set_default has_area same_area
set_default_seen a [] h = ground arith
set_default_seen a (b ∷ seen) h = ground (arith, set_default_seen a seen)

set_default_new :
    (a : AreaEnum) (seen : List AreaEnum)
    → has_area a seen ≡ false
    → set_default a seen ≡ seen ++ a ∷ []
unfolding set_default has_area same_area
set_default_new a [] h = refl
set_default_new a (b ∷ seen) h = ground (arith, set_default_new a seen)

-- A second filter for what the first has dropped changes nothing.
without_seen :
    (a : AreaEnum) (seen xs : List AreaEnum)
    → has_area a seen ≡ true
    → without seen (filter_by (λ b. not (same_area b a)) xs) ≡ without seen xs
without_seen a seen [] h = refl
without_seen a seen (x ∷ xs) h = elim (Bool-cases (same_area x a)) [
  | inl e ↦ rw (e, has_same x a seen e h) (without_seen a seen xs h)
  | inr e ↦ rw e ground (arith, without_seen a seen xs h)
]

has_area-snoc :
    (b a : AreaEnum) (seen : List AreaEnum)
    → has_area b (seen ++ a ∷ []) ≡ (if has_area b seen then true else same_area b a)
unfolding has_area
has_area-snoc b a [] = ground arith
has_area-snoc b a (x ∷ seen) = ground (arith, has_area-snoc b a seen)

without_new :
    (a : AreaEnum) (seen xs : List AreaEnum)
    → without seen (filter_by (λ b. not (same_area b a)) xs) ≡ without (seen ++ a ∷ []) xs
without_new a seen [] = refl
without_new a seen (x ∷ xs) = ground (arith, without_new a seen xs, has_area-snoc x a seen)

without-nil : (xs : List AreaEnum) → without [] xs ≡ xs
unfolding has_area
without-nil [] = refl
without-nil (x ∷ xs) = rw (without-nil xs)

module _ (unicode : Unicode) where
  add_areas-firsts :
      (seen : List AreaEnum) (labels : List Text)
      → add_areas unicode seen labels ≡ seen ++ without seen (firsts (map (area_of unicode) labels))
  unfolding add_areas
  add_areas-firsts seen [] = sym (append-nil seen)
  add_areas-firsts seen (label ∷ labels) =
      elim (Bool-cases (has_area (area_of unicode label) seen)) [
        | inl e ↦
            rw
              (
                e,
                set_default_seen (area_of unicode label) seen e,
                without_seen (area_of unicode label) seen (firsts (map (area_of unicode) labels)) e,
              )
              (add_areas-firsts seen labels)
        | inr e ↦
            rw
              (
                e,
                set_default_new (area_of unicode label) seen e,
                without_new (area_of unicode label) seen (firsts (map (area_of unicode) labels)),
                add_areas-firsts (seen ++ area_of unicode label ∷ []) labels,
              )
              (append_assoc seen (area_of unicode label ∷ []) _)
      ]

  -- The areas are those of the labels, each at its first occurrence and not again.
  pub normalize_areas-eq-firsts :
      (labels : List Text) → normalize_areas unicode labels ≡ firsts (map (area_of unicode) labels)
  unfolding normalize_areas
  normalize_areas-eq-firsts labels = add_areas-firsts [] labels ∙ without-nil _
