-- ===== src/Routes/Shown.antt =====
-- apps/api/routers/trusted_flaggers.py, `_serialize`, on lists of rows: none is refused.
use mathlib.Core.List.{Perm, foldr}
use mathlib.Core.List.Perm
use mathlib.Core.Bool.{Bool-set}
use mathlib.Core.Path.{ap₂}
use dsa_api.Base.{
  ℕ, zero, suc, ◌≡◌, ◌⊎◌, refl, ap, subst, Bool, true, false, ◌&&◌, Bool-cases, Option-cases, inl,
  inr, Option, none, some, List, [], ◌∷◌, map, filter_by, take, drop, arith, ◌>>=◌,
}
use dsa_api.Models.{Uuid, TrustedFlaggerOrm}
use dsa_api.Ingest.Table.{find, IsTable}
use dsa_api.Routes.Serialize.{TrustedFlagger, serialize}
use dsa_api.Routes.Servable.{IsServable}
use dsa_api.Routes.Replies.{serialize_all}

abbrev pub is_some {ℓ} : {A : Type ℓ} → Option A → Bool
is_some none = false
is_some (some a) = true

abbrev pub all_shown : List TrustedFlaggerOrm → Bool
all_shown = foldr (λ row rest. is_some (serialize row) && rest) true

both_true : (a b : Bool) → a && b ≡ true → (a ≡ true) × (b ≡ true)
both_true a b h = ground arith

true_both : (a b : Bool) → a ≡ true → b ≡ true → a && b ≡ true
true_both a b p q = ground arith

and_left_comm : (a b c : Bool) → a && (b && c) ≡ b && (a && c)
and_left_comm a b c = ground arith

is_some-IsServable : (row : TrustedFlaggerOrm) → is_some (serialize row) ≡ true → IsServable row
is_some-IsServable row h = elim (Option-cases (serialize row)) [
  | inl e ↦ absurd (ground arith)
  | inr found ↦ found
]

IsServable-is_some : (row : TrustedFlaggerOrm) → IsServable row → is_some (serialize row) ≡ true
IsServable-is_some row (shown, e) = ap is_some e

pub all_shown-Perm : (xs ys : List TrustedFlaggerOrm) → Perm xs ys → all_shown xs ≡ all_shown ys
all_shown-Perm xs ys p =
    Perm.foldr-eq Bool-set (λ row rest. is_some (serialize row) && rest)
      (λ a b c. and_left_comm (is_some (serialize a)) (is_some (serialize b)) c) p true

pub all_shown-filter :
    (test : TrustedFlaggerOrm → Bool) (xs : List TrustedFlaggerOrm)
    → all_shown xs ≡ true
    → all_shown (filter_by test xs) ≡ true
all_shown-filter test [] h = refl
all_shown-filter test (x ∷ xs) h =
    let (now, rest) = both_true (is_some (serialize x)) (all_shown xs) h in
    elim (Bool-cases (test x)) [
      | inl e ↦ rw e (true_both _ _ now (all_shown-filter test xs rest))
      | inr e ↦ rw e (all_shown-filter test xs rest)
    ]

pub all_shown-take :
    (n : ℕ) (xs : List TrustedFlaggerOrm) → all_shown xs ≡ true → all_shown (take n xs) ≡ true
all_shown-take zero xs h = refl
all_shown-take (suc n) [] h = refl
all_shown-take (suc n) (x ∷ xs) h =
    let (now, rest) = both_true (is_some (serialize x)) (all_shown xs) h in
    true_both _ _ now (all_shown-take n xs rest)

pub all_shown-drop :
    (n : ℕ) (xs : List TrustedFlaggerOrm) → all_shown xs ≡ true → all_shown (drop n xs) ≡ true
all_shown-drop zero xs h = h
all_shown-drop (suc n) [] h = refl
all_shown-drop (suc n) (x ∷ xs) h =
    all_shown-drop n xs (both_true (is_some (serialize x)) (all_shown xs) h).1

shown_cons :
    (first : Option TrustedFlagger) (others : Option (List TrustedFlagger)) (one : TrustedFlagger)
    (shown : List TrustedFlagger)
    → first ≡ some one
    → others ≡ some shown
    → (first >>= λ a. (others >>= λ all. some (a ∷ all))) ≡ some (one ∷ shown)
shown_cons first others one shown e f = rw (e, f) refl

-- What is shown of rows that are all shown, row by row.
pub all_shown-serialize_all :
    (xs : List TrustedFlaggerOrm)
    → all_shown xs ≡ true
    → (shown : List TrustedFlagger) × (serialize_all xs ≡ some shown)
      × (map serialize xs ≡ map some shown)
unfolding serialize_all
all_shown-serialize_all [] h = ([], refl, refl)
all_shown-serialize_all (x ∷ xs) h =
    let (now, rest) = both_true (is_some (serialize x)) (all_shown xs) h in
    let (one, e) = is_some-IsServable x now in
    let (shown, f, g) = all_shown-serialize_all xs rest in
    (one ∷ shown, shown_cons _ _ one shown e f, ap₂ ◌∷◌ e g)

find-cons :
    (j : Uuid) (x row : TrustedFlaggerOrm) (rows : List TrustedFlaggerOrm)
    → find j (x ∷ rows) ≡ some row
    → (x ≡ row) ⊎ (find j rows ≡ some row)
unfolding find
find-cons j x row rows e = ground arith

find_self : (x : TrustedFlaggerOrm) (rows : List TrustedFlaggerOrm) → find x.id (x ∷ rows) ≡ some x
unfolding find
find_self x rows = ground arith

find_later :
    (j : Uuid) (x row : TrustedFlaggerOrm) (rows : List TrustedFlaggerOrm)
    → find x.id rows ≡ none
    → find j rows ≡ some row
    → find j (x ∷ rows) ≡ some row
unfolding find
find_later j x row rows n e = ground arith

pub find-shown :
    (j : Uuid) (rows : List TrustedFlaggerOrm) (row : TrustedFlaggerOrm)
    → all_shown rows ≡ true
    → find j rows ≡ some row
    → IsServable row
unfolding find
find-shown j [] row h e = absurd (grind arith)
find-shown j (x ∷ rows) row h e =
    let (now, rest) = both_true (is_some (serialize x)) (all_shown rows) h in
    elim (find-cons j x row rows e) [
      | inl same ↦ subst IsServable same (is_some-IsServable x now)
      | inr later ↦ find-shown j rows row rest later
    ]

pub table-shown :
    (rows : List TrustedFlaggerOrm)
    → IsTable rows
    → ((j : Uuid) (row : TrustedFlaggerOrm) → find j rows ≡ some row → IsServable row)
    → all_shown rows ≡ true
table-shown [] t h = refl
table-shown (x ∷ rows) t h =
    true_both _ _ (IsServable-is_some x (h x.id x (find_self x rows)))
      (table-shown rows t.1 (λ j row e. h j row (find_later j x row rows t.0 e)))
