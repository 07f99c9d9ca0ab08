-- ===== src/Ingest/Reordered.antt =====
-- Tables that hold the same rows, in any order.
use mathlib.Core.Logic.{∥∥₁_elim}
use mathlib.Core.List.{
  Perm, perm_middle, Mem, not-mem-nil, mem-cons_self, mem-cons_of_mem, eq-or-mem_of_mem-cons,
}
use mathlib.Core.List.Perm
use dsa_api.Base.{
  ◌≡◌, ◌≢◌, ◌⊎◌, inl, inr, sym, ap, subst, ◌∙◌, Option, none, some, List, [], ◌∷◌, ◌++◌, arith,
  ℕ_discrete, Option-cases,
}
use dsa_api.Models.{Uuid, TrustedFlaggerOrm}
use dsa_api.Ingest.Table.{find, find-id, IsTable}

-- The row of an id is somewhere in the table.
record IsSplit (row : TrustedFlaggerOrm) (rows : List TrustedFlaggerOrm) : Type 0 where
  before : List TrustedFlaggerOrm
  after : List TrustedFlaggerOrm
  whole : rows ≡ before ++ row ∷ after

find-cases :
    (j : Uuid) (x row : TrustedFlaggerOrm) (rows : List TrustedFlaggerOrm)
    → find j (x ∷ rows) ≡ some row
    → (x ≡ row) ⊎ (find j rows ≡ some row)
unfolding find
find-cases j x row rows e = ground arith

find-IsSplit :
    (j : Uuid) (row : TrustedFlaggerOrm) (rows : List TrustedFlaggerOrm)
    → find j rows ≡ some row
    → IsSplit row rows
unfolding find
find-IsSplit j row [] e = absurd (grind arith)
find-IsSplit j row (x ∷ rows) e = elim (find-cases j x row rows e) [
  | inl same ↦ record { before = []; after = rows; whole = ap (λ r. r ∷ rows) same }
  | inr later ↦
      let s = find-IsSplit j row rows later in
      record { before = x ∷ s.before; after = s.after; whole = ap (λ rs. x ∷ rs) s.whole }
]

find-none_without :
    (j : Uuid) (before after : List TrustedFlaggerOrm) (row : TrustedFlaggerOrm)
    → find j (before ++ row ∷ after) ≡ none
    → find j (before ++ after) ≡ none
unfolding find
find-none_without j [] after row h = ground arith
find-none_without j (x ∷ before) after row h = ground (arith, find-none_without j before after row)

find-there :
    (before after : List TrustedFlaggerOrm) (row : TrustedFlaggerOrm)
    → find row.id (before ++ row ∷ after) ≢ none
unfolding find
find-there [] after row h = ground arith
find-there (x ∷ before) after row h = ground (arith, find-there before after row)

-- A table without one of its rows.
without-IsTable :
    (before after : List TrustedFlaggerOrm) (row : TrustedFlaggerOrm)
    → IsTable (before ++ row ∷ after)
    → IsTable (before ++ after)
without-IsTable [] after row t = t.1
without-IsTable (x ∷ before) after row t =
    (find-none_without x.id before after row t.0, without-IsTable before after row t.1)

apart_ids :
    (x row : TrustedFlaggerOrm) (before after : List TrustedFlaggerOrm)
    → find x.id (before ++ row ∷ after) ≡ none
    → x.id ≢ row.id
apart_ids x row before after h e =
    find-there before after row (subst (λ j. find j (before ++ row ∷ after) ≡ none) e h)

find-without_self :
    (before after : List TrustedFlaggerOrm) (row : TrustedFlaggerOrm)
    → IsTable (before ++ row ∷ after)
    → find row.id (before ++ after) ≡ none
unfolding find
find-without_self [] after row t = t.0
find-without_self (x ∷ before) after row t =
    ground (arith, apart_ids x row before after t.0, find-without_self before after row t.1)

find-without_ne :
    (j : Uuid) (before after : List TrustedFlaggerOrm) (row : TrustedFlaggerOrm)
    → row.id ≢ j
    → find j (before ++ row ∷ after) ≡ find j (before ++ after)
unfolding find
find-without_ne j [] after row n = ground arith
find-without_ne j (x ∷ before) after row n = ground (arith, find-without_ne j before after row n)

-- The other rows of a table are under the other ids.
find-without :
    (row : TrustedFlaggerOrm) (rows before after : List TrustedFlaggerOrm)
    → IsTable (row ∷ rows)
    → IsTable (before ++ row ∷ after)
    → ((j : Uuid) → find j (row ∷ rows) ≡ find j (before ++ row ∷ after))
    → (j : Uuid) → find j rows ≡ find j (before ++ after)
unfolding find
find-without row rows before after one other same j = elim (ℕ_discrete row.id j) [
  | yes e ↦
      subst (λ i. find i rows ≡ find i (before ++ after)) e
        (one.0 ∙ sym (find-without_self before after row other))
  | no n ↦ sym (find-without_ne j [] rows row n) ∙ same j ∙ find-without_ne j before after row n
]

find-head : (x : TrustedFlaggerOrm) (xs : List TrustedFlaggerOrm) → find x.id (x ∷ xs) ≡ some x
unfolding find
find-head x xs = ground arith

-- Two tables with the same row under each id hold the same rows.
pub Perm-of_find :
    (xs ys : List TrustedFlaggerOrm)
    → IsTable xs
    → IsTable ys
    → ((j : Uuid) → find j xs ≡ find j ys)
    → Perm xs ys
unfolding find
Perm-of_find [] [] hx hy same = Perm.nil
Perm-of_find [] (y ∷ ys) hx hy same = absurd (find-there [] ys y (sym (same y.id)))
Perm-of_find (x ∷ xs) ys hx hy same = subst (Perm (x ∷ xs)) (sym s.whole) (
    Perm.trans
      (Perm.cons x (
        Perm-of_find xs (s.before ++ s.after) hx.1 (without-IsTable s.before s.after x there)
          (find-without x xs s.before s.after hx there (λ j. same j ∙ ap (find j) s.whole))))
      (Perm.symm (perm_middle s.before s.after)))
  where
    s : IsSplit x ys
    s = find-IsSplit x.id x ys (sym (same x.id) ∙ find-head x xs)

    there : IsTable (s.before ++ x ∷ s.after)
    there = subst IsTable s.whole hy

row_set : IsSet (Option TrustedFlaggerOrm)
row_set = hlevel

find-Mem :
    (j : Uuid) (row : TrustedFlaggerOrm) (rows : List TrustedFlaggerOrm)
    → find j rows ≡ some row
    → Mem row rows
unfolding find
find-Mem j row [] e = absurd (grind arith)
find-Mem j row (x ∷ rows) e = elim (find-cases j x row rows e) [
  | inl same ↦ subst (λ r. Mem r (x ∷ rows)) same mem-cons_self
  | inr later ↦ mem-cons_of_mem x (find-Mem j row rows later)
]

Mem-find :
    (row : TrustedFlaggerOrm) (rows : List TrustedFlaggerOrm)
    → IsTable rows
    → Mem row rows
    → find row.id rows ≡ some row
unfolding find
Mem-find row [] t m = absurd (not-mem-nil m)
Mem-find row (x ∷ rows) t m =
    ∥∥₁_elim (eq-or-mem_of_mem-cons m) (row_set (find row.id (x ∷ rows)) (some row)) (λ s. elim s [
      | inl same ↦ ground (arith, same)
      | inr later ↦ ground (arith, Mem-find row rows t.1 later, t.0)
    ])

-- A table with every row of another has them under the same ids.
find-through :
    (xs ys : List TrustedFlaggerOrm)
    → IsTable ys
    → ((r : TrustedFlaggerOrm) → Mem r xs → Mem r ys)
    → (j : Uuid) (row : TrustedFlaggerOrm) → find j xs ≡ some row
    → find j ys ≡ some row
find-through xs ys table within j row e =
    subst (λ i. find i ys ≡ some row) (find-id j row xs e)
      (Mem-find row ys table (within row (find-Mem j row xs e)))

-- Reordered, a table has the same row under each id.
pub find-Perm :
    (xs ys : List TrustedFlaggerOrm)
    → IsTable xs
    → IsTable ys
    → Perm xs ys
    → (j : Uuid) → find j xs ≡ find j ys
find-Perm xs ys hx hy p j = elim (Option-cases (find j xs)) [
  | inr (row, e) ↦ e ∙ sym (find-through xs ys hy (λ r. (Perm.mem_iff p).0) j row e)
  | inl e ↦ elim (Option-cases (find j ys)) [ inl f ↦ e ∙ sym f | inr (row, f) ↦ f-back row f ]
]
  where
    f-back : (row : TrustedFlaggerOrm) → find j ys ≡ some row → find j xs ≡ find j ys
    f-back row f = find-through ys xs hx (λ r. (Perm.mem_iff p).1) j row f ∙ sym f
