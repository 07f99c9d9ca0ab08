-- ===== src/Routes/Sorted.antt =====
-- Pages of rows that the database sorts anew for every query: which order it gives to rows that
-- the ORDER BY takes for equal may differ from one query to the next.
use mathlib.Core.Logic.{∥∥₁_elim}
use mathlib.Core.HLevel.{hedberg}
use mathlib.Core.Bool.{Bool-discrete}
use mathlib.Core.List.{
  Perm, Mem, not-mem-nil, mem-cons_self, mem-cons_of_mem, eq-or-mem_of_mem-cons,
}
use mathlib.Core.List.Perm
use dsa_api.Base.{
  ℕ, zero, suc, ◌*◌, ◌≤◌, ◌≡◌, refl, sym, ap, subst, ◌∙◌, ◌⊎◌, inl, inr, Bool, true, false, ◌&&◌,
  List, [], ◌∷◌, ◌++◌, All, length, arith,
}
use dsa_api.Routes.Tables.{page_of}
use dsa_api.Routes.Paging.{pages, pages-all}

module _ {A : Type 0} (le : A → A → Bool) where
  -- In the order of the ORDER BY.
  abbrev pub IsSorted : List A → Type 0
  IsSorted [] = Unit
  IsSorted (x ∷ xs) = All (λ y. le x y ≡ true) xs × IsSorted xs

  -- No two rows are equal to the ORDER BY.
  abbrev pub IsApart : List A → Type 0
  IsApart [] = Unit
  IsApart (x ∷ xs) = All (λ y. (le x y && le y x) ≡ false) xs × IsApart xs

All-Mem :
    {A : Type 0} (f : A → Bool) (b : Bool) (x : A) (xs : List A)
    → All (λ y. f y ≡ b) xs
    → Mem x xs
    → f x ≡ b
All-Mem f b x [] h m = absurd (not-mem-nil m)
All-Mem f b x (y ∷ xs) h m =
    ∥∥₁_elim (eq-or-mem_of_mem-cons m) (hedberg Bool-discrete _ _)
      (λ s. elim s [ inl e ↦ ap f e ∙ h.0 | inr later ↦ All-Mem f b x xs h.1 later ])

module _ {A : Type 0} (set : IsSet A) (le : A → A → Bool) (le-refl : (a : A) → le a a ≡ true) where
  -- Rows that are equal to the ORDER BY are one row.
  abbrev IsStrict : List A → Type 0
  IsStrict xs = (a b : A) → Mem a xs → Mem b xs → le a b ≡ true → le b a ≡ true → a ≡ b

  both : (a b : A) → (le a b && le b a) ≡ false → le a b ≡ true → le b a ≡ true → ⊥
  both a b h e f = grind arith

  apart-step :
      (x a b : A) (xs : List A)
      → IsApart le (x ∷ xs)
      → IsStrict xs
      → (a ≡ x) ⊎ Mem a xs
      → (b ≡ x) ⊎ Mem b xs
      → le a b ≡ true
      → le b a ≡ true
      → a ≡ b
  apart-step x a b xs h rest (inl p) (inl q) e f = p ∙ sym q
  apart-step x a b xs h rest (inl p) (inr q) e f = absurd (
      both x b (All-Mem (λ y. le x y && le y x) false b xs h.0 q) (subst (λ z. le z b ≡ true) p e)
        (subst (λ z. le b z ≡ true) p f))
  apart-step x a b xs h rest (inr p) (inl q) e f = absurd (
      both x a (All-Mem (λ y. le x y && le y x) false a xs h.0 p) (subst (λ z. le z a ≡ true) q f)
        (subst (λ z. le a z ≡ true) q e))
  apart-step x a b xs h rest (inr p) (inr q) e f = rest a b p q e f

  apart-IsStrict : (xs : List A) → IsApart le xs → IsStrict xs
  apart-IsStrict [] h a b m l e f = absurd (not-mem-nil m)
  apart-IsStrict (x ∷ xs) h a b m l e f = ∥∥₁_elim (eq-or-mem_of_mem-cons m) (set a b) (λ s.
      ∥∥₁_elim (eq-or-mem_of_mem-cons l) (set a b)
        (λ t. apart-step x a b xs h (apart-IsStrict xs h.1) s t e f))

  IsStrict-Perm : (xs ys : List A) → Perm ys xs → IsStrict xs → IsStrict ys
  IsStrict-Perm xs ys p h a b m l = h a b ((Perm.mem_iff p).0 m) ((Perm.mem_iff p).0 l)

  -- The first row of sorted rows is below all.
  head-le : (x y : A) (xs : List A) → IsSorted le (x ∷ xs) → Mem y (x ∷ xs) → le x y ≡ true
  head-le x y xs h m = ∥∥₁_elim (eq-or-mem_of_mem-cons m) (hedberg Bool-discrete _ _) (λ s. elim s [
    | inl e ↦ ap (le x) e ∙ le-refl x
    | inr later ↦ All-Mem (le x) true y xs h.0 later
  ])

  sorted_eq :
      (xs ys : List A) → Perm xs ys → IsSorted le xs → IsSorted le ys → IsStrict xs → xs ≡ ys
  sorted_eq [] ys p hx hy strict = Perm.nil-eq p
  sorted_eq (x ∷ xs) [] p hx hy strict = Perm.eq-nil p
  sorted_eq (x ∷ xs) (y ∷ ys) p hx hy strict =
      let there = (Perm.mem_iff p).1 mem-cons_self in
      let same =
        strict x y mem-cons_self there (head-le x y xs hx there)
          (head-le y x ys hy ((Perm.mem_iff p).0 mem-cons_self)) in
      ap (λ z. z ∷ xs) same
      ∙ ap (λ zs. y ∷ zs)
          (sorted_eq xs ys (Perm.cons_inv (subst (λ z. Perm (z ∷ xs) (y ∷ ys)) same p)) hx.1 hy.1
            (λ a b m l. strict a b (mem-cons_of_mem x m) (mem-cons_of_mem x l)))

  one_page :
      (read other : ℕ → List A) (limit n : ℕ)
      → read 0 ≡ other 0
      → n ≤ 1
      → pages read limit 0 n ≡ pages other limit 0 n
  unfolding pages
  one_page read other limit zero e h = refl
  one_page read other limit (suc zero) e h = ap (λ xs. xs ++ []) e
  one_page read other limit (suc (suc n)) e h = absurd (omega (arith, h))

  -- Enough pages list the rows as one query does, if one page is enough or no two rows tie.
  pub pages-sorted :
      (read : ℕ → List A) (order : ℕ → List A → List A) (rows : List A) (limit n : ℕ)
      → ((q : ℕ) → Perm (order q rows) rows)
      → ((q : ℕ) → IsSorted le (order q rows))
      → (n ≤ 1) ⊎ IsApart le rows
      → ((offset : ℕ) → read offset ≡ page_of limit offset (order offset rows))
      → length rows ≤ n * limit
      → pages read limit 0 n ≡ order 0 rows
  pages-sorted read order rows limit n permutes sorts (inl one) h enough =
      one_page read (λ offset. page_of limit offset (order 0 rows)) limit n (h 0) one
      ∙ pages-all _ (order 0) rows limit n (permutes 0) (λ offset. refl) enough
  pages-sorted read order rows limit n permutes sorts (inr apart) h enough =
      pages-all read (order 0) rows limit n (permutes 0)
        (λ offset.
          h offset
          ∙ ap (page_of limit offset) (
              sorted_eq (order offset rows) (order 0 rows)
                (Perm.trans (permutes offset) (Perm.symm (permutes 0))) (sorts offset) (sorts 0)
                (IsStrict-Perm rows (order offset rows) (permutes offset)
                  (apart-IsStrict rows apart))))
        enough
