-- ===== src/Routes/Paging.antt =====
-- Pages of ordered rows: what a client reads that asks for one after the other.
use mathlib.Core.List.{Perm, Permᴰ}
use mathlib.Core.Logic.{∥∥₁_elim}
use mathlib.Core.HLevel.{hedberg}
use dsa_api.Base.{
  ℕ, zero, suc, ◌+◌, ◌*◌, ◌≤◌, ◌≡◌, refl, sym, ap, ◌∙◌, List, [], ◌∷◌, ◌++◌, length, take, drop,
  arith, ℕ_discrete,
}
use dsa_api.Routes.Tables.{page_of}

suc_add : (m n : ℕ) → suc (m + n) ≡ suc m + n
suc_add m n = omega arith

zero_pages : (limit : ℕ) → 0 ≡ 0 * limit
zero_pages limit = omega arith

module _ {ℓ} {A : Type ℓ} where
  -- What a client reads of `n` pages from an offset on, each at the offset where the last one ended.
  unfoldable pub pages : (ℕ → List A) → (limit offset n : ℕ) → List A
  pages read limit offset zero = []
  pages read limit offset (suc n) = read offset ++ pages read limit (offset + limit) n

  drop-nil : (n : ℕ) → drop {A = A} n [] ≡ []
  drop-nil zero = refl
  drop-nil (suc n) = refl

  drop-drop : (m n : ℕ) (xs : List A) → drop n (drop m xs) ≡ drop (m + n) xs
  drop-drop zero n xs = ap (λ k. drop k xs) (omega arith)
  drop-drop (suc m) n [] = drop-nil n ∙ sym (drop-nil (suc m + n))
  drop-drop (suc m) n (x ∷ xs) = drop-drop m n xs ∙ ap (λ k. drop k (x ∷ xs)) (suc_add m n)

  take-nil : (n : ℕ) → take {A = A} n [] ≡ []
  take-nil zero = refl
  take-nil (suc n) = refl

  take-append-take : (m n : ℕ) (xs : List A) → take m xs ++ take n (drop m xs) ≡ take (m + n) xs
  take-append-take zero n xs = ap (λ k. take k xs) (omega arith)
  take-append-take (suc m) n [] = take-nil n ∙ sym (take-nil (suc m + n))
  take-append-take (suc m) n (x ∷ xs) =
      ap (λ ys. x ∷ ys) (take-append-take m n xs) ∙ ap (λ k. take k (x ∷ xs)) (suc_add m n)

  pub take-all : (n : ℕ) (xs : List A) → length xs ≤ n → take n xs ≡ xs
  take-all zero [] h = refl
  take-all zero (x ∷ xs) h = absurd (omega (arith, h))
  take-all (suc n) [] h = refl
  take-all (suc n) (x ∷ xs) h = ap (λ ys. x ∷ ys) (take-all n xs (omega (arith, h)))

  -- Pages of ordered rows that are cut out one after the other.
  pub pages-take :
      (read : ℕ → List A) (rows : List A) (limit : ℕ)
      → ((offset : ℕ) → read offset ≡ page_of limit offset rows)
      → (n offset : ℕ) → pages read limit offset n ≡ take (n * limit) (drop offset rows)
  unfolding pages
  pages-take read rows limit h zero offset = ap (λ k. take k (drop offset rows)) (zero_pages limit)
  pages-take read rows limit h (suc n) offset =
      rw
        (
          h offset,
          pages-take read rows limit h n (offset + limit),
          sym (drop-drop offset limit rows),
        )
        (take-append-take limit (n * limit) (drop offset rows)
          ∙ ap (λ k. take k (drop offset rows)) (omega arith))

  Permᴰ-length : {xs ys : List A} → Permᴰ xs ys → length xs ≡ length ys
  Permᴰ-length Permᴰ.nil = refl
  Permᴰ-length (Permᴰ.cons e p) = ap suc (Permᴰ-length p)
  Permᴰ-length (Permᴰ.swap e f) = refl
  Permᴰ-length (Permᴰ.trans p q) = Permᴰ-length p ∙ Permᴰ-length q

pub Perm-length {ℓ} : {A : Type ℓ} {xs ys : List A} → Perm xs ys → length xs ≡ length ys
Perm-length p = ∥∥₁_elim p (hedberg ℕ_discrete _ _) Permᴰ-length

-- Enough pages, from the first on, are the ordered rows, and list each row as often as it is there.
pub pages-all {ℓ} :
    {A : Type ℓ} (read : ℕ → List A) (order : List A → List A) (rows : List A) (limit n : ℕ)
    → Perm (order rows) rows
    → ((offset : ℕ) → read offset ≡ page_of limit offset (order rows))
    → length rows ≤ n * limit
    → pages read limit 0 n ≡ order rows
pages-all read order rows limit n perm h enough =
    pages-take read (order rows) limit h n 0
    ∙ take-all (n * limit) (order rows) (omega (arith, enough, Perm-length perm))
