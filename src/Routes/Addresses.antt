-- ===== src/Routes/Addresses.antt =====
-- apps/api/routers/waitlist.py, `_EMAIL_RE`: the addresses that it matches.
use dsa_api.Base.{
  ℕ, ◌≤◌, ◌≡◌, ◌≢◌, ◌↔◌, ◌⊎◌, inl, inr, refl, sym, ap, subst, ◌∙◌, arith, Bool, true, false, not,
  ◌||◌, none, some, [], ◌∷◌, ◌++◌, All, All-append, length, ltb, ◌==◌, Bool-cases, if◌then◌else◌,
}
use dsa_api.Text.{Text, is_space, strip}
use dsa_api.Normalize.Chars.{Unicode}
use dsa_api.Routes.Waitlist.{
  is_plain, plain_run, dot_then, is_end, match_host, match_local, match_email, clean_email,
}

-- Some characters, none of them white space or an at sign.
abbrev pub IsPlain : Text → Type 0
IsPlain s = (s ≢ []) × All (λ c. is_plain c ≡ true) s

-- The end of a text, or a line feed before it.
abbrev pub IsEnd : Text → Type 0
IsEnd s = (s ≡ []) ⊎ (s ≡ 10 ∷ [])

abbrev pub IsHost : Text → Type 0
IsHost s =
    (host tld ending : Text) × IsPlain host
    × IsPlain tld
    × IsEnd ending
    × (s ≡ host ++ 46 ∷ (tld ++ ending))

abbrev pub IsAddress : Text → Type 0
IsAddress s = (local host : Text) × IsPlain local × IsHost host × (s ≡ local ++ 64 ∷ host)

plain_run-split : (s : Text) → (plain_run s).0 ++ (plain_run s).1 ≡ s
unfolding plain_run
plain_run-split [] = refl
plain_run-split (c ∷ s) = ground (arith, plain_run-split s)

plain_run-All : (s : Text) → All (λ c. is_plain c ≡ true) (plain_run s).0
unfolding plain_run
plain_run-All [] = tt
plain_run-All (c ∷ s) = ground (arith, plain_run-All s)

plain_run-append :
    (xs rest : Text)
    → All (λ c. is_plain c ≡ true) xs
    → plain_run rest ≡ ([], rest)
    → plain_run (xs ++ rest) ≡ (xs, rest)
unfolding plain_run
plain_run-append [] rest h e = e
plain_run-append (x ∷ xs) rest h e = rw (h.0, plain_run-append xs rest h.1 e) refl

append_assoc : (xs ys zs : Text) → (xs ++ ys) ++ zs ≡ xs ++ (ys ++ zs)
append_assoc [] ys zs = refl
append_assoc (x ∷ xs) ys zs = ap (λ s. x ∷ s) (append_assoc xs ys zs)

-- A dot between two parts of a run, of which the second is not empty.
dot_then-split : (s : Text) → dot_then s ≡ true → (h t : Text) × (t ≢ []) × (s ≡ h ++ 46 ∷ t)
unfolding dot_then
dot_then-split [] e = absurd (grind arith)
dot_then-split (c ∷ []) e = absurd (ground (arith, e))
dot_then-split (c ∷ d ∷ s) e = elim (Bool-cases (c == 46)) [
  | inl p ↦ ([], d ∷ s, (λ q. grind arith), ground arith)
  | inr p ↦
      let (h, t, nonempty, whole) = dot_then-split (d ∷ s) (ground arith) in
      (c ∷ h, t, nonempty, ap (λ z. c ∷ z) whole)
]

dot_then-append : (h t : Text) → t ≢ [] → dot_then (h ++ 46 ∷ t) ≡ true
unfolding dot_then
dot_then-append [] [] n = absurd (n refl)
dot_then-append [] (d ∷ t) n = refl
dot_then-append (c ∷ h) t n = ground (arith, dot_then-append h t n)

is_end-IsEnd : (s : Text) → is_end s ≡ true → IsEnd s
is_end-IsEnd [] h = inl refl
is_end-IsEnd (c ∷ []) h = inr (ground arith)
is_end-IsEnd (c ∷ d ∷ s) h = absurd (grind arith)

end-is_end : (s : Text) → IsEnd s → is_end s ≡ true
end-is_end s (inl e) = rw e refl
end-is_end s (inr e) = rw e refl

plain_run-end : (s : Text) → IsEnd s → plain_run s ≡ ([], s)
unfolding plain_run is_space
plain_run-end s (inl e) = rw e refl
plain_run-end s (inr e) = rw e refl

All-split :
    (xs ys : Text)
    → All (λ c. is_plain c ≡ true) (xs ++ ys)
    → All (λ c. is_plain c ≡ true) xs × All (λ c. is_plain c ≡ true) ys
All-split [] ys h = (tt, h)
All-split (x ∷ xs) ys h = ((h.0, (All-split xs ys h.1).0), (All-split xs ys h.1).1)

cons-nonempty : (c : ℕ) (s : Text) → c ∷ s ≢ []
cons-nonempty c s h = grind arith

match_host-IsHost :
    (run rest : Text)
    → All (λ c. is_plain c ≡ true) run
    → match_host (run, rest) ≡ true
    → IsHost (run ++ rest)
match_host-IsHost [] rest all h = absurd (grind arith)
match_host-IsHost (c ∷ run) rest all h =
    let (host, tld, nonempty, whole) = dot_then-split run (ground arith) in
    let plain = All-split host (46 ∷ tld) (subst (All (λ c. is_plain c ≡ true)) whole all.1) in
    (
      c ∷ host,
      tld,
      rest,
      (cons-nonempty c host, (all.0, plain.0)),
      (nonempty, plain.1.1),
      is_end-IsEnd rest (ground arith),
      ap (λ z. c ∷ (z ++ rest)) whole ∙ ap (λ z. c ∷ z) (append_assoc host (46 ∷ tld) rest),
    )

match_local-IsAddress :
    (run rest : Text)
    → All (λ c. is_plain c ≡ true) run
    → match_local (run, rest) ≡ true
    → IsAddress (run ++ rest)
match_local-IsAddress [] rest all h = absurd (grind arith)
match_local-IsAddress (c ∷ run) [] all h = absurd (grind arith)
match_local-IsAddress (c ∷ run) (d ∷ rest) all h = (
  c ∷ run,
  rest,
  (cons-nonempty c run, all),
  subst IsHost (plain_run-split rest)
      (match_host-IsHost (plain_run rest).0 (plain_run rest).1 (plain_run-All rest) (ground arith)),
  at_sign c d run rest (ground arith),
)
  where
    at_sign :
        (c d : ℕ) (run rest : Text)
        → (d == 64) ≡ true
        → (c ∷ run) ++ d ∷ rest ≡ (c ∷ run) ++ 64 ∷ rest
    at_sign c d run rest h = ap (λ z. (c ∷ run) ++ z ∷ rest) (ground arith)

dot_plain : is_plain 46 ≡ true
unfolding is_space
dot_plain = refl

match_host-append :
    (host tld ending : Text)
    → IsPlain host
    → IsPlain tld
    → IsEnd ending
    → match_host (plain_run (host ++ 46 ∷ (tld ++ ending))) ≡ true
match_host-append [] tld ending ph pt e = absurd (ph.0 refl)
match_host-append (c ∷ host) tld ending ph pt e =
    rw
      (
        ap plain_run (sym (append_assoc (c ∷ host) (46 ∷ tld) ending)),
        plain_run-append ((c ∷ host) ++ 46 ∷ tld) ending
            (All-append _ (c ∷ host) (46 ∷ tld) ph.1 (dot_plain, pt.1)) (plain_run-end ending e),
        dot_then-append host tld pt.0,
        end-is_end ending e,
      )
      refl

at_run : (rest : Text) → plain_run (64 ∷ rest) ≡ ([], 64 ∷ rest)
unfolding plain_run is_space
at_run rest = refl

match_local-append :
    (local host : Text)
    → IsPlain local
    → match_host (plain_run host) ≡ true
    → match_local (plain_run (local ++ 64 ∷ host)) ≡ true
match_local-append [] host p h = absurd (p.0 refl)
match_local-append (c ∷ local) host p h =
    rw (plain_run-append (c ∷ local) (64 ∷ host) p.1 (at_run host), h) refl

-- A text matches exactly if it is such an address.
match_email_iff : (s : Text) → (match_email s ≡ true) ↔ IsAddress s
unfolding match_email
match_email_iff s = (
  λ h.
      subst IsAddress (plain_run-split s)
        (match_local-IsAddress (plain_run s).0 (plain_run s).1 (plain_run-All s) h),
  λ (local, host, pl, (name, tld, ending, pn, pt, pe, whole), address).
      rw (address, whole)
        (match_local-append local (name ++ 46 ∷ (tld ++ ending)) pl
          (match_host-append name tld ending pn pt pe)),
)

settled_iff :
    (long matched : Bool) (e email : Text)
    → ((if long || not matched then none else some e) ≡ some email)
      ↔ ((email ≡ e) × (long ≡ false) × (matched ≡ true))
settled_iff true matched e email = (λ h. absurd (grind arith), λ h. absurd (grind arith))
settled_iff false false e email = (λ h. absurd (grind arith), λ h. absurd (grind arith))
settled_iff false true e email = (λ h. (grind arith, refl, refl), λ h. ap some (sym h.0))

-- An address is taken exactly if, stripped and in lower case, it is at most 254 characters long
-- and consists of a local part, an at sign, a host, a dot and a last part, none empty, without
-- white space or another at sign, save a line feed at the end.
pub clean_email_iff :
    (unicode : Unicode) (raw email : Text)
    → (clean_email unicode raw ≡ some email)
      ↔ ((email ≡ unicode.lower (strip raw)) × (length email ≤ 254) × IsAddress email)
unfolding clean_email
clean_email_iff unicode raw email =
    let lowered = unicode.lower (strip raw) in
    let settled = settled_iff (ltb 254 (length lowered)) (match_email lowered) lowered email in
    (
      λ h.
          let (same, short, matched) = settled.0 h in
          (
            same,
            subst (λ s. length s ≤ 254) (sym same) (ground arith),
            subst IsAddress (sym same) ((match_email_iff lowered).0 matched),
          ),
      λ (same, short, address). settled.1 (
        same,
        fits (length lowered) (subst (λ s. length s ≤ 254) same short),
        (match_email_iff lowered).1 (subst IsAddress same address),
      ),
    )
  where
    fits : (n : ℕ) → n ≤ 254 → ltb 254 n ≡ false
    fits n h = ground arith
