-- ===== src/Chopper/Pieces.antt =====
-- The pieces that a character cuts a list into.
use mathlib.Core.List.{append_assoc}
use str_mod.Base.{
  ℕ, zero, suc, ◌<◌, ◌==◌, if◌then◌else◌, Bool, Bool-cases, ==_iff, ◌≤◌, ◌≡◌, ◌≢◌, refl, sym, ap,
  ◌∙◌, ◌⊎◌, inl, inr, true, false, List, [], ◌∷◌, ◌++◌, length, take, drop, arith,
}
use str_mod.Chunk.Slices.{slice}
use str_mod.Chopper.{pos, to_int, same_int, scan}

-- `c` is no item of the list.
abbrev pub Absent : ℕ → List ℕ → Type 0
Absent c [] = Unit
Absent c (x ∷ xs) = (x ≢ c) × Absent c xs

-- a piece that ends with its only `c`
abbrev pub Piece : ℕ → List ℕ → Type 0
Piece c xs = (pre : List ℕ) × Absent c pre × (xs ≡ pre ++ (c ∷ []))

pub slice-take : (n : ℕ) (xs : List ℕ) → slice 0 n xs ≡ take n xs
slice-take zero [] = refl
slice-take (suc n) [] = refl
slice-take zero (x ∷ xs) = refl
slice-take (suc n) (x ∷ xs) = ap (◌∷◌ x) (slice-take n xs)

pub slice-drop : (o n : ℕ) (xs : List ℕ) → length xs ≤ n → slice o n xs ≡ drop o xs
slice-drop zero n [] h = refl
slice-drop (suc o) n [] h = refl
slice-drop zero zero (x ∷ xs) h = absurd (omega arith)
slice-drop zero (suc n) (x ∷ xs) h = ap (◌∷◌ x) (slice-drop zero n xs (omega arith))
slice-drop (suc o) n (x ∷ xs) h = slice-drop o n xs (omega arith)

pub drop_all : (n : ℕ) (xs : List ℕ) → length xs ≤ n → drop n xs ≡ []
drop_all zero [] h = refl
drop_all zero (x ∷ xs) h = absurd (omega arith)
drop_all (suc n) [] h = refl
drop_all (suc n) (x ∷ xs) h = drop_all n xs (omega arith)

pub take-drop : (n : ℕ) (xs : List ℕ) → take n xs ++ drop n xs ≡ xs
take-drop zero xs = refl
take-drop (suc n) [] = refl
take-drop (suc n) (x ∷ xs) = ap (◌∷◌ x) (take-drop n xs)

pub scan-length : (c : ℕ) (xs : List ℕ) → (scan c xs).0 ≤ length xs
scan-length c [] = omega arith
scan-length c (x ∷ xs) = go (same_int (pos x) (to_int c)) (scan-length c xs)
  where
    go :
        (q : Bool)
        → (scan c xs).0 ≤ length xs
        → (let r : ℕ × Bool = if q then (1, true) else (suc (scan c xs).0, (scan c xs).1) in r.0)
          ≤ suc (length xs)
    go true h = omega arith
    go false h = omega (arith, h)

to_int_ascii : (c : ℕ) → c < 128 → to_int c ≡ pos c
to_int_ascii c h = ground (arith, h)

-- For a character below 128 the loop passes all bytes if it is not there, and else those up to it.
module _ (c : ℕ) (ascii : c < 128) where
  scan_next :
      (x : ℕ) (xs : List ℕ)
      → ((x ≡ c) × (scan c (x ∷ xs) ≡ (1, true)))
        ⊎ ((x ≢ c) × (scan c (x ∷ xs) ≡ (suc (scan c xs).0, (scan c xs).1)))
  scan_next x xs = elim (Bool-cases (x == c)) [
    | inl e ↦ inl ((==_iff x c).0 e, step true e)
    | inr e ↦ inr ((λ k. absurd (ground (arith, e, k))), step false e)
  ]
    where
      step :
          (q : Bool)
          → (x == c) ≡ q
          → scan c (x ∷ xs) ≡ (if q then (1, true) else (suc (scan c xs).0, (scan c xs).1))
      step q e =
          ap (λ r. if r then (1, true) else (suc (scan c xs).0, (scan c xs).1))
            (ap (same_int (pos x)) (to_int_ascii c ascii) ∙ e)

  pub scan-Absent :
      (xs : List ℕ) → (scan c xs).1 ≡ false → ((scan c xs).0 ≡ length xs) × Absent c xs
  scan-Absent [] h = (refl, tt)
  scan-Absent (x ∷ xs) h = elim (scan_next x xs) [
    | inl e ↦ absurd (ground (arith, sym (ap (λ r. r.1) e.1) ∙ h))
    | inr e ↦
        let k = scan-Absent xs (sym (ap (λ r. r.1) e.1) ∙ h) in
        (ap (λ r. r.0) e.1 ∙ ap suc k.0, (e.0, k.1))
  ]

  pub scan-Piece : (xs : List ℕ) → (scan c xs).1 ≡ true → Piece c (take (scan c xs).0 xs)
  scan-Piece [] h = absurd (ground (arith, h))
  scan-Piece (x ∷ xs) h = elim (scan_next x xs) [
    | inl e ↦ ([], tt, ap (λ r. take r.0 (x ∷ xs)) e.1 ∙ ap (λ y. y ∷ []) e.0)
    | inr e ↦
        let k = scan-Piece xs (sym (ap (λ r. r.1) e.1) ∙ h) in
        (x ∷ k.0, (e.0, k.1), ap (λ r. take r.0 (x ∷ xs)) e.1 ∙ ap (◌∷◌ x) k.2)
  ]

pub Absent-append : (c : ℕ) (xs ys : List ℕ) → Absent c xs → Absent c ys → Absent c (xs ++ ys)
Absent-append c [] ys h k = k
Absent-append c (x ∷ xs) ys h k = (h.0, Absent-append c xs ys h.1 k)

-- A piece that begins with more bytes that have no `c`.
pub append-Piece : (c : ℕ) (xs ys : List ℕ) → Absent c xs → Piece c ys → Piece c (xs ++ ys)
append-Piece c xs ys h k = (
  xs ++ k.0,
  Absent-append c xs k.0 h k.1,
  ap (λ zs. xs ++ zs) k.2 ∙ sym (append_assoc xs k.0 (c ∷ [])),
)
