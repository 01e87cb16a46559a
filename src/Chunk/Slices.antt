-- ===== src/Chunk/Slices.antt =====
-- A range of a list.
use Prim.Native.Nat.{zero, suc}
use str_mod.Base.{
  ℕ, ◌+◌, ◌-◌, ◌≤◌, ◌≡◌, refl, sym, ap, subst, ◌∙◌, ◌⊎◌, inl, inr, min, List, [], ◌∷◌, ◌++◌, length,
  arith,
}

module _ {ℓ} {A : Type ℓ} where
  -- up to `n` items behind the first `o`
  abbrev pub slice : ℕ → ℕ → List A → List A
  slice o n [] = []
  slice zero zero (x ∷ xs) = []
  slice zero (suc n) (x ∷ xs) = x ∷ slice zero n xs
  slice (suc o) n (x ∷ xs) = slice o n xs

  pub length-slice : (o n : ℕ) (xs : List A) → length (slice o n xs) ≡ min n (length xs - o)
  length-slice o n [] = omega arith
  length-slice zero zero (x ∷ xs) = omega arith
  length-slice zero (suc n) (x ∷ xs) = omega (arith, length-slice zero n xs)
  length-slice (suc o) n (x ∷ xs) = omega (arith, length-slice o n xs)

  pub slice_all : (n : ℕ) (xs : List A) → length xs ≤ n → slice 0 n xs ≡ xs
  slice_all n [] h = refl
  slice_all zero (x ∷ xs) h = absurd (omega arith)
  slice_all (suc n) (x ∷ xs) h = ap (◌∷◌ x) (slice_all n xs (omega arith))

  pub slice_none : (o n : ℕ) (xs : List A) → min n (length xs - o) ≡ 0 → slice o n xs ≡ []
  slice_none o n [] h = refl
  slice_none zero zero (x ∷ xs) h = refl
  slice_none zero (suc n) (x ∷ xs) h = absurd (omega arith)
  slice_none (suc o) n (x ∷ xs) h = slice_none o n xs (omega arith)

  slice_cut :
      (o n m : ℕ) (xs : List A)
      → min n (length xs - o) ≡ min m (length xs - o)
      → slice o n xs ≡ slice o m xs
  slice_cut o n m [] h = refl
  slice_cut zero zero zero (x ∷ xs) h = refl
  slice_cut zero zero (suc m) (x ∷ xs) h = absurd (omega arith)
  slice_cut zero (suc n) zero (x ∷ xs) h = absurd (omega arith)
  slice_cut zero (suc n) (suc m) (x ∷ xs) h = ap (◌∷◌ x) (slice_cut zero n m xs (omega arith))
  slice_cut (suc o) n m (x ∷ xs) h = slice_cut o n m xs (omega arith)

  -- Two ranges hold the same items if they reach as many, and begin alike unless that is none.
  pub slice_eq :
      (o p n m : ℕ) (xs : List A)
      → min n (length xs - o) ≡ min m (length xs - p)
      → (o ≡ p) ⊎ (min n (length xs - o) ≡ 0)
      → slice o n xs ≡ slice p m xs
  slice_eq o p n m xs h (inl e) =
      subst (λ q. slice o n xs ≡ slice q m xs) e (slice_cut o n m xs (omega arith))
  slice_eq o p n m xs h (inr z) = slice_none o n xs z ∙ sym (slice_none p m xs (omega arith))

  pub slice-append :
      (o n p m : ℕ) (xs ys : List A)
      → p ≡ o - length xs
      → m ≡ n - (length xs - o)
      → slice o n (xs ++ ys) ≡ slice o n xs ++ slice p m ys
  slice-append o n p m [] ys e f =
      let e' : o ≡ p = omega arith in
      let f' : n ≡ m = omega arith in
      subst (λ q. slice o n ys ≡ slice q m ys) e' (ap (λ k. slice o k ys) f')
  slice-append zero zero p m (x ∷ xs) ys e f = sym (slice_none p m ys (omega arith))
  slice-append zero (suc n) p m (x ∷ xs) ys e f =
      ap (◌∷◌ x) (slice-append zero n p m xs ys (omega arith) (omega arith))
  slice-append (suc o) n p m (x ∷ xs) ys e f =
      slice-append o n p m xs ys (omega arith) (omega arith)

  pub slice-slice :
      (o n p m q k : ℕ) (xs : List A)
      → q ≡ p + o
      → k ≡ min n (m - o)
      → slice o n (slice p m xs) ≡ slice q k xs
  slice-slice o n p m q k [] e f = refl
  slice-slice o n (suc p) m zero k (x ∷ xs) e f = absurd (omega arith)
  slice-slice o n (suc p) m (suc q) k (x ∷ xs) e f = slice-slice o n p m q k xs (omega arith) f
  slice-slice o n zero zero q k (x ∷ xs) e f = sym (slice_none q k (x ∷ xs) (omega arith))
  slice-slice zero zero zero (suc m) q k (x ∷ xs) e f = sym (slice_none q k (x ∷ xs) (omega arith))
  slice-slice zero (suc n) zero (suc m) zero zero (x ∷ xs) e f = absurd (omega arith)
  slice-slice zero (suc n) zero (suc m) zero (suc k) (x ∷ xs) e f =
      ap (◌∷◌ x) (slice-slice zero n zero m zero k xs (omega arith) (omega arith))
  slice-slice zero (suc n) zero (suc m) (suc q) k (x ∷ xs) e f = absurd (omega arith)
  slice-slice (suc o) n zero (suc m) zero k (x ∷ xs) e f = absurd (omega arith)
  slice-slice (suc o) n zero (suc m) (suc q) k (x ∷ xs) e f =
      slice-slice o n zero m q k xs (omega arith) (omega arith)

  -- A range `p`, `m` of the items is the range `o`, `n` of their range `s`, `l` if it says so by
  -- its numbers, or if it is empty as that is.
  pub slice_within :
      (s l o n p m : ℕ) (xs : List A)
      → s + l ≤ length xs
      → m ≡ min n (l - o)
      → (p ≡ s + o) ⊎ (m ≡ 0)
      → slice p m xs ≡ slice o n (slice s l xs)
  slice_within s l o n p m xs h e f =
      slice_eq p (s + o) m (min n (l - o)) xs (omega arith) (ground arith)
      ∙ sym (slice-slice o n s l (s + o) (min n (l - o)) xs refl refl)
