-- ===== src/Chunk/Positions.antt =====
-- The iterator that stands at a position of a chunk's bytes.
use str_mod.Base.{
  ℕ, suc, ◌+◌, ◌-◌, ◌%◌, ◌≤◌, ◌<◌, ◌≡◌, refl, sym, ap, ◌∙◌, ◌⊎◌, inl, inr, Bool, true, false,
  if◌then◌else◌, ltb, some, List, [], ◌∷◌, ◌++◌, length, length-append, get_elem?,
  get_elem?-append_left, get_elem?-append_right, arith, u32_mod,
}
use str_mod.LinearExtent.{length_max}
use str_mod.Chunk.Iterator.{Shared, Iterator, junk, move_forward, deref}

abbrev pub concat : List (List ℕ) → List ℕ
concat [] = []
concat (b ∷ bs) = b ++ concat bs

abbrev pub NoneEmpty : List (List ℕ) → Type 0
NoneEmpty [] = Unit
NoneEmpty (b ∷ bs) = (1 ≤ length b) × NoneEmpty bs

pub le_cases : (a b : ℕ) → (a ≤ b) ⊎ (suc b ≤ a)
le_cases a b = ground arith

-- What the visit of a chunk leaves.
abbrev pub IsShared : Shared → Type 0
IsShared s = NoneEmpty s.dataexts × (s.total ≡ length (concat s.dataexts)) × (s.total ≤ length_max)

-- at byte `i` of the data block `b`, number `cur`, that begins at `base`
abbrev pub inside : Shared → (cur base : ℕ) → List ℕ → ℕ → Iterator
inside s cur base b i = record {
  shared = some s;
  abspos = base + i;
  extpos = i;
  extlast = length b - 1;
  curext = cur;
  extbase = b;
}

abbrev pub past : Shared → Iterator
past s = record {
  shared = some s;
  abspos = s.total;
  extpos = 0;
  extlast = 0;
  curext = length s.dataexts;
  extbase = junk;
}

-- at byte `i` of the data blocks from number `cur` on
unfoldable pub locate : Shared → (cur base : ℕ) → List (List ℕ) → ℕ → Iterator
locate s cur base [] i = past s
locate s cur base (b ∷ bs) i =
    if ltb i (length b)
    then inside s cur base b i
    else locate s (cur + 1) (base + length b) bs (i - length b)

unfoldable pub iterator_at : Shared → ℕ → Iterator
unfolding locate
iterator_at s i = locate s 0 0 s.dataexts i

-- The blocks `bs` are those of `s` from number `cur` on, which begins at `base`.
abbrev pub Rest : Shared → (cur base : ℕ) → List (List ℕ) → Type 0
Rest s cur base bs =
    ((j : ℕ) → get_elem? s.dataexts (cur + j) ≡ get_elem? bs j)
    × NoneEmpty bs
    × (base + length (concat bs) ≡ s.total)
    × (cur + length bs ≡ length s.dataexts)
    × (cur ≤ base)
    × (s.total ≤ length_max)

pub next-Rest :
    (s : Shared) (cur base : ℕ) (b : List ℕ) (bs : List (List ℕ))
    → Rest s cur base (b ∷ bs)
    → Rest s (cur + 1) (base + length b) bs
next-Rest s cur base b bs r =
    let n = length-append b (concat bs) in
    (
      λ j. ap (get_elem? s.dataexts) (omega arith) ∙ r.0 (suc j),
      r.1.1,
      omega (arith, n, r.2),
      omega (arith, r.3),
      omega (arith, r.4, r.1.0),
      r.5,
    )

pub locate_here :
    (s : Shared) (cur base : ℕ) (b : List ℕ) (bs : List (List ℕ)) (i : ℕ)
    → i < length b
    → locate s cur base (b ∷ bs) i ≡ inside s cur base b i
unfolding locate
locate_here s cur base b bs i h = ground arith

pub locate_later :
    (s : Shared) (cur base : ℕ) (b : List ℕ) (bs : List (List ℕ)) (i j : ℕ)
    → i ≡ length b + j
    → locate s cur base (b ∷ bs) i ≡ locate s (cur + 1) (base + length b) bs j
unfolding locate
locate_later s cur base b bs i j h =
    let e : i - length b ≡ j = omega (arith, h) in
    go (ltb i (length b)) refl ∙ ap (locate s (cur + 1) (base + length b) bs) e
  where
    go :
        (t : Bool)
        → ltb i (length b) ≡ t
        → (if t
            then inside s cur base b i
            else locate s (cur + 1) (base + length b) bs (i - length b))
          ≡ locate s (cur + 1) (base + length b) bs (i - length b)
    go true e = absurd (ground arith)
    go false e = refl

-- Inside of a block, a step moves both positions.
forward_inside :
    (s : Shared) (cur base : ℕ) (b : List ℕ) (i : ℕ)
    → suc i < length b
    → base + length b ≤ length_max
    → move_forward (inside s cur base b i) ≡ some (inside s cur base b (suc i))
unfolding move_forward
forward_inside s cur base b i h k = ground arith

-- At the end of a block, the next one follows, or the end.
forward_last :
    (s : Shared) (cur base : ℕ) (b : List ℕ) (bs : List (List ℕ)) (i : ℕ)
    → Rest s cur base (b ∷ bs)
    → suc i ≡ length b
    → move_forward (inside s cur base b i) ≡ some (locate s (cur + 1) (base + length b) bs 0)
unfolding move_forward locate
forward_last s cur base b [] i r e =
    let n = length-append b [] in let t = r.2 in let m = r.5 in ground arith
forward_last s cur base b (c ∷ bs) i r e =
    let n = length-append b (c ++ concat bs) in
    let n' = length-append c (concat bs) in
    let t = r.2 in
    let m = r.5 in
    let l = r.3 in
    let k = r.4 in
    let nc = r.1.1.0 in
    let c1 : (cur + 1) % u32_mod ≡ cur + 1 = omega arith in
    let g : get_elem? s.dataexts ((cur + 1) % u32_mod) ≡ some c =
      ap (get_elem? s.dataexts) c1 ∙ r.0 1 in
    ground arith

pub locate-forward :
    (s : Shared) (cur base : ℕ) (bs : List (List ℕ)) (i : ℕ)
    → Rest s cur base bs
    → i < length (concat bs)
    → move_forward (locate s cur base bs i) ≡ some (locate s cur base bs (suc i))
locate-forward s cur base [] i r h = absurd (omega arith)
locate-forward s cur base (b ∷ bs) i r h =
    let n = length-append b (concat bs) in
    let fits : base + length b ≤ length_max = omega (arith, n, r.2, r.5) in
    elim (le_cases (suc i) (length b)) [
      | inl l ↦
          ap move_forward (locate_here s cur base b bs i (omega (arith, l)))
          ∙ elim (le_cases (suc (suc i)) (length b)) [
            | inl k ↦
                forward_inside s cur base b i k fits
                ∙ ap some (sym (locate_here s cur base b bs (suc i) k))
            | inr k ↦
                forward_last s cur base b bs i r (omega (arith, l, k))
                ∙ ap some (sym (locate_later s cur base b bs (suc i) 0 (omega (arith, l, k))))
          ]
      | inr l ↦
          let j = i - length b in
          ap move_forward (locate_later s cur base b bs i j (omega (arith, l)))
          ∙ locate-forward s (cur + 1) (base + length b) bs j (next-Rest s cur base b bs r)
              (omega (arith, h, l, n))
          ∙ ap some (sym (locate_later s cur base b bs (suc i) (suc j) (omega (arith, l))))
    ]

-- The byte there.
pub locate-deref :
    (s : Shared) (cur base : ℕ) (bs : List (List ℕ)) (i : ℕ)
    → i < length (concat bs)
    → deref (locate s cur base bs i) ≡ get_elem? (concat bs) i
unfolding deref
locate-deref s cur base [] i h = absurd (omega arith)
locate-deref s cur base (b ∷ bs) i h =
    let n = length-append b (concat bs) in
    elim (le_cases (suc i) (length b)) [
      | inl l ↦
          ap deref (locate_here s cur base b bs i l) ∙ sym (get_elem?-append_left b (concat bs) i l)
      | inr l ↦
          let j = i - length b in
          ap deref (locate_later s cur base b bs i j (omega (arith, l)))
          ∙ locate-deref s (cur + 1) (base + length b) bs j (omega (arith, h, l, n))
          ∙ sym (get_elem?-append_right b (concat bs) j)
          ∙ ap (get_elem? (b ++ concat bs)) (omega (arith, l))
    ]
