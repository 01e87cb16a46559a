-- ===== src/Chunk/Walk.antt =====
-- The iterator goes over the bytes of its chunk, both ways.
use str_mod.Base.{
  ℕ, suc, ◌+◌, ◌-◌, ◌%◌, ◌≤◌, ◌<◌, ◌≡◌, refl, sym, ap, ap₂, ◌∙◌, inl, inr, some, List, [], ◌∷◌,
  ◌++◌, length, length-append, get_elem?, arith, u32_mod,
}
use str_mod.LinearExtent.{length_max}
use str_mod.Chunk.Iterator.{Shared, Iterator, junk, move_to_begin, move_backward}
use str_mod.Chunk.Positions.{
  concat, IsShared, inside, past, locate, Rest, le_cases, next-Rest, locate_here, locate_later,
}

backward_inside :
    (s : Shared) (cur base : ℕ) (b : List ℕ) (i : ℕ)
    → suc i < length b
    → base + length b ≤ length_max
    → move_backward (inside s cur base b (suc i)) ≡ some (inside s cur base b i)
unfolding move_backward
backward_inside s cur base b i h k = ground arith

pub begin_lem :
    (s : Shared) (it : Iterator) (bs : List (List ℕ))
    → Rest s 0 0 bs
    → move_to_begin s (record it { shared = some s }) ≡ some (locate s 0 0 bs 0)
unfolding move_to_begin locate
begin_lem s it [] r = let t = r.2 in let l = r.3 in ground arith
begin_lem s it (b ∷ bs) r =
    let t = r.2 in
    let n = length-append b (concat bs) in
    let l = r.1.0 in let m = r.5 in let g : get_elem? s.dataexts 0 ≡ some b = r.0 0 in ground arith

-- At the start of a block, back into the one before.
backward_first :
    (s : Shared) (cur base : ℕ) (b : List ℕ) (bs : List (List ℕ)) (i l : ℕ) (x : List ℕ)
    → Rest s cur base (b ∷ bs)
    → suc i ≡ length b
    → move_backward (record {
      shared = some s;
      abspos = base + length b;
      extpos = 0;
      extlast = l;
      curext = cur + 1;
      extbase = x;
    })
      ≡ some (inside s cur base b i)
unfolding move_backward move_to_begin
backward_first s cur base b bs i l x r e =
    let n = length-append b (concat bs) in
    let t = r.2 in
    let m = r.5 in
    let k = r.3 in
    let d = r.4 in
    let c1 : (cur + 1 + u32_mod - 1) % u32_mod ≡ cur = omega arith in
    let g : get_elem? s.dataexts ((cur + 1 + u32_mod - 1) % u32_mod) ≡ some b =
      ap (get_elem? s.dataexts) (omega arith) ∙ r.0 0 in
    elim (le_cases (base + length b) 1) [
      | inl h ↦
          let g0 : get_elem? s.dataexts 0 ≡ some b =
            ap (get_elem? s.dataexts) (omega arith) ∙ r.0 0 in
          let c0 : cur ≡ 0 = omega arith in ground arith
      | inr h ↦ ground arith
    ]

-- at the start of a block, as the walk comes there
abbrev start : Shared → (abs l cur : ℕ) → List ℕ → Iterator
start s abs l cur x = record {
  shared = some s;
  abspos = abs;
  extpos = 0;
  extlast = l;
  curext = cur;
  extbase = x;
}

backward_start :
    (s : Shared) (cur base : ℕ) (b : List ℕ) (bs : List (List ℕ)) (i : ℕ)
    → Rest s cur base (b ∷ bs)
    → suc i ≡ length b
    → move_backward (locate s (cur + 1) (base + length b) bs 0) ≡ some (inside s cur base b i)
unfolding locate
backward_start s cur base b [] i r e =
    let n = length-append b [] in
    let abs : s.total ≡ base + length b = omega (arith, n, r.2) in
    let num : length s.dataexts ≡ cur + 1 = omega (arith, r.3) in
    ap move_backward (ap₂ (λ a c. start s a 0 c junk) abs num)
    ∙ backward_first s cur base b [] i 0 junk r e
backward_start s cur base b (c ∷ bs) i r e =
    let abs : base + length b + 0 ≡ base + length b = omega arith in
    ap move_backward (locate_here s (cur + 1) (base + length b) c bs 0 (omega (arith, r.1.1.0)))
    ∙ ap move_backward (ap (λ a. start s a (length c - 1) (cur + 1) c) abs)
    ∙ backward_first s cur base b (c ∷ bs) i (length c - 1) c r e

pub locate-backward :
    (s : Shared) (cur base : ℕ) (bs : List (List ℕ)) (i : ℕ)
    → Rest s cur base bs
    → i < length (concat bs)
    → move_backward (locate s cur base bs (suc i)) ≡ some (locate s cur base bs i)
locate-backward s cur base [] i r h = absurd (omega arith)
locate-backward s cur base (b ∷ bs) i r h =
    let n = length-append b (concat bs) in
    let fits : base + length b ≤ length_max = omega (arith, n, r.2, r.5) in
    elim (le_cases (suc i) (length b)) [
      | inl l ↦
          elim (le_cases (suc (suc i)) (length b)) [
            | inl k ↦
                ap move_backward (locate_here s cur base b bs (suc i) k)
                ∙ backward_inside s cur base b i k fits
            | inr k ↦
                ap move_backward (locate_later s cur base b bs (suc i) 0 (omega (arith, l, k)))
                ∙ backward_start s cur base b bs i r (omega (arith, l, k))
          ]
          ∙ ap some (sym (locate_here s cur base b bs i l))
      | inr l ↦
          let j = i - length b in
          ap move_backward (locate_later s cur base b bs (suc i) (suc j) (omega (arith, l)))
          ∙ locate-backward s (cur + 1) (base + length b) bs j (next-Rest s cur base b bs r)
              (omega (arith, h, l, n))
          ∙ ap some (sym (locate_later s cur base b bs i j (omega (arith, l))))
    ]

pub locate-abspos :
    (s : Shared) (cur base : ℕ) (bs : List (List ℕ)) (i : ℕ)
    → Rest s cur base bs
    → i ≤ length (concat bs)
    → (locate s cur base bs i).abspos ≡ base + i
unfolding locate
locate-abspos s cur base [] i r h = omega (arith, r.2, h)
locate-abspos s cur base (b ∷ bs) i r h =
    let n = length-append b (concat bs) in
    elim (le_cases (suc i) (length b)) [
      | inl l ↦ ap (λ it. it.abspos) (locate_here s cur base b bs i l)
      | inr l ↦
          let j = i - length b in
          ap (λ it. it.abspos) (locate_later s cur base b bs i j (omega (arith, l)))
          ∙ locate-abspos s (cur + 1) (base + length b) bs j (next-Rest s cur base b bs r)
              (omega (arith, h, n))
          ∙ omega (arith, l)
    ]

pub locate-shared :
    (s : Shared) (cur base : ℕ) (bs : List (List ℕ)) (i : ℕ)
    → (locate s cur base bs i).shared ≡ some s
unfolding locate
locate-shared s cur base [] i = refl
locate-shared s cur base (b ∷ bs) i = elim (le_cases (suc i) (length b)) [
  | inl l ↦ ap (λ it. it.shared) (locate_here s cur base b bs i l)
  | inr l ↦
      let j = i - length b in
      ap (λ it. it.shared) (locate_later s cur base b bs i j (omega (arith, l)))
      ∙ locate-shared s (cur + 1) (base + length b) bs j
]

pub shared-Rest : (s : Shared) → IsShared s → Rest s 0 0 s.dataexts
shared-Rest s h = (
  λ j. ap (get_elem? s.dataexts) (omega arith),
  h.0,
  omega (arith, h.1),
  omega arith,
  omega arith,
  h.2,
)

pub locate-past :
    (s : Shared) (cur base : ℕ) (bs : List (List ℕ))
    → locate s cur base bs (length (concat bs)) ≡ past s
unfolding locate
locate-past s cur base [] = refl
locate-past s cur base (b ∷ bs) =
    locate_later s cur base b bs (length (b ++ concat bs)) (length (concat bs))
      (length-append b (concat bs))
    ∙ locate-past s (cur + 1) (base + length b) bs

backward_zero :
    (s : Shared) (l cur : ℕ) (x : List ℕ) (bs : List (List ℕ))
    → Rest s 0 0 bs
    → move_backward (start s 0 l cur x) ≡ some (locate s 0 0 bs 0)
unfolding move_backward
backward_zero s l cur x bs r = begin_lem s (start s 0 l cur x) bs r

pub backward_begin :
    (s : Shared) (bs : List (List ℕ))
    → Rest s 0 0 bs
    → move_backward (locate s 0 0 bs 0) ≡ some (locate s 0 0 bs 0)
unfolding locate
backward_begin s [] r =
    ap (λ a. move_backward (start s a 0 (length s.dataexts) junk)) (omega (arith, r.2))
    ∙ backward_zero s 0 (length s.dataexts) junk [] r
backward_begin s (b ∷ bs) r =
    ap move_backward (locate_here s 0 0 b bs 0 (omega (arith, r.1.0)))
    ∙ backward_zero s (length b - 1) 0 b (b ∷ bs) r
