-- ===== src/PreAllocBuffer/Contents.antt =====
-- What resizing keeps.
use str_mod.Base.{
  ℕ, ◌-◌, ◌≤◌, ◌<◌, ◌≡◌, refl, min, Bool, true, false, ◌||◌, List, [], ◌++◌, length, take, drop,
  replicate, length-append, length-take, length-drop, length-replicate, take-append, arith, leb,
  ltb, ◌==◌, Bool-cases, inl, inr, ==_iff,
}
use str_mod.PreAllocBuffer.{
  PreAllocBuffer, Place, null, prealloc, heap, Outcome, finished, fault, bad_alloc, i_resize,
  resize_inside, resize_outside, i_invariant,
}

-- The bytes that `buf_` points to.
abbrev pub store : Place → PreAllocBuffer → List ℕ
store null b = []
store prealloc b = b.preallocbuf
store heap b = b.block

abbrev pub Holds : Place → ℕ → PreAllocBuffer → Type 0
Holds null size b = b.buflen ≡ 0
Holds prealloc size b = b.buflen ≤ size
Holds heap size b = (size < b.buflen) × (length b.block ≡ b.buflen)

-- The storage of the object has its size; and there is a block exactly for a buffer that is longer.
abbrev pub IsValid : ℕ → PreAllocBuffer → Type 0
IsValid size b = (length b.preallocbuf ≡ size) × Holds b.buf size b

-- Resized to `n` bytes, of which the first ones are those of before.
abbrev Keeps : ℕ → ℕ → PreAllocBuffer → PreAllocBuffer → Type 0
Keeps size n b q =
    IsValid size q
    × (i_invariant size q ≡ true)
    × (q.buflen ≡ n)
    × (take (min n b.buflen) (store q.buf q) ≡ take (min n b.buflen) (store b.buf b))

-- A buffer is resized if the object has room or there is memory, and else the exception is thrown.
abbrev pub Resizes : (ℕ → Bool) → ℕ → ℕ → PreAllocBuffer → Outcome → Type 0
Resizes grants size n b (finished q) = Keeps size n b q × ((leb n size || grants n) ≡ true)
Resizes grants size n b fault = ⊥
Resizes grants size n b bad_alloc = (leb n size || grants n) ≡ false

module _ (grants : ℕ → Bool) (junk : ℕ) where
  inside-Resizes :
      (p : Place) (size n : ℕ) (b : PreAllocBuffer)
      → let c = record b { buf = p } in
        length c.preallocbuf ≡ size
        → Holds p size c
        → n ≤ size
        → Resizes grants size n c (resize_inside grants junk p n c)
  unfolding resize_inside i_invariant
  inside-Resizes null size n b l h s = ground arith
  inside-Resizes prealloc size n b l h s = ground arith
  inside-Resizes heap size n b l h s =
      let kept : min n b.buflen ≤ n = omega arith in
      let pre = take-append (min n b.buflen) n b.block (drop n b.preallocbuf) kept (omega arith) in
      let one = length-append (take n b.block) (drop n b.preallocbuf) in
      let whole : length (take n b.block ++ drop n b.preallocbuf) ≡ size =
        omega (arith, one, length-take n b.block, length-drop n b.preallocbuf) in
      let enough : ltb (length b.block) n ≡ false = ground arith in
      elim (Bool-cases (n == 0)) [
        | inl z ↦
            let zero_ : n ≡ 0 = (==_iff n 0).0 z in
            let none_ : min n b.buflen ≡ 0 = omega arith in
            rw (enough, z) (rw none_ (((whole, zero_), refl, refl, refl), ground (arith, s)))
        | inr z ↦
            let fits : leb n size ≡ true = ground arith in
            rw (enough, z) (((whole, s), rw fits refl, refl, pre), ground (arith, s))
      ]

  outside-Resizes :
      (p : Place) (size n : ℕ) (b : PreAllocBuffer)
      → let c = record b { buf = p } in
        length c.preallocbuf ≡ size
        → Holds p size c
        → size < n
        → Resizes grants size n c (resize_outside grants junk p n c)
  unfolding resize_outside i_invariant
  outside-Resizes null size n b l h s = ground (arith, length-replicate n junk)
  outside-Resizes prealloc size n b l h s =
      let pre =
        take-append b.buflen b.buflen b.preallocbuf (replicate (n - b.buflen) junk) (omega arith)
          (omega arith) in
      let one = length-append (take b.buflen b.preallocbuf) (replicate (n - b.buflen) junk) in
      let whole : length (take b.buflen b.preallocbuf ++ replicate (n - b.buflen) junk) ≡ n =
        omega
          (arith, one, length-take b.buflen b.preallocbuf, length-replicate (n - b.buflen) junk) in
      let less : min n b.buflen ≡ b.buflen = omega arith in
      let room : ltb n b.buflen ≡ false = ground arith in
      elim (Bool-cases (grants n)) [
        | inl g ↦
            rw (g, room) (((l, (s, whole)), ground arith, refl, rw less pre), ground (arith, s))
        | inr g ↦ rw g (ground (arith, s))
      ]
  outside-Resizes heap size n b l h s =
      let pre =
        take-append (min n b.buflen) n b.block (replicate (n - length b.block) junk) (omega arith)
          (omega arith) in
      let one = length-append (take n b.block) (replicate (n - length b.block) junk) in
      let whole : length (take n b.block ++ replicate (n - length b.block) junk) ≡ n =
        omega (arith, one, length-take n b.block, length-replicate (n - length b.block) junk) in
      elim (Bool-cases (grants n)) [
        | inl g ↦ rw g (((l, (s, whole)), ground arith, refl, pre), ground (arith, s))
        | inr g ↦ rw g (ground (arith, s))
      ]

  -- Resizing a valid buffer never reads behind a block. If the object itself has room for the new
  -- size, or there is memory for it, the buffer is valid again, by the code's own invariant too, has
  -- the new size, and begins with the bytes that both sizes have; else, and only then, the exception
  -- is thrown.
  pub i_resize-Resizes :
      (size n : ℕ) (b : PreAllocBuffer)
      → IsValid size b
      → Resizes grants size n b (i_resize grants junk size n b)
  unfolding i_resize
  i_resize-Resizes size n b (l, h) = elim (Bool-cases (leb n size)) [
    | inl e ↦ rw e (inside-Resizes b.buf size n b l h (ground arith))
    | inr e ↦ rw e (outside-Resizes b.buf size n b l h (ground arith))
  ]
