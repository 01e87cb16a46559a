-- ===== src/Serializer/Written.antt =====
-- What an `OutSerializer` has written.
use mathlib.Core.List.{append_assoc}
use str_mod.Base.{
  behind, ℕ, ◌+◌, ◌-◌, ◌/◌, ◌^◌, ◌≤◌, ◌≡◌, refl, sym, ap, ap₂, subst, ◌∙◌, Bool, true, false,
  if◌then◌else◌, leb, ltb, Option, none, some, List, [], ◌++◌, length, length-append, take, drop,
  length-take, length-drop, take_all, arith,
}
use str_mod.Base.{resize, add64, sub64}
use str_mod.Base.{length-resize, take-resize, resize_used}
use str_mod.Serializer.{
  OutSerializer, chain, hton1, hton2, new_serializer, resize_chunk, set_min_suggested_size, store,
  add_raw, add_u1_byte, add_u2_byte, add_string, take_chunk,
}

-- No more bytes than this are written.
abbrev pub limit : ℕ
limit = 2 ^ 31

-- A serializer with the chunk `xs`.
abbrev pub full : List ℕ → ℕ → OutSerializer
full xs pos = record { cur_chunk = some xs; buf = true; chnklen = length xs; cur_pos = pos }

-- A serializer that holds its chunk, with `bs` written to it.
abbrev pub Has : OutSerializer → List ℕ → Type 0
Has s bs =
    (xs : List ℕ) × (s ≡ full xs (length bs)) × (length bs ≤ length xs) × (take (length bs) xs ≡ bs)

-- The step succeeds, and `bs` are written behind.
abbrev pub Writes : (OutSerializer → Option OutSerializer) → List ℕ → Type 0
Writes step bs =
    (s : OutSerializer) (before : List ℕ)
    → Has s before
    → length before + length bs ≤ limit
    → (t : OutSerializer) × (step s ≡ some t) × Has t (before ++ bs)

abbrev grown_size : (n l : ℕ) → ℕ
grown_size n l = if ltb (sub64 n l) 256 then add64 n (n / 16) else add64 n (n / 256)

pub Writes-trans :
    (f g : OutSerializer → Option OutSerializer) (bs cs : List ℕ)
    → Writes f bs
    → Writes g cs
    → Writes (λ s. chain (f s) g) (bs ++ cs)
Writes-trans f g bs cs wf wg s before k h =
    let n = length-append bs cs in
    let (t, e, kt) = wf s before k (omega (arith, h, n)) in
    let (u, d, ku) = wg t (before ++ bs) kt (omega (arith, h, n, length-append before bs)) in
    (u, ap (λ o. chain o g) e ∙ d, subst (Has u) (append_assoc before bs cs) ku)

grown_size_fits : (n l : ℕ) → n ≤ limit → (n ≤ grown_size n l) × (grown_size n l ≤ 2 ^ 32 - 1)
grown_size_fits n l h = ground arith

store_lem :
    (bs xs : List ℕ) (pos : ℕ)
    → pos + length bs ≤ length xs
    → pos + length bs ≤ limit
    → store bs (full xs pos)
      ≡ some (record (full xs pos) {
        cur_chunk = some (take pos xs ++ (bs ++ drop (pos + length bs) xs));
        cur_pos = pos + length bs;
      })
unfolding store
store_lem bs xs pos h l = ground arith

length-behind :
    (pos : ℕ) (bs ys : List ℕ)
    → pos + length bs ≤ length ys
    → length (take pos ys ++ (bs ++ drop (pos + length bs) ys)) ≡ length ys
length-behind pos bs ys h =
    let rest = drop (pos + length bs) ys in
    omega (
      arith,
      h,
      length-append (take pos ys) (bs ++ rest),
      length-append bs rest,
      length-take pos ys,
      length-drop (pos + length bs) ys,
    )

module _ (junk : ℕ) where
  resize_chunk_lem :
      (n : ℕ) (xs : List ℕ) (pos : ℕ)
      → n ≤ limit
      → resize_chunk junk n (full xs pos)
        ≡ some (full (resize junk (grown_size n (length xs)) xs) pos)
  unfolding resize_chunk
  resize_chunk_lem n xs pos h =
      let g = grown_size_fits n (length xs) h in
      let l = length-resize junk (grown_size n (length xs)) xs g.1 in
      let room : ltb (length (resize junk (grown_size n (length xs)) xs)) n ≡ false =
        ground (arith, l, g) in
      ap (λ b. if b then none else some (full (resize junk (grown_size n (length xs)) xs) pos)) room

  -- Room for more bytes does not change those that are there.
  set_min_suggested_size_lem :
      (n pos : ℕ) (xs : List ℕ)
      → n ≤ limit
      → pos ≤ n
      → pos ≤ length xs
      → (ys : List ℕ) × (set_min_suggested_size junk n (full xs pos) ≡ some (full ys pos))
        × (n ≤ length ys)
        × (take pos ys ≡ take pos xs)
  unfolding set_min_suggested_size
  set_min_suggested_size_lem n pos xs h k l = go (ltb (length xs) n) refl
    where
      go :
          (b : Bool)
          → ltb (length xs) n ≡ b
          → (ys : List ℕ) × ((if b then resize_chunk junk n (full xs pos) else some (full xs pos))
              ≡ some (full ys pos))
            × (n ≤ length ys)
            × (take pos ys ≡ take pos xs)
      go true e =
          let size = grown_size n (length xs) in
          let g = grown_size_fits n (length xs) h in
          (
            resize junk size xs,
            resize_chunk_lem n xs pos h,
            omega (arith, length-resize junk size xs g.1, g),
            take-resize junk size pos xs l (omega (arith, k, g)) g.1,
          )
      go false e = (xs, refl, ground (arith, e), refl)

  pub add_raw-Writes : (bs : List ℕ) → Writes (add_raw junk bs) bs
  unfolding add_raw
  add_raw-Writes bs s before (xs, e, f, t) h =
      let pos = length before in
      let n = add64 pos (length bs) in
      let sum : n ≡ pos + length bs = omega (arith, h) in
      let (ys, g, l, k) =
        set_min_suggested_size_lem n pos xs (omega (arith, sum, h)) (omega (arith, sum)) f in
      let zs = take pos ys ++ (bs ++ drop (pos + length bs) ys) in
      let w = behind pos (pos + length bs) bs xs ys refl (omega (arith, l, sum)) k in
      let both : length (before ++ bs) ≡ pos + length bs = length-append before bs in
      let same : length ys ≡ length zs = sym (length-behind pos bs ys (omega (arith, l, sum))) in
      (
        full zs (length (before ++ bs)),
        ap (add_raw junk bs) e
            ∙ ap (λ o. chain o (store bs)) g
            ∙ store_lem bs ys pos (omega (arith, l, sum)) h
            ∙ ap₂
                (λ a b. some (record { cur_chunk = some zs; buf = true; chnklen = a; cur_pos = b }))
                same (sym both),
        (
          zs,
          refl,
          omega (arith, both, w.0),
          ap (λ a. take a zs) both ∙ w.1 ∙ ap (λ bs₀. bs₀ ++ bs) t,
        ),
      )

  pub add_u1_byte-Writes : (n : ℕ) → Writes (add_u1_byte junk n) (hton1 n)
  unfolding add_u1_byte
  add_u1_byte-Writes n = add_raw-Writes (hton1 n)

  pub add_u2_byte-Writes : (n : ℕ) → Writes (add_u2_byte junk n) (hton2 n)
  unfolding add_u2_byte
  add_u2_byte-Writes n = add_raw-Writes (hton2 n)

  pub add_string-Writes :
      (str : List ℕ)
      → length str ≤ 65534
      → Writes (add_string junk str) ((hton2 (length str + 1) ++ str) ++ hton1 0)
  unfolding add_string
  add_string-Writes str l =
      let n : (if leb 65535 (length str) then 65534 else length str) ≡ length str =
        ground (arith, l) in
      let whole : take (length str) str ≡ str = take_all (length str) str (omega arith) in
      let step =
        Writes-trans (λ s. chain (add_u2_byte junk (length str + 1) s) (add_raw junk str))
          (add_u1_byte junk 0) (hton2 (length str + 1) ++ str) (hton1 0)
          (Writes-trans (add_u2_byte junk (length str + 1)) (add_raw junk str)
            (hton2 (length str + 1)) str (add_u2_byte-Writes (length str + 1)) (add_raw-Writes str))
          (add_u1_byte-Writes 0) in
      λ s before k h.
        let (t, e, kt) = step s before k h in
        (
          t,
          ap
                (λ m.
                  chain (chain (add_u2_byte junk (m + 1) s) (add_raw junk (take m str)))
                    (add_u1_byte junk 0))
                n
              ∙ ap
                  (λ bs.
                    chain (chain (add_u2_byte junk (length str + 1) s) (add_raw junk bs))
                      (add_u1_byte junk 0))
                  whole
              ∙ e,
          kt,
        )

  pub new_serializer-Has : (n : ℕ) → Has (new_serializer junk n) []
  unfolding new_serializer
  new_serializer-Has n = (resize junk n [], refl, omega arith, refl)

  pub take_chunk-Has :
      (s : OutSerializer) (bs : List ℕ)
      → Has s bs
      → length bs ≤ limit
      → (t : OutSerializer) × (take_chunk junk s ≡ some (bs, t))
  unfolding take_chunk
  take_chunk-Has s bs (xs, e, f, t) h = (
    record { cur_chunk = none; buf = false; chnklen = 0; cur_pos = 0 },
    ap (take_chunk junk) e
        ∙ ap (λ b. some (b, record { cur_chunk = none; buf = false; chnklen = 0; cur_pos = 0 }))
            (resize_used junk (length bs) xs f (omega (arith, h)) ∙ t),
  )
