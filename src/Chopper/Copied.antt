-- ===== src/Chopper/Copied.antt =====
-- Bytes in the buffer of a chopper.
use str_mod.Base.{
  resize, add64, length-resize, take-resize, behind, ℕ, ◌+◌, ◌/◌, ◌≤◌, ◌≡◌, refl, max, Bool, true,
  false, if◌then◌else◌, ltb, Option, none, some, List, ◌++◌, length, length-append, take, drop,
  replicate, length-take, take_front, arith,
}
use str_mod.LinearExtent.{length_max}
use str_mod.Chopper.{copied}
use str_mod.Chopper.Held.{cur, CurFits, limit}

grown_keeps :
    (t : Bool) (junk used grown : ℕ) (xs : List ℕ)
    → used ≤ length xs
    → used ≤ grown
    → grown ≤ length_max
    → let ys = if t then resize junk grown xs else xs in
      (used ≤ length ys) × (take used ys ≡ take used xs)
grown_keeps true junk used grown xs f h l =
    (omega (arith, h, length-resize junk grown xs l), take-resize junk grown used xs f h l)
grown_keeps false junk used grown xs f h l = (f, refl)

module _ (junk : ℕ) where
  pub copied_lem :
      (foundchar : Bool) (count : ℕ) (buf : List ℕ) (o : Option (List ℕ)) (used : ℕ)
      → CurFits o used
      → count ≡ length buf
      → count ≤ 16
      → length (cur o used) ≤ limit
      → let r = copied junk foundchar count buf o used in
        (r.1 ≤ length r.0) × (take r.1 r.0 ≡ cur o used ++ buf)
  unfolding copied
  copied_lem foundchar count buf none used f n c h =
      let rest = drop count (replicate (if foundchar then count else 32) junk) in
      (omega (arith, n, length-append buf rest), take_front count buf rest n)
  copied_lem foundchar count buf (some xs) used f n c h =
      let used≤ : used ≤ limit = omega (arith, f, h, length-take used xs) in
      let sum = add64 used count in
      let s : sum ≡ used + count = omega (arith, used≤, c) in
      let grown = if foundchar then sum else max (add64 used (used / 2)) sum in
      let big : (used + count ≤ grown) × (grown ≤ length_max) = ground arith in
      let ys = if ltb (length xs) sum then resize junk grown xs else xs in
      let k = grown_keeps (ltb (length xs) sum) junk used grown xs f (omega (arith, big)) big.1 in
      behind used sum buf xs ys (omega (arith, s, n)) k.0 k.1
