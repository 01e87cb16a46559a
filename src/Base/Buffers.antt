-- ===== src/Base/Buffers.antt =====
-- Buffers of bytes that change their length, and words of 64 bits.
use mathlib.Core.List.{append_assoc}
use Prim.Native.Nat.{ℕ, ◌+◌, ◌-◌, ◌%◌, ◌≤◌, ◌^◌}
use mathlib.Core.Path.{◌≡◌, sym, ap, ◌∙◌}
use mathlib.Core.List.{List, ◌++◌}
use native.Mathlib.Omega.{arith}
use str_mod.Base.Tests.{u32_mod, u64_mod}
use str_mod.Base.Lists.{
  length, length-append, take, drop, replicate, length-take, length-replicate, take-append,
  take_front, take_all,
}

abbrev pub add64 : ℕ → ℕ → ℕ
add64 a b = (a + b) % u64_mod

abbrev pub sub64 : ℕ → ℕ → ℕ
sub64 a b = (a + u64_mod - b) % u64_mod

-- `resize` of a buffer, whose argument is an `unsigned int`: the bytes that both sizes have
-- are kept, and new ones are whatever the storage holds, `junk` here.
unfoldable pub resize : ℕ → ℕ → List ℕ → List ℕ
resize junk n xs = take (n % u32_mod) xs ++ replicate (n % u32_mod - length xs) junk

-- A buffer that is resized keeps what both sizes have.
pub take-resize :
    (junk n used : ℕ) (xs : List ℕ)
    → used ≤ length xs
    → used ≤ n
    → n ≤ 2 ^ 32 - 1
    → take used (resize junk n xs) ≡ take used xs
unfolding resize
take-resize junk n used xs h k l =
    take-append used (n % u32_mod) xs (replicate (n % u32_mod - length xs) junk)
      (omega (arith, k, l)) h

pub length-resize : (junk n : ℕ) (xs : List ℕ) → n ≤ 2 ^ 32 - 1 → length (resize junk n xs) ≡ n
unfolding resize
length-resize junk n xs h =
    length-append (take (n % u32_mod) xs) (replicate (n % u32_mod - length xs) junk)
    ∙ omega
        (arith, h, length-take (n % u32_mod) xs, length-replicate (n % u32_mod - length xs) junk)

-- A buffer that is cut to its first bytes.
pub resize_used :
    (junk used : ℕ) (xs : List ℕ)
    → used ≤ length xs
    → used ≤ 2 ^ 32 - 1
    → resize junk used xs ≡ take used xs
resize_used junk used xs h l =
    sym (take_all used (resize junk used xs) (omega (arith, length-resize junk used xs l)))
    ∙ take-resize junk used used xs h (omega arith) l

-- Bytes written behind the used part of a buffer.
pub behind :
    (used sum : ℕ) (buf xs ys : List ℕ)
    → sum ≡ used + length buf
    → used ≤ length ys
    → take used ys ≡ take used xs
    → let zs = take used ys ++ (buf ++ drop sum ys) in
      (sum ≤ length zs) × (take sum zs ≡ take used xs ++ buf)
behind used sum buf xs ys s f e =
    let front = take used ys ++ buf in
    let assoc = append_assoc (take used ys) buf (drop sum ys) in
    let n : sum ≡ length front =
      omega (arith, s, f, length-append (take used ys) buf, length-take used ys) in
    (
      omega (arith, n, ap length assoc, length-append front (drop sum ys)),
      ap (take sum) (sym assoc) ∙ take_front sum front (drop sum ys) n ∙ ap (λ bs. bs ++ buf) e,
    )
