-- ===== src/Chunker/Cooked.antt =====
-- A suboption made of its cooked bytes: the constructor of `Suboption` in StrMod/TelnetChunker.cxx
-- that generates the raw data, where each IAC stands twice.
use str_mod.Base.{
  ℕ, ◌+◌, ◌^◌, ◌≤◌, ◌<◌, ◌≡◌, refl, sym, ap, subst, ◌∙◌, Bool, true, false, ◌==◌, if◌then◌else◌,
  Option, some, List, [], ◌∷◌, ◌++◌, length, take, set, replicate, length-set, take-set,
  length-replicate, take_all, arith, ==_iff, add64, suc,
}
use mathlib.Core.List.{append-nil, append_assoc}
use str_mod.Chunk.Tree.{Chunk, buffer, suboption, chunk_length}
use str_mod.Telnet.Chars.{iac}
use str_mod.Telnet.Suboption.{escaped}
use str_mod.Chunker.{◌>>=◌, asserted}

unfoldable pub count_iac : List ℕ → ℕ
count_iac [] = 0
count_iac (c ∷ cs) = (if c == iac then 1 else 0) + count_iac cs

-- the second loop, from `rawbuf[o]` on
unfoldable pub fill : List ℕ → List ℕ → ℕ → List ℕ × ℕ
fill [] rawbuf o = (rawbuf, o)
fill (c ∷ cs) rawbuf o =
    fill cs (if c == iac then set (set rawbuf o c) (suc o) c else set rawbuf o c)
      (if c == iac then suc (suc o) else suc o)

module _ (asserts : Bool) (junk : ℕ) where
  -- The new buffer holds `junk` before it is filled.
  unfoldable pub cooked_to_raw : List ℕ → Option Chunk
  unfolding count_iac fill
  cooked_to_raw cooked =
      let rawlen = add64 (length cooked) (count_iac cooked) in
      let (raw, o) = fill cooked (replicate rawlen junk) 0 in
      if count_iac cooked == 0
      then some (buffer cooked)
      else asserted asserts junk (o == rawlen) (some (buffer raw))

  unfoldable pub new_suboption : ℕ → List ℕ → Option Chunk
  unfolding cooked_to_raw chunk_length
  new_suboption opt_type cooked =
      cooked_to_raw cooked >>= λ raw. some (suboption opt_type raw (chunk_length raw) cooked)

count_iac-escaped : (bs : List ℕ) → length (escaped bs) ≡ length bs + count_iac bs
unfolding count_iac
count_iac-escaped [] = refl
count_iac-escaped (c ∷ cs) = ground (arith, count_iac-escaped cs)

escaped_same : (bs : List ℕ) → count_iac bs ≡ 0 → escaped bs ≡ bs
unfolding count_iac
escaped_same [] h = refl
escaped_same (c ∷ cs) h = ground (arith, escaped_same cs)

-- `bs` stands in the buffer behind what was there before `o`, and it has kept its length.
abbrev Filled : List ℕ → List ℕ → ℕ → List ℕ × ℕ → Type 0
Filled bs rawbuf o r =
    (r.1 ≡ o + length bs)
    × (length r.0 ≡ length rawbuf)
    × (take (o + length bs) r.0 ≡ take o rawbuf ++ bs)

set-Filled :
    (c : ℕ) (bs rawbuf : List ℕ) (o : ℕ) (r : List ℕ × ℕ)
    → o < length rawbuf
    → Filled bs (set rawbuf o c) (suc o) r
    → Filled (c ∷ bs) rawbuf o r
set-Filled c bs rawbuf o r h k = (
  omega (arith, k.0),
  k.1 ∙ length-set rawbuf o c,
  ap (λ n. take n r.0) (omega arith)
      ∙ k.2
      ∙ ap (λ xs. xs ++ bs) (take-set rawbuf o c h)
      ∙ append_assoc (take o rawbuf) (c ∷ []) bs,
)

fill-Filled :
    (cs rawbuf : List ℕ) (o : ℕ)
    → o + length (escaped cs) ≤ length rawbuf
    → Filled (escaped cs) rawbuf o (fill cs rawbuf o)
unfolding fill
fill-Filled [] rawbuf o h =
    (omega arith, refl, ap (λ n. take n rawbuf) (omega arith) ∙ sym (append-nil (take o rawbuf)))
fill-Filled (c ∷ cs) rawbuf o h = go (c == iac) refl h (fill-Filled cs)
  where
    raw : List ℕ
    raw = set rawbuf o c

    l : length raw ≡ length rawbuf
    l = length-set rawbuf o c

    go :
        (q : Bool)
        → (c == iac) ≡ q
        → o + length (if q then iac ∷ iac ∷ escaped cs else c ∷ escaped cs) ≤ length rawbuf
        → ((xs : List ℕ) (i : ℕ)
            → i + length (escaped cs) ≤ length xs
            → Filled (escaped cs) xs i (fill cs xs i))
        → Filled
            (if q then iac ∷ iac ∷ escaped cs else c ∷ escaped cs)
            rawbuf
            o
            (fill cs (if q then set raw (suc o) c else raw) (if q then suc (suc o) else suc o))
    go true e h ih =
        subst
          (λ i. Filled (i ∷ i ∷ escaped cs) rawbuf o (fill cs (set raw (suc o) c) (suc (suc o))))
          ((==_iff c iac).0 e)
          (set-Filled c (c ∷ escaped cs) rawbuf o _ (omega (arith, h)) (
            set-Filled c (escaped cs) raw (suc o) _ (omega (arith, l, h)) (
              ih (set raw (suc o) c) (suc (suc o))
                (omega (arith, l, length-set raw (suc o) c, h)))))
    go false e h ih =
        set-Filled c (escaped cs) rawbuf o _ (omega (arith, h))
          (ih raw (suc o) (omega (arith, l, h)))

-- The raw data are the cooked bytes with each IAC doubled: the assertion at the end holds, and the
-- new buffer is filled exactly.
pub cooked_to_raw-escaped :
    (asserts : Bool) (junk : ℕ) (bs : List ℕ)
    → length (escaped bs) < 2 ^ 64
    → cooked_to_raw asserts junk bs ≡ some (buffer (escaped bs))
unfolding cooked_to_raw
cooked_to_raw-escaped asserts junk bs h = go (count_iac bs == 0) refl
  where
    rawlen : ℕ
    rawlen = add64 (length bs) (count_iac bs)

    n : rawlen ≡ length (escaped bs)
    n = omega (arith, h, count_iac-escaped bs)

    z : length (replicate rawlen junk) ≡ rawlen
    z = length-replicate rawlen junk

    f : Filled (escaped bs) (replicate rawlen junk) 0 (fill bs (replicate rawlen junk) 0)
    f = fill-Filled bs (replicate rawlen junk) 0 (omega (arith, n, z))

    whole : (fill bs (replicate rawlen junk) 0).0 ≡ escaped bs
    whole =
        sym (
          take_all (0 + length (escaped bs)) (fill bs (replicate rawlen junk) 0).0
            (omega (arith, f.1, z, n)))
        ∙ f.2

    go :
        (q : Bool)
        → (count_iac bs == 0) ≡ q
        → (if q
            then some (buffer bs)
            else asserted asserts junk
                ((fill bs (replicate rawlen junk) 0).1 == rawlen)
                (some (buffer (fill bs (replicate rawlen junk) 0).0)))
          ≡ some (buffer (escaped bs))
    go true e = ap (λ xs. some (buffer xs)) (sym (escaped_same bs ((==_iff _ _).0 e)))
    go false e =
        let o : ((fill bs (replicate rawlen junk) 0).1 == rawlen) ≡ true =
          (==_iff _ _).1 (f.0 ∙ omega (arith, n)) in
        rw (o, whole) (holds asserts)
      where
        holds :
            (b : Bool)
            → asserted b junk true (some (buffer (escaped bs))) ≡ some (buffer (escaped bs))
        holds true = refl
        holds false = refl
