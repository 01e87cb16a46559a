-- ===== src/Chunker/Gathered.antt =====
-- The incoming chunks that a builder keeps until all of their bytes are parsed.
use mathlib.Core.List.{append-nil}
use str_mod.Base.{
  ℕ, ◌+◌, ◌≤◌, ◌<◌, ◌≡◌, refl, ap, ◌∙◌, Bool, true, false, ◌==◌, Option, none, some, List, [], ◌++◌,
  length, arith, add64,
}
use str_mod.LinearExtent.{add32, length_max}
use str_mod.Chunk.Tree.{
  Chunk, buffer, decorator, sub, group, single_char, option_negotiation, suboption, nil, cons,
  chunk_length, push_back, bytes, IsSound,
}
use str_mod.Chunk.Sound.{chunk_length-bytes, push-IsSound}
use str_mod.Telnet.State.{max_pos}
use str_mod.Chunker.{Builder, new_group, joined, add_incoming, set_incoming}

-- the bytes that are kept
abbrev pub kept : Option Chunk → List ℕ
kept none = []
kept (some c) = bytes c

abbrev pub KeptSound : Option Chunk → Type 0
KeptSound none = Unit
KeptSound (some c) = IsSound c

abbrev Joins : Chunk → Chunk → Chunk → Type 0
Joins d c g = IsSound g × (bytes g ≡ bytes d ++ bytes c)

new_group-Joins :
    (d c : Chunk)
    → IsSound d
    → IsSound c
    → length (bytes d) + length (bytes c) ≤ length_max
    → Joins d c (new_group d c)
unfolding IsSound bytes new_group push_back
new_group-Joins d c s t h =
    let m = chunk_length-bytes d s in
    let n = chunk_length-bytes c t in
    let one = append-nil (bytes d) in
    let len : add32 0 (chunk_length d) ≡ length (bytes d ++ []) =
      omega (arith, m, h, ap length one) in
    let r =
      push-IsSound (cons d nil) (add32 0 (chunk_length d)) c ((s, tt), len, omega (arith, m, h)) t
        (omega (arith, m, n, h)) in
    (r.0.0, r.1 ∙ ap (λ bs. bs ++ bytes c) one)

joined-Joins :
    (unique : Bool) (d c : Chunk)
    → IsSound d
    → IsSound c
    → length (bytes d) + length (bytes c) ≤ length_max
    → Joins d c (joined unique d c)
unfolding joined IsSound bytes
joined-Joins true (group cs total) c s t h =
    let n = chunk_length-bytes c t in
    let r = push-IsSound cs total c s t (omega (arith, n, s.1, h)) in (r.0.0, r.1)
joined-Joins true (buffer bs) c s t h = new_group-Joins (buffer bs) c s t h
joined-Joins true (decorator d) c s t h = new_group-Joins (decorator d) c s t h
joined-Joins true (sub d e) c s t h = new_group-Joins (sub d e) c s t h
joined-Joins true (single_char o) c s t h = new_group-Joins (single_char o) c s t h
joined-Joins true (option_negotiation n o) c s t h =
    new_group-Joins (option_negotiation n o) c s t h
joined-Joins true (suboption o raw n xs) c s t h = new_group-Joins (suboption o raw n xs) c s t h
joined-Joins false d c s t h = new_group-Joins d c s t h

-- What is kept is a chunk of that length, or none.
abbrev pub KeepsLength : Builder → Type 0
KeepsLength b = KeptSound b.curchunk × (b.curlen ≡ length (kept b.curchunk))

-- A chunk that is not empty is put behind what is kept, whether or not a group is added to.
pub add_incoming_lem :
    (junk : ℕ) (unique : Bool) (c : Chunk) (b : Builder)
    → KeepsLength b
    → IsSound c
    → 0 < length (bytes c)
    → b.curlen + length (bytes c) ≤ max_pos
    → (g : Chunk) × (add_incoming false junk unique c b
        ≡ some (set_incoming g (b.curlen + length (bytes c)) b))
      × IsSound g
      × (bytes g ≡ kept b.curchunk ++ bytes c)
unfolding add_incoming
add_incoming_lem junk unique c b k s p h = go b.curchunk k.0 k.1
  where
    n : chunk_length c ≡ length (bytes c)
    n = (chunk_length-bytes c s).0

    filled : (chunk_length c == 0) ≡ false
    filled = ground (arith, n)

    sum : add64 b.curlen (chunk_length c) ≡ b.curlen + length (bytes c)
    sum = omega (arith, n)

    go :
        (o : Option Chunk)
        → KeptSound o
        → b.curlen ≡ length (kept o)
        → let t = record b { curchunk = o } in
          (g : Chunk) × (add_incoming false junk unique c t
            ≡ some (set_incoming g (b.curlen + length (bytes c)) t))
          × IsSound g
          × (bytes g ≡ kept o ++ bytes c)
    go none r l =
        (c, rw filled (ap (λ m. some (set_incoming c m b)) (omega (arith, n, l))), s, refl)
    go (some d) r l =
        let j = joined-Joins unique d c r s (omega (arith, l)) in
        (joined unique d c, rw (filled, sum), j.0, j.1)
