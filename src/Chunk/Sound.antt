-- ===== src/Chunk/Sound.antt =====
-- Chunks that keep the right lengths, and what the constructors make of them.
use mathlib.Core.List.{append-nil, append_assoc}
use str_mod.Base.{
  ltb, Bool, true, false, if◌then◌else◌, ℕ, ◌+◌, ◌-◌, ◌≤◌, ◌≡◌, refl, sym, ap, ◌∙◌, ◌⊎◌, min, List,
  ◌++◌, length, length-append, arith,
}
use str_mod.LinearExtent.{LinearExtent, extent, sub_extent, length_max}
use str_mod.LinearExtent.Ranges.{IsValid}
use str_mod.Chunk.Slices.{slice, length-slice, slice_all, slice_within}
use str_mod.Chunk.Tree.{
  Chunk, buffer, decorator, sub, group, single_char, option_negotiation, suboption, Chunks, nil,
  cons, chunk_length, snoc, push_back, push_front, str_sub_chunk, clipped, bytes, all_bytes,
  IsSound, AllSound, optend,
}
use str_mod.LinearExtent.{add32}

-- `Length()` of a sound chunk is the number of its bytes, and fits in an `unsigned int`.
pub chunk_length-bytes :
    (c : Chunk) → IsSound c → (chunk_length c ≡ length (bytes c)) × (chunk_length c ≤ length_max)
unfolding chunk_length IsSound bytes
chunk_length-bytes (buffer bs) s = (refl, s)
chunk_length-bytes (decorator c) s = chunk_length-bytes c s
chunk_length-bytes (sub c e) s = (
  omega (arith, s.1, length-slice e.m_offset e.m_length (bytes c)),
  omega (arith, s.1, chunk_length-bytes c s.0),
)
chunk_length-bytes (group cs total) s = (s.1, s.2)
chunk_length-bytes (single_char opt) s = (refl, omega arith)
chunk_length-bytes (option_negotiation request opt) s = (refl, omega arith)
chunk_length-bytes (suboption opt raw rawlen cooked) s =
    (omega (arith, s.1, s.2, length-append (bytes raw) optend), omega (arith, s.2))

sub_extent_inside :
    (s e : LinearExtent) (n : ℕ)
    → IsValid e
    → n ≤ length_max
    → s.m_offset + s.m_length ≤ n
    → ((sub_extent s e).m_offset + (sub_extent s e).m_length ≤ n)
      × ((sub_extent s e).m_length ≡ min e.m_length (s.m_length - e.m_offset))
      × (((sub_extent s e).m_offset ≡ s.m_offset + e.m_offset) ⊎ ((sub_extent s e).m_length ≡ 0))
unfolding sub_extent
sub_extent_inside s e n v m h = ground arith

-- The part that a subextent of a range inside of the bytes denotes.
slice-sub_extent :
    (s e : LinearExtent) (xs : List ℕ)
    → IsValid e
    → length xs ≤ length_max
    → s.m_offset + s.m_length ≤ length xs
    → slice (sub_extent s e).m_offset (sub_extent s e).m_length xs
      ≡ slice e.m_offset e.m_length (slice s.m_offset s.m_length xs)
slice-sub_extent s e xs v m h =
    let facts = sub_extent_inside s e (length xs) v m h in
    slice_within s.m_offset s.m_length e.m_offset e.m_length (sub_extent s e).m_offset
      (sub_extent s e).m_length xs h facts.1 facts.2

unclipped : (a b n : ℕ) → a + b ≤ length_max → ltb n (add32 a b) ≡ false → a + b ≤ n
unclipped a b n v h = ground arith

clipped_lem :
    (c : Chunk) (e : LinearExtent)
    → IsSound c
    → IsValid e
    → IsSound (clipped c e) × (bytes (clipped c e) ≡ slice e.m_offset e.m_length (bytes c))
unfolding IsSound bytes extent
clipped_lem c e s v =
    let len = chunk_length-bytes c s in
    let n = chunk_length c in let end = add32 e.m_offset e.m_length in choose n len (ltb n end) refl
  where
    choose :
        (n : ℕ)
        → (n ≡ length (bytes c)) × (n ≤ length_max)
        → (t : Bool) → ltb n (add32 e.m_offset e.m_length) ≡ t
        → IsSound (if t then sub c (sub_extent (extent 0 n) e) else sub c e)
          × (bytes (if t then sub c (sub_extent (extent 0 n) e) else sub c e)
              ≡ slice e.m_offset e.m_length (bytes c))
    choose n len true h =
        let fits : length (bytes c) ≤ length_max = omega (arith, len) in
        let inside : 0 + n ≤ length (bytes c) = omega (arith, len) in
        (
          (s, (sub_extent_inside (extent 0 n) e (length (bytes c)) v fits inside).0),
          slice-sub_extent (extent 0 n) e (bytes c) v fits inside
              ∙ ap (λ bs. slice e.m_offset e.m_length bs)
                  (slice_all n (bytes c) (omega (arith, len))),
        )
    choose n len false h = ((s, omega (arith, len, unclipped e.m_offset e.m_length n v h)), refl)

-- `StrSubChunk` of a sound chunk and a valid extent is sound, and stands for the bytes of the chunk
-- in that extent, however far the extent reaches, and also if the chunk is a `StrSubChunk` itself.
pub str_sub_chunk-IsSound :
    (c : Chunk) (e : LinearExtent)
    → IsSound c
    → IsValid e
    → IsSound (str_sub_chunk c e)
      × (bytes (str_sub_chunk c e) ≡ slice e.m_offset e.m_length (bytes c))
unfolding str_sub_chunk IsSound bytes
str_sub_chunk-IsSound (sub c e₀) e s v =
    let len = chunk_length-bytes c s.0 in
    let fits : length (bytes c) ≤ length_max = omega (arith, len) in
    (
      (s.0, (sub_extent_inside e₀ e (length (bytes c)) v fits s.1).0),
      slice-sub_extent e₀ e (bytes c) v fits s.1,
    )
str_sub_chunk-IsSound (buffer bs) e s v = clipped_lem (buffer bs) e s v
str_sub_chunk-IsSound (decorator c) e s v = clipped_lem (decorator c) e s v
str_sub_chunk-IsSound (group cs total) e s v = clipped_lem (group cs total) e s v
str_sub_chunk-IsSound (single_char opt) e s v = clipped_lem (single_char opt) e s v
str_sub_chunk-IsSound (option_negotiation request opt) e s v =
    clipped_lem (option_negotiation request opt) e s v
str_sub_chunk-IsSound (suboption opt raw rawlen cooked) e s v =
    clipped_lem (suboption opt raw rawlen cooked) e s v

all_bytes-snoc : (cs : Chunks) (d : Chunk) → all_bytes (snoc cs d) ≡ all_bytes cs ++ bytes d
unfolding bytes
all_bytes-snoc nil d = append-nil (bytes d)
all_bytes-snoc (cons c cs) d =
    ap (λ bs. bytes c ++ bs) (all_bytes-snoc cs d)
    ∙ sym (append_assoc (bytes c) (all_bytes cs) (bytes d))

snoc-AllSound : (cs : Chunks) (d : Chunk) → AllSound cs → IsSound d → AllSound (snoc cs d)
unfolding IsSound
snoc-AllSound nil d s t = (t, tt)
snoc-AllSound (cons c cs) d s t = (s.0, snoc-AllSound cs d s.1 t)

-- A sound chunk added to either end of a sound `GroupChunk` makes it a sound one again and stands
-- there, as long as the lengths together fit in an `unsigned int`.
pub push-IsSound :
    (cs : Chunks) (total : ℕ) (d : Chunk)
    → IsSound (group cs total)
    → IsSound d
    → total + chunk_length d ≤ length_max
    → (IsSound (push_back cs total d) × IsSound (push_front cs total d))
      × (bytes (push_back cs total d) ≡ all_bytes cs ++ bytes d)
      × (bytes (push_front cs total d) ≡ bytes d ++ all_bytes cs)
unfolding push_back push_front IsSound bytes
push-IsSound cs total d s t h =
    let len = chunk_length-bytes d t in
    let back = all_bytes-snoc cs d in
    (
      (
        (
          snoc-AllSound cs d s.0 t,
          omega (arith, len, h, s.1, ap length back, length-append (all_bytes cs) (bytes d)),
          omega (arith, len, h, s.1),
        ),
        (
          (t, s.0),
          omega (arith, len, h, s.1, length-append (bytes d) (all_bytes cs)),
          omega (arith, len, h, s.1),
        ),
      ),
      back,
      refl,
    )
