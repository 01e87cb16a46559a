-- ===== src/Chunk/Tree.antt =====
-- The classes derived from `StrChunk`, as what their objects hold.
use str_mod.Base.{ℕ, ◌+◌, ◌≤◌, ◌≡◌, if◌then◌else◌, ltb, List, [], ◌∷◌, ◌++◌, length}
use str_mod.LinearExtent.{LinearExtent, extent, sub_extent, length_max, add32}
use str_mod.Chunk.Slices.{slice}

-- A `buffer` is a `BufferChunk` of any kind, whose visit is one block of data. A `group` holds `totalsize_` behind its list, and a `suboption` its type, `raw_`, `rawlen_` and
-- what `cooked_` holds.
mutual
  pub data Chunk : Type 0 where
    buffer : List ℕ → Chunk
    decorator : Chunk → Chunk
    sub : Chunk → LinearExtent → Chunk
    group : Chunks → ℕ → Chunk
    single_char : ℕ → Chunk
    option_negotiation : ℕ → ℕ → Chunk
    suboption : ℕ → Chunk → ℕ → List ℕ → Chunk

  pub data Chunks : Type 0 where
    nil : Chunks
    cons : Chunk → Chunks → Chunks

-- `Length()`
unfoldable pub chunk_length : Chunk → ℕ
chunk_length (buffer bs) = length bs
chunk_length (decorator c) = chunk_length c
chunk_length (sub c e) = e.m_length
chunk_length (group cs total) = total
chunk_length (single_char opt) = 2
chunk_length (option_negotiation request opt) = 3
chunk_length (suboption opt raw rawlen cooked) = add32 5 rawlen

-- `IAC` opt, `IAC` request opt, and what stands around a suboption
abbrev pub single_char_buf : ℕ → List ℕ
single_char_buf opt = 255 ∷ opt ∷ []

abbrev pub negotiation_buf : ℕ → ℕ → List ℕ
negotiation_buf request opt = 255 ∷ request ∷ opt ∷ []

abbrev pub optstart : ℕ → List ℕ
optstart opt = 255 ∷ 250 ∷ opt ∷ []

abbrev pub optend : List ℕ
optend = 255 ∷ 240 ∷ []

abbrev pub snoc : Chunks → Chunk → Chunks
snoc nil d = cons d nil
snoc (cons c cs) d = cons c (snoc cs d)

-- The two ways to add to a `GroupChunk` of that list and that `totalsize_`.
unfoldable pub push_back : Chunks → ℕ → Chunk → Chunk
unfolding chunk_length
push_back cs total d = group (snoc cs d) (add32 total (chunk_length d))

unfoldable pub push_front : Chunks → ℕ → Chunk → Chunk
unfolding chunk_length
push_front cs total d = group (cons d cs) (add32 total (chunk_length d))

-- the constructor's branch for a chunk that is not a `StrSubChunk`
abbrev pub clipped : Chunk → LinearExtent → Chunk
clipped c e =
    let sublen = chunk_length c in
    if ltb sublen (add32 e.m_offset e.m_length)
    then sub c (sub_extent (extent 0 sublen) e)
    else sub c e

-- the constructor of `StrSubChunk`
unfoldable pub str_sub_chunk : Chunk → LinearExtent → Chunk
unfolding sub_extent extent chunk_length
str_sub_chunk (sub c e₀) e = sub c (sub_extent e₀ e)
str_sub_chunk c e = clipped c e

-- What a chunk stands for.
unfoldable mutual
  pub bytes : Chunk → List ℕ
  bytes (buffer bs) = bs
  bytes (decorator c) = bytes c
  bytes (sub c e) = slice e.m_offset e.m_length (bytes c)
  bytes (group cs total) = all_bytes cs
  bytes (single_char opt) = single_char_buf opt
  bytes (option_negotiation request opt) = negotiation_buf request opt
  bytes (suboption opt raw rawlen cooked) = optstart opt ++ (bytes raw ++ optend)

  pub all_bytes : Chunks → List ℕ
  all_bytes nil = []
  all_bytes (cons c cs) = bytes c ++ all_bytes cs

-- The lengths that the objects keep are those of their bytes, and fit in an `unsigned int`.
unfoldable mutual
  unfolding bytes

  pub IsSound : Chunk → Type 0
  IsSound (buffer bs) = length bs ≤ length_max
  IsSound (decorator c) = IsSound c
  IsSound (sub c e) = IsSound c × (e.m_offset + e.m_length ≤ length (bytes c))
  IsSound (group cs total) = AllSound cs × (total ≡ length (all_bytes cs)) × (total ≤ length_max)
  IsSound (single_char opt) = Unit
  IsSound (option_negotiation request opt) = Unit
  IsSound (suboption opt raw rawlen cooked) =
      IsSound raw × (rawlen ≡ length (bytes raw)) × (5 + rawlen ≤ length_max)

  pub AllSound : Chunks → Type 0
  AllSound nil = Unit
  AllSound (cons c cs) = IsSound c × AllSound cs
