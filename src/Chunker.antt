-- ===== src/Chunker.antt =====
-- StrMod/TelnetChunker.cxx: the builder that makes chunks of what the parser reports, and the
-- processing of an incoming chunk.
use str_mod.Base.{
  ℕ, ◌^◌, ◌*◌, ◌%◌, Bool, true, false, not, ◌&&◌, ◌||◌, ltb, leb, ◌==◌, if◌then◌else◌, Option, none,
  some, List, [], ◌∷◌, ◌++◌, u32_mod, add64, sub64,
}
use str_mod.LinearExtent.{extent, add32}
use str_mod.Chunk.Slices.{slice}
use str_mod.Chunk.Tree.{
  Chunk, group, single_char, option_negotiation, suboption, nil, cons, chunk_length, str_sub_chunk,
  push_back,
}
use str_mod.Chunk.Visitor.{Call, use_visit_str_chunk, use_visit_data_block, new_visitor}
use str_mod.Chunk.Apply.{apply}
use str_mod.Telnet.State.{Parser, Event, data_block, char_command, negotiation_command, Step, done}
use str_mod.Telnet.State
use str_mod.Telnet.Parser.{process_data, end_of_chunk, drop_bytes, reset}
mod Built
mod Fed
mod Gathered
mod Tuned
mod Trimmed
mod Processed
pub mod Cooked
mod Idle
mod Sent
mod Tests

-- A null pointer is `none` in `curchunk`.
pub record Builder : Type 0 where
  pub chunks : List Chunk
  pub curchunk : Option Chunk
  pub curlen : ℕ

-- `none` is a fault: an assertion that fails, a null pointer that is read through, or a null chunk
-- that is queued.
infixl 5 ◌>>=◌
abbrev pub ◌>>=◌ {ℓ κ} : {A : Type ℓ} {B : Type κ} → Option A → (A → Option B) → Option B
none >>= f = none
some a >>= f = f a

abbrev pub is_there {ℓ} : {A : Type ℓ} → Option A → Bool
is_there none = false
is_there (some a) = true

abbrev pub has_data : Builder → Bool
has_data b = elim b.chunks [ [] ↦ false | c ∷ cs ↦ true ]

abbrev pub clear_incoming : Builder → Builder
clear_incoming b = record b { curchunk = none; curlen = 0 }

abbrev pub set_incoming : Chunk → ℕ → Builder → Builder
set_incoming c inlen b = record b { curchunk = some c; curlen = inlen }

abbrev pub add_outgoing : Chunk → Builder → Builder
add_outgoing c b = record b { chunks = b.chunks ++ (c ∷ []) }

-- The extent's numbers are of type `unsigned int`.
unfoldable pub make_data_ptr : ℕ → ℕ → Builder → Option Chunk
unfolding str_sub_chunk extent
make_data_ptr regionbegin regionend b =
    if regionbegin == 0 && regionend == b.curlen
    then b.curchunk
    else b.curchunk >>= λ c.
        some
          (str_sub_chunk c (extent (regionbegin % u32_mod) (sub64 regionend regionbegin % u32_mod)))

-- the branch of `addIncoming` for a chunk behind others; `unique` says whether nobody else holds
-- what is there
abbrev pub new_group : Chunk → Chunk → Chunk
unfolding push_back chunk_length
new_group d c = push_back (cons d nil) (add32 0 (chunk_length d)) c

unfoldable pub joined : Bool → Chunk → Chunk → Chunk
unfolding new_group
joined true (group cs total) c = push_back cs total c
joined unique d c = new_group d c

-- the most bytes that a suboption may have before it is complete
abbrev pub max_suboptsize : ℕ
max_suboptsize = 64 * 1024

pub record Chunker : Type 0 where
  pub parser : Parser
  pub builder : Builder
  pub incoming : Option Chunk
  pub outgoing : Option Chunk
  pub outgoing_ready : Bool

abbrev pub drop_front : ℕ → Chunker → Chunker
drop_front n k = record k { parser = drop_bytes n k.parser }

abbrev pub without_incoming : Chunker → Chunker
without_incoming k = record k { builder = clear_incoming k.builder }

-- Whether assertions are compiled in, the byte that new storage holds, and `unique` as above.
module _ (asserts : Bool) (junk : ℕ) where
  abbrev pub asserted {ℓ} : {A : Type ℓ} → Bool → Option A → Option A
  asserted test k = if asserts && not test then none else k

  unfoldable pub add_data_block : ℕ → ℕ → Builder → Option Builder
  unfolding make_data_ptr
  add_data_block regionbegin regionend b =
      asserted
        (is_there b.curchunk
          && leb regionbegin regionend
          && leb regionbegin b.curlen
          && leb regionend b.curlen)
        (if regionend == regionbegin
          then some b
          else make_data_ptr regionbegin regionend b >>= λ c. some (add_outgoing c b))

  -- The constructor of `Suboption` asks `data` for its length; without a region that is null.
  unfoldable pub add_suboption : ℕ → ℕ → ℕ → List ℕ → Builder → Option Builder
  unfolding make_data_ptr chunk_length
  add_suboption opt_type regionbegin regionend cooked b =
      asserted
        (is_there b.curchunk
          && ltb regionbegin regionend
          && ltb regionbegin b.curlen
          && leb regionend b.curlen)
        ((if ltb regionbegin regionend then make_data_ptr regionbegin regionend b else none)
          >>= λ raw. some (add_outgoing (suboption opt_type raw (chunk_length raw) cooked) b))

  -- what the builder does when the parser calls it
  unfoldable pub build : Event → Builder → Option Builder
  unfolding add_data_block add_suboption
  build (data_block b e) t = add_data_block b e t
  build (char_command c) t = some (add_outgoing (single_char c) t)
  build (negotiation_command n o) t =
      asserted (leb 251 n && leb n 254) (some (add_outgoing (option_negotiation n o) t))
  build (State.suboption o b e xs) t = add_suboption o b e xs t

  unfoldable pub build_all : List Event → Builder → Option Builder
  unfolding build
  build_all [] b = some b
  build_all (e ∷ es) b = build e b >>= build_all es

  unfoldable pub add_incoming : Bool → Chunk → Builder → Option Builder
  unfolding chunk_length joined
  add_incoming unique c b =
      let inlen = chunk_length c in
      asserted (ltb 0 inlen) (
        if inlen == 0
        then some b
        else asserted
            (is_there b.curchunk && ltb 0 b.curlen || not (is_there b.curchunk) && b.curlen == 0)
            (elim b.curchunk [
              | none ↦ some (set_incoming c inlen b)
              | some d ↦
                  let g = joined unique d c in
                  asserted (add64 b.curlen inlen == chunk_length g)
                    (some (set_incoming g (add64 b.curlen inlen) b))
            ]
              >>= λ t. asserted (t.curlen == add64 b.curlen inlen) (some t)))

  -- the parser fed with the blocks that `for_each` applies `DataFunctor` to
  unfoldable pub feed_calls : List Call → Parser → Step
  unfolding process_data
  feed_calls [] p = done p []
  feed_calls (use_visit_str_chunk c e ∷ cs) p = feed_calls cs p
  feed_calls (use_visit_data_block start len bs ∷ cs) p =
      State.◌>>=◌ (process_data asserts junk (slice start len bs) p) (feed_calls cs)

  unfoldable pub parse_incoming : Chunk → Parser → Step
  unfolding feed_calls apply end_of_chunk
  parse_incoming c p =
      State.◌>>=◌ (feed_calls (apply c none new_visitor).calls p) (end_of_chunk asserts junk)

  -- a step of the parser with the builder that it calls
  unfoldable pub run_step : Step → Chunker → Option Chunker
  unfolding build_all
  run_step s k =
      s >>= λ (p, es). build_all es k.builder >>= λ b. some (record k { parser = p; builder = b })

  unfoldable pub reset_parser : Chunker → Option Chunker
  unfolding run_step reset
  reset_parser k = run_step (reset asserts junk k.parser) k

  -- the end of `processIncoming`
  unfoldable pub deliver : Chunker → Option Chunker
  deliver k = asserted (has_data k.builder) (elim k.builder.chunks [
    | [] ↦ some (record k { incoming = none })
    | c ∷ cs ↦ some (record k {
      builder = record (k.builder) { chunks = cs };
      incoming = elim cs [ [] ↦ none | d ∷ ds ↦ k.incoming ];
      outgoing = some c;
      outgoing_ready = true;
    })
  ])

  -- the branch for an empty chunk
  unfoldable pub process_empty : Chunk → Chunker → Option Chunker
  process_empty c k =
      (if k.parser.regionbegin == k.builder.curlen
        then some k
        else reset_parser k >>= λ t. asserted (t.parser.regionbegin == t.builder.curlen) (some t))
      >>= λ t.
          let u = without_incoming (drop_front t.parser.regionbegin t) in
          some (record u { builder = add_outgoing c u.builder })

  -- what follows `endOfChunk`, with the early return where the parser is reset
  unfoldable pub trim : Chunk → ℕ → Chunker → Option Chunker
  trim c inlen k =
      let regionbegin = k.parser.regionbegin in
      let totallen = k.builder.curlen in
      asserted (leb regionbegin totallen) (
        if ltb max_suboptsize (sub64 totallen regionbegin)
        then (reset_parser k >>= λ t. asserted (t.parser.regionbegin == totallen) (
            let u = without_incoming (drop_front totallen t) in
            if has_data u.builder then deliver u else some (record u { incoming = none })))
        else if regionbegin == totallen
        then deliver (without_incoming (drop_front totallen k))
        else asserted (leb inlen totallen) (
            deliver (
              if not (regionbegin == 0) && leb (sub64 totallen regionbegin) inlen
              then (let u = drop_front (sub64 totallen inlen) k in
                  record u { builder = set_incoming c inlen u.builder })
              else k)))

  unfoldable pub process_incoming : Bool → Chunk → Chunker → Option Chunker
  process_incoming unique c k =
      if has_data k.builder
      then deliver k
      else if chunk_length c == 0
      then process_empty c k >>= deliver
      else add_incoming unique c k.builder >>= λ b.
          run_step (parse_incoming c k.parser) (record k { builder = b })
          >>= trim c (chunk_length c)
