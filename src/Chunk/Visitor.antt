-- ===== src/Chunk/Visitor.antt =====
-- StrMod/UseTrackingVisitor.cxx: a visitor that keeps which part of what it visits is used, and the
-- chunks' `acceptVisitor`, which lead it through what they hold.
use str_mod.Base.{
  ℕ, ◌%◌, ◌==◌, Bool, not, ◌&&◌, ◌||◌, if◌then◌else◌, leb, Option, none, some, List, [], ◌∷◌, ◌++◌,
  length, u32_mod,
}
use str_mod.LinearExtent.{
  LinearExtent, extent, full_extent, end_offset, intersection, sub_extent, move_left,
}
use str_mod.Chunk.Tree.{
  Chunk, buffer, decorator, sub, group, single_char, option_negotiation, suboption, Chunks, nil,
  cons, chunk_length, single_char_buf, negotiation_buf, optstart, optend,
}
use str_mod.LinearExtent.{add32}

-- The calls of the derived class. The data starts at an offset of a block, which the visitor passes
-- as a pointer.
pub data Call : Type 0 where
  use_visit_str_chunk : Chunk → LinearExtent → Call
  use_visit_data_block : ℕ → ℕ → List ℕ → Call

pub record Visitor : Type 0 where
  pub curext : LinearExtent
  pub curpos : ℕ
  pub curchnk : Option Chunk
  pub calls : List Call

abbrev pub called : Call → Visitor → Visitor
called c v = record v { calls = v.calls ++ (c ∷ []) }

unfoldable pub compute_used : Visitor → LinearExtent → LinearExtent
unfolding intersection sub_extent move_left extent
compute_used v used =
    let overlap = intersection (extent v.curpos used.m_length) v.curext in
    sub_extent used (move_left overlap v.curpos)

-- `accept` is the chunk's `acceptVisitor`. The three members are put back when it returns.
unfoldable pub do_accept_visitor : (Visitor → Visitor) → Chunk → LinearExtent → Visitor → Visitor
do_accept_visitor accept chunk chunkext v =
    let w = accept (record v { curchnk = some chunk; curpos = 0; curext = chunkext }) in
    record w { curchnk = v.curchnk; curpos = v.curpos; curext = v.curext }

module _ (ignorezeros : Bool) where
  -- the guard that all three visits begin with
  unfoldable pub is_past : Visitor → Bool
  unfolding end_offset
  is_past v = ignorezeros && leb (end_offset v.curext) v.curpos

  -- from the test of the used length on
  unfoldable pub use_chunk :
      (Visitor → Visitor)
      → Chunk
      → (tested : LinearExtent) → (used : LinearExtent) → Visitor
      → Visitor
  unfolding do_accept_visitor
  use_chunk accept chunk tested used v = do_accept_visitor accept chunk used (
      if not (tested.m_length == 0) || not ignorezeros
      then called (use_visit_str_chunk chunk used) v
      else v)

  -- `visitStrChunk(chunk)`
  unfoldable pub visit_str_chunk : (Visitor → Visitor) → Chunk → Visitor → Visitor
  unfolding is_past use_chunk compute_used chunk_length extent
  visit_str_chunk accept chunk v =
      let chunklen = chunk_length chunk in
      let used = compute_used v (extent 0 chunklen) in
      let w = use_chunk accept chunk used used v in
      if is_past v then v else record w { curpos = add32 w.curpos chunklen }

  -- `visitStrChunk(chunk, used)`
  unfoldable pub visit_str_chunk_part :
      (Visitor → Visitor) → Chunk → LinearExtent → Visitor → Visitor
  unfolding is_past use_chunk compute_used chunk_length extent sub_extent
  visit_str_chunk_part accept chunk used v =
      let chnkused = compute_used v (sub_extent (extent 0 (chunk_length chunk)) used) in
      let w = use_chunk accept chunk used chnkused v in
      if is_past v then v else record w { curpos = add32 w.curpos used.m_length }

  -- `visitDataBlock`; the length becomes an `unsigned int` where the extent is made.
  unfoldable pub visit_data_block : List ℕ → Visitor → Visitor
  unfolding is_past compute_used extent
  visit_data_block data_ v =
      let used = compute_used v (extent 0 (length data_ % u32_mod)) in
      let w =
        if not (used.m_length == 0) || not ignorezeros
        then called (use_visit_data_block used.m_offset used.m_length data_) v
        else v in
      if is_past v then v else record w { curpos = add32 w.curpos (length data_) }

  -- `acceptVisitor` of each class
  unfoldable mutual
    unfolding visit_str_chunk visit_str_chunk_part visit_data_block

    pub accept_visitor : Chunk → Visitor → Visitor
    accept_visitor (buffer bs) v = visit_data_block bs v
    accept_visitor (decorator c) v = visit_str_chunk (accept_visitor c) c v
    accept_visitor (sub c e) v = visit_str_chunk_part (accept_visitor c) c e v
    accept_visitor (group cs total) v = accept_all cs v
    accept_visitor (single_char opt) v = visit_data_block (single_char_buf opt) v
    accept_visitor (option_negotiation request opt) v =
        visit_data_block (negotiation_buf request opt) v
    accept_visitor (suboption opt raw rawlen cooked) v =
        visit_data_block optend
          (visit_str_chunk (accept_visitor raw) raw (visit_data_block (optstart opt) v))

    pub accept_all : Chunks → Visitor → Visitor
    accept_all nil v = v
    accept_all (cons c cs) v = accept_all cs (visit_str_chunk (accept_visitor c) c v)

  unfoldable pub start_visit : Chunk → Visitor → Visitor
  unfolding visit_str_chunk accept_visitor full_extent
  start_visit root v =
      visit_str_chunk (accept_visitor root) root (record v { curpos = 0; curext = full_extent })

abbrev pub new_visitor : Visitor
unfolding extent
new_visitor = record { curext = extent 0 0; curpos = 0; curchnk = none; calls = [] }
