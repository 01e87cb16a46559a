-- ===== src/Chunk/Apply.antt =====
-- StrMod/ApplyVisitor.cxx: a function applied to the data of a chunk, or of an extent of it.
use str_mod.Base.{◌≡◌, ◌∙◌, true, Option, none, some}
use str_mod.LinearExtent.{LinearExtent}
use str_mod.LinearExtent.Ranges.{IsValid}
use str_mod.Chunk.Slices.{slice}
use str_mod.Chunk.Tree.{Chunk, str_sub_chunk, bytes, IsSound}
use str_mod.Chunk.Sound.{str_sub_chunk-IsSound}
use str_mod.Chunk.Calls.{used_data, AllWithin}
use str_mod.Chunk.Visitor.{new_visitor, Visitor, start_visit}
use str_mod.Chunk.Visited.{start_visit-bytes}

-- `apply`; the extent is there if `extent_used_` is set. The function gets the data of the calls.
unfoldable pub apply : Chunk → Option LinearExtent → Visitor → Visitor
unfolding start_visit str_sub_chunk
apply chunk none v = start_visit true chunk v
apply chunk (some extent) v = start_visit true (str_sub_chunk chunk extent) v

-- `for_each` over a sound chunk and a valid extent, which may reach past the chunk's end, applies
-- the function to data that together are the chunk's bytes in that extent, and reads nothing
-- outside of a block.
pub apply-bytes :
    (chunk : Chunk) (extent : LinearExtent)
    → IsSound chunk
    → IsValid extent
    → (used_data (apply chunk (some extent) new_visitor).calls
        ≡ slice extent.m_offset extent.m_length (bytes chunk))
      × AllWithin (apply chunk (some extent) new_visitor).calls
unfolding apply
apply-bytes chunk extent s v =
    let made = str_sub_chunk-IsSound chunk extent s v in
    let k = start_visit-bytes true (str_sub_chunk chunk extent) new_visitor made.0 in
    (k.0 ∙ made.1, k.1 tt)
