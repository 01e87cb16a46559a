-- ===== src/Chunk/Tests.antt =====
-- Runs of the chunks on small data.
use str_mod.Base.{◌==◌, ◌++◌, ◌≡◌, refl, true, false, some, [], ◌∷◌, length, get_elem?, ltb, arith}
use str_mod.LinearExtent.{extent}
use str_mod.Chunk.Slices.{slice}
use str_mod.Chunk.Tree.{
  Chunk, buffer, sub, group, suboption, nil, cons, Chunks, push_back, push_front, str_sub_chunk,
  bytes, all_bytes, IsSound, chunk_length,
}
use str_mod.Chunk.Sound.{str_sub_chunk-IsSound, push-IsSound}
use str_mod.Chunk.Calls.{used_data, AllWithin}
use str_mod.Chunk.Visitor.{new_visitor, start_visit}
use str_mod.Chunk.Visited.{start_visit-bytes}
use str_mod.Chunk.Apply.{apply, apply-bytes}
use str_mod.Chunk.Iterator.{
  make_shared, move_forward, move_backward, deref, is_equal, is_less_than, distance,
}
use str_mod.LinearExtent.{sub32}
use str_mod.Chunk.Positions.{iterator_at}
use str_mod.Chunk.Cursor.{move-deref, is_equal-distance}

abbrev pair : Chunks
pair = cons (buffer (1 ∷ 2 ∷ 3 ∷ [])) (cons (buffer []) nil)

abbrev part : Chunk
unfolding extent
part = sub (buffer (4 ∷ 5 ∷ 6 ∷ [])) (extent 1 2)

abbrev whole : Chunk
whole = group (cons (buffer (1 ∷ 2 ∷ 3 ∷ [])) (cons (suboption 9 part 2 []) nil)) 10

part-IsSound : IsSound part
unfolding IsSound extent
part-IsSound = (omega arith, omega arith)

pair-IsSound : IsSound (group pair 3)
unfolding IsSound
pair-IsSound = ((omega arith, (omega arith, tt)), refl, omega arith)

whole-IsSound : IsSound whole
unfolding IsSound extent
whole-IsSound = ((omega arith, ((part-IsSound, refl, omega arith), tt)), refl, omega arith)

-- Two blocks of the middle of a chunk, and one of an extent that goes past its end.
visits :
    (used_data (apply whole (some (extent 2 5)) new_visitor).calls ≡ 3 ∷ 255 ∷ 250 ∷ 9 ∷ 5 ∷ [])
    × (used_data (apply whole (some (extent 9 90)) new_visitor).calls ≡ 240 ∷ [])
    × (length (start_visit true part new_visitor).calls ≡ 3)
unfolding apply start_visit extent
visits = (refl, refl, refl)

-- Over both blocks and back.
steps :
    let s = make_shared 8 whole in
    (length s.dataexts ≡ 4)
    × (deref (iterator_at s 6) ≡ some 5)
    × (move_forward (iterator_at s 2) ≡ some (iterator_at s 3))
    × (move_backward (iterator_at s 10) ≡ some (iterator_at s 9))
unfolding make_shared deref move_forward move_backward iterator_at extent
steps = (refl, refl, refl, refl)

-- An extent whose end wraps around is not cut to the chunk.
unclipped_extent : bytes (str_sub_chunk (buffer (1 ∷ 2 ∷ [])) (extent 1 4294967295)) ≡ 2 ∷ []
unfolding bytes str_sub_chunk extent
unclipped_extent = refl

str_sub_chunk-IsSound_example :
    IsSound (str_sub_chunk part (extent 1 9))
    × (bytes (str_sub_chunk part (extent 1 9)) ≡ slice 1 9 (bytes part))
unfolding extent
str_sub_chunk-IsSound_example = str_sub_chunk-IsSound part (extent 1 9) part-IsSound (omega arith)

push-IsSound_example :
    (IsSound (push_back pair 3 part) × IsSound (push_front pair 3 part))
    × (bytes (push_back pair 3 part) ≡ all_bytes pair ++ bytes part)
    × (bytes (push_front pair 3 part) ≡ bytes part ++ all_bytes pair)
unfolding chunk_length extent
push-IsSound_example = push-IsSound pair 3 part pair-IsSound part-IsSound (omega arith)

start_visit-bytes_example :
    (used_data (start_visit false whole new_visitor).calls
      ≡ used_data new_visitor.calls ++ bytes whole)
    × (AllWithin new_visitor.calls → AllWithin (start_visit false whole new_visitor).calls)
start_visit-bytes_example = start_visit-bytes false whole new_visitor whole-IsSound

apply-bytes_example :
    (used_data (apply whole (some (extent 2 50)) new_visitor).calls ≡ slice 2 50 (bytes whole))
    × AllWithin (apply whole (some (extent 2 50)) new_visitor).calls
unfolding extent
apply-bytes_example = apply-bytes whole (extent 2 50) whole-IsSound (omega arith)

move-deref_example :
    let s = make_shared 8 whole in
    (move_forward (iterator_at s 2) ≡ some (iterator_at s 3))
    × (move_backward (iterator_at s 3) ≡ some (iterator_at s 2))
    × (deref (iterator_at s 2) ≡ get_elem? (bytes whole) 2)
unfolding bytes extent
move-deref_example = move-deref 8 whole 2 whole-IsSound (omega arith)

is_equal-distance_example :
    let s = make_shared 8 whole in
    (is_equal (iterator_at s 2) (iterator_at s 9) ≡ 2 == 9)
    × (is_less_than (iterator_at s 2) (iterator_at s 9) ≡ some (ltb 2 9))
    × (distance (iterator_at s 2) (iterator_at s 9) ≡ sub32 2 9)
unfolding bytes extent
is_equal-distance_example = is_equal-distance 8 whole 2 9 whole-IsSound (omega arith) (omega arith)
