-- ===== src/Chunk/Cursor.antt =====
-- The iterators of a chunk as positions in its bytes.
use str_mod.Base.{
  ℕ, suc, ◌==◌, ◌≤◌, ◌<◌, ◌≡◌, refl, sym, ap, subst, ◌∙◌, Bool, true, false, if◌then◌else◌, leb,
  ltb, Option, none, some, List, [], ◌∷◌, ◌++◌, length, get_elem?, arith,
}
use str_mod.Chunk.Slices.{slice, length-slice, slice_none}
use str_mod.Chunk.Tree.{Chunk, bytes, IsSound}
use str_mod.Chunk.Sound.{chunk_length-bytes}
use str_mod.Chunk.Calls.{used_data, AllWithin}
use str_mod.Chunk.Visitor.{
  Call, use_visit_str_chunk, use_visit_data_block, new_visitor, start_visit,
}
use str_mod.Chunk.Visited.{start_visit-bytes}
use str_mod.Chunk.Iterator.{
  Shared, Iterator, move_to_end, move_forward, move_backward, deref, begin, end, ext_visitor,
  make_shared, new_iterator, is_equal, is_less_than, distance,
}
use str_mod.LinearExtent.{sub32}
use str_mod.Chunk.Positions.{
  concat, NoneEmpty, IsShared, past, iterator_at, locate-forward, locate-deref,
}
use str_mod.Chunk.Walk.{
  begin_lem, locate-backward, locate-abspos, locate-shared, shared-Rest, backward_begin,
  locate-past,
}

ext_visitor_lem :
    (cs : List Call)
    → AllWithin cs
    → NoneEmpty (ext_visitor cs) × (concat (ext_visitor cs) ≡ used_data cs)
unfolding ext_visitor
ext_visitor_lem [] h = (tt, refl)
ext_visitor_lem (use_visit_str_chunk c e ∷ cs) h = ext_visitor_lem cs h.1
ext_visitor_lem (use_visit_data_block start len realdata ∷ cs) h =
    keep (leb len 0) refl (ext_visitor_lem cs h.1)
  where
    keep :
        (t : Bool)
        → leb len 0 ≡ t
        → NoneEmpty (ext_visitor cs) × (concat (ext_visitor cs) ≡ used_data cs)
        → NoneEmpty (if t then ext_visitor cs else slice start len realdata ∷ ext_visitor cs)
          × (concat (if t then ext_visitor cs else slice start len realdata ∷ ext_visitor cs)
              ≡ slice start len realdata ++ used_data cs)
    keep true e k = (
      k.0,
      k.1 ∙ ap (λ xs. xs ++ used_data cs) (sym (slice_none start len realdata (ground (arith, e)))),
    )
    keep false e k = (
      (ground (arith, e, h.0, length-slice start len realdata), k.0),
      ap (λ xs. slice start len realdata ++ xs) k.1,
    )

-- The area that iterators share holds data that all have some length, and are the chunk's bytes.
make_shared-IsShared :
    (root : ℕ) (c : Chunk)
    → IsSound c
    → IsShared (make_shared root c) × (concat (make_shared root c).dataexts ≡ bytes c)
unfolding make_shared
make_shared-IsShared root c s =
    let visited = start_visit-bytes true c new_visitor s in
    let k = ext_visitor_lem (start_visit true c new_visitor).calls (visited.1 tt) in
    let len = chunk_length-bytes c s in
    ((k.0, len.0 ∙ ap length (sym (k.1 ∙ visited.0)), len.1), k.1 ∙ visited.0)

begin_at : (s : Shared) → IsShared s → begin s ≡ some (iterator_at s 0)
unfolding begin new_iterator iterator_at
begin_at s h = begin_lem s (new_iterator s) s.dataexts (shared-Rest s h)

end_at : (s : Shared) → IsShared s → end s ≡ some (past s)
unfolding end move_to_end iterator_at
end_at s h =
    ap (λ o. elim o as (λ x. Option Iterator) [ none ↦ none | some it ↦ some (move_to_end s it) ])
      (begin_at s h)
    ∙ ap (λ sh. some (record (past s) { shared = sh })) (locate-shared s 0 0 s.dataexts 0)

-- Neither end is left.
forward_past : (s : Shared) → move_forward (past s) ≡ some (past s)
unfolding move_forward
forward_past s = ground arith

-- Two iterators for one shared area, at positions `i` and `j`.
compare_at :
    (s : Shared) (a b : Iterator) (i j : ℕ)
    → a.shared ≡ some s
    → b.shared ≡ some s
    → a.abspos ≡ i
    → b.abspos ≡ j
    → (is_equal a b ≡ i == j) × (is_less_than a b ≡ some (ltb i j)) × (distance a b ≡ sub32 i j)
unfolding is_equal is_less_than distance
compare_at s a b i j e f g h = ground arith

-- `begin()` of a sound chunk is the iterator at byte 0 and `end()` the one behind the last byte; a
-- step forward from the end stays there, and a step back from the beginning does.
pub begin-end :
    (root : ℕ) (c : Chunk)
    → IsSound c
    → let s = make_shared root c in
      (begin s ≡ some (iterator_at s 0))
      × (end s ≡ some (iterator_at s (length (bytes c))))
      × (move_forward (iterator_at s (length (bytes c))) ≡ some (iterator_at s (length (bytes c))))
      × (move_backward (iterator_at s 0) ≡ some (iterator_at s 0))
unfolding iterator_at
begin-end root c h =
    let s = make_shared root c in
    let k = make_shared-IsShared root c h in
    let r = shared-Rest s k.0 in
    let b : begin s ≡ some (iterator_at s 0) = begin_at s k.0 in
    let p : past s ≡ iterator_at s (length (bytes c)) =
      sym (locate-past s 0 0 s.dataexts) ∙ ap (λ xs. iterator_at s (length xs)) k.1 in
    (
      b,
      end_at s k.0 ∙ ap some p,
      subst (λ it. move_forward it ≡ some it) p (forward_past s),
      backward_begin s s.dataexts r,
    )

-- A step forward from byte `i` of a sound chunk goes to the next one and a step back returns, and
-- the iterator there reads that byte.
pub move-deref :
    (root : ℕ) (c : Chunk) (i : ℕ)
    → IsSound c
    → i < length (bytes c)
    → let s = make_shared root c in
      (move_forward (iterator_at s i) ≡ some (iterator_at s (suc i)))
      × (move_backward (iterator_at s (suc i)) ≡ some (iterator_at s i))
      × (deref (iterator_at s i) ≡ get_elem? (bytes c) i)
unfolding iterator_at
move-deref root c i h l =
    let s = make_shared root c in
    let k = make_shared-IsShared root c h in
    let r = shared-Rest s k.0 in
    let l' : i < length (concat s.dataexts) = omega (arith, l, ap length k.1) in
    (
      locate-forward s 0 0 s.dataexts i r l',
      locate-backward s 0 0 s.dataexts i r l',
      locate-deref s 0 0 s.dataexts i l' ∙ ap (λ xs. get_elem? xs i) k.1,
    )

-- Two iterators of one sound chunk compare as their positions do, up to its end, and their distance
-- is the difference of these in 32 bits.
pub is_equal-distance :
    (root : ℕ) (c : Chunk) (i j : ℕ)
    → IsSound c
    → i ≤ length (bytes c)
    → j ≤ length (bytes c)
    → let s = make_shared root c in
      (is_equal (iterator_at s i) (iterator_at s j) ≡ i == j)
      × (is_less_than (iterator_at s i) (iterator_at s j) ≡ some (ltb i j))
      × (distance (iterator_at s i) (iterator_at s j) ≡ sub32 i j)
unfolding iterator_at
is_equal-distance root c i j h l m =
    let s = make_shared root c in
    let k = make_shared-IsShared root c h in
    let r = shared-Rest s k.0 in
    compare_at s (iterator_at s i) (iterator_at s j) i j (locate-shared s 0 0 s.dataexts i)
      (locate-shared s 0 0 s.dataexts j)
      (locate-abspos s 0 0 s.dataexts i r (omega (arith, l, ap length k.1)) ∙ omega arith)
      (locate-abspos s 0 0 s.dataexts j r (omega (arith, m, ap length k.1)) ∙ omega arith)
