-- ===== src/Chunk/Visited.antt =====
-- What a `UseTrackingVisitor` hands out of the chunks that it visits.
use str_mod.Base.{
  ℕ, ◌+◌, ◌-◌, ◌≤◌, ◌≡◌, refl, sym, ap₂, subst, ◌∙◌, inl, Bool, List, ◌++◌, length, length-append,
  arith,
}
use str_mod.LinearExtent.{full_extent, length_max}
use str_mod.LinearExtent.Ranges.{IsValid}
use str_mod.Chunk.Slices.{slice, length-slice, slice_all}
use str_mod.Chunk.Tree.{
  Chunk, buffer, decorator, sub, group, single_char, option_negotiation, suboption, Chunks, nil,
  cons, bytes, all_bytes, IsSound, AllSound, single_char_buf, negotiation_buf, optstart, optend,
}
use str_mod.Chunk.Sound.{chunk_length-bytes}
use str_mod.Chunk.Calls.{used_data, AllWithin, Extends, same-Extends}
use str_mod.Chunk.Visits.{
  At, Visits, Accepts, Visits-trans, visit_str_chunk_lem, visit_str_chunk_part_lem,
  visit_data_block_lem,
}
use str_mod.Chunk.Visitor.{
  Visitor, visit_str_chunk, visit_str_chunk_part, visit_data_block, accept_visitor, accept_all,
  start_visit,
}

Visits-Extends :
    (v w : Visitor) (xs : List ℕ)
    → Visits v w 0 xs
    → Extends v w (slice v.curext.m_offset v.curext.m_length xs)
Visits-Extends v w xs h =
    let e = v.curext in
    let o : e.m_offset - 0 ≡ e.m_offset = omega arith in
    let n : e.m_length - (0 - e.m_offset) ≡ e.m_length = omega arith in
    subst (Extends v w) (ap₂ (λ o n. slice o n xs) o n) h.1

module _ (z : Bool) where
  data_Accepts : (bs : List ℕ) → length bs ≤ length_max → Accepts (visit_data_block z bs) bs
  data_Accepts bs s v e h =
      Visits-Extends v (visit_data_block z bs v) bs
        (visit_data_block_lem z bs v 0 (omega (arith, h, s)) (inl e) (omega (arith, s)))

  mutual
    unfolding accept_visitor IsSound bytes

    accept_visitor-Accepts : (c : Chunk) → IsSound c → Accepts (accept_visitor z c) (bytes c)
    accept_visitor-Accepts (buffer bs) s v e h = data_Accepts bs s v e h
    accept_visitor-Accepts (decorator c) s v e h =
        let len = chunk_length-bytes c s in
        Visits-Extends v (visit_str_chunk z (accept_visitor z c) c v) (bytes c) (
          visit_str_chunk_lem z (accept_visitor z c) c v 0 s (accept_visitor-Accepts c s)
            (omega (arith, h, len)) (inl e) (omega (arith, len)))
    accept_visitor-Accepts (sub c f) s v e h =
        let len = chunk_length-bytes c s.0 in
        let part = slice f.m_offset f.m_length (bytes c) in
        let m = length-slice f.m_offset f.m_length (bytes c) in
        Visits-Extends v (visit_str_chunk_part z (accept_visitor z c) c f v) part (
          visit_str_chunk_part_lem z (accept_visitor z c) c f v 0 s (accept_visitor-Accepts c s.0)
            (omega (arith, h, len, m)) (inl e) (omega (arith, len, m)))
    accept_visitor-Accepts (group cs total) s v e h =
        Visits-Extends v (accept_all z cs v) (all_bytes cs) (
          accept_all-Visits cs s.0 v 0 (omega (arith, h, s.1, s.2)) (inl e)
            (omega (arith, s.1, s.2)))
    accept_visitor-Accepts (single_char opt) s v e h =
        data_Accepts (single_char_buf opt) (omega arith) v e h
    accept_visitor-Accepts (option_negotiation request opt) s v e h =
        data_Accepts (negotiation_buf request opt) (omega arith) v e h
    accept_visitor-Accepts (suboption opt raw rawlen cooked) s v e h =
        let start = optstart opt in
        let u = visit_data_block z start v in
        let w = visit_str_chunk z (accept_visitor z raw) raw u in
        let x = visit_data_block z optend w in
        let n = length-append (bytes raw) optend in
        let valid : IsValid v.curext = omega (arith, h, s.1, s.2, n) in
        let k = visit_data_block_lem z start v 0 valid (inl e) (omega arith) in
        let l =
          visit_str_chunk_lem z (accept_visitor z raw) raw u 3 s.0 (accept_visitor-Accepts raw s.0)
            (subst IsValid (sym k.0) valid) k.2 (omega (arith, s.1, s.2)) in
        let m =
          visit_data_block_lem z optend w (3 + length (bytes raw))
            (subst IsValid (sym (l.0 ∙ k.0)) valid) l.2 (omega (arith, s.1, s.2)) in
        Visits-Extends v x (start ++ (bytes raw ++ optend)) (
          Visits-trans v u x 0 start (bytes raw ++ optend) k
            (Visits-trans u w x 3 (bytes raw) optend l m))

    accept_all-Visits :
        (cs : Chunks)
        → AllSound cs
        → (v : Visitor) (p : ℕ) → IsValid v.curext
        → At v p
        → p + length (all_bytes cs) ≤ length_max
        → Visits v (accept_all z cs v) p (all_bytes cs)
    accept_all-Visits nil s v p h a fits = (refl, same-Extends v, subst (At v) (omega arith) a)
    accept_all-Visits (cons c cs) s v p h a fits =
        let w = visit_str_chunk z (accept_visitor z c) c v in
        let n = length-append (bytes c) (all_bytes cs) in
        let k =
          visit_str_chunk_lem z (accept_visitor z c) c v p s.0 (accept_visitor-Accepts c s.0) h a
            (omega (arith, fits, n)) in
        Visits-trans v w (accept_all z cs w) p (bytes c) (all_bytes cs) k (
          accept_all-Visits cs s.1 w (p + length (bytes c)) (subst IsValid (sym k.0) h) k.2
            (omega (arith, fits, n)))

  -- Whatever the visitor did before, a visit of a sound chunk hands out its bytes, each once and in
  -- order, in parts that stay inside of the blocks they belong to, whether or not the visitor
  -- ignores what is empty.
  pub start_visit-bytes :
      (root : Chunk) (v : Visitor)
      → IsSound root
      → (used_data (start_visit z root v).calls ≡ used_data v.calls ++ bytes root)
        × (AllWithin v.calls → AllWithin (start_visit z root v).calls)
  unfolding start_visit
  start_visit-bytes root v s =
      let len = chunk_length-bytes root s in
      let u : Visitor = record v { curpos = 0; curext = full_extent } in
      let w = visit_str_chunk z (accept_visitor z root) root u in
      let k =
        visit_str_chunk_lem z (accept_visitor z root) root u 0 s (accept_visitor-Accepts root s)
          (omega arith) (inl refl) (omega (arith, len)) in
      subst (Extends u w) (slice_all length_max (bytes root) (omega (arith, len))) k.1
