-- ===== src/Chunk/Visits.antt =====
-- What one visit of a chunk or of a block of data makes of a visitor.
use str_mod.Base.{
  some, ℕ, ◌+◌, ◌%◌, ◌==◌, ◌≤◌, ◌≡◌, refl, sym, ap, subst, ◌∙◌, ◌⊎◌, inl, inr, Bool, true, false,
  if◌then◌else◌, not, ◌||◌, List, [], ◌++◌, length, length-append, arith, u32_mod,
}
use str_mod.LinearExtent.{LinearExtent, extent, sub_extent, length_max}
use str_mod.LinearExtent.Ranges.{IsValid}
use str_mod.Chunk.Slices.{slice, length-slice, slice_all}
use str_mod.Chunk.Tree.{Chunk, sub, chunk_length, bytes, IsSound}
use str_mod.LinearExtent.{add32}
use str_mod.Chunk.Sound.{chunk_length-bytes}
use str_mod.Chunk.Calls.{
  Extends, same-Extends, Extends-trans, chunk-Extends, data-Extends, window, window-append,
  window_past, compute_used_lem,
}
use str_mod.Chunk.Visitor.{
  Call, use_visit_data_block, use_visit_str_chunk, called, Visitor, compute_used, do_accept_visitor,
  is_past, use_chunk, visit_str_chunk, visit_str_chunk_part, visit_data_block,
}

-- The visitor is at position `p`, or it stopped before that, past the end of its extent.
abbrev pub At : Visitor → ℕ → Type 0
At v p = (v.curpos ≡ p) ⊎ ((v.curext.m_offset + v.curext.m_length ≤ v.curpos) × (v.curpos ≤ p))

-- From position `p`, the visitor hands out what its extent shows of `xs`.
abbrev pub Visits : Visitor → Visitor → ℕ → List ℕ → Type 0
Visits v w p xs = (w.curext ≡ v.curext) × Extends v w (window v.curext p xs) × At w (p + length xs)

-- Led through by `accept`, it hands out its extent of `xs`.
abbrev pub Accepts : (Visitor → Visitor) → List ℕ → Type 0
Accepts accept xs =
    (v : Visitor)
    → v.curpos ≡ 0
    → v.curext.m_offset + v.curext.m_length ≤ length xs
    → Extends v (accept v) (slice v.curext.m_offset v.curext.m_length xs)

window-At :
    (v : Visitor) (p : ℕ) (xs : List ℕ)
    → At v p
    → window v.curext v.curpos xs ≡ window v.curext p xs
window-At v p xs (inl e) = ap (λ q. window v.curext q xs) e
window-At v p xs (inr h) =
    window_past v.curext v.curpos xs h.0 ∙ sym (window_past v.curext p xs (omega (arith, h)))

pub Visits-trans :
    (u v w : Visitor) (p : ℕ) (xs ys : List ℕ)
    → Visits u v p xs
    → Visits v w (p + length xs) ys
    → Visits u w p (xs ++ ys)
Visits-trans u v w p xs ys h k = (
  k.0 ∙ h.0,
  subst (Extends u w) (sym (window-append u.curext p xs ys)) (
      Extends-trans u v w (window u.curext p xs) (window u.curext (p + length xs) ys) h.1
        (subst (λ e. Extends v w (window e (p + length xs) ys)) h.0 k.1)),
  subst (At w) (omega (arith, length-append xs ys)) k.2,
)

At-le : (v : Visitor) (p : ℕ) → At v p → v.curpos ≤ p
At-le v p a = ground (arith, a)

advance-At :
    (c d p n end end' : ℕ)
    → (d ≡ p) ⊎ ((end ≤ d) × (d ≤ p))
    → c ≡ d
    → end' ≡ end
    → p + n ≤ length_max
    → (add32 c n ≡ p + n) ⊎ ((end' ≤ add32 c n) × (add32 c n ≤ p + n))
advance-At c d p n end end' (inl a) e f h = inl (omega (arith, a, e, h))
advance-At c d p n end end' (inr a) e f h = inr (omega (arith, a, e, f, h), omega (arith, a, e, h))

-- `w` is `v` further on, with the same extent.
moves-Visits :
    (v w : Visitor) (p : ℕ) (xs : List ℕ)
    → At v p
    → p + length xs ≤ length_max
    → w.curext ≡ v.curext
    → w.curpos ≡ v.curpos
    → Extends v w (window v.curext v.curpos xs)
    → Visits v (record w { curpos = add32 w.curpos (length xs) }) p xs
moves-Visits v w p xs a h e f k = (
  e,
  subst (Extends v w) (window-At v p xs a) k,
  advance-At w.curpos v.curpos p (length xs) (v.curext.m_offset + v.curext.m_length)
      (w.curext.m_offset + w.curext.m_length) a f (ap (λ x. x.m_offset + x.m_length) e) h,
)

kept-curext : (t : Bool) (c : Call) (v : Visitor) → (if t then called c v else v).curext ≡ v.curext
kept-curext true c v = refl
kept-curext false c v = refl

kept-curpos : (t : Bool) (c : Call) (v : Visitor) → (if t then called c v else v).curpos ≡ v.curpos
kept-curpos true c v = refl
kept-curpos false c v = refl

used_or_empty : (z : Bool) (n : ℕ) → ((not (n == 0) || not z) ≡ true) ⊎ (n ≡ 0)
used_or_empty z n = ground arith

whole_sub_extent :
    (n : ℕ) (e : LinearExtent)
    → e.m_offset + e.m_length ≤ n
    → n ≤ length_max
    → sub_extent (extent 0 n) e ≡ e
unfolding sub_extent extent
whole_sub_extent n e h k = ground arith

module _ (z : Bool) where
  is_past_lem :
      (v : Visitor)
      → IsValid v.curext
      → is_past z v ≡ true
      → v.curext.m_offset + v.curext.m_length ≤ v.curpos
  unfolding is_past
  is_past_lem v h e = ground arith

  -- Past its end the visitor does nothing, and would have handed out nothing.
  skip-Visits :
      (v w : Visitor) (p : ℕ) (xs : List ℕ)
      → IsValid v.curext
      → At v p
      → Visits v w p xs
      → Visits v (if is_past z v then v else w) p xs
  skip-Visits v w p xs h a k = go (is_past z v) refl
    where
      go : (t : Bool) → is_past z v ≡ t → Visits v (if t then v else w) p xs
      go false e = k
      go true e =
          let past = is_past_lem v h e in
          (
            refl,
            subst (Extends v v) (sym (window_past v.curext v.curpos xs past) ∙ window-At v p xs a)
                (same-Extends v),
            inr (past, ground (arith, a)),
          )

  do_accept_visitor-Extends :
      (accept : Visitor → Visitor) (c : Chunk) (used : LinearExtent) (xs : List ℕ) (v : Visitor)
      → Accepts accept xs
      → used.m_offset + used.m_length ≤ length xs
      → Extends v (do_accept_visitor accept c used v) (slice used.m_offset used.m_length xs)
  unfolding do_accept_visitor
  do_accept_visitor-Extends accept c used xs v acc h =
      acc (record v { curchnk = some c; curpos = 0; curext = used }) refl h

  use_chunk_lem :
      (accept : Visitor → Visitor) (c : Chunk) (tested used : LinearExtent) (xs : List ℕ)
      (v : Visitor)
      → Accepts accept xs
      → used.m_offset + used.m_length ≤ length xs
      → Extends v (use_chunk z accept c tested used v) (slice used.m_offset used.m_length xs)
        × ((use_chunk z accept c tested used v).curpos ≡ v.curpos)
        × ((use_chunk z accept c tested used v).curext ≡ v.curext)
  unfolding use_chunk
  use_chunk_lem accept c tested used xs v acc h = go (not (tested.m_length == 0) || not z)
    where
      go :
          (t : Bool)
          → let w =
              do_accept_visitor accept c used
                (if t then called (use_visit_str_chunk c used) v else v) in
            Extends v w (slice used.m_offset used.m_length xs)
            × (w.curpos ≡ v.curpos)
            × (w.curext ≡ v.curext)
      go false = (do_accept_visitor-Extends accept c used xs v acc h, refl, refl)
      go true =
          let w = called (use_visit_str_chunk c used) v in
          (
            Extends-trans v w (do_accept_visitor accept c used w) []
                (slice used.m_offset used.m_length xs) (chunk-Extends true c used v)
                (do_accept_visitor-Extends accept c used xs w acc h),
            refl,
            refl,
          )

  pub visit_str_chunk_lem :
      (accept : Visitor → Visitor) (c : Chunk) (v : Visitor) (p : ℕ)
      → IsSound c
      → Accepts accept (bytes c)
      → IsValid v.curext
      → At v p
      → p + length (bytes c) ≤ length_max
      → Visits v (visit_str_chunk z accept c v) p (bytes c)
  unfolding visit_str_chunk extent
  visit_str_chunk_lem accept c v p s acc h a fits =
      let len = chunk_length-bytes c s in
      let n = chunk_length c in
      let used = compute_used v (extent 0 n) in
      let whole = slice_all n (bytes c) (omega (arith, len)) in
      let at =
        compute_used_lem v (extent 0 n) (bytes c) h (omega (arith, len, fits, At-le v p a))
          (omega (arith, len)) (omega (arith, len)) in
      let k = use_chunk_lem accept c used used (bytes c) v acc at.0 in
      let w = use_chunk z accept c used used v in
      skip-Visits v (record w { curpos = add32 w.curpos n }) p (bytes c) h a
        (subst (λ m. Visits v (record w { curpos = add32 w.curpos m }) p (bytes c)) (sym len.0)
          (moves-Visits v w p (bytes c) a fits k.2 k.1
            (subst (Extends v w) (at.1 ∙ ap (λ xs. window v.curext v.curpos xs) whole) k.0)))

  pub visit_str_chunk_part_lem :
      (accept : Visitor → Visitor) (c : Chunk) (e : LinearExtent) (v : Visitor) (p : ℕ)
      → IsSound (sub c e)
      → Accepts accept (bytes c)
      → IsValid v.curext
      → At v p
      → p + length (bytes (sub c e)) ≤ length_max
      → Visits v (visit_str_chunk_part z accept c e v) p (bytes (sub c e))
  unfolding visit_str_chunk_part extent IsSound bytes
  visit_str_chunk_part_lem accept c e v p s acc h a fits =
      let len = chunk_length-bytes c s.0 in
      let n = chunk_length c in
      let whole = whole_sub_extent n e (omega (arith, len, s.1)) len.1 in
      let part = slice e.m_offset e.m_length (bytes c) in
      let m : e.m_length ≡ length part =
        omega (arith, s.1, length-slice e.m_offset e.m_length (bytes c)) in
      let used = compute_used v e in
      let at =
        compute_used_lem v e (bytes c) h (omega (arith, m, fits, At-le v p a)) s.1
          (omega (arith, len)) in
      let k = use_chunk_lem accept c e used (bytes c) v acc at.0 in
      let w = use_chunk z accept c e used v in
      subst
        (λ f.
          Visits v
            (let w = use_chunk z accept c e (compute_used v f) v in
              if is_past z v then v else record w { curpos = add32 w.curpos e.m_length })
            p part)
        (sym whole)
        (skip-Visits v (record w { curpos = add32 w.curpos e.m_length }) p part h a
          (subst (λ m. Visits v (record w { curpos = add32 w.curpos m }) p part) (sym m)
            (moves-Visits v w p part a fits k.2 k.1 (subst (Extends v w) at.1 k.0))))

  pub visit_data_block_lem :
      (bs : List ℕ) (v : Visitor) (p : ℕ)
      → IsValid v.curext
      → At v p
      → p + length bs ≤ length_max
      → Visits v (visit_data_block z bs v) p bs
  unfolding visit_data_block extent
  visit_data_block_lem bs v p h a fits =
      let n = length bs % u32_mod in
      let len : n ≡ length bs = omega (arith, fits) in
      let used = compute_used v (extent 0 n) in
      let at =
        compute_used_lem v (extent 0 n) bs h (omega (arith, len, fits, At-le v p a))
          (omega (arith, len)) (omega (arith, fits)) in
      let whole = slice_all n bs (omega (arith, len)) in
      let t = not (used.m_length == 0) || not z in
      let w = if t then called (use_visit_data_block used.m_offset used.m_length bs) v else v in
      let k =
        data-Extends t used.m_offset used.m_length bs v at.0 (used_or_empty z used.m_length) in
      skip-Visits v (record w { curpos = add32 w.curpos (length bs) }) p bs h a
        (moves-Visits v w p bs a fits
          (kept-curext t (use_visit_data_block used.m_offset used.m_length bs) v)
          (kept-curpos t (use_visit_data_block used.m_offset used.m_length bs) v)
          (subst (Extends v w) (at.1 ∙ ap (λ xs. window v.curext v.curpos xs) whole) k))
