-- ===== src/Chopper/Front.antt =====
-- The front of the incoming data, and what is left of these.
use str_mod.Base.{
  ℕ, ◌+◌, ◌≤◌, ◌≡◌, refl, sym, ap, subst, ◌∙◌, Bool, true, false, if◌then◌else◌, leb, ◌&&◌, none,
  some, length, take, drop, length-take, take_all, arith,
}
use str_mod.LinearExtent.{extent}
use str_mod.Chunk.Tree.{Chunk, bytes, chunk_length, str_sub_chunk, IsSound}
use str_mod.Chunk.Sound.{chunk_length-bytes, str_sub_chunk-IsSound}
use str_mod.Chopper.{CharChopper, is_yes, add_chunk, copy_bytes, keep_front}
use str_mod.Chopper.Held.{out, held, OutSound, IsGood, limit, Adds}
use str_mod.Chopper.Added.{add_chunk-Adds, copy_bytes-Adds}
use str_mod.Chopper.Pieces.{slice-take, slice-drop, drop_all}

-- The first `count` bytes of a chunk in a chunk of their own.
front_lem :
    (t : Bool) (c : Chunk) (count : ℕ)
    → IsSound c
    → length (bytes c) ≤ limit
    → leb (chunk_length c) count ≡ t
    → count ≤ length (bytes c)
    → let f = if t then c else str_sub_chunk c (extent 0 count) in
      IsSound f × (bytes f ≡ take count (bytes c))
unfolding extent
front_lem true c count i l e h =
    let n = chunk_length-bytes c i in
    let m : chunk_length c ≤ count = ground (arith, e) in
    (i, sym (take_all count (bytes c) (omega (arith, n, m))))
front_lem false c count i l e h =
    let k = str_sub_chunk-IsSound c (extent 0 count) i (omega (arith, l, h)) in
    (k.0, k.1 ∙ slice-take count (bytes c))

-- What is left of the incoming data.
pub left_over_lem :
    (t : Bool) (c : Chunk) (count n : ℕ)
    → IsSound c
    → length (bytes c) ≤ n
    → n ≤ limit
    → count ≤ length (bytes c)
    → leb n count ≡ t
    → let o = if t then none else some (str_sub_chunk c (extent count n)) in
      OutSound o × (out o ≡ drop count (bytes c))
unfolding extent
left_over_lem true c count n i l m k e = (tt, sym (drop_all count (bytes c) (ground (arith, e, l))))
left_over_lem false c count n i l m k e =
    let r = str_sub_chunk-IsSound c (extent count n) i (omega (arith, l, m, k)) in
    (r.0, r.1 ∙ slice-drop count n (bytes c) l)

module _ (junk : ℕ) where
  pub keep_front-Adds :
      (incoming : Chunk) (foundchar : Bool) (count : ℕ) (s : CharChopper)
      → IsGood s
      → IsSound incoming
      → count ≤ length (bytes incoming)
      → length (held s) + length (bytes incoming) ≤ limit
      → Adds s
          (keep_front junk incoming foundchar count (chunk_length incoming) s)
          (take count (bytes incoming))
  unfolding keep_front
  keep_front-Adds incoming foundchar count s g i c h =
      let n = chunk_length-bytes incoming i in
      let t = leb (chunk_length incoming) count in
      let f = front_lem t incoming count i (omega (arith, h)) refl c in
      let front = if t then incoming else str_sub_chunk incoming (extent 0 count) in
      keep (is_yes s.incoming_is_bc && leb count 16) refl front f
    where
      keep :
          (t : Bool)
          → (is_yes s.incoming_is_bc && leb count 16) ≡ t
          → (front : Chunk) → IsSound front × (bytes front ≡ take count (bytes incoming))
          → Adds s
              (if t
                then copy_bytes junk foundchar count (take count (bytes incoming)) s
                else add_chunk junk front s)
              (take count (bytes incoming))
      keep true e front f =
          copy_bytes-Adds junk foundchar count (take count (bytes incoming)) s g
            (omega (arith, c, length-take count (bytes incoming))) (ground (arith, e))
            (omega (arith, h))
      keep false e front f =
          subst (Adds s (add_chunk junk front s)) f.1
            (add_chunk-Adds junk front s g f.0
              (omega (arith, h, ap length f.1, c, length-take count (bytes incoming)))).0
