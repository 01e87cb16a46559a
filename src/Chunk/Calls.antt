-- ===== src/Chunk/Calls.antt =====
-- The data that a visitor's calls hand out.
use mathlib.Core.List.{append-nil, append_assoc}
use str_mod.Base.{
  ℕ, ◌+◌, ◌-◌, ◌≤◌, ◌≡◌, refl, sym, ap, ◌∙◌, ◌⊎◌, inl, inr, min, Bool, true, false, if◌then◌else◌,
  List, [], ◌∷◌, ◌++◌, length, arith,
}
use str_mod.LinearExtent.{LinearExtent, length_max}
use str_mod.LinearExtent.Ranges.{IsValid}
use str_mod.Chunk.Slices.{slice, slice-append, slice_none, slice_within}
use str_mod.Chunk.Tree.{Chunk}
use str_mod.Chunk.Visitor.{
  Call, use_visit_str_chunk, use_visit_data_block, Visitor, called, compute_used,
}

abbrev pub used_data : List Call → List ℕ
used_data [] = []
used_data (use_visit_str_chunk c e ∷ cs) = used_data cs
used_data (use_visit_data_block start len realdata ∷ cs) = slice start len realdata ++ used_data cs

-- A call stays inside of its block.
abbrev pub Within : Call → Type 0
Within (use_visit_str_chunk c e) = Unit
Within (use_visit_data_block start len realdata) = start + len ≤ length realdata

abbrev pub AllWithin : List Call → Type 0
AllWithin [] = Unit
AllWithin (c ∷ cs) = Within c × AllWithin cs

-- From `v` to `w`, the bytes `bs` were handed out.
abbrev pub Extends : Visitor → Visitor → List ℕ → Type 0
Extends v w bs =
    (used_data w.calls ≡ used_data v.calls ++ bs) × (AllWithin v.calls → AllWithin w.calls)

used_data-append : (cs ds : List Call) → used_data (cs ++ ds) ≡ used_data cs ++ used_data ds
used_data-append [] ds = refl
used_data-append (use_visit_str_chunk c e ∷ cs) ds = used_data-append cs ds
used_data-append (use_visit_data_block start len realdata ∷ cs) ds =
    ap (λ bs. slice start len realdata ++ bs) (used_data-append cs ds)
    ∙ sym (append_assoc (slice start len realdata) (used_data cs) (used_data ds))

append-AllWithin : (cs ds : List Call) → AllWithin cs → AllWithin ds → AllWithin (cs ++ ds)
append-AllWithin [] ds h k = k
append-AllWithin (c ∷ cs) ds h k = (h.0, append-AllWithin cs ds h.1 k)

-- Nothing, or one thing after another.
pub same-Extends : (v : Visitor) → Extends v v []
same-Extends v = (sym (append-nil (used_data v.calls)), λ h. h)

pub Extends-trans :
    (u v w : Visitor) (bs cs : List ℕ) → Extends u v bs → Extends v w cs → Extends u w (bs ++ cs)
Extends-trans u v w bs cs h k =
    (k.0 ∙ ap (λ ds. ds ++ cs) h.0 ∙ append_assoc (used_data u.calls) bs cs, λ a. k.1 (h.1 a))

-- A call for a chunk, if it is made.
pub chunk-Extends :
    (t : Bool) (c : Chunk) (e : LinearExtent) (v : Visitor)
    → Extends v (if t then called (use_visit_str_chunk c e) v else v) []
chunk-Extends false c e v = same-Extends v
chunk-Extends true c e v = (
  used_data-append v.calls (use_visit_str_chunk c e ∷ []),
  λ h. append-AllWithin v.calls (use_visit_str_chunk c e ∷ []) h (tt, tt),
)

-- A call for data, which may be left out if there is none.
pub data-Extends :
    (t : Bool) (start len : ℕ) (bs : List ℕ) (v : Visitor)
    → start + len ≤ length bs
    → (t ≡ true) ⊎ (len ≡ 0)
    → Extends v (if t then called (use_visit_data_block start len bs) v else v) (slice start len bs)
data-Extends true start len bs v h e = (
  used_data-append v.calls (use_visit_data_block start len bs ∷ [])
      ∙ ap (λ cs. used_data v.calls ++ cs) (append-nil (slice start len bs)),
  λ a. append-AllWithin v.calls (use_visit_data_block start len bs ∷ []) a (h, tt),
)
data-Extends false start len bs v h (inl e) = absurd (ground (arith, e))
data-Extends false start len bs v h (inr z) = (
  sym (append-nil (used_data v.calls))
      ∙ ap (λ cs. used_data v.calls ++ cs) (sym (slice_none start len bs (omega (arith, z)))),
  λ a. a,
)

-- What an extent shows of `xs` if these begin at position `p`.
abbrev pub window : LinearExtent → ℕ → List ℕ → List ℕ
window e p xs = slice (e.m_offset - p) (e.m_length - (p - e.m_offset)) xs

pub window-append :
    (e : LinearExtent) (p : ℕ) (xs ys : List ℕ)
    → window e p (xs ++ ys) ≡ window e p xs ++ window e (p + length xs) ys
window-append e p xs ys =
    slice-append (e.m_offset - p) (e.m_length - (p - e.m_offset)) (e.m_offset - (p + length xs))
      (e.m_length - (p + length xs - e.m_offset)) xs ys (omega arith) (omega arith)

pub window_past :
    (e : LinearExtent) (p : ℕ) (xs : List ℕ) → e.m_offset + e.m_length ≤ p → window e p xs ≡ []
window_past e p xs h = slice_none (e.m_offset - p) (e.m_length - (p - e.m_offset)) xs (omega arith)

compute_used_facts :
    (v : Visitor) (used : LinearExtent)
    → IsValid v.curext
    → v.curpos + used.m_length ≤ length_max
    → IsValid used
    → ((compute_used v used).m_length
        ≡ min
            (v.curext.m_length - (v.curpos - v.curext.m_offset))
            (used.m_length - (v.curext.m_offset - v.curpos)))
      × (((compute_used v used).m_offset ≡ used.m_offset + (v.curext.m_offset - v.curpos))
          ⊎ ((compute_used v used).m_length ≡ 0))
      × ((compute_used v used).m_offset + (compute_used v used).m_length
          ≤ used.m_offset + used.m_length)
unfolding compute_used
compute_used_facts v used h k l = ground arith

-- The used part of a part of the bytes: it stays inside of them, and shows what the visitor's
-- extent shows of the part.
pub compute_used_lem :
    (v : Visitor) (used : LinearExtent) (xs : List ℕ)
    → IsValid v.curext
    → v.curpos + used.m_length ≤ length_max
    → used.m_offset + used.m_length ≤ length xs
    → length xs ≤ length_max
    → ((compute_used v used).m_offset + (compute_used v used).m_length ≤ length xs)
      × (slice (compute_used v used).m_offset (compute_used v used).m_length xs
          ≡ window v.curext v.curpos (slice used.m_offset used.m_length xs))
compute_used_lem v used xs h k l m =
    let facts = compute_used_facts v used h k (omega arith) in
    (
      omega (arith, facts.2),
      slice_within used.m_offset used.m_length (v.curext.m_offset - v.curpos)
          (v.curext.m_length - (v.curpos - v.curext.m_offset)) (compute_used v used).m_offset
          (compute_used v used).m_length xs l facts.0 facts.1,
    )
