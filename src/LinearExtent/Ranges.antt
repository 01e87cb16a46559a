-- ===== src/LinearExtent/Ranges.antt =====
-- What `intersection`, `SubExtent` and `SubExtent_eq` do to the set of positions of an extent.
use str_mod.Base.{ℕ, ◌+◌, ◌-◌, ◌≤◌, ◌<◌, ◌≡◌, ◌↔◌, Bool, arith}
use str_mod.LinearExtent.{LinearExtent, length_max, intersection, sub_extent, sub_extent_eq}

-- The extents for which the class promises anything.
abbrev pub IsValid : LinearExtent → Type 0
IsValid e = e.m_offset + e.m_length ≤ length_max

abbrev pub Contains : LinearExtent → ℕ → Type 0
Contains e p = (e.m_offset ≤ p) × (p < e.m_offset + e.m_length)

-- A position lies in the intersection of two valid extents exactly when it lies in both.
pub intersection-Contains :
    (a b : LinearExtent) (p : ℕ)
    → IsValid a
    → IsValid b
    → Contains (intersection a b) p ↔ (Contains a p × Contains b p)
unfolding intersection
intersection-Contains a b p va vb = ground arith

-- Intersection commutes exactly on valid extents, as its documentation says, also where it is empty.
pub intersection_comm :
    (a b : LinearExtent) → IsValid a → IsValid b → intersection a b ≡ intersection b a
unfolding intersection
intersection_comm a b va vb = ground arith

-- A position lies in a subextent exactly when it lies in the extent and, counted from the
-- extent's start, in the range that was asked for; and the subextent is valid again.
pub sub_extent-Contains :
    (s e : LinearExtent) (p : ℕ)
    → IsValid s
    → IsValid e
    → (Contains (sub_extent s e) p ↔ (Contains s p × Contains e (p - s.m_offset)))
      × IsValid (sub_extent s e)
unfolding sub_extent
sub_extent-Contains s e p vs ve = ground arith

-- Taking a subextent of a subextent is taking one subextent: what `StrSubChunk` does when it is
-- made of a `StrSubChunk`.
pub sub_extent_assoc :
    (a b c : LinearExtent)
    → IsValid a
    → IsValid b
    → IsValid c
    → sub_extent (sub_extent a b) c ≡ sub_extent a (sub_extent b c)
unfolding sub_extent
sub_extent_assoc a b c va vb vc = ground arith

-- The in-place form computes the same extent as `SubExtent`, on every branch and for any words,
-- whether or not its argument is the object itself.
pub sub_extent_eq-sub_extent :
    (same : Bool) (s e : LinearExtent) → sub_extent_eq same s e ≡ sub_extent s e
unfolding sub_extent_eq sub_extent
sub_extent_eq-sub_extent same s e = ground arith
