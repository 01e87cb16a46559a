-- ===== src/LinearExtent/Moves.antt =====
-- The operations of the moveable tape measure.
use str_mod.Base.{ℕ, ◌+◌, ◌-◌, ◌≤◌, ◌≡◌, arith, min}
use str_mod.LinearExtent.{
  LinearExtent, length_max, lengthen_left, shorten_left, move_right, move_left, lengthen_right,
  shorten_right,
}
use str_mod.LinearExtent.Ranges.{IsValid}

-- Moving a valid extent right adds to its offset until its end meets `UINT_MAX`, and moving it
-- left subtracts until the offset meets 0; the length stays, and the extent stays valid.
pub move_lem :
    (e : LinearExtent) (by : ℕ)
    → IsValid e
    → (move_right e by ≡ record e { m_offset = min (e.m_offset + by) (length_max - e.m_length) })
      × (move_left e by ≡ record e { m_offset = e.m_offset - by })
      × IsValid (move_right e by)
      × IsValid (move_left e by)
unfolding move_right move_left
move_lem e by v = ground arith

-- Growing or shrinking a valid extent at its left keeps its end where it is: the offset goes down
-- by at most itself, and the length by at most itself.
pub left_lem :
    (e : LinearExtent) (by : ℕ)
    → IsValid e
    → ((lengthen_left e by).m_offset ≡ e.m_offset - by)
      × ((lengthen_left e by).m_offset + (lengthen_left e by).m_length ≡ e.m_offset + e.m_length)
      × ((shorten_left e by).m_length ≡ e.m_length - by)
      × ((shorten_left e by).m_offset + (shorten_left e by).m_length ≡ e.m_offset + e.m_length)
unfolding lengthen_left shorten_left
left_lem e by v = ground arith

-- What is taken from the left, or from the right, of a valid extent can be put back.
pub lengthen-shorten :
    (e : LinearExtent) (by : ℕ)
    → IsValid e
    → by ≤ e.m_length
    → (lengthen_left (shorten_left e by) by ≡ e) × (lengthen_right (shorten_right e by) by ≡ e)
unfolding lengthen_left shorten_left lengthen_right shorten_right
lengthen-shorten e by v h = ground arith
