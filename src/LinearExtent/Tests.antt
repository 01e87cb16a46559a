-- ===== src/LinearExtent/Tests.antt =====
-- Runs of the extents, and the theorems at concrete extents.
use str_mod.Base.{◌+◌, ◌-◌, ◌≡◌, ◌↔◌, refl, true, false, arith, min}
use str_mod.LinearExtent.{
  LinearExtent, extent, full_extent, length_max, end_offset, intersection, sub_extent,
  sub_extent_eq, move_right, move_left, extent_eq, extent_ne,
}
use str_mod.LinearExtent.Ranges.{IsValid, Contains, sub_extent-Contains}
use str_mod.LinearExtent.Moves.{move_lem}

abbrev a : LinearExtent
a = record { m_offset = 10; m_length = 20 }

abbrev b : LinearExtent
b = record { m_offset = 5; m_length = 10 }

abbrev c : LinearExtent
c = record { m_offset = 2; m_length = 100 }

runs :
    (intersection a b ≡ extent 10 5)
    × (sub_extent a b ≡ extent 15 10)
    × (sub_extent a c ≡ extent 12 18)
    × (sub_extent_eq true a a ≡ extent 20 10)
    × (move_right a 0xffff_fff0 ≡ extent (length_max - 20) 20)
    × (move_left a 11 ≡ extent 0 20)
    × (extent_eq a b ≡ false)
    × (extent_ne a b ≡ true)
    × (end_offset full_extent ≡ length_max)
unfolding intersection sub_extent sub_extent_eq move_right move_left extent_ne full_extent
    end_offset extent
runs = (refl, refl, refl, refl, refl, refl, refl, refl, refl)

sub_extent-Contains_example :
    (Contains (sub_extent a b) 17 ↔ (Contains a 17 × Contains b (17 - 10)))
    × IsValid (sub_extent a b)
sub_extent-Contains_example = sub_extent-Contains a b 17 (omega arith) (omega arith)

move_lem_example :
    (move_right a 7 ≡ record a { m_offset = min (10 + 7) (length_max - 20) })
    × (move_left a 7 ≡ record a { m_offset = 10 - 7 })
    × IsValid (move_right a 7)
    × IsValid (move_left a 7)
move_lem_example = move_lem a 7 (omega arith)
