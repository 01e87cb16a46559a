-- ===== src/LinearExtent.antt =====
-- StrMod/pubinclude/StrMod/LinearExtent.h and StrMod/LinearExtent.cxx: a range of a sequence given
-- by an offset and a length, both `unsigned int`. Additions and subtractions wrap as there.
pub mod Ranges
pub mod Moves
mod Tests
use str_mod.Base.{ℕ, ◌+◌, ◌-◌, ◌%◌, ◌^◌, Bool, ◌&&◌, not, ltb, leb, ◌==◌, if◌then◌else◌, u32_mod}

pub record LinearExtent : Type 0 where
  pub m_offset : ℕ
  pub m_length : ℕ

-- `UINT_MAX`, both for offsets and for lengths
abbrev pub length_max : ℕ
length_max = 2 ^ 32 - 1

abbrev pub add32 : ℕ → ℕ → ℕ
add32 a b = (a + b) % u32_mod

abbrev pub sub32 : ℕ → ℕ → ℕ
sub32 a b = (a + u32_mod - b) % u32_mod

unfoldable pub extent : ℕ → ℕ → LinearExtent
extent offset length = record { m_offset = offset; m_length = length }

unfoldable pub full_extent : LinearExtent
unfolding extent
full_extent = extent 0 length_max

unfoldable pub end_offset : LinearExtent → ℕ
end_offset e = add32 e.m_offset e.m_length

unfoldable pub intersection : LinearExtent → LinearExtent → LinearExtent
unfolding end_offset extent
intersection a b =
    let intstart = if ltb b.m_offset a.m_offset then a.m_offset else b.m_offset in
    let myend = end_offset a in
    let otherend = end_offset b in
    let intend = if ltb myend otherend then myend else otherend in
    extent intstart (if leb intend intstart then 0 else sub32 intend intstart)

unfoldable pub sub_extent : LinearExtent → LinearExtent → LinearExtent
unfolding extent
sub_extent self ext =
    if ltb self.m_length ext.m_offset
    then extent (add32 self.m_offset self.m_length) 0
    else (let newoff = add32 self.m_offset ext.m_offset in
        if ltb self.m_length (add32 ext.m_offset ext.m_length)
        then extent newoff (sub32 self.m_length ext.m_offset)
        else extent newoff ext.m_length)

-- `SubExtent_eq`; the flag is `this == &extent`.
unfoldable pub sub_extent_eq : Bool → LinearExtent → LinearExtent → LinearExtent
unfolding sub_extent
sub_extent_eq same self ext =
    if same
    then sub_extent self ext
    else if ltb self.m_length ext.m_offset
    then record self { m_offset = add32 self.m_offset self.m_length; m_length = 0 }
    else (let moved = record self { m_offset = add32 self.m_offset ext.m_offset } in
        if ltb moved.m_length (add32 ext.m_offset ext.m_length)
        then record moved { m_length = sub32 moved.m_length ext.m_offset }
        else record moved { m_length = ext.m_length })

unfoldable pub lengthen_left : LinearExtent → ℕ → LinearExtent
lengthen_left e by =
    let by' = if ltb e.m_offset by then e.m_offset else by in
    record e { m_offset = sub32 e.m_offset by'; m_length = add32 e.m_length by' }

unfoldable pub shorten_left : LinearExtent → ℕ → LinearExtent
shorten_left e by =
    let by' = if ltb e.m_length by then e.m_length else by in
    record e { m_offset = add32 e.m_offset by'; m_length = sub32 e.m_length by' }

unfoldable pub move_right : LinearExtent → ℕ → LinearExtent
unfolding end_offset
move_right e by =
    if leb by (sub32 length_max (end_offset e))
    then record e { m_offset = add32 e.m_offset by }
    else record e { m_offset = sub32 length_max e.m_length }

unfoldable pub move_left : LinearExtent → ℕ → LinearExtent
move_left e by =
    if ltb by e.m_offset
    then record e { m_offset = sub32 e.m_offset by }
    else record e { m_offset = 0 }

unfoldable pub lengthen_right : LinearExtent → ℕ → LinearExtent
lengthen_right e by =
    if leb by (sub32 length_max e.m_length)
    then record e { m_length = add32 e.m_length by }
    else record e { m_length = length_max }

unfoldable pub shorten_right : LinearExtent → ℕ → LinearExtent
shorten_right e by =
    if leb by e.m_length
    then record e { m_length = sub32 e.m_length by }
    else record e { m_length = 0 }

unfoldable pub extent_eq : LinearExtent → LinearExtent → Bool
extent_eq a b = a.m_offset == b.m_offset && a.m_length == b.m_length

unfoldable pub extent_ne : LinearExtent → LinearExtent → Bool
unfolding extent_eq
extent_ne a b = not (extent_eq a b)
