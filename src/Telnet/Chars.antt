-- ===== src/Telnet/Chars.antt =====
-- StrMod/pubinclude/StrMod/TelnetChars.h. An enumerator is its number, as there.
use str_mod.Base.{ℕ, ◌&&◌, ◌||◌, leb, if◌then◌else◌, Option, none, some}

abbrev pub t_eof : ℕ
t_eof = 236

abbrev pub eor : ℕ
eor = 239

abbrev pub se : ℕ
se = 240

abbrev pub nop : ℕ
nop = 241

abbrev pub ga : ℕ
ga = 249

abbrev pub sb : ℕ
sb = 250

abbrev pub will : ℕ
will = 251

abbrev pub dont : ℕ
dont = 254

abbrev pub iac : ℕ
iac = 255

-- The result is what is stored through the reference, or nothing if that is left alone.
unfoldable pub convert_char_to_command : ℕ → Option ℕ
convert_char_to_command ch =
    if (leb t_eof ch && leb ch eor) || (leb nop ch && leb ch ga) then some ch else none

unfoldable pub convert_char_to_option_negotiation : ℕ → Option ℕ
convert_char_to_option_negotiation ch = if leb will ch && leb ch dont then some ch else none
