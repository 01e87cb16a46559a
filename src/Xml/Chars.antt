-- ===== src/Xml/Chars.antt =====
-- The character classes of xml/utf8_Lexer.cpp. A `char` is its byte, a number below 256: no range
-- below crosses 0x80, so that a signed `char` compares in the same way.
use str_mod.Base.{ℕ, Bool, ◌&&◌, ◌||◌, leb, ◌==◌}

abbrev pub exclamation : ℕ
exclamation = 0x21

abbrev pub doublequote : ℕ
doublequote = 0x22

abbrev pub poundsign : ℕ
poundsign = 0x23

abbrev pub singlequote : ℕ
singlequote = 0x27

abbrev pub dash : ℕ
dash = 0x2d

abbrev pub dot : ℕ
dot = 0x2e

abbrev pub forwslash : ℕ
forwslash = 0x2f

abbrev pub colon : ℕ
colon = 0x3a

abbrev pub semicolon : ℕ
semicolon = 0x3b

abbrev pub lessthan : ℕ
lessthan = 0x3c

abbrev pub equals : ℕ
equals = 0x3d

abbrev pub greaterthan : ℕ
greaterthan = 0x3e

abbrev pub char_x : ℕ
char_x = 0x78

unfoldable pub is_white : ℕ → Bool
is_white c = c == 0x20 || c == 0x9 || c == 0xa || c == 0xd

unfoldable pub is_name_start : ℕ → Bool
is_name_start c =
    c == colon
    || (leb 0x41 c && leb c 0x5a)
    || c == 0x5f
    || (leb 0x61 c && leb c 0x7a)
    || (leb 0xc0 c && leb c 0xd6)
    || (leb 0xd8 c && leb c 0xf6)
    || (leb 0xf8 c && leb c 0xff)

unfoldable pub is_name_body : ℕ → Bool
is_name_body c = is_name_start c || (leb 0x30 c && leb c 0x39) || c == dot || c == dash || c == 0xb7

unfoldable pub is_digit : ℕ → Bool
is_digit c = leb 0x30 c && leb c 0x39

unfoldable pub is_xdigit : ℕ → Bool
is_xdigit c = is_digit c || (leb 0x41 c && leb c 0x46) || (leb 0x61 c && leb c 0x66)
