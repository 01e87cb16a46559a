-- ===== src/Serializer/Read.antt =====
-- Items of data, as they are written and read.
use mathlib.Core.List.{append_assoc}
use str_mod.Base.{
  ℕ, zero, suc, ◌+◌, ◌-◌, ◌/◌, ◌%◌, ◌^◌, ◌≤◌, ◌<◌, ◌≡◌, refl, ap, ◌∙◌, false, Option, none, some,
  List, [], ◌∷◌, ◌++◌, length, length-append, take, drop, take_front, arith,
}
use str_mod.Serializer.{
  OutSerializer, InSerializer, hton1, hton2, bytes4, ntoh2, add_raw, add_u1_byte, add_u2_byte,
  add_u4_byte, add_string, get_u1_byte, get_u2_byte, get_u4_byte, get_string, get_raw,
}

-- What a program sends, and what it asks for.
pub data Item : Type 0 where
  u1_item u2_item u4_item : ℕ → Item
  string_item raw_item : List ℕ → Item

pub data Kind : Type 0 where
  u1_kind u2_kind u4_kind string_kind : Kind
  raw_kind : ℕ → Kind

abbrev pub kind : Item → Kind
kind (u1_item n) = u1_kind
kind (u2_item n) = u2_kind
kind (u4_item n) = u4_kind
kind (string_item str) = string_kind
kind (raw_item bs) = raw_kind (length bs)

unfoldable pub add_item : ℕ → Item → OutSerializer → Option OutSerializer
unfolding add_u1_byte add_u2_byte add_u4_byte add_string add_raw
add_item junk (u1_item n) = add_u1_byte junk n
add_item junk (u2_item n) = add_u2_byte junk n
add_item junk (u4_item n) = add_u4_byte junk n
add_item junk (string_item str) = add_string junk str
add_item junk (raw_item bs) = add_raw junk bs

abbrev given : Option (List ℕ) → List ℕ
given none = []
given (some bs) = bs

-- `beyond` is what lies behind the array that a number of four bytes is put into.
unfoldable pub get_item : ℕ → Kind → InSerializer → Item × InSerializer
unfolding get_u1_byte get_u2_byte get_u4_byte get_string get_raw
get_item beyond u1_kind s = let r = get_u1_byte s in (u1_item r.0, r.1)
get_item beyond u2_kind s = let r = get_u2_byte s in (u2_item r.0, r.1)
get_item beyond u4_kind s = let r = get_u4_byte beyond s in (u4_item r.0, r.1)
get_item beyond string_kind s = let r = get_string s in (string_item r.0, r.1)
get_item beyond (raw_kind len) s = let r = get_raw len s in (raw_item (given r.0), r.1)

-- The numbers fit in their words, and a string in its length.
abbrev pub FitsItem : Item → Type 0
FitsItem (u1_item n) = n < 256
FitsItem (u2_item n) = n < 65536
FitsItem (u4_item n) = n < 2 ^ 32
FitsItem (string_item str) = length str ≤ 65534
FitsItem (raw_item bs) = Unit

-- the bytes of an item, of which a number of four bytes passes on only the lower half
abbrev pub encoded : Item → List ℕ
encoded (u1_item n) = hton1 n
encoded (u2_item n) = hton2 n
encoded (u4_item n) = bytes4 n
encoded (string_item str) = (hton2 (length str + 1) ++ str) ++ hton1 0
encoded (raw_item bs) = bs

abbrev pub reading : List ℕ → InSerializer
reading bs = record { rest = bs; had_error = false }

ntoh2-hton2 : (n : ℕ) → n < 65536 → ntoh2 (n % 256) (n / 256 % 256) ≡ n
ntoh2-hton2 n h = omega arith

drop_front : (n : ℕ) (xs ys : List ℕ) → n ≡ length xs → drop n (xs ++ ys) ≡ ys
drop_front zero [] ys e = refl
drop_front zero (x ∷ xs) ys e = absurd (omega arith)
drop_front (suc n) [] ys e = absurd (omega arith)
drop_front (suc n) (x ∷ xs) ys e = drop_front n xs ys (omega arith)

get_string_lem :
    (a b : ℕ) (ys str rest : List ℕ)
    → ntoh2 a b ≡ length str + 1
    → length ys ≡ length str + 1 + length rest
    → take (length str) ys ≡ str
    → drop (length str + 1) ys ≡ rest
    → get_string (reading (a ∷ b ∷ ys)) ≡ (str, reading rest)
unfolding get_string
get_string_lem a b ys str rest n l t d =
    let m : ntoh2 a b - 1 ≡ length str = omega (arith, n) in
    let t' : take (ntoh2 a b - 1) ys ≡ str = ap (λ k. take k ys) m ∙ t in
    let d' : drop (ntoh2 a b) ys ≡ rest = ap (λ k. drop k ys) n ∙ d in ground arith

get_raw_lem :
    (bs rest : List ℕ) → get_raw (length bs) (reading (bs ++ rest)) ≡ (some bs, reading rest)
unfolding get_raw
get_raw_lem bs rest =
    let l = length-append bs rest in
    let t = take_front (length bs) bs rest refl in
    let d = drop_front (length bs) bs rest refl in ground arith

-- The items that come through: all but numbers of four bytes.
abbrev pub Passes : Item → Type 0
Passes (u1_item n) = n < 256
Passes (u2_item n) = n < 65536
Passes (u4_item n) = ⊥
Passes (string_item str) = length str ≤ 65534
Passes (raw_item bs) = Unit

-- Such an item is read as it was written, and what is behind it stays.
pub get_item-encoded :
    (beyond : ℕ) (i : Item) (rest : List ℕ)
    → Passes i
    → get_item beyond (kind i) (reading (encoded i ++ rest)) ≡ (i, reading rest)
unfolding get_item
get_item-encoded beyond (u1_item n) rest h = ground arith
get_item-encoded beyond (u2_item n) rest h = let e = ntoh2-hton2 n h in ground arith
get_item-encoded beyond (u4_item n) rest h = absurd h
get_item-encoded beyond (string_item str) rest h =
    let ys = (str ++ hton1 0) ++ rest in
    let zero_end : ys ≡ str ++ (0 ∷ rest) = append_assoc str (hton1 0) rest in
    let l = length-append str (0 ∷ rest) in
    ap (λ r. (string_item r.0, r.1))
      (get_string_lem ((length str + 1) % 256) ((length str + 1) / 256 % 256) ys str rest
        (ntoh2-hton2 (length str + 1) (omega (arith, h))) (omega (arith, ap length zero_end, l))
        (ap (take (length str)) zero_end ∙ take_front (length str) str (0 ∷ rest) refl)
        (drop_front (length str + 1) (str ++ hton1 0) rest
          (omega (arith, length-append str (hton1 0)))))
get_item-encoded beyond (raw_item bs) rest h =
    ap (λ r. (raw_item (given r.0), r.1)) (get_raw_lem bs rest)
