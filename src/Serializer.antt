-- ===== src/Serializer.antt =====
-- StrMod/OutSerializer.cxx and StrMod/InSerializer.cxx with their headers, and the `hton` and `ntoh`
-- of LCore/pubinclude/LCore/GenTypes.h that a build for 64-bit x86 takes, under ORDER_UNIX: a number
-- is stored as the processor has it, the lowest byte first, and `U4Byte` has 8 bytes. A signed number
-- is the word of the same bits.
mod Written
mod Read
mod Trip
mod Tests
use str_mod.Base.{
  ℕ, suc, ◌+◌, ◌-◌, ◌*◌, ◌/◌, ◌%◌, ◌^◌, ◌==◌, Bool, true, false, not, ◌||◌, if◌then◌else◌, leb, ltb,
  Option, none, some, List, [], ◌∷◌, ◌++◌, length, take, drop, replicate,
}
use str_mod.Base.{resize, add64, sub64}

-- `hton` and `ntoh` of the three widths
abbrev pub hton1 : ℕ → List ℕ
hton1 n = n ∷ []

abbrev pub hton2 : ℕ → List ℕ
hton2 n = n % 256 ∷ n / 256 % 256 ∷ []

-- all of an `unsigned long`: its lower and its higher half
abbrev pub bytes4 : ℕ → List ℕ
bytes4 n = n % 256 ∷ n / 256 % 256 ∷ n / 65536 % 256 ∷ n / 16777216 % 256 ∷ []

abbrev pub hton4 : ℕ → List ℕ
hton4 n = bytes4 n ++ bytes4 (n / 2 ^ 32)

abbrev pub ntoh2 : ℕ → ℕ → ℕ
ntoh2 a b = a + b * 256

-- `beyond` is the number that the four bytes behind the array hold.
abbrev pub ntoh4 : ℕ → ℕ → ℕ → ℕ → ℕ → ℕ
ntoh4 beyond a b c d = a + b * 256 + c * 65536 + d * 16777216 + beyond * 2 ^ 32

-- `buf` says whether `buf_` points to the bytes of the chunk, or is null.
pub record OutSerializer : Type 0 where
  pub cur_chunk : Option (List ℕ)
  pub buf : Bool
  pub chnklen : ℕ
  pub cur_pos : ℕ

-- a state that is new, or whose chunk was taken
abbrev pub empty_state : OutSerializer
empty_state = record { cur_chunk = none; buf = false; chnklen = 0; cur_pos = 0 }

-- One step after another, if that succeeds.
abbrev pub chain :
    Option OutSerializer → (OutSerializer → Option OutSerializer) → Option OutSerializer
chain none step = none
chain (some s) step = step s

-- `bs` at `buf_ + cur_pos_`, which is moved behind them; `none` is a null pointer that is written
-- through, or a write behind the end of the chunk.
unfoldable pub store : List ℕ → OutSerializer → Option OutSerializer
store bs s = elim s.cur_chunk [
  | none ↦ none
  | some xs ↦
      if not s.buf || ltb (length xs) (s.cur_pos + length bs)
      then none
      else some (record s {
        cur_chunk = some (take s.cur_pos xs ++ (bs ++ drop (s.cur_pos + length bs) xs));
        cur_pos = add64 s.cur_pos (length bs);
      })
]

module _ (junk : ℕ) where
  -- the constructor that is given a size
  unfoldable pub new_serializer : ℕ → OutSerializer
  unfolding resize
  new_serializer suggested_size =
      let chunk = resize junk suggested_size [] in
      record { cur_chunk = some chunk; buf = true; chnklen = length chunk; cur_pos = 0 }

  -- `none` is an assertion that fails.
  unfoldable pub resize_chunk : ℕ → OutSerializer → Option OutSerializer
  unfolding resize
  resize_chunk newsize s = elim s.cur_chunk [
    | none ↦ none
    | some xs ↦
        let size =
          if ltb (sub64 newsize s.chnklen) 256
          then add64 newsize (newsize / 16)
          else add64 newsize (newsize / 256) in
        let ys = resize junk size xs in
        if ltb (length ys) newsize
        then none
        else some (record s { cur_chunk = some ys; buf = true; chnklen = length ys })
  ]

  unfoldable pub set_min_suggested_size : ℕ → OutSerializer → Option OutSerializer
  unfolding resize_chunk
  set_min_suggested_size size s = if ltb s.chnklen size then resize_chunk size s else some s

  unfoldable pub add_raw : List ℕ → OutSerializer → Option OutSerializer
  unfolding set_min_suggested_size store
  add_raw bs s = chain (set_min_suggested_size (add64 s.cur_pos (length bs)) s) (store bs)

  unfoldable pub add_u1_byte : ℕ → OutSerializer → Option OutSerializer
  unfolding add_raw
  add_u1_byte num s = add_raw (hton1 num) s

  unfoldable pub add_u2_byte : ℕ → OutSerializer → Option OutSerializer
  unfolding add_raw
  add_u2_byte num s = add_raw (hton2 num) s

  unfoldable pub add_u4_byte : ℕ → OutSerializer → Option OutSerializer
  unfolding set_min_suggested_size store
  add_u4_byte num s =
      chain (chain (set_min_suggested_size (add64 s.cur_pos 4) s) (store (hton4 num)))
        (λ t. some (record t { cur_pos = add64 s.cur_pos 4 }))

  -- `SAddCharStr`
  unfoldable pub add_string : List ℕ → OutSerializer → Option OutSerializer
  unfolding add_raw add_u1_byte add_u2_byte
  add_string str s =
      let netlen = if leb 65535 (length str) then 65534 else length str in
      chain (chain (add_u2_byte (netlen + 1) s) (add_raw (take netlen str))) (add_u1_byte 0)

  -- the chunk, and the serializer without it
  unfoldable pub take_chunk : OutSerializer → Option (List ℕ × OutSerializer)
  unfolding resize
  take_chunk s = elim s.cur_chunk [
    | none ↦ none
    | some xs ↦ some (resize junk s.cur_pos xs, empty_state)
  ]

-- The constructor that is given a saved state, where `made` is the chunk that the factory makes. The
-- state's members are those of the serializer, and its destructor copies them back.
unfoldable pub resume : List ℕ → OutSerializer → Option OutSerializer
resume made s = elim s.cur_chunk [
  | none ↦ some (record s { cur_chunk = some made; chnklen = length made; cur_pos = 0 })
  | some xs ↦ if not (s.chnklen == length xs) || ltb s.chnklen s.cur_pos then none else some s
]

-- a string that a zero ends
abbrev pub until_zero : List ℕ → List ℕ
until_zero [] = []
until_zero (c ∷ cs) = if c == 0 then [] else c ∷ until_zero cs

unfoldable pub add_c_string : ℕ → List ℕ → OutSerializer → Option OutSerializer
unfolding add_string
add_c_string junk str s = add_string junk (until_zero str) s

-- `rest` is what lies between the two iterators.
pub record InSerializer : Type 0 where
  pub rest : List ℕ
  pub had_error : Bool

abbrev pub bytes_left : InSerializer → ℕ
bytes_left s = length s.rest

abbrev failed : InSerializer → InSerializer
failed s = record s { had_error = true }

abbrev u1_of : List ℕ → ℕ × List ℕ
u1_of [] = (0, [])
u1_of (a ∷ rest) = (a, rest)

abbrev u2_of : List ℕ → ℕ × List ℕ
u2_of (a ∷ b ∷ rest) = (ntoh2 a b, rest)
u2_of rest = (0, rest)

abbrev u4_of : ℕ → List ℕ → ℕ × List ℕ
u4_of beyond (a ∷ b ∷ c ∷ d ∷ rest) = (ntoh4 beyond a b c d, rest)
u4_of beyond rest = (0, rest)

-- a number read by `read` from `n` bytes, or 0 behind an error or where these are not there
abbrev get : ℕ → (List ℕ → ℕ × List ℕ) → InSerializer → ℕ × InSerializer
get n read s =
    if s.had_error
    then (0, s)
    else if ltb (bytes_left s) n
    then (0, failed s)
    else (let r = read s.rest in (r.0, record s { rest = r.1 }))

unfoldable pub get_u1_byte : InSerializer → ℕ × InSerializer
get_u1_byte = get 1 u1_of

unfoldable pub get_u2_byte : InSerializer → ℕ × InSerializer
get_u2_byte = get 2 u2_of

unfoldable pub get_u4_byte : ℕ → InSerializer → ℕ × InSerializer
get_u4_byte beyond = get 4 (u4_of beyond)

unfoldable pub get_string : InSerializer → List ℕ × InSerializer
get_string s =
    if s.had_error
    then ([], s)
    else if ltb (bytes_left s) 3
    then ([], failed s)
    else (let r = u2_of s.rest in
        let t = record s { rest = r.1 } in
        if ltb r.0 1 || ltb (bytes_left t) r.0
        then ([], failed t)
        else (take (r.0 - 1) r.1, record t { rest = drop r.0 r.1 }))

-- what is written to the buffer, if anything is
unfoldable pub get_raw : ℕ → InSerializer → Option (List ℕ) × InSerializer
get_raw len s =
    if s.had_error
    then (none, s)
    else if leb len (bytes_left s)
    then (some (take len s.rest), record s { rest = drop len s.rest })
    else (none, failed s)
