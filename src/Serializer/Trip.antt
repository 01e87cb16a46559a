-- ===== src/Serializer/Trip.antt =====
-- Data that are written, sent and read again.
use mathlib.Core.List.{append-nil}
use str_mod.Base.{
  ℕ, zero, suc, ◌+◌, ◌*◌, ◌^◌, leb, Bool, false, if◌then◌else◌, ◌/◌, ◌%◌, ◌≤◌, ◌<◌, ◌≡◌, refl, sym,
  ap, subst, ◌∙◌, true, Option, none, some, List, [], ◌∷◌, ◌++◌, length, length-append, take, drop,
  length-take, arith,
}
use str_mod.Serializer.{
  OutSerializer, InSerializer, chain, hton1, hton2, bytes4, ntoh2, new_serializer, add_raw,
  take_chunk, resume, empty_state, add_u4_byte, hton4, ntoh4, set_min_suggested_size, store,
  get_u1_byte, get_u2_byte, get_u4_byte, get_string, get_raw,
}
use str_mod.Serializer.Written.{
  limit, full, Has, Writes, Writes-trans, add_raw-Writes, add_u1_byte-Writes, add_u2_byte-Writes,
  add_string-Writes, new_serializer-Has, take_chunk-Has,
}
use str_mod.Serializer.Read.{
  Item, u1_item, u2_item, u4_item, string_item, raw_item, Kind, u1_kind, u2_kind, u4_kind,
  string_kind, raw_kind, kind, add_item, get_item, FitsItem, Passes, encoded, reading,
  get_item-encoded,
}

unfoldable pub add_items : ℕ → List Item → OutSerializer → Option OutSerializer
add_items junk [] s = some s
add_items junk (i ∷ is) s = chain (add_item junk i s) (add_items junk is)

unfoldable pub get_items : ℕ → List Kind → InSerializer → List Item × InSerializer
get_items beyond [] s = ([], s)
get_items beyond (k ∷ ks) s =
    let r = get_item beyond k s in let rs = get_items beyond ks r.1 in (r.0 ∷ rs.0, rs.1)

abbrev pub kinds : List Item → List Kind
kinds [] = []
kinds (i ∷ is) = kind i ∷ kinds is

abbrev pub AllPass : List Item → Type 0
AllPass [] = Unit
AllPass (i ∷ is) = Passes i × AllPass is

abbrev pub all_encoded : List Item → List ℕ
all_encoded [] = []
all_encoded (i ∷ is) = encoded i ++ all_encoded is

add_item-Writes : (junk : ℕ) (i : Item) → Passes i → Writes (add_item junk i) (encoded i)
unfolding add_item
add_item-Writes junk (u1_item n) h = add_u1_byte-Writes junk n
add_item-Writes junk (u2_item n) h = add_u2_byte-Writes junk n
add_item-Writes junk (u4_item n) h = absurd h
add_item-Writes junk (string_item str) h = add_string-Writes junk str h
add_item-Writes junk (raw_item bs) h = add_raw-Writes junk bs

add_items-Writes :
    (junk : ℕ) (is : List Item) → AllPass is → Writes (add_items junk is) (all_encoded is)
unfolding add_items
add_items-Writes junk [] h s before k l = (s, refl, subst (Has s) (sym (append-nil before)) k)
add_items-Writes junk (i ∷ is) h s before k l =
    Writes-trans (add_item junk i) (add_items junk is) (encoded i) (all_encoded is)
      (add_item-Writes junk i h.0) (add_items-Writes junk is h.1) s before k l

get_items-encoded :
    (beyond : ℕ) (is : List Item)
    → AllPass is
    → get_items beyond (kinds is) (reading (all_encoded is)) ≡ (is, reading [])
unfolding get_items
get_items-encoded beyond [] h = refl
get_items-encoded beyond (i ∷ is) h =
    ap (λ r. let rs = get_items beyond (kinds is) r.1 in (r.0 ∷ rs.0, rs.1))
      (get_item-encoded beyond i (all_encoded is) h.0)
    ∙ ap (λ rs. (i ∷ rs.0, rs.1)) (get_items-encoded beyond is h.1)

-- Whatever numbers of one or two bytes, strings and blocks a program writes to a serializer, made for
-- any size, within 2 GB and with numbers that fit and strings of 65534 bytes at most: every step
-- succeeds, and whoever asks the chunk for items of these kinds gets those that were written, with no
-- error and no byte left. Numbers of four bytes are left out: they do not come through.
pub get_items-add_items :
    (junk beyond size : ℕ) (is : List Item)
    → AllPass is
    → length (all_encoded is) ≤ limit
    → (s : OutSerializer) × (bs : List ℕ) × (t : OutSerializer) × (add_items junk is
          (new_serializer junk size)
        ≡ some s)
      × (take_chunk junk s ≡ some (bs, t))
      × (get_items beyond (kinds is) (reading bs) ≡ (is, reading []))
get_items-add_items junk beyond size is h l =
    let (s, e, k) =
      add_items-Writes junk is h (new_serializer junk size) [] (new_serializer-Has junk size)
        (omega (arith, l)) in
    let (t, f) = take_chunk-Has junk s (all_encoded is) k l in
    (s, all_encoded is, t, e, f, get_items-encoded beyond is h)

-- What is asked for behind an error.
abbrev pub nothing : Kind → Item
nothing u1_kind = u1_item 0
nothing u2_kind = u2_item 0
nothing u4_kind = u4_item 0
nothing string_kind = string_item []
nothing (raw_kind n) = raw_item []

abbrev pub nothings : List Kind → List Item
nothings [] = []
nothings (k ∷ ks) = nothing k ∷ nothings ks

get_item_error :
    (beyond : ℕ) (k : Kind) (s : InSerializer)
    → s.had_error ≡ true
    → get_item beyond k s ≡ (nothing k, s)
unfolding get_item get_u1_byte get_u2_byte get_u4_byte get_string get_raw
get_item_error beyond u1_kind s h = ground (arith, h)
get_item_error beyond u2_kind s h = ground (arith, h)
get_item_error beyond u4_kind s h = ground (arith, h)
get_item_error beyond string_kind s h = ground (arith, h)
get_item_error beyond (raw_kind n) s h = ground (arith, h)

-- Behind an error a serializer gives zeros and empty strings for whatever it is asked, and stays as
-- it is.
pub get_items_error :
    (beyond : ℕ) (ks : List Kind) (s : InSerializer)
    → s.had_error ≡ true
    → get_items beyond ks s ≡ (nothings ks, s)
unfolding get_items
get_items_error beyond [] s h = refl
get_items_error beyond (k ∷ ks) s h =
    ap (λ r. let rs = get_items beyond ks r.1 in (r.0 ∷ rs.0, rs.1)) (get_item_error beyond k s h)
    ∙ ap (λ rs. (nothing k ∷ rs.0, rs.1)) (get_items_error beyond ks s h)

get_string_truncated :
    (str : List ℕ) (m : ℕ)
    → length str ≤ 65534
    → m < length (encoded (string_item str))
    → (get_string (reading (take m (encoded (string_item str))))).1.had_error ≡ true
unfolding get_string
get_string_truncated str zero f h = refl
get_string_truncated str (suc zero) f h = refl
get_string_truncated str (suc (suc m)) f h =
    let l = length-take m (str ++ hton1 0) in
    let n = length-append str (hton1 0) in
    let e : ntoh2 ((length str + 1) % 256) ((length str + 1) / 256 % 256) ≡ length str + 1 =
      omega (arith, f) in
    ground arith

-- An item of which the last bytes are missing is noticed, wherever it is cut off.
pub get_item_truncated :
    (beyond : ℕ) (i : Item) (m : ℕ)
    → FitsItem i
    → m < length (encoded i)
    → (get_item beyond (kind i) (reading (take m (encoded i)))).1.had_error ≡ true
unfolding get_item get_u1_byte get_u2_byte get_u4_byte get_string get_raw
get_item_truncated beyond (u1_item n) m f h = let l = length-take m (hton1 n) in ground arith
get_item_truncated beyond (u2_item n) m f h = let l = length-take m (hton2 n) in ground arith
get_item_truncated beyond (u4_item n) m f h = let l = length-take m (bytes4 n) in ground arith
get_item_truncated beyond (string_item str) m f h = get_string_truncated str m f h
get_item_truncated beyond (raw_item bs) m f h = let l = length-take m bs in ground arith

-- A serializer that makes its first chunk from a factory, and has room in it for the bytes that it
-- is given, writes through a null pointer: `buf_` is not set with the chunk.
pub resume_faults :
    (junk : ℕ) (made bs : List ℕ)
    → length bs ≤ length made
    → length bs ≤ limit
    → chain (resume made empty_state) (add_raw junk bs) ≡ none
unfolding resume add_raw set_min_suggested_size store
resume_faults junk made bs h l = ground arith

-- A number of four bytes is stored behind the end of the chunk, if this has room for it but for
-- fewer than eight bytes. Where it is stored, at a place with eight bytes, only its lower half is
-- counted; and what is read of that half is not the number, but the number and, from bit 32 on,
-- whatever lies behind the reader's array.
add_u4_byte_lem :
    (junk n beyond : ℕ) (xs rest : List ℕ) (pos : ℕ)
    → n < 2 ^ 32
    → pos + 4 ≤ length xs
    → pos + 8 ≤ limit
    → let s = full xs pos in
      let room = leb (pos + 8) (length xs) in
      (add_u4_byte junk n s ≡ (
        if room
        then some (record s {
          cur_chunk = some (take pos xs ++ (hton4 n ++ drop (pos + 8) xs));
          cur_pos = pos + 4;
        })
        else none))
      × (get_u4_byte beyond (reading (bytes4 n ++ rest)) ≡ (n + beyond * 2 ^ 32, reading rest))
unfolding add_u4_byte set_min_suggested_size store get_u4_byte
add_u4_byte_lem junk n beyond xs rest pos fits h l = (write (leb (pos + 8) (length xs)) refl, read)
  where
    write :
        (room : Bool)
        → leb (pos + 8) (length xs) ≡ room
        → add_u4_byte junk n (full xs pos) ≡ (
            if room
            then some (record (full xs pos) {
              cur_chunk = some (take pos xs ++ (hton4 n ++ drop (pos + 8) xs));
              cur_pos = pos + 4;
            })
            else none)
    write true e = ground (arith, e, h, l)
    write false e = ground (arith, e, h, l)

    read : get_u4_byte beyond (reading (bytes4 n ++ rest)) ≡ (n + beyond * 2 ^ 32, reading rest)
    read =
        let low : ntoh4 0 (n % 256) (n / 256 % 256) (n / 65536 % 256) (n / 16777216 % 256) ≡ n =
          ground (arith, fits) in
        ground (arith, ap (λ m. m + beyond * 2 ^ 32) low)
