-- ===== src/Chopper.antt =====
-- StrMod/CharChopper.cxx, with the steps of StrMod/pubinclude/StrMod/StreamProcessor.h: a processor
-- that cuts a stream of chunks behind each occurrence of a character. `chopchar` is the byte that this
-- `char` has, which is signed as on x86, and `junk` the byte that new memory holds.
mod Held
mod Copied
mod Added
mod Pieces
mod Front
mod Chopped
mod Stream
mod Tests
use str_mod.Base.{
  suc, ℕ, ◌+◌, ◌-◌, ◌/◌, ◌==◌, Bool, true, false, not, ◌&&◌, ◌||◌, if◌then◌else◌, leb, ltb, max,
  Option, none, some, List, [], ◌∷◌, ◌++◌, length, take, drop, replicate,
}
use str_mod.LinearExtent.{extent}
use str_mod.Chunk.Tree.{
  Chunk, buffer, group, nil, cons, bytes, chunk_length, push_back, str_sub_chunk,
}
use str_mod.LinearExtent.{add32}
use str_mod.Base.{resize, add64}

pub data IncomingIsBc : Type 0 where
  in_yes in_no in_maybe : IncomingIsBc

abbrev is_yes : IncomingIsBc → Bool
is_yes in_yes = true
is_yes _ = false

abbrev is_buffer : Chunk → Bool
is_buffer (buffer bs) = true
is_buffer _ = false

pub data ℤ : Type 0 where
  pos negsuc : ℕ → ℤ

-- a `char` of the given bits as an `int`: it has a sign
abbrev pub to_int : ℕ → ℤ
to_int c = if ltb c 128 then pos c else negsuc (255 - c)

abbrev pub same_int : ℤ → ℤ → Bool
same_int (pos m) (pos n) = m == n
same_int (negsuc m) (negsuc n) = m == n
same_int _ _ = false

-- The loop over the incoming bytes, which are unsigned: how many it passes, the character it looks for included, and
-- whether it finds that.
abbrev pub scan : ℕ → List ℕ → ℕ × Bool
scan chopchar [] = (0, false)
scan chopchar (c ∷ cs) =
    let rest = scan chopchar cs in
    if same_int (pos c) (to_int chopchar) then (1, true) else (suc rest.0, rest.1)

-- `curdata` is what the buffer that `curdata_` points to holds, and `groupdata` whether
-- `groupdata_` is set; it then points to what `outgoing_` points to, or to what that last was.
pub record CharChopper : Type 0 where
  pub incoming : Option Chunk
  pub outgoing : Option Chunk
  pub outgoing_ready : Bool
  pub groupdata : Bool
  pub curdata : Option (List ℕ)
  pub usedsize : ℕ
  pub incoming_is_bc : IncomingIsBc

-- `chnk` behind `outgoing_`, in the group that this is or becomes
abbrev pub grouped : Chunk → Chunk → Chunk
unfolding push_back chunk_length
grouped (group cs total) chnk = push_back cs total chnk
grouped outgoing chnk = push_back (cons outgoing nil) (add32 0 (chunk_length outgoing)) chnk

-- `addChunk` from the test of `outgoing_` on
unfoldable pub add_outgoing : Chunk → CharChopper → CharChopper
unfolding grouped
add_outgoing chnk s = elim s.outgoing [
  | some outgoing ↦ record s { outgoing = some (grouped outgoing chnk); groupdata = true }
  | none ↦ record s { outgoing = some chnk; groupdata = false }
]

-- `checkIncoming`
abbrev pub checked : Chunk → IncomingIsBc → IncomingIsBc
checked incoming in_maybe = if is_buffer incoming then in_yes else in_no
checked incoming in_yes = in_yes
checked incoming in_no = in_no

unfoldable pub check_incoming : Chunk → CharChopper → CharChopper
check_incoming incoming s = record s { incoming_is_bc = checked incoming s.incoming_is_bc }

-- what is left of the incoming data behind the first `count` bytes
unfoldable pub left_over : Chunk → ℕ → ℕ → Option Chunk
unfolding str_sub_chunk extent
left_over incoming count inlen =
    if leb inlen count then none else some (str_sub_chunk incoming (extent count inlen))

-- `zeroIncoming` or `replaceIncoming`
unfoldable pub drop_incoming : Chunk → ℕ → ℕ → CharChopper → CharChopper
unfolding left_over
drop_incoming incoming count inlen s = record s {
  incoming = left_over incoming count inlen;
  incoming_is_bc = if leb inlen count then in_maybe else s.incoming_is_bc;
}

module _ (junk : ℕ) where
  -- `addChunk(curdata_)`, which does nothing else with a null pointer than to add it
  unfoldable pub add_curdata : CharChopper → CharChopper
  unfolding add_outgoing
  add_curdata s = elim s.curdata [
    | none ↦ s
    | some xs ↦ record (add_outgoing (buffer (resize junk s.usedsize xs)) s) { curdata = none }
  ]

  -- `addChunk` of any other chunk
  unfoldable pub add_chunk : Chunk → CharChopper → CharChopper
  unfolding add_curdata add_outgoing
  add_chunk chnk s = add_outgoing chnk (add_curdata s)

  -- What `curdata_` and `usedsize_` become where the first `count` bytes are copied behind those in
  -- use.
  unfoldable pub copied : Bool → ℕ → List ℕ → Option (List ℕ) → ℕ → List ℕ × ℕ
  unfolding resize
  copied foundchar count buf none used =
      (buf ++ drop count (replicate (if foundchar then count else 32) junk), count)
  copied foundchar count buf (some xs) used =
      let sum = add64 used count in
      let grown = if foundchar then sum else max (add64 used (used / 2)) sum in
      let ys = if ltb (length xs) sum then resize junk grown xs else xs in
      (take used ys ++ (buf ++ drop sum ys), sum)

  unfoldable pub copy_bytes : Bool → ℕ → List ℕ → CharChopper → CharChopper
  unfolding copied
  copy_bytes foundchar count buf s =
      let r = copied foundchar count buf s.curdata s.usedsize in
      record s { curdata = some r.0; usedsize = r.1 }

  -- the first `count` bytes of the incoming data, by a copy or in their chunk
  unfoldable pub keep_front : Chunk → Bool → ℕ → ℕ → CharChopper → CharChopper
  unfolding add_chunk copy_bytes str_sub_chunk extent bytes
  keep_front incoming foundchar count inlen s =
      if is_yes s.incoming_is_bc && leb count 16
      then copy_bytes foundchar count (take count (bytes incoming)) s
      else add_chunk (if leb inlen count then incoming else str_sub_chunk incoming (extent 0 count))
          s

  -- `processIncoming`, for what `incoming_` points to
  unfoldable pub process_incoming : ℕ → Chunk → CharChopper → CharChopper
  unfolding check_incoming add_chunk keep_front drop_incoming add_curdata chunk_length bytes
  process_incoming chopchar incoming s =
      let s = check_incoming incoming s in
      let inlen = chunk_length incoming in
      let found = scan chopchar (bytes incoming) in
      if leb inlen 0
      then record (add_chunk incoming s) { incoming = none; incoming_is_bc = in_maybe }
      else (let t =
            drop_incoming incoming found.0 inlen (keep_front incoming found.1 found.0 inlen s) in
          record (if found.1 then add_curdata t else t) { outgoing_ready = found.1 })

  -- `writeTo` and `readFrom`
  unfoldable pub write_to : ℕ → Chunk → CharChopper → CharChopper
  unfolding process_incoming
  write_to chopchar chnk s =
      let t = record s { incoming = some chnk } in
      if s.outgoing_ready then t else process_incoming chopchar chnk t

  unfoldable pub read_from : ℕ → CharChopper → Option Chunk × CharChopper
  unfolding process_incoming
  read_from chopchar s =
      let t = record s { outgoing = none; outgoing_ready = false } in
      (
        s.outgoing,
        elim s.incoming [ none ↦ t | some incoming ↦ process_incoming chopchar incoming t ],
      )
