-- ===== src/PreAllocBuffer.antt =====
-- StrMod/PreAllocBuffer.cxx: a buffer of bytes that lie in storage of the object itself, of
-- `prebufsize` bytes, or in a block of the heap. `grants` says which sizes `malloc` and `realloc`
-- have memory for, and `junk` is the byte that new memory holds.
mod Contents
mod Tests
use str_mod.Base.{
  ℕ, ◌-◌, ◌==◌, Bool, true, false, not, ◌||◌, if◌then◌else◌, leb, ltb, List, ◌++◌, [], length, take,
  drop, replicate,
}

-- where `buf_` points
pub data Place : Type 0 where
  null prealloc heap : Place

-- `block` is the block of the heap, if `buf_` points to one.
pub record PreAllocBuffer : Type 0 where
  pub buf : Place
  pub buflen : ℕ
  pub preallocbuf : List ℕ
  pub block : List ℕ

-- `fault` is a read behind the end of a block, and `bad_alloc` the exception.
pub data Outcome : Type 0 where
  finished : PreAllocBuffer → Outcome
  fault bad_alloc : Outcome

abbrev pub is_null : Place → Bool
is_null null = true
is_null _ = false

abbrev pub is_prealloc : Place → Bool
is_prealloc prealloc = true
is_prealloc _ = false

unfoldable pub i_destruct : PreAllocBuffer → PreAllocBuffer
i_destruct b = record b { buf = null; buflen = 0; block = [] }

unfoldable pub i_invariant : ℕ → PreAllocBuffer → Bool
i_invariant prebufsize b =
    if b.buflen == 0
    then is_null b.buf || is_prealloc b.buf
    else if leb b.buflen prebufsize
    then is_prealloc b.buf
    else not (is_null b.buf)

module _ (grants : ℕ → Bool) (junk : ℕ) where
  -- to a size that the object has room for
  unfoldable pub resize_inside : Place → ℕ → PreAllocBuffer → Outcome
  resize_inside prealloc newsize b = finished (record b { buflen = newsize })
  resize_inside null newsize b =
      finished (record b { buf = if newsize == 0 then null else prealloc; buflen = newsize })
  resize_inside heap newsize b =
      if ltb (length b.block) newsize
      then fault
      else finished (record b {
        buf = if newsize == 0 then null else prealloc;
        buflen = newsize;
        preallocbuf = take newsize b.block ++ drop newsize b.preallocbuf;
        block = [];
      })

  -- to a size that needs a block
  unfoldable pub resize_outside : Place → ℕ → PreAllocBuffer → Outcome
  resize_outside null newsize b =
      if grants newsize
      then finished (record b { buf = heap; buflen = newsize; block = replicate newsize junk })
      else bad_alloc
  resize_outside prealloc newsize b =
      if grants newsize
      then (if ltb newsize b.buflen
          then fault
          else finished (record b {
            buf = heap;
            buflen = newsize;
            block = take b.buflen b.preallocbuf ++ replicate (newsize - b.buflen) junk;
          }))
      else bad_alloc
  resize_outside heap newsize b =
      if grants newsize
      then finished (record b {
        buflen = newsize;
        block = take newsize b.block ++ replicate (newsize - length b.block) junk;
      })
      else bad_alloc

  unfoldable pub i_resize : ℕ → ℕ → PreAllocBuffer → Outcome
  unfolding resize_inside resize_outside
  i_resize prebufsize newsize b =
      if leb newsize prebufsize
      then resize_inside b.buf newsize b
      else resize_outside b.buf newsize b
