-- ===== src/PreAllocBuffer/Tests.antt =====
-- A buffer with room for four bytes, which holds three.
use mathlib.Core.Path.{◌≡◌, refl}
use str_mod.Base.{ℕ, Bool, leb, List, [], ◌∷◌, arith}
use str_mod.PreAllocBuffer.{PreAllocBuffer, prealloc, Outcome, finished, bad_alloc, i_resize}
use str_mod.PreAllocBuffer.Contents.{store, Resizes, i_resize-Resizes}

abbrev three : PreAllocBuffer
three = record { buf = prealloc; buflen = 3; preallocbuf = 1 ∷ 2 ∷ 3 ∷ 0 ∷ []; block = [] }

abbrev up_to_nine : ℕ → Bool
up_to_nine n = leb n 9

abbrev bytes_of : Outcome → List ℕ
bytes_of (finished b) = store b.buf b
bytes_of _ = []

resize_grow : bytes_of (i_resize up_to_nine 7 4 6 three) ≡ 1 ∷ 2 ∷ 3 ∷ 7 ∷ 7 ∷ 7 ∷ []
unfolding i_resize
resize_grow = refl

resize_denied : i_resize up_to_nine 7 4 10 three ≡ bad_alloc
unfolding i_resize
resize_denied = refl

i_resize-Resizes_example : Resizes up_to_nine 4 6 three (i_resize up_to_nine 7 4 6 three)
i_resize-Resizes_example = i_resize-Resizes up_to_nine 7 4 6 three (refl, omega arith)
