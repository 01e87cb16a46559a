-- ===== src/Chopper/Tests.antt =====
-- Runs of a chopper that cuts behind line feeds.
use str_mod.Base.{◌≡◌, refl, true, false, none, some, [], ◌∷◌, ◌++◌, arith}
use str_mod.Chunk.Tree.{Chunk, buffer, bytes, IsSound}
use str_mod.Chopper.{CharChopper, in_maybe, write_to, read_from}
use str_mod.Chopper.Held.{out}
use str_mod.Chopper.Pieces.{Piece}
use str_mod.Chopper.Chopped.{in_flight, IsChopped}
use str_mod.Chopper.Stream.{write_to-IsChopped, read_from-IsChopped}

abbrev new_chopper : CharChopper
new_chopper = record {
  incoming = none;
  outgoing = none;
  outgoing_ready = false;
  groupdata = false;
  curdata = none;
  usedsize = 0;
  incoming_is_bc = in_maybe;
}

-- "ab", then "c\nd\n"
abbrev first : Chunk
first = buffer (97 ∷ 98 ∷ [])

abbrev second : Chunk
second = buffer (99 ∷ 10 ∷ 100 ∷ 10 ∷ [])

abbrev both : CharChopper
unfolding write_to
both = write_to 0 10 second (write_to 0 10 first new_chopper)

lines :
    (out both.outgoing ≡ 97 ∷ 98 ∷ 99 ∷ 10 ∷ [])
    × (both.outgoing_ready ≡ true)
    × (out (read_from 0 10 (read_from 0 10 both).1).0 ≡ 100 ∷ 10 ∷ [])
unfolding both read_from bytes
lines = (refl, refl, refl)

first-IsSound : IsSound first
unfolding IsSound
first-IsSound = omega arith

new_chopper-IsChopped : IsChopped 10 new_chopper
new_chopper-IsChopped = ((tt, tt), tt, (tt, refl))

write_to-IsChopped_example :
    IsChopped 10 (write_to 0 10 first new_chopper)
    × (in_flight (write_to 0 10 first new_chopper) ≡ in_flight new_chopper ++ bytes first)
unfolding bytes
write_to-IsChopped_example =
    write_to-IsChopped 0 10 (omega arith) first new_chopper new_chopper-IsChopped refl first-IsSound
      (omega arith)

-- "x\n" ready, and more waiting
abbrev ready : CharChopper
ready = record new_chopper {
  incoming = some first;
  outgoing = some (buffer (120 ∷ 10 ∷ []));
  outgoing_ready = true;
}

ready-IsChopped : IsChopped 10 ready
unfolding IsSound bytes
ready-IsChopped =
    ((omega arith, tt), omega arith, ((120 ∷ [], ((λ e. omega (arith, e)), tt), refl), refl))

read_from-IsChopped_example :
    Piece 10 (out (read_from 0 10 ready).0)
    × IsChopped 10 (read_from 0 10 ready).1
    × (out (read_from 0 10 ready).0 ++ in_flight (read_from 0 10 ready).1 ≡ in_flight ready)
unfolding bytes
read_from-IsChopped_example =
    read_from-IsChopped 0 10 (omega arith) ready ready-IsChopped refl (omega arith)
