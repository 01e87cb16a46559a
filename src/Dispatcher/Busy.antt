-- ===== src/Dispatcher/Busy.antt =====
-- An event that leaves the queue empty and adds a busy poll event.
use Prim.Native.Nat.{ℕ, suc}
use str_mod.Base.{◌+◌, ◌*◌, ◌≡◌, refl, leb, Bool, false, List, [], ◌∷◌, arith}
use str_mod.Dispatcher.State.{Dispatcher, Action, adds_busy, new_dispatcher}
use str_mod.Dispatcher.Loop.{fault, dispatch_n_events, dispatch_events}

module _ (asserts : Bool) (trigger : ℕ → List ℕ → List Action) (e b : ℕ)
    (only : trigger e [] ≡ adds_busy b ∷ []) where
  -- a new dispatcher with one event
  abbrev with_event : Dispatcher
  with_event = record new_dispatcher { mainq = e ∷ [] }

  two_rounds :
      (fuel n : ℕ) → dispatch_n_events asserts trigger (suc (suc fuel)) (suc n) with_event ≡ fault
  unfolding dispatch_n_events
  two_rounds fuel n = ground (arith, only)

  -- A new dispatcher with one event that does nothing but add a busy poll event faults, with the
  -- assertions compiled in or not, however many events are asked for, if any: the loop of
  -- `i_dispatchNEvents` breaks before it counts that event, so that an internal event is looked
  -- for on a queue that is empty.
  pub dispatch_events_faults : (n : ℕ) → dispatch_events asserts trigger (suc n) with_event ≡ fault
  unfolding dispatch_events
  dispatch_events_faults n =
      let fuel : 2 * suc n + 1 ≡ suc (suc (2 * n + 1)) = omega arith in
      let some_ : leb (suc n) 0 ≡ false = ground arith in
      rw (some_, fuel, two_rounds (2 * n + 1) n) refl
