-- ===== src/Dispatcher/Order.antt =====
-- The order in which events are triggered.
use Prim.Native.Nat.{ℕ, zero, suc}
use mathlib.Core.List.{append_assoc, append-nil}
use str_mod.Base.{
  ◌+◌, ◌-◌, ◌*◌, ◌≡◌, refl, sym, ap, ◌∙◌, Bool, Option, none, some, List, [], ◌∷◌, ◌++◌, ◌&&◌, ◌||◌,
  not, if◌then◌else◌, ◌==◌, leb, arith, Bool-cases, inl, inr,
}
use str_mod.Dispatcher.State.{
  Dispatcher, Action, adds, adds_busy, sets_onempty, sets_oninterrupt, stops, interrupts, act,
  run_actions, q_empty,
}
use str_mod.Dispatcher.Loop.{
  Step, Outcome, finished, fault, out_of_fuel, pop, next_event, trigger_event, i_dispatch_event,
  after_check, after_chunk, at_most, clear_stop, dispatch_loop, i_dispatch_n_events, post_internal,
  check_empty_busy, dispatch_round, dispatch_n_events, dispatch_events,
}

-- The events in the order of the queue, those triggered before those that wait.
abbrev pub line : Dispatcher → List ℕ
line d = d.ran ++ d.mainq

-- No event for an interrupt is set, and events have only joined the line at its end.
abbrev pub Later : Dispatcher → Dispatcher → Type 0
Later d c = (c.oninterrupt ≡ none) × (new : List ℕ) × (line c ≡ line d ++ new)

same_line : (d c : Dispatcher) → c.oninterrupt ≡ none → line c ≡ line d → Later d c
same_line d c o e = (o, [], e ∙ sym (append-nil (line d)))

Later-trans : (a b c : Dispatcher) → Later a b → Later b c → Later a c
Later-trans a b c (o, xs, e) (p, ys, f) =
    (p, xs ++ ys, f ∙ ap (λ z. z ++ ys) e ∙ append_assoc (line a) xs ys)

abbrev IsPatient : Action → Type 0
IsPatient (sets_oninterrupt e) = ⊥
IsPatient _ = Unit

abbrev AllPatient : List Action → Type 0
AllPatient [] = Unit
AllPatient (a ∷ rest) = IsPatient a × AllPatient rest

-- No event sets an event for an interrupt.
abbrev pub Patient : (ℕ → List ℕ → List Action) → Type 0
Patient trigger = (e : ℕ) (ran : List ℕ) → AllPatient (trigger e ran)

act-Later : (a : Action) (d : Dispatcher) → IsPatient a → d.oninterrupt ≡ none → Later d (act a d)
unfolding act
act-Later (adds e) d p o = (o, e ∷ [], sym (append_assoc d.ran d.mainq (e ∷ [])))
act-Later (adds_busy e) d p o = same_line d (act (adds_busy e) d) o refl
act-Later (sets_onempty e) d p o =
    same_line d (act (sets_onempty e) d) (ground arith) (ground arith)
act-Later (sets_oninterrupt e) d p o = absurd p
act-Later stops d p o = same_line d (act stops d) o refl
act-Later interrupts d p o = same_line d (act interrupts d) (ground arith) (ground arith)

run_actions-Later :
    (as_ : List Action) (d : Dispatcher)
    → AllPatient as_
    → d.oninterrupt ≡ none
    → Later d (run_actions as_ d)
unfolding run_actions
run_actions-Later [] d p o = same_line d d o refl
run_actions-Later (a ∷ rest) d (p, q) o =
    let first = act-Later a d p o in
    Later-trans d (act a d) (run_actions rest (act a d)) first
      (run_actions-Later rest (act a d) q first.0)

abbrev Heads : Dispatcher → Option (ℕ × Dispatcher) → Type 0
Heads d none = Unit
Heads d (some (e, c)) = (c.oninterrupt ≡ none) × (c.ran ≡ d.ran) × (d.mainq ≡ e ∷ c.mainq)

abbrev LaterStep : Dispatcher → Option Dispatcher → Type 0
LaterStep d none = Unit
LaterStep d (some c) = Later d c

abbrev LaterRun : Dispatcher → Option (ℕ × Dispatcher) → Type 0
LaterRun d none = Unit
LaterRun d (some (n, c)) = Later d c

abbrev LaterCheck : Dispatcher → Option (ℕ × Bool × Dispatcher) → Type 0
LaterCheck d none = Unit
LaterCheck d (some (n, checkbusy, c)) = Later d c

abbrev pub LaterOutcome : Dispatcher → Outcome → Type 0
LaterOutcome d (finished c) = Later d c
LaterOutcome d _ = Unit

LaterRun-trans :
    (d c : Dispatcher) (r : Option (ℕ × Dispatcher)) → Later d c → LaterRun c r → LaterRun d r
LaterRun-trans d c none h k = k
LaterRun-trans d c (some (n, q)) h k = Later-trans d c q h k

LaterOutcome-trans :
    (d c : Dispatcher) (o : Outcome) → Later d c → LaterOutcome c o → LaterOutcome d o
LaterOutcome-trans d c (finished q) h k = Later-trans d c q h k
LaterOutcome-trans d c fault h k = k
LaterOutcome-trans d c out_of_fuel h k = k

module _ (asserts : Bool) (trigger : ℕ → List ℕ → List Action) (patient : Patient trigger) where
  next_event-Heads :
      (d : Dispatcher) → d.oninterrupt ≡ none → Heads d (next_event asserts trigger d)
  unfolding next_event pop
  next_event-Heads d o = ground arith

  trigger_event-Later :
      (e : ℕ) (d c : Dispatcher)
      → Heads d (some (e, c))
      → Later d (trigger_event asserts trigger e c)
  unfolding trigger_event
  trigger_event-Later e d c (o, r, m) =
      let begun : Dispatcher = record c { curevt = some e; ran = c.ran ++ (e ∷ []) } in
      let done = run_actions-Later (trigger e c.ran) begun (patient e c.ran) o in
      let begins = append_assoc c.ran (e ∷ []) c.mainq in
      let whole : line begun ≡ line d = begins ∙ rw (r, m) refl in
      (done.0, done.1, done.2 ∙ ap (λ z. z ++ done.1) whole)

  i_dispatch_event-Later :
      (d : Dispatcher) → d.oninterrupt ≡ none → LaterStep d (i_dispatch_event asserts trigger d)
  unfolding i_dispatch_event
  i_dispatch_event-Later d o = go (next_event asserts trigger d) (next_event-Heads d o)
    where
      go :
          (n : Option (ℕ × Dispatcher))
          → Heads d n
          → LaterStep d (
              if asserts && q_empty d.mainq then none else elim n as (λ _. Step) [
                | none ↦ none
                | some (e, c) ↦ some (trigger_event asserts trigger e c)
              ])
      go none k = ground arith
      go (some (e, c)) k = elim (Bool-cases (asserts && q_empty d.mainq)) [
        | inl t ↦ rw t tt
        | inr t ↦ rw t (trigger_event-Later e d c k)
      ]

  dispatch_loop-Later :
      (i : ℕ) (checkbusy : Bool) (d : Dispatcher)
      → d.oninterrupt ≡ none
      → LaterRun d (dispatch_loop asserts trigger i checkbusy d)
  unfolding dispatch_loop
  dispatch_loop-Later zero checkbusy d o = same_line d d o refl
  dispatch_loop-Later (suc i) checkbusy d o =
      go (i_dispatch_event asserts trigger d) (i_dispatch_event-Later d o)
        (dispatch_loop-Later i checkbusy)
    where
      go :
          (s : Option Dispatcher)
          → LaterStep d s
          → ((c : Dispatcher)
              → c.oninterrupt ≡ none
              → LaterRun c (dispatch_loop asserts trigger i checkbusy c))
          → LaterRun d (
              if d.stop_flag
              then some (suc i, d)
              else if asserts && (q_empty d.mainq || d.internalevnum == 0)
              then none
              else elim s as (λ _. Option (ℕ × Dispatcher)) [
                | none ↦ none
                | some c ↦
                    if checkbusy && not (q_empty c.busypoll)
                    then some (suc i, c)
                    else dispatch_loop asserts trigger i checkbusy c
              ])
      go none k ih = ground (arith, same_line d d o refl)
      go (some c) k ih =
          let more = LaterRun-trans d c _ k (ih c k.0) in ground (arith, same_line d d o refl)

  i_dispatch_n_events-Later :
      (n : ℕ) (checkbusy : Bool) (d : Dispatcher)
      → d.oninterrupt ≡ none
      → LaterRun d (i_dispatch_n_events asserts trigger n checkbusy d)
  unfolding i_dispatch_n_events
  i_dispatch_n_events-Later n checkbusy d o = ground (arith, dispatch_loop-Later n checkbusy d o)

  post_internal-Later :
      (d : Dispatcher) → d.oninterrupt ≡ none → Later d (post_internal asserts trigger d).1
  unfolding post_internal
  post_internal-Later d o = go d.mainq d.onempty d.busypoll
    where
      go :
          (q : List ℕ) (e : Option ℕ) (b : List ℕ)
          → let c : Dispatcher = record d { mainq = q; onempty = e; busypoll = b } in
            Later c (post_internal asserts trigger c).1
      go [] none b = (o, [], sym (append-nil (d.ran ++ [])))
      go [] (some e) b = (o, e ∷ [], ap (λ z. z ++ (e ∷ [])) (sym (append-nil d.ran)))
      go (x ∷ xs) e [] = (o, [], sym (append-nil (d.ran ++ (x ∷ xs))))
      go (x ∷ xs) e (b ∷ bs) = (o, b ∷ [], sym (append_assoc d.ran (x ∷ xs) (b ∷ [])))

  check_empty_busy-Later :
      (d : Dispatcher) → d.oninterrupt ≡ none → LaterCheck d (check_empty_busy asserts trigger d)
  unfolding check_empty_busy
  check_empty_busy-Later d o = ground (arith, same_line d d o refl, post_internal-Later d o)

  dispatch_round-Later :
      (rest : ℕ → Dispatcher → Outcome) (n : ℕ) (d : Dispatcher)
      → ((m : ℕ) (q : Dispatcher) → q.oninterrupt ≡ none → LaterOutcome q (rest m q))
      → d.oninterrupt ≡ none
      → LaterOutcome d (dispatch_round asserts trigger rest n d)
  unfolding dispatch_round
  dispatch_round-Later rest n d later o =
      go (check_empty_busy asserts trigger d) (check_empty_busy-Later d o)
    where
      chunk :
          (c : Dispatcher) (r : Option (ℕ × Dispatcher))
          → Later d c
          → LaterRun c r
          → LaterOutcome d (after_chunk asserts trigger rest n r)
      chunk c none h k = tt
      chunk c (some (dispatched, q)) h k =
          LaterOutcome-trans d q _ (Later-trans d c q h k) (later (n - dispatched) _ k.0)

      go :
          (r : Option (ℕ × Bool × Dispatcher))
          → LaterCheck d r
          → LaterOutcome d (after_check asserts trigger rest n r)
      go none h = tt
      go (some (evchunk, checkbusy, c)) h =
          let run = i_dispatch_n_events-Later (at_most asserts trigger n evchunk) checkbusy c h.0 in
          ground (arith, chunk c _ h run)

  dispatch_n_events-Later :
      (fuel n : ℕ) (d : Dispatcher)
      → d.oninterrupt ≡ none
      → LaterOutcome d (dispatch_n_events asserts trigger fuel n d)
  unfolding dispatch_n_events
  dispatch_n_events-Later zero n d o = ground (arith, same_line d d o refl)
  dispatch_n_events-Later (suc fuel) n d o =
      let round =
        dispatch_round-Later (dispatch_n_events asserts trigger fuel) n d
          (dispatch_n_events-Later fuel) o in
      ground (arith, same_line d d o refl)

  -- Without events for interrupts, events are triggered first in, first out: where `dispatchEvents`
  -- comes back, the events that have been triggered and then those that wait are those of before,
  -- in the same order, with new ones behind them.
  pub dispatch_events-Later :
      (n : ℕ) (d : Dispatcher)
      → d.oninterrupt ≡ none
      → LaterOutcome d (dispatch_events asserts trigger n d)
  unfolding dispatch_events
  dispatch_events-Later n d o =
      go (dispatch_n_events asserts trigger (2 * n + 1) n d)
        (dispatch_n_events-Later (2 * n + 1) n d o)
    where
      go :
          (r : Outcome)
          → LaterOutcome d r
          → LaterOutcome d (if leb n 0 then finished d else clear_stop asserts trigger r)
      go (finished q) h = ground (arith, same_line d d o refl)
      go fault h = ground (arith, same_line d d o refl)
      go out_of_fuel h = ground (arith, same_line d d o refl)
