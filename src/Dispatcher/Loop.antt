-- ===== src/Dispatcher/Loop.antt =====
-- The dispatching methods. `asserts` says whether the assertions are compiled in, and `trigger`
-- which calls an event makes when it is triggered, given the events triggered before.
use str_mod.Base.{
  ℕ, ◌+◌, ◌-◌, ◌*◌, ◌%◌, zero, suc, Bool, true, false, not, ◌&&◌, ◌||◌, Option, none, some, List,
  [], ◌∷◌, ◌++◌, if◌then◌else◌, leb, ltb, ◌==◌, length, u32_mod,
}
use str_mod.Dispatcher.State.{Dispatcher, Action, run_actions, q_empty, is_set}

-- `none` is a fault: a failed assertion, or the front of an empty queue.
abbrev pub Step : Type 0
Step = Option Dispatcher

-- What a loop on fuel leaves.
pub data Outcome : Type 0 where
  finished : Dispatcher → Outcome
  fault out_of_fuel : Outcome

module _ (asserts : Bool) (trigger : ℕ → List ℕ → List Action) where
  -- `mainq_.front()` and `mainq_.pop_front()`
  unfoldable pub pop : Dispatcher → Option (ℕ × Dispatcher)
  pop d = elim d.mainq [ [] ↦ none | e ∷ es ↦ some (e, record d { mainq = es }) ]

  -- An interrupt comes before the queue, if there is an event for it.
  unfoldable pub next_event : Dispatcher → Option (ℕ × Dispatcher)
  unfolding pop
  next_event d =
      if d.interrupted
      then (let c = record d { interrupted = false; oninterrupt = none } in
          elim d.oninterrupt [ none ↦ pop c | some e ↦ some (e, c) ])
      else pop d

  unfoldable pub trigger_event : ℕ → Dispatcher → Dispatcher
  unfolding run_actions
  trigger_event e d =
      record (run_actions (trigger e d.ran)
        (record d { curevt = some e; ran = d.ran ++ (e ∷ []) })) { curevt = none }

  unfoldable pub i_dispatch_event : Dispatcher → Step
  unfolding next_event trigger_event
  i_dispatch_event d =
      if asserts && q_empty d.mainq
      then none
      else elim (next_event d) [ none ↦ none | some (e, c) ↦ some (trigger_event e c) ]

  -- The loop of `i_dispatchNEvents`; what it leaves of its counter goes with the dispatcher.
  unfoldable pub dispatch_loop : ℕ → Bool → Dispatcher → Option (ℕ × Dispatcher)
  unfolding i_dispatch_event
  dispatch_loop zero checkbusypoll d = some (0, d)
  dispatch_loop (suc i) checkbusypoll d =
      let rest = dispatch_loop i checkbusypoll in
      if d.stop_flag
      then some (suc i, d)
      else if asserts && (q_empty d.mainq || d.internalevnum == 0)
      then none
      else elim (i_dispatch_event d) [
        | none ↦ none
        | some c ↦ if checkbusypoll && not (q_empty c.busypoll) then some (suc i, c) else rest c
      ]

  unfoldable pub i_dispatch_n_events : ℕ → Bool → Dispatcher → Option (ℕ × Dispatcher)
  unfolding dispatch_loop
  i_dispatch_n_events n checkbusypoll d =
      if asserts && ltb (length d.mainq) n
      then none
      else elim (dispatch_loop n checkbusypoll d) [ none ↦ none | some (i, c) ↦ some (n - i, c) ]

  -- `checkEmptyBusy` where no internal event is on the queue
  unfoldable pub post_internal : Dispatcher → Bool × Dispatcher
  post_internal d = elim d.mainq [
    | [] ↦ elim d.onempty [
      | none ↦ (false, d)
      | some e ↦ (false, record d { mainq = e ∷ []; internalevnum = 1; onempty = none })
    ]
    | _ ∷ _ ↦ elim d.busypoll [
      | [] ↦ (true, record d { internalevnum = 1 })
      | b ∷ bs ↦ (
        false,
        record d {
          mainq = d.mainq ++ (b ∷ []);
          busypoll = bs;
          internalevnum = length (d.mainq ++ (b ∷ []));
        },
      )
    ]
  ]

  -- The number returned is an `unsigned int`.
  unfoldable pub check_empty_busy : Dispatcher → Option (ℕ × Bool × Dispatcher)
  unfolding post_internal
  check_empty_busy d =
      if asserts && ltb (length d.mainq) d.internalevnum
      then none
      else if d.internalevnum == 0
      then (let posted = post_internal d in
          some (length posted.1.mainq % u32_mod, posted.0, posted.1))
      else some (d.internalevnum % u32_mod, false, d)

  abbrev pub count_dispatched : ℕ → Dispatcher → Dispatcher
  count_dispatched dispatched d = record d {
    internalevnum = if ltb d.internalevnum dispatched then 0 else d.internalevnum - dispatched;
  }

  abbrev pub at_most : ℕ → ℕ → ℕ
  at_most numevents evchunk = if ltb numevents evchunk then numevents else evchunk

  abbrev pub after_chunk : (ℕ → Dispatcher → Outcome) → ℕ → Option (ℕ × Dispatcher) → Outcome
  after_chunk rest numevents none = fault
  after_chunk rest numevents (some (dispatched, q)) =
      rest (numevents - dispatched) (count_dispatched dispatched q)

  abbrev pub after_check : (ℕ → Dispatcher → Outcome) → ℕ → Option (ℕ × Bool × Dispatcher) → Outcome
  after_check rest numevents none = fault
  after_check rest numevents (some (evchunk, checkbusy, c)) =
      if evchunk == 0
      then finished c
      else after_chunk rest numevents (i_dispatch_n_events (at_most numevents evchunk) checkbusy c)

  -- One round of the loop of `dispatchNEvents`, which goes on by `rest`.
  unfoldable pub dispatch_round : (ℕ → Dispatcher → Outcome) → ℕ → Dispatcher → Outcome
  unfolding check_empty_busy i_dispatch_n_events
  dispatch_round rest numevents d = after_check rest numevents (check_empty_busy d)

  unfoldable pub dispatch_n_events : ℕ → ℕ → Dispatcher → Outcome
  unfolding dispatch_round
  dispatch_n_events zero numevents d =
      if ltb 0 numevents && not d.stop_flag then out_of_fuel else finished d
  dispatch_n_events (suc fuel) numevents d =
      let rest = dispatch_n_events fuel in
      if ltb 0 numevents && not d.stop_flag then dispatch_round rest numevents d else finished d

  abbrev pub clear_stop : Outcome → Outcome
  clear_stop (finished d) = finished (if d.stop_flag then record d { stop_flag = false } else d)
  clear_stop fault = fault
  clear_stop out_of_fuel = out_of_fuel

  unfoldable pub dispatch_events : ℕ → Dispatcher → Outcome
  unfolding dispatch_n_events
  dispatch_events numevents d =
      if leb numevents 0
      then finished d
      else clear_stop (dispatch_n_events (2 * numevents + 1) numevents d)

  abbrev pub go_on : (Dispatcher → Outcome) → Outcome → Outcome
  go_on rest (finished d) = rest d
  go_on rest fault = fault
  go_on rest out_of_fuel = out_of_fuel

  -- The argument of `dispatchNEvents` is an `unsigned int`.
  unfoldable pub until_loop : ℕ → Dispatcher → Outcome
  unfolding dispatch_n_events
  until_loop zero d =
      if not d.stop_flag && (not (q_empty d.mainq) || is_set d.onempty)
      then out_of_fuel
      else finished d
  until_loop (suc fuel) d =
      let numevents = (length d.mainq * 2 + 1) % u32_mod in
      let rest = until_loop fuel in
      if not d.stop_flag && (not (q_empty d.mainq) || is_set d.onempty)
      then go_on rest (dispatch_n_events (2 * numevents + 1) numevents d)
      else finished d

  unfoldable pub dispatch_until_empty : ℕ → Dispatcher → Outcome
  unfolding until_loop
  dispatch_until_empty fuel d = clear_stop (until_loop fuel d)
