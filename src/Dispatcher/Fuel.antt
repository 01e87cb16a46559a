-- ===== src/Dispatcher/Fuel.antt =====
-- The fuel of the loop, and what dispatching leaves.
use Prim.Native.Nat.{ℕ, zero, suc}
use str_mod.Base.{
  ◌+◌, ◌-◌, ◌*◌, ◌≤◌, ◌<◌, ◌≡◌, refl, ◌∙◌, ◌⊎◌, inl, inr, Bool, true, false, Option, none, some,
  List, [], ◌∷◌, ◌++◌, ◌&&◌, ◌||◌, not, if◌then◌else◌, ◌==◌, arith, length, length-append,
  Bool-cases, leb,
}
use str_mod.Dispatcher.State.{Dispatcher, Action, q_empty}
use str_mod.Dispatcher.Loop.{
  Step, Outcome, finished, fault, out_of_fuel, pop, next_event, trigger_event, i_dispatch_event,
  after_check, after_chunk, at_most, clear_stop, dispatch_loop, i_dispatch_n_events, post_internal,
  check_empty_busy, dispatch_round, dispatch_n_events, dispatch_events,
}
use str_mod.Dispatcher.Safe.{run_actions-Grows, Quiet, IsValid, IsSafe, dispatch_n_events-IsSafe}

abbrev pub Ends : Outcome → Type 0
Ends out_of_fuel = ⊥
Ends _ = Unit

-- What every round of the loop makes smaller.
abbrev measure : ℕ → Dispatcher → ℕ
measure n d = 2 * n + (if d.internalevnum == 0 then 1 else 0)

abbrev Takes : Dispatcher → Option (ℕ × Dispatcher) → Type 0
Takes d none = Unit
Takes d (some (e, c)) = c.internalevnum ≡ d.internalevnum

abbrev Pops : Dispatcher → Option Dispatcher → Type 0
Pops d none = Unit
Pops d (some c) = c.internalevnum ≡ d.internalevnum

-- What a loop over `i` events leaves, with `j` of them to go.
abbrev Runs : ℕ → Bool → Dispatcher → Option (ℕ × Dispatcher) → Type 0
Runs i checkbusy d none = Unit
Runs i checkbusy d (some (j, c)) =
    (j ≤ i)
    × (c.internalevnum ≡ d.internalevnum)
    × ((checkbusy ≡ true) ⊎ (d.stop_flag ≡ true) ⊎ (i ≡ 0) ⊎ (j < i))

Runs-suc :
    (i : ℕ) (checkbusy : Bool) (d c : Dispatcher) (r : Option (ℕ × Dispatcher))
    → c.internalevnum ≡ d.internalevnum
    → Runs i checkbusy c r
    → Runs (suc i) checkbusy d r
Runs-suc i checkbusy d c none e h = h
Runs-suc i checkbusy d c (some (j, q)) e (a, b, f) =
    (omega arith, b ∙ e, inr (inr (inr (omega arith))))

module _ (asserts : Bool) (trigger : ℕ → List ℕ → List Action) where
  next_event-Takes : (d : Dispatcher) → Takes d (next_event asserts trigger d)
  unfolding next_event pop
  next_event-Takes d = ground arith

  trigger_event-internalevnum :
      (e : ℕ) (d : Dispatcher) → (trigger_event asserts trigger e d).internalevnum ≡ d.internalevnum
  unfolding trigger_event
  trigger_event-internalevnum e d =
      let begun : Dispatcher = record d { curevt = some e; ran = d.ran ++ (e ∷ []) } in
      (run_actions-Grows (trigger e d.ran) begun).1

  i_dispatch_event-Pops : (d : Dispatcher) → Pops d (i_dispatch_event asserts trigger d)
  unfolding i_dispatch_event
  i_dispatch_event-Pops d = go (next_event asserts trigger d) (next_event-Takes d)
    where
      go :
          (n : Option (ℕ × Dispatcher))
          → Takes d n
          → Pops d (
              if asserts && q_empty d.mainq then none else elim n as (λ _. Step) [
                | none ↦ none
                | some (e, c) ↦ some (trigger_event asserts trigger e c)
              ])
      go none k = ground arith
      go (some (e, c)) k = ground (arith, trigger_event-internalevnum e c)

  dispatch_loop-Runs :
      (i : ℕ) (checkbusy : Bool) (d : Dispatcher)
      → Runs i checkbusy d (dispatch_loop asserts trigger i checkbusy d)
  unfolding dispatch_loop
  dispatch_loop-Runs zero checkbusy d = ground arith
  dispatch_loop-Runs (suc i) checkbusy d =
      go (i_dispatch_event asserts trigger d) (i_dispatch_event-Pops d)
        (dispatch_loop-Runs i checkbusy)
    where
      go :
          (s : Option Dispatcher)
          → Pops d s
          → ((c : Dispatcher) → Runs i checkbusy c (dispatch_loop asserts trigger i checkbusy c))
          → Runs (suc i) checkbusy d (
              if d.stop_flag
              then some (suc i, d)
              else if asserts && (q_empty d.mainq || d.internalevnum == 0)
              then none
              else elim s as (λ _. Option (ℕ × Dispatcher)) [
                | none ↦ none
                | some c ↦
                    if checkbusy && not (q_empty c.busypoll)
                    then some (suc i, c)
                    else dispatch_loop asserts trigger i checkbusy c
              ])
      go none k ih = ground arith
      go (some c) e ih = let more = Runs-suc i checkbusy d c _ e (ih c) in ground arith

  abbrev Posted : Dispatcher → Option (ℕ × Bool × Dispatcher) → Type 0
  Posted d none = Unit
  Posted d (some (n, checkbusy, c)) =
      (c.stop_flag ≡ d.stop_flag)
      × ((n ≡ 0) ⊎ (0 < c.internalevnum))
      × ((checkbusy ≡ false) ⊎ (d.internalevnum ≡ 0))

  check_empty_busy-Posted : (d : Dispatcher) → Posted d (check_empty_busy asserts trigger d)
  unfolding check_empty_busy post_internal
  check_empty_busy-Posted d =
      let longer : (b : ℕ) → length (d.mainq ++ (b ∷ [])) ≡ length d.mainq + 1 =
        λ b. length-append d.mainq (b ∷ []) in
      ground (arith, longer)

  abbrev Dispatched : ℕ → Bool → Dispatcher → Option (ℕ × Dispatcher) → Type 0
  Dispatched n checkbusy d none = Unit
  Dispatched n checkbusy d (some (dispatched, c)) =
      (dispatched ≤ n)
      × (c.internalevnum ≡ d.internalevnum)
      × ((checkbusy ≡ true) ⊎ (d.stop_flag ≡ true) ⊎ (n ≡ 0) ⊎ (0 < dispatched))

  i_dispatch_n_events-Dispatched :
      (n : ℕ) (checkbusy : Bool) (d : Dispatcher)
      → Dispatched n checkbusy d (i_dispatch_n_events asserts trigger n checkbusy d)
  unfolding i_dispatch_n_events
  i_dispatch_n_events-Dispatched n checkbusy d = ground (arith, dispatch_loop-Runs n checkbusy d)

  module _ (rest : ℕ → Dispatcher → Outcome) (fuel : ℕ)
      (ends : (m : ℕ) (q : Dispatcher) → measure m q ≤ fuel → Ends (rest m q)) where
    after_chunk-Ends :
        (n k : ℕ) (checkbusy : Bool) (d c : Dispatcher) (r : Option (ℕ × Dispatcher))
        → measure n d ≤ suc fuel
        → 0 < k
        → k ≤ n
        → c.stop_flag ≡ false
        → 0 < c.internalevnum
        → (checkbusy ≡ false) ⊎ (d.internalevnum ≡ 0)
        → Dispatched k checkbusy c r
        → Ends (after_chunk asserts trigger rest n r)
    after_chunk-Ends n k checkbusy d c none v p l s i b h = ground arith
    after_chunk-Ends n k checkbusy d c (some (dispatched, q)) v p l s i b (e, f, g) =
        ends (n - dispatched) _ (ground arith)

    dispatch_round-Ends :
        (n : ℕ) (d : Dispatcher)
        → measure n d ≤ suc fuel
        → 0 < n
        → d.stop_flag ≡ false
        → Ends (dispatch_round asserts trigger rest n d)
    unfolding dispatch_round
    dispatch_round-Ends n d v p s =
        go (check_empty_busy asserts trigger d) (check_empty_busy-Posted d)
      where
        go :
            (r : Option (ℕ × Bool × Dispatcher))
            → Posted d r
            → Ends (after_check asserts trigger rest n r)
        go none h = ground arith
        go (some (evchunk, checkbusy, c)) (a, inl z, f) = ground arith
        go (some (evchunk, checkbusy, c)) (a, inr q, f) =
            let k = at_most asserts trigger n evchunk in
            let most : k ≤ n = ground arith in
            let run = i_dispatch_n_events-Dispatched k checkbusy c in
            let next : 0 < k
                → Ends (
                    after_chunk asserts trigger rest n
                      (i_dispatch_n_events asserts trigger k checkbusy c)) =
              λ h. after_chunk-Ends n k checkbusy d c _ v h most (a ∙ s) q f run in
            let some_ : (0 < k) ⊎ (evchunk ≡ 0) = ground arith in
            elim some_ [ inl h ↦ ground (arith, next h) | inr h ↦ ground arith ]

  dispatch_n_events-Ends :
      (fuel n : ℕ) (d : Dispatcher)
      → measure n d ≤ fuel
      → Ends (dispatch_n_events asserts trigger fuel n d)
  unfolding dispatch_n_events
  dispatch_n_events-Ends zero n d v = ground arith
  dispatch_n_events-Ends (suc fuel) n d v =
      let round =
        dispatch_round-Ends (dispatch_n_events asserts trigger fuel) fuel
          (dispatch_n_events-Ends fuel) n d v in
      ground (arith, round)

  -- `dispatchEvents` ends, whatever events do when they are triggered: the rounds of its loop are
  -- no more than twice the number of events asked for, and one.
  pub dispatch_events-Ends : (n : ℕ) (d : Dispatcher) → Ends (dispatch_events asserts trigger n d)
  unfolding dispatch_events
  dispatch_events-Ends n d =
      go (dispatch_n_events asserts trigger (2 * n + 1) n d)
        (dispatch_n_events-Ends (2 * n + 1) n d (ground arith))
    where
      go :
          (o : Outcome)
          → Ends o
          → Ends (if leb n 0 then finished d else clear_stop asserts trigger o)
      go (finished q) h = ground arith
      go fault h = ground arith
      go out_of_fuel h = absurd h

  -- If no event adds a busy poll event, `dispatchEvents` faults nowhere, with the assertions
  -- compiled in or not: from a dispatcher that counts no more internal events than its queue is
  -- long it comes back with one.
  pub dispatch_events_finishes :
      (n : ℕ) (d : Dispatcher)
      → Quiet trigger
      → IsValid d
      → (q : Dispatcher) × (dispatch_events asserts trigger n d ≡ finished q) × IsValid q
  unfolding dispatch_events
  dispatch_events_finishes n d quiet v =
      go (dispatch_n_events asserts trigger (2 * n + 1) n d)
        (dispatch_n_events-Ends (2 * n + 1) n d (ground arith))
        (dispatch_n_events-IsSafe asserts trigger quiet (2 * n + 1) n d v)
    where
      go :
          (o : Outcome)
          → Ends o
          → IsSafe o
          → (q : Dispatcher) × ((if leb n 0 then finished d else clear_stop asserts trigger o)
              ≡ finished q)
            × IsValid q
      go (finished q) h k = elim (Bool-cases (leb n 0)) [
        | inl e ↦ (d, rw e refl, v)
        | inr e ↦ elim (Bool-cases q.stop_flag) [
          | inl f ↦ (record q { stop_flag = false }, rw (e, f) refl, k)
          | inr f ↦ (q, rw (e, f) refl, k)
        ]
      ]
      go fault h k = absurd k
      go out_of_fuel h k = absurd h
