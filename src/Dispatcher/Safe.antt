-- ===== src/Dispatcher/Safe.antt =====
-- Faults, and what dispatching takes from the queue.
use Prim.Native.Nat.{ℕ, zero, suc}
use str_mod.Base.{
  ◌+◌, ◌-◌, ◌≤◌, ◌<◌, ◌≡◌, refl, ◌∙◌, ◌⊎◌, inl, inr, Bool, false, Option, none, some, List, [], ◌∷◌,
  ◌++◌, ◌&&◌, ◌||◌, not, if◌then◌else◌, ◌==◌, arith, length, length-append,
}
use str_mod.Dispatcher.State.{
  Dispatcher, Action, adds, adds_busy, sets_onempty, sets_oninterrupt, stops, interrupts, act,
  run_actions, q_empty,
}
use str_mod.Dispatcher.Loop.{
  Step, Outcome, finished, fault, out_of_fuel, pop, next_event, trigger_event, i_dispatch_event,
  after_check, after_chunk, at_most, dispatch_loop, i_dispatch_n_events, post_internal,
  check_empty_busy, dispatch_round, dispatch_n_events,
}

-- What the calls of an event, and all that is dispatched, do not take away.
abbrev pub Grows : ℕ → Dispatcher → Dispatcher → Type 0
Grows n d c = (length d.mainq ≤ n + length c.mainq) × (c.internalevnum ≡ d.internalevnum)

act-Grows : (a : Action) (d : Dispatcher) → Grows 0 d (act a d)
unfolding act
act-Grows (adds e) d = (omega (arith, length-append d.mainq (e ∷ [])), refl)
act-Grows (adds_busy e) d = ground arith
act-Grows (sets_onempty e) d = ground arith
act-Grows (sets_oninterrupt e) d = ground arith
act-Grows stops d = ground arith
act-Grows interrupts d = ground arith

pub run_actions-Grows : (as_ : List Action) (d : Dispatcher) → Grows 0 d (run_actions as_ d)
unfolding run_actions
run_actions-Grows [] d = ground arith
run_actions-Grows (a ∷ rest) d = ground (arith, act-Grows a d, run_actions-Grows rest (act a d))

abbrev pub IsQuiet : Action → Type 0
IsQuiet (adds_busy e) = ⊥
IsQuiet _ = Unit

abbrev pub AllQuiet : List Action → Type 0
AllQuiet [] = Unit
AllQuiet (a ∷ rest) = IsQuiet a × AllQuiet rest

act-busypoll : (a : Action) (d : Dispatcher) → IsQuiet a → (act a d).busypoll ≡ d.busypoll
unfolding act
act-busypoll (adds e) d q = refl
act-busypoll (adds_busy e) d q = absurd q
act-busypoll (sets_onempty e) d q = ground arith
act-busypoll (sets_oninterrupt e) d q = ground arith
act-busypoll stops d q = refl
act-busypoll interrupts d q = ground arith

run_actions-busypoll :
    (as_ : List Action) (d : Dispatcher) → AllQuiet as_ → (run_actions as_ d).busypoll ≡ d.busypoll
unfolding run_actions
run_actions-busypoll [] d q = refl
run_actions-busypoll (a ∷ rest) d (q, r) =
    run_actions-busypoll rest (act a d) r ∙ act-busypoll a d q

-- No event adds a busy poll event, whatever was triggered before.
abbrev pub Quiet : (ℕ → List ℕ → List Action) → Type 0
Quiet trigger = (e : ℕ) (ran : List ℕ) → AllQuiet (trigger e ran)

abbrev pub IsValid : Dispatcher → Type 0
IsValid d = d.internalevnum ≤ length d.mainq

abbrev Pops : Dispatcher → Option Dispatcher → Type 0
Pops d none = ⊥
Pops d (some c) = Grows 1 d c × (c.busypoll ≡ d.busypoll)

abbrev Takes : Dispatcher → Option (ℕ × Dispatcher) → Type 0
Takes d none = ⊥
Takes d (some (e, c)) = Grows 1 d c × (c.busypoll ≡ d.busypoll)

-- What a loop over `i` events leaves, with `j` of them to go.
abbrev Runs : ℕ → Dispatcher → Option (ℕ × Dispatcher) → Type 0
Runs i d none = ⊥
Runs i d (some (j, c)) =
    (j ≤ i)
    × (length d.mainq + j ≤ i + length c.mainq)
    × (c.internalevnum ≡ d.internalevnum)
    × (c.busypoll ≡ d.busypoll)

Runs-suc :
    (i : ℕ) (d c : Dispatcher) (r : Option (ℕ × Dispatcher))
    → Grows 1 d c
    → c.busypoll ≡ d.busypoll
    → Runs i c r
    → Runs (suc i) d r
Runs-suc i d c none g e k = k
Runs-suc i d c (some (j, q)) (g, n) e (a, b, m, f) = (omega arith, omega arith, m ∙ n, f ∙ e)

abbrev pub IsSafe : Outcome → Type 0
IsSafe (finished d) = IsValid d
IsSafe fault = ⊥
IsSafe out_of_fuel = Unit

module _ (asserts : Bool) (trigger : ℕ → List ℕ → List Action) (quiet : Quiet trigger) where
  trigger_event-Pops :
      (e : ℕ) (d c : Dispatcher)
      → Grows 1 d c
      → c.busypoll ≡ d.busypoll
      → Pops d (some (trigger_event asserts trigger e c))
  unfolding trigger_event
  trigger_event-Pops e d c g b =
      let begun : Dispatcher = record c { curevt = some e; ran = c.ran ++ (e ∷ []) } in
      let grown = run_actions-Grows (trigger e c.ran) begun in
      let same = run_actions-busypoll (trigger e c.ran) begun (quiet e c.ran) in
      (ground arith, same ∙ b)

  next_event-Takes : (d : Dispatcher) → 0 < length d.mainq → Takes d (next_event asserts trigger d)
  unfolding next_event pop
  next_event-Takes d h = ground arith

  i_dispatch_event-Pops :
      (d : Dispatcher) → 0 < length d.mainq → Pops d (i_dispatch_event asserts trigger d)
  unfolding i_dispatch_event
  i_dispatch_event-Pops d h = go (next_event asserts trigger d) (next_event-Takes d h)
    where
      go :
          (n : Option (ℕ × Dispatcher))
          → Takes d n
          → Pops d (
              if asserts && q_empty d.mainq then none else elim n as (λ _. Step) [
                | none ↦ none
                | some (e, c) ↦ some (trigger_event asserts trigger e c)
              ])
      go none k = absurd k
      go (some (e, c)) (g, b) = ground (arith, trigger_event-Pops e d c g b)

  -- The loop of `i_dispatchNEvents` on a queue that is long enough. Where it may break for busy
  -- poll events, there are none.
  dispatch_loop-Runs :
      (i : ℕ) (checkbusy : Bool) (d : Dispatcher)
      → i ≤ length d.mainq
      → 0 < d.internalevnum
      → (checkbusy ≡ false) ⊎ (d.busypoll ≡ [])
      → Runs i d (dispatch_loop asserts trigger i checkbusy d)
  unfolding dispatch_loop
  dispatch_loop-Runs zero checkbusy d h n b = ground arith
  dispatch_loop-Runs (suc i) checkbusy d h n b =
      go (i_dispatch_event asserts trigger d) (i_dispatch_event-Pops d (omega arith))
        (dispatch_loop-Runs i checkbusy)
    where
      later : (c : Dispatcher) → c.busypoll ≡ d.busypoll → (checkbusy ≡ false) ⊎ (c.busypoll ≡ [])
      later c e = elim b [ inl f ↦ inl f | inr f ↦ inr (e ∙ f) ]

      go :
          (s : Option Dispatcher)
          → Pops d s
          → ((c : Dispatcher)
              → i ≤ length c.mainq
              → 0 < c.internalevnum
              → (checkbusy ≡ false) ⊎ (c.busypoll ≡ [])
              → Runs i c (dispatch_loop asserts trigger i checkbusy c))
          → Runs (suc i) d (
              if d.stop_flag
              then some (suc i, d)
              else if asserts && (q_empty d.mainq || d.internalevnum == 0)
              then none
              else elim s as (λ _. Option (ℕ × Dispatcher)) [
                | none ↦ none
                | some c ↦
                    if checkbusy && not (q_empty c.busypoll)
                    then some (suc i, c)
                    else dispatch_loop asserts trigger i checkbusy c
              ])
      go none k ih = absurd k
      go (some c) (g, e) ih =
          let rest = ih c (omega arith) (omega arith) (later c e) in
          let same = later c e in
          let more = Runs-suc i d c (dispatch_loop asserts trigger i checkbusy c) g e rest in
          ground arith

  abbrev Posted : Option (ℕ × Bool × Dispatcher) → Type 0
  Posted none = ⊥
  Posted (some (n, checkbusy, c)) =
      (n ≤ length c.mainq)
      × ((n ≡ 0) ⊎ (0 < c.internalevnum))
      × ((checkbusy ≡ false) ⊎ (c.busypoll ≡ []))
      × IsValid c

  check_empty_busy-Posted :
      (d : Dispatcher) → IsValid d → Posted (check_empty_busy asserts trigger d)
  unfolding check_empty_busy post_internal
  check_empty_busy-Posted d v =
      let longer : (b : ℕ) → length (d.mainq ++ (b ∷ [])) ≡ length d.mainq + 1 =
        λ b. length-append d.mainq (b ∷ []) in
      ground (arith, longer)

  -- With this many of `n` events dispatched.
  abbrev Dispatched : ℕ → Dispatcher → Option (ℕ × Dispatcher) → Type 0
  Dispatched n d none = ⊥
  Dispatched n d (some (dispatched, c)) =
      (dispatched ≤ n)
      × (length d.mainq ≤ dispatched + length c.mainq)
      × (c.internalevnum ≡ d.internalevnum)

  i_dispatch_n_events-Dispatched :
      (n : ℕ) (checkbusy : Bool) (d : Dispatcher)
      → n ≤ length d.mainq
      → 0 < d.internalevnum
      → (checkbusy ≡ false) ⊎ (d.busypoll ≡ [])
      → Dispatched n d (i_dispatch_n_events asserts trigger n checkbusy d)
  unfolding i_dispatch_n_events
  i_dispatch_n_events-Dispatched n checkbusy d h i b =
      ground (arith, dispatch_loop-Runs n checkbusy d h i b)

  module _ (rest : ℕ → Dispatcher → Outcome)
      (safe : (m : ℕ) (q : Dispatcher) → IsValid q → IsSafe (rest m q)) where
    after_chunk-IsSafe :
        (n k : ℕ) (d : Dispatcher) (r : Option (ℕ × Dispatcher))
        → IsValid d
        → Dispatched k d r
        → IsSafe (after_chunk asserts trigger rest n r)
    after_chunk-IsSafe n k d none v h = absurd h
    after_chunk-IsSafe n k d (some (dispatched, q)) v (a, b, c) =
        safe (n - dispatched) _ (ground arith)

    dispatch_round-IsSafe :
        (n : ℕ) (d : Dispatcher) → IsValid d → IsSafe (dispatch_round asserts trigger rest n d)
    unfolding dispatch_round
    dispatch_round-IsSafe n d v =
        go (check_empty_busy asserts trigger d) (check_empty_busy-Posted d v)
      where
        go :
            (r : Option (ℕ × Bool × Dispatcher))
            → Posted r
            → IsSafe (after_check asserts trigger rest n r)
        go none h = absurd h
        go (some (evchunk, checkbusy, c)) (a, inl z, f, w) = ground arith
        go (some (evchunk, checkbusy, c)) (a, inr p, f, w) =
            let k = at_most asserts trigger n evchunk in
            let most : k ≤ evchunk = ground arith in
            let run = i_dispatch_n_events-Dispatched k checkbusy c (omega arith) p f in
            let next = after_chunk-IsSafe n k c _ w run in ground (arith, next)

  pub dispatch_n_events-IsSafe :
      (fuel n : ℕ) (d : Dispatcher)
      → IsValid d
      → IsSafe (dispatch_n_events asserts trigger fuel n d)
  unfolding dispatch_n_events
  dispatch_n_events-IsSafe zero n d v = ground arith
  dispatch_n_events-IsSafe (suc fuel) n d v =
      let round =
        dispatch_round-IsSafe (dispatch_n_events asserts trigger fuel)
          (dispatch_n_events-IsSafe fuel) n d v in
      ground (arith, round)
