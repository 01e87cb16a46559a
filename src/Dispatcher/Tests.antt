-- ===== src/Dispatcher/Tests.antt =====
-- Runs of the dispatcher, with events that do little: event 1 adds event 2 and then event 3, event 4
-- stops the dispatcher, event 9 adds a busy poll event, and the others do nothing.
use mathlib.Core.Path.{◌≡◌, refl}
use str_mod.Base.{ℕ, if◌then◌else◌, ◌==◌, true, false, List, [], ◌∷◌, arith}
use str_mod.Dispatcher.State.{
  Dispatcher, Action, adds, adds_busy, stops, new_dispatcher, interrupt, on_interrupt,
}
use str_mod.Dispatcher.Loop.{Outcome, finished, fault, dispatch_events, dispatch_until_empty}
use str_mod.Dispatcher.Safe.{IsValid, Quiet}
use str_mod.Dispatcher.Fuel.{Ends, dispatch_events-Ends, dispatch_events_finishes}
use str_mod.Dispatcher.Order.{LaterOutcome, Patient, dispatch_events-Later}
use str_mod.Dispatcher.Busy.{dispatch_events_faults}

abbrev handlers : ℕ → List ℕ → List Action
handlers e ran =
    if e == 1
    then adds 2 ∷ adds 3 ∷ []
    else if e == 4
    then stops ∷ []
    else if e == 9
    then adds_busy 7 ∷ []
    else []

abbrev quiet_handlers : ℕ → List ℕ → List Action
quiet_handlers e ran = if e == 9 then [] else handlers e ran

abbrev queued : List ℕ → Dispatcher
queued es = record new_dispatcher { mainq = es }

abbrev ran_of : Outcome → List ℕ
ran_of (finished d) = d.ran
ran_of _ = []

run_two : ran_of (dispatch_events true handlers 2 (queued (1 ∷ 5 ∷ 6 ∷ []))) ≡ 1 ∷ 5 ∷ []
unfolding dispatch_events
run_two = refl

run_all : ran_of (dispatch_until_empty true handlers 3 (queued (1 ∷ 5 ∷ []))) ≡ 1 ∷ 5 ∷ 2 ∷ 3 ∷ []
unfolding dispatch_until_empty
run_all = refl

run_stop : ran_of (dispatch_events true handlers 9 (queued (5 ∷ 4 ∷ 6 ∷ []))) ≡ 5 ∷ 4 ∷ []
unfolding dispatch_events
run_stop = refl

run_busy :
    ran_of (dispatch_events true handlers 4 (record (queued (5 ∷ 6 ∷ [])) { busypoll = 7 ∷ [] }))
    ≡ 5 ∷ 6 ∷ 7 ∷ []
unfolding dispatch_events
run_busy = refl

run_interrupt :
    ran_of (dispatch_events true handlers 2 (interrupt (on_interrupt 8 (queued (5 ∷ 6 ∷ []))).1))
    ≡ 8 ∷ 5 ∷ []
unfolding dispatch_events interrupt on_interrupt
run_interrupt = refl

dispatch_events-Ends_example : Ends (dispatch_events true handlers 3 (queued (1 ∷ 4 ∷ [])))
dispatch_events-Ends_example = dispatch_events-Ends true handlers 3 (queued (1 ∷ 4 ∷ []))

quiet : Quiet quiet_handlers
quiet e ran = ground arith

patient : Patient handlers
patient e ran = ground arith

dispatch_events_finishes_example :
    (q : Dispatcher) × (dispatch_events true quiet_handlers 3 (queued (1 ∷ 4 ∷ [])) ≡ finished q)
    × IsValid q
dispatch_events_finishes_example =
    dispatch_events_finishes true quiet_handlers 3 (queued (1 ∷ 4 ∷ [])) quiet (omega arith)

dispatch_events-Later_example :
    LaterOutcome (queued (1 ∷ 5 ∷ [])) (dispatch_events false handlers 3 (queued (1 ∷ 5 ∷ [])))
dispatch_events-Later_example =
    dispatch_events-Later false handlers patient 3 (queued (1 ∷ 5 ∷ [])) refl

dispatch_events_faults_example : dispatch_events false handlers 1 (queued (9 ∷ [])) ≡ fault
dispatch_events_faults_example = dispatch_events_faults false handlers 9 7 refl 0
