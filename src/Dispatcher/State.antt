-- ===== src/Dispatcher/State.antt =====
-- The state of a `SimpleDispatcher` and the methods that an event may call. An event is a number.
-- What an event does when it is triggered is a parameter, a list of such calls that may depend on
-- the events triggered before. Events that dispatch themselves are left out, and so is the
-- dispatcher passed on to events, which the code only hands over.
use str_mod.Base.{ℕ, Bool, true, false, not, Option, none, some, List, [], ◌∷◌, ◌++◌, if◌then◌else◌}

-- `ran` and `told` have no counterpart: they record the events that were triggered, in order, and
-- the events that were asked to return as quickly as they can.
pub record Dispatcher : Type 0 where
  pub mainq : List ℕ
  pub busypoll : List ℕ
  pub internalevnum : ℕ
  pub onempty : Option ℕ
  pub oninterrupt : Option ℕ
  pub interrupted : Bool
  pub curevt : Option ℕ
  pub stop_flag : Bool
  pub ran : List ℕ
  pub told : List ℕ

abbrev pub new_dispatcher : Dispatcher
new_dispatcher = record {
  mainq = [];
  busypoll = [];
  internalevnum = 0;
  onempty = none;
  oninterrupt = none;
  interrupted = false;
  curevt = none;
  stop_flag = false;
  ran = [];
  told = [];
}

abbrev pub q_empty : List ℕ → Bool
q_empty [] = true
q_empty (e ∷ es) = false

abbrev pub is_set : Option ℕ → Bool
is_set none = false
is_set (some e) = true

unfoldable pub add_event : ℕ → Dispatcher → Dispatcher
add_event e d = record d { mainq = d.mainq ++ (e ∷ []) }

unfoldable pub add_busy_poll_event : ℕ → Dispatcher → Dispatcher
add_busy_poll_event e d = record d { busypoll = d.busypoll ++ (e ∷ []) }

-- The two below answer whether the event was taken.
unfoldable pub on_queue_empty : ℕ → Dispatcher → Bool × Dispatcher
on_queue_empty e d = if is_set d.onempty then (false, d) else (true, record d { onempty = some e })

unfoldable pub on_interrupt : ℕ → Dispatcher → Bool × Dispatcher
on_interrupt e d =
    if is_set d.oninterrupt then (false, d) else (true, record d { oninterrupt = some e })

unfoldable pub stop_dispatching : Dispatcher → Dispatcher
stop_dispatching d = record d { stop_flag = true }

abbrev pub tell : Option ℕ → List ℕ → List ℕ
tell none told = told
tell (some e) told = told ++ (e ∷ [])

unfoldable pub interrupt : Dispatcher → Dispatcher
interrupt d =
    if not d.interrupted then record d { interrupted = true; told = tell d.curevt d.told } else d

-- A call that an event makes of its dispatcher.
pub data Action : Type 0 where
  adds adds_busy sets_onempty sets_oninterrupt : ℕ → Action
  stops interrupts : Action

unfoldable pub act : Action → Dispatcher → Dispatcher
unfolding add_event add_busy_poll_event on_queue_empty on_interrupt stop_dispatching interrupt
act (adds e) d = add_event e d
act (adds_busy e) d = add_busy_poll_event e d
act (sets_onempty e) d = (on_queue_empty e d).1
act (sets_oninterrupt e) d = (on_interrupt e d).1
act stops d = stop_dispatching d
act interrupts d = interrupt d

unfoldable pub run_actions : List Action → Dispatcher → Dispatcher
unfolding act
run_actions [] d = d
run_actions (a ∷ rest) d = run_actions rest (act a d)
