-- ===== src/Poll/Signals.antt =====
-- The events that wait for a signal. A registry is a number, and so is an event. A set of signals
-- is a function. Signals that arrive while they are blocked are taken to arrive afterwards.
use str_mod.Base.{
  ℕ, zero, suc, Bool, true, false, not, ◌&&◌, ◌||◌, leb, ltb, ◌==◌, if◌then◌else◌, Option, none,
  some, List, [], ◌∷◌, ◌++◌, length, set, get_elem?, replicate, ◌-◌,
}

pub record SigData : Type 0 where
  pub handler_registered : Bool
  pub events : List ℕ

abbrev pub new_sigdata : SigData
new_sigdata = record { handler_registered = false; events = [] }

-- `handled_by` is the table that all registries share.
pub record Signals : Type 0 where
  pub handled_by : ℕ → Option ℕ
  pub caught : ℕ → Bool
  pub handled : ℕ → Bool
  pub sigoccurred : Bool
  pub hdlrinfo : List SigData

abbrev pub update {ℓ} : {A : Type ℓ} → (ℕ → A) → ℕ → A → ℕ → A
update f n a i = if i == n then a else f i

pub data Status : Type 0 where
  done range_error logic_error unix_error : Status

abbrev pub max_handled : ℕ
max_handled = 128

-- the test that the three operations below begin with; `bits` is the size of a `sigset_t` in bits
abbrev pub too_large : ℕ → ℕ → Bool
too_large bits signo = leb bits signo || leb max_handled signo

-- `resize` to one more than `signo`, where that is longer
abbrev pub grown : ℕ → List SigData → List SigData
grown signo ds =
    if leb (length ds) signo then ds ++ replicate (suc signo - length ds) new_sigdata else ds

abbrev pub data_at : ℕ → List SigData → SigData
data_at i ds = elim (get_elem? ds i) [ none ↦ new_sigdata | some d ↦ d ]

-- `fails` says whether the system refuses the handler; the table is changed before it is asked.
unfoldable pub handle_signal : ℕ → Bool → ℕ → Signals → Bool × Signals
handle_signal me fails signo s =
    let t = record s { handled_by = update s.handled_by signo (some me) } in
    if fails then (false, t) else (true, record t { handled = update t.handled signo true })

unfoldable pub un_handle_signal : ℕ → Signals → Signals
un_handle_signal signo s = record s {
  handled_by = update s.handled_by signo none;
  handled = update s.handled signo false;
}

-- whether another registry handles the signal
abbrev pub is_others : ℕ → Option ℕ → Bool
is_others me none = false
is_others me (some r) = not (r == me)

abbrev pub with_data : ℕ → SigData → Signals → Signals
with_data signo d s = record s { hdlrinfo = set s.hdlrinfo signo d }

unfoldable pub on_signal : ℕ → ℕ → Bool → ℕ → ℕ → Signals → Status × Signals
unfolding handle_signal
on_signal bits me fails signo e s =
    let t = record s { hdlrinfo = grown signo s.hdlrinfo } in
    let d = data_at signo t.hdlrinfo in
    let entry : SigData = record { handler_registered = true; events = d.events ++ (e ∷ []) } in
    let (taken, u) = handle_signal me fails signo t in
    if too_large bits signo
    then (range_error, s)
    else if d.handler_registered
    then (done, with_data signo entry t)
    else if is_others me (s.handled_by signo)
    then (logic_error, t)
    else if taken
    then (done, with_data signo entry u)
    else (unix_error, u)

-- `remove_if` of an event
abbrev pub remove : ℕ → List ℕ → List ℕ
remove e [] = []
remove e (f ∷ fs) = if f == e then remove e fs else f ∷ remove e fs

abbrev pub is_empty : List ℕ → Bool
is_empty [] = true
is_empty (e ∷ es) = false

-- `clearSignal` of one event
unfoldable pub clear_event : ℕ → ℕ → ℕ → Signals → Status × Signals
unfolding un_handle_signal
clear_event bits signo e s =
    let d = data_at signo s.hdlrinfo in
    let left = remove e d.events in
    if too_large bits signo
    then (range_error, s)
    else if ltb signo (length s.hdlrinfo)
    then (
      done,
      if is_empty left
          then with_data signo (record { handler_registered = false; events = [] })
              (un_handle_signal signo s)
          else with_data signo (record d { events = left }) s,
    )
    else (done, s)

-- `clearSignal` of all events
unfoldable pub clear_signal : ℕ → ℕ → Signals → Status × Signals
unfolding un_handle_signal
clear_signal bits signo s =
    if too_large bits signo
    then (range_error, s)
    else if ltb signo (length s.hdlrinfo) && (data_at signo s.hdlrinfo).handler_registered
    then (done, with_data signo new_sigdata (un_handle_signal signo s))
    else (done, s)

unfoldable pub sig_occurred : ℕ → Signals → Signals
sig_occurred signo s = record s { caught = update s.caught signo true; sigoccurred = true }

-- What the handler does for the registry `me`; without a registry the signal's default is set.
unfoldable pub signal_handler : ℕ → ℕ → Signals → Signals
unfolding sig_occurred
signal_handler me signo s = elim (s.handled_by signo) [
  | none ↦ s
  | some r ↦ if r == me then sig_occurred signo s else s
]

-- One turn of the loop of `postSigEvents`, for a signal that was caught: the events that are
-- posted, and the state.
unfoldable pub post_signal : ℕ → Signals → List ℕ × Signals
unfolding un_handle_signal
post_signal i s =
    let d = data_at i s.hdlrinfo in
    if not d.handler_registered
    then ([], with_data i (record d { events = [] }) s)
    else if is_empty d.events
    then ([], with_data i (record d { handler_registered = false }) (un_handle_signal i s))
    else (d.events, s)

-- the loop, for `n` more signals from `i` on
unfoldable pub post_signals : ℕ → ℕ → (ℕ → Bool) → Signals → List ℕ × Signals
unfolding post_signal
post_signals zero i caughtnow s = ([], s)
post_signals (suc n) i caughtnow s =
    let (posted, t) = if caughtnow i then post_signal i s else ([], s) in
    let (others, u) = post_signals n (suc i) caughtnow t in (posted ++ others, u)

-- The result is true if an event was posted.
unfoldable pub post_sig_events : Signals → List ℕ × Signals
unfolding post_signals
post_sig_events s =
    let t = record s { caught = λ i. false; sigoccurred = false } in
    if s.sigoccurred then post_signals (length s.hdlrinfo) 0 s.caught t else ([], s)
