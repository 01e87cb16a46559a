-- ===== src/Poll/Loop.antt =====
-- `doPoll`. What happens while it waits is a list of rounds, each with the signals that arrive
-- before it, the times that the clock shows, and what `poll` answers.
use str_mod.Base.{
  ℕ, ◌+◌, ◌*◌, ◌/◌, ◌%◌, Bool, true, false, not, ◌&&◌, if◌then◌else◌, Option, none, some, List, [],
  ◌∷◌, u32_mod,
}
use str_mod.Dispatcher.State.{Dispatcher, add_event}
use str_mod.Timer.Interval.{interval}
use str_mod.Timer.Absolute.{Absolute}
use str_mod.Timer.Tracker.{
  Tracker, thrown, posted, post_expired, refused, expires_in, next_expiration_in,
}
use str_mod.Poll.Conditions.{PollMask}
use str_mod.Poll.Descriptors.{FdEvent, PollItem, poll_list, post_ready}
use str_mod.Poll.Signals.{Signals, signal_handler, post_sig_events}

-- `fdmap_`, the timers, the signals and the dispatcher of a registry.
pub record EventPoll : Type 0 where
  pub fdmap : List FdEvent
  pub tracker : Tracker
  pub signals : Signals
  pub dispatcher : Dispatcher

-- `failed` says whether the error is EINTR, and `ready` what the result is and what is stored in the
-- items, in their order.
pub data PollResult : Type 0 where
  failed : Bool → PollResult
  ready : ℕ → List (PollItem × PollMask) → PollResult

pub record Round : Type 0 where
  pub arrived : List ℕ
  pub before : Absolute
  pub after : Absolute
  pub poll : ℕ → List PollItem → PollResult

-- A `range_error` that is thrown, rounds that are not enough, or the state at the end.
pub data Polled : Type 0 where
  throws waits : Polled
  polled : EventPoll → Polled

unfoldable pub add_events : List ℕ → Dispatcher → Dispatcher
unfolding add_event
add_events [] d = d
add_events (e ∷ es) d = add_events es (add_event e d)

unfoldable pub arrive : ℕ → List ℕ → Signals → Signals
unfolding signal_handler
arrive me [] s = s
arrive me (n ∷ ns) s = arrive me ns (signal_handler me n s)

-- In milliseconds, of type `unsigned int`; nothing where a `range_error` is thrown.
unfoldable pub poll_timeout : Bool → Absolute → Tracker → Option ℕ
poll_timeout wait curtime t =
    if wait
    then elim (next_expiration_in curtime (interval 1073741 0) t) [
      | refused ↦ none
      | expires_in waittil ↦
          some ((waittil.seconds * 1000 + waittil.nanoseconds / 1000000) % u32_mod)
    ]
    else some 0

abbrev pub some_posted : List ℕ → Bool
some_posted [] = false
some_posted (e ∷ es) = true

-- `postExpired` of the tracker
unfoldable pub expire : Absolute → EventPoll → Option EventPoll
expire now p = elim (post_expired now p.tracker) [
  | thrown ↦ none
  | posted es t ↦ some (record p { tracker = t; dispatcher = add_events es p.dispatcher })
]

unfoldable pub post_ready_events : ℕ → List (PollItem × PollMask) → EventPoll → EventPoll
post_ready_events result items p =
    let (es, fs) = post_ready result items p.fdmap in
    record p { fdmap = fs; dispatcher = add_events es p.dispatcher }

-- What is known when the `do` loop comes to its test.
pub data Turn : Type 0 where
  stopped : Turn
  again : EventPoll → Turn
  finished : EventPoll → Turn

unfoldable pub answer : PollResult → EventPoll → Turn
answer (failed eintr) p = if eintr then again p else finished p
answer (ready result items) p = finished (post_ready_events result items p)

module _ (me : ℕ) where
  -- `postSigEvents` with the signals that have arrived, and whether it posts an event
  unfoldable pub catch_signals : List ℕ → EventPoll → Bool × EventPoll
  catch_signals arrived p =
      let (es, s) = post_sig_events (arrive me arrived p.signals) in
      (some_posted es, record p { signals = s; dispatcher = add_events es p.dispatcher })

  -- the body of the loop, and whether it is still to wait
  unfoldable pub turn : List PollItem → Bool → Round → EventPoll → Bool × Turn
  turn items wait r p =
      let (caught, q) = catch_signals r.arrived p in
      let wait' = wait && not caught in
      (
        wait',
        elim (poll_timeout wait' r.before q.tracker) [
          | none ↦ stopped
          | some timeout ↦ elim (expire r.after q) [
            | none ↦ stopped
            | some t ↦ answer (r.poll timeout items) t
          ]
        ],
      )

  unfoldable pub poll_loop : List PollItem → Bool → List Round → EventPoll → Polled
  poll_loop items wait [] p = waits
  poll_loop items wait (r ∷ rounds) p =
      let (wait', result) = turn items wait r p in
      elim result [
        | stopped ↦ throws
        | again q ↦ poll_loop items wait' rounds q
        | finished q ↦ polled q
      ]

  unfoldable pub do_poll : Bool → List Round → EventPoll → Polled
  do_poll wait rounds p = poll_loop (poll_list p.fdmap) wait rounds p
