-- ===== src/Poll/Tests.antt =====
-- Runs of the registry, and the theorems about it at concrete inputs.
use str_mod.Base.{
  ℕ, true, false, ◌==◌, if◌then◌else◌, none, some, List, [], ◌∷◌, ◌++◌, ◌≡◌, zero, suc, refl, arith,
}
use str_mod.Dispatcher.State.{new_dispatcher}
use str_mod.Timer.Absolute.{absolute}
use str_mod.Timer.Tracker.{new_tracker, post_expired}
use str_mod.Poll.Conditions.{CondSet, PollMask, no_conds}
use str_mod.Poll.Descriptors.{FdEvent, register_fd_cond, free_fd, poll_list, post_ready}
use str_mod.Poll.Signals.{
  Signals, new_sigdata, done, on_signal, sig_occurred, clear_event, clear_signal, post_sig_events,
}
use str_mod.Poll.Loop.{EventPoll, Round, failed, ready, polled, arrive, poll_timeout, do_poll}
use str_mod.Poll.Handled.{IsOwner, post_sig_events-expected}
use str_mod.Poll.Registered.{beside, signals-IsOwner, clear_event_steals}
use str_mod.Poll.Polled.{
  behind, signalled, still_waits, behind_round, Interrupted, not_yet, once_more, do_poll_lem,
}
use str_mod.Poll.Sorted.{SortedFrom}
use str_mod.Poll.Answered.{due, waiting, answered, count_answers}
use str_mod.Poll.Ready.{post_ready_lem}
use str_mod.Poll.Pairs.{pairs_at, fdmap-pairs_at}

abbrev to_read : CondSet
to_read = record no_conds { readable = true }

abbrev to_write : CondSet
to_write = record no_conds { writeable = true }

abbrev three_pairs : List FdEvent
three_pairs =
    record { fd = 4; ev = 1; condset = to_read }
    ∷ record { fd = 4; ev = 2; condset = to_write }
    ∷ record { fd = 7; ev = 3; condset = to_read }
    ∷ []

abbrev no_mask : PollMask
no_mask = record {
  pollin = false;
  pollout = false;
  pollerr = false;
  pollhup = false;
  pollnval = false;
  other = false;
}

-- Descriptor 4 can be read, and 7 is closed.
abbrev some_answers : ℕ → PollMask
some_answers fd =
    if fd == 4 then record no_mask { pollin = true } else record no_mask { pollhup = true }

post_ready_lem_example :
    post_ready
      (count_answers some_answers (poll_list three_pairs))
      (answered some_answers (poll_list three_pairs))
      three_pairs
    ≡ (1 ∷ [], record { fd = 4; ev = 2; condset = to_write } ∷ [])
post_ready_lem_example =
    post_ready_lem some_answers 0 three_pairs (omega arith, (omega arith, (omega arith, tt)))

fdmap-pairs_at_example :
    SortedFrom 0 (register_fd_cond (record { fd = 4; ev = 9; condset = to_read }) three_pairs)
    × SortedFrom 0 (free_fd 7 three_pairs)
    × SortedFrom 0
        (post_ready
          (count_answers some_answers (poll_list three_pairs))
          (answered some_answers (poll_list three_pairs))
          three_pairs).1
    × (pairs_at 4 (register_fd_cond (record { fd = 4; ev = 9; condset = to_read }) three_pairs)
        ≡ pairs_at 4 three_pairs ++ (record { fd = 4; ev = 9; condset = to_read } ∷ []))
    × (pairs_at 4 (free_fd 7 three_pairs) ≡ pairs_at 4 three_pairs)
    × (pairs_at 4
          (post_ready
            (count_answers some_answers (poll_list three_pairs))
            (answered some_answers (poll_list three_pairs))
            three_pairs).1
        ≡ waiting some_answers (pairs_at 4 three_pairs))
fdmap-pairs_at_example =
    fdmap-pairs_at some_answers 4 (record { fd = 4; ev = 9; condset = to_read }) 7 three_pairs
      (omega arith, (omega arith, (omega arith, tt)))

abbrev no_signals : Signals
no_signals = record {
  handled_by = λ i. none;
  caught = λ i. false;
  handled = λ i. false;
  sigoccurred = false;
  hdlrinfo = [];
}

-- Signal 2 has occurred, for which registry 5 has two events.
abbrev two_events : Signals
two_events = record {
  handled_by = λ i. if i == 2 then some 5 else none;
  caught = λ i. i == 2;
  handled = λ i. i == 2;
  sigoccurred = true;
  hdlrinfo =
      new_sigdata ∷ new_sigdata ∷ record { handler_registered = true; events = 10 ∷ 11 ∷ [] } ∷ [];
}

post_sig_events-expected_example :
    let r = post_sig_events two_events in
    (r.0 ≡ 10 ∷ 11 ∷ [])
    × (r.1.sigoccurred ≡ false)
    × (r.1.caught ≡ (λ i. false))
    × ((post_sig_events r.1).0 ≡ [])
    × ((post_sig_events (sig_occurred 1 r.1)).0 ≡ [])
unfolding post_sig_events
post_sig_events-expected_example = post_sig_events-expected 1 two_events

two_events-IsOwner : IsOwner 5 two_events
two_events-IsOwner zero h = cc
two_events-IsOwner (suc zero) h = cc
two_events-IsOwner (suc (suc zero)) h = refl
two_events-IsOwner (suc (suc (suc i))) h = cc

-- Registry 6, which has no handler.
abbrev idle : Signals
idle = record two_events { hdlrinfo = new_sigdata ∷ [] }

idle-IsOwner : IsOwner 6 idle
idle-IsOwner zero h = cc
idle-IsOwner (suc i) h = cc

signals-IsOwner_example :
    IsOwner 5 (on_signal 1024 5 false 1 12 two_events).1
    × IsOwner 5 (clear_event 1024 1 12 two_events).1
    × IsOwner 5 (clear_signal 1024 1 two_events).1
    × IsOwner 5 (post_sig_events two_events).1
    × IsOwner 5 (beside two_events (on_signal 1024 6 false 1 12 idle).1)
    × IsOwner 5 (beside two_events (clear_signal 1024 1 idle).1)
    × IsOwner 5 (beside two_events (post_sig_events idle).1)
signals-IsOwner_example =
    signals-IsOwner 5 1024 false 1 12 two_events two_events-IsOwner 6 refl idle idle-IsOwner refl

clear_event_steals_example :
    let s = record two_events { handled_by = λ i. some 6 } in
    ((clear_event 1024 1 12 s).0 ≡ done) × ((clear_event 1024 1 12 s).1.handled_by 1 ≡ none)
clear_event_steals_example =
    clear_event_steals 1024 1 12 6 (record two_events { handled_by = λ i. some 6 }) refl
      (omega arith) refl refl

abbrev a_poll : EventPoll
a_poll = record {
  fdmap = three_pairs;
  tracker = new_tracker 0;
  signals = two_events;
  dispatcher = new_dispatcher;
}

abbrev a_round : Round
unfolding absolute
a_round = record {
  arrived = [];
  before = absolute 0 0 0;
  after = absolute 1 0 0;
  poll = λ timeout items. ready (count_answers some_answers items) (answered some_answers items);
}

-- a round in which `poll` is interrupted
abbrev broken_round : Round
broken_round = record a_round { poll = λ timeout items. failed true }

abbrev later : EventPoll
later = behind_round 5 broken_round [] (new_tracker 0) a_poll

later-Interrupted :
    Interrupted 5
      (poll_list three_pairs)
      (broken_round ∷ [])
      true
      a_poll
      (((signalled 5 broken_round a_poll).0 ++ []) ++ [])
      (still_waits 5 true broken_round a_poll)
      later
unfolding arrive poll_timeout post_expired new_tracker post_sig_events
later-Interrupted = once_more {timeout = 0} refl refl refl not_yet

do_poll_lem_example :
    do_poll 5 true (broken_round ∷ a_round ∷ []) a_poll
    ≡ polled (record {
      fdmap = waiting some_answers three_pairs;
      tracker = new_tracker 0;
      signals = (signalled 5 a_round later).1;
      dispatcher = behind new_dispatcher (
          (((signalled 5 broken_round a_poll).0 ++ []) ++ [])
          ++ (((signalled 5 a_round later).0 ++ []) ++ due some_answers three_pairs));
    })
unfolding arrive poll_timeout post_expired new_tracker post_sig_events
do_poll_lem_example =
    do_poll_lem 5 true (still_waits 5 true broken_round a_poll) (broken_round ∷ []) a_round []
      a_poll later some_answers 0 (((signalled 5 broken_round a_poll).0 ++ []) ++ []) []
      (new_tracker 0) later-Interrupted (omega arith, (omega arith, (omega arith, tt))) refl refl
      refl
