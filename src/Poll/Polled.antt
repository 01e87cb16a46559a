-- ===== src/Poll/Polled.antt =====
-- What `doPoll` posts.
use mathlib.Core.List.{append-nil, append_assoc}
use str_mod.Base.{
  ℕ, Bool, true, not, subst, ◌&&◌, Option, none, some, List, [], ◌∷◌, ◌++◌, ◌≡◌, refl, sym, ap, ◌∙◌,
}
use str_mod.Dispatcher.State.{Dispatcher, add_event}
use str_mod.Timer.Tracker.{Tracker, Posted, thrown, posted, post_expired}
use str_mod.Poll.Conditions.{PollMask}
use str_mod.Poll.Descriptors.{FdEvent, PollItem, poll_list}
use str_mod.Poll.Signals.{Signals, post_sig_events}
use str_mod.Poll.Loop.{
  EventPoll, failed, ready, Round, Polled, throws, polled, Turn, stopped, again, finished,
  add_events, arrive, poll_timeout, some_posted, expire, post_ready_events, answer, catch_signals,
  turn, poll_loop, do_poll,
}
use str_mod.Poll.Sorted.{SortedFrom}
use str_mod.Poll.Answered.{due, waiting, answered, count_answers}
use str_mod.Poll.Ready.{post_ready_lem}

abbrev pub behind : Dispatcher → List ℕ → Dispatcher
behind d es = record d { mainq = d.mainq ++ es }

add_events-behind : (es : List ℕ) (d : Dispatcher) → add_events es d ≡ behind d es
unfolding add_events
add_events-behind [] d = ap (λ q. record d { mainq = q }) (sym (append-nil d.mainq))
add_events-behind (e ∷ es) d =
    add_events-behind es (add_event e d)
    ∙ ap (λ q. record d { mainq = q }) (append_assoc d.mainq (e ∷ []) es)

-- The events that are posted for the signals that arrive before a round, and the state behind them.
abbrev pub signalled : ℕ → Round → EventPoll → List ℕ × Signals
signalled me r p = post_sig_events (arrive me r.arrived p.signals)

abbrev pub still_waits : ℕ → Bool → Round → EventPoll → Bool
still_waits me wait r p = wait && not (some_posted (signalled me r p).0)

-- The registry behind a round in which the timers post `xs` and become `t`.
abbrev pub behind_round : ℕ → Round → List ℕ → Tracker → EventPoll → EventPoll
behind_round me r xs t p = record {
  fdmap = p.fdmap;
  tracker = t;
  signals = (signalled me r p).1;
  dispatcher = behind p.dispatcher ((signalled me r p).0 ++ xs);
}

-- Rounds in each of which `poll` is interrupted and no time makes the tracker throw: from one
-- registry to another, with the events that are posted, and whether `poll` is to wait before and
-- behind them.
pub data Interrupted (me : ℕ) (items : List PollItem)
    : List Round → Bool → EventPoll → List ℕ → Bool → EventPoll → Type 0 where
  not_yet : {wait : Bool} {p : EventPoll} → Interrupted me items [] wait p [] wait p
  once_more :
      {r : Round} {rs : List Round} {wait wait' : Bool} {p q : EventPoll} {timeout : ℕ}
      {xs es : List ℕ} {t : Tracker}
      → poll_timeout (still_waits me wait r p) r.before p.tracker ≡ some timeout
      → post_expired r.after p.tracker ≡ posted xs t
      → r.poll timeout items ≡ failed true
      → Interrupted me items rs (still_waits me wait r p) (behind_round me r xs t p) es wait' q
      → Interrupted me items (r ∷ rs) wait p (((signalled me r p).0 ++ xs) ++ es) wait' q

turn_lem :
    (me : ℕ) (items : List PollItem) (wait : Bool) (r : Round) (p : EventPoll) (timeout : ℕ)
    (xs : List ℕ) (t : Tracker)
    → poll_timeout (still_waits me wait r p) r.before p.tracker ≡ some timeout
    → post_expired r.after p.tracker ≡ posted xs t
    → turn me items wait r p
      ≡ (still_waits me wait r p, answer (r.poll timeout items) (behind_round me r xs t p))
unfolding turn catch_signals expire
turn_lem me items wait r p timeout xs t a b =
    ap (λ o. (still_waits me wait r p, timed o)) a
    ∙ ap (λ o. (still_waits me wait r p, expired o)) b
    ∙ ap
        (λ d. (
          still_waits me wait r p,
          answer (r.poll timeout items) (record (behind_round me r xs t p) { dispatcher = d }),
        ))
        (add_events-behind xs q.dispatcher
          ∙ ap (λ d. behind d xs) (add_events-behind ss p.dispatcher)
          ∙ ap (λ m. record (p.dispatcher) { mainq = m }) (append_assoc p.dispatcher.mainq ss xs))
  where
    ss : List ℕ
    ss = (signalled me r p).0

    q : EventPoll
    q = record p { signals = (signalled me r p).1; dispatcher = add_events ss p.dispatcher }

    expired : Posted → Turn
    expired o =
        elim (elim o as (λ _. Option EventPoll) [
          | thrown ↦ none
          | posted ys u ↦ some (record q { tracker = u; dispatcher = add_events ys q.dispatcher })
        ]) [ none ↦ stopped | some u ↦ answer (r.poll timeout items) u ]

    timed : Option ℕ → Turn
    timed o = elim o [
      | none ↦ stopped
      | some i ↦ elim (expire r.after q) [ none ↦ stopped | some u ↦ answer (r.poll i items) u ]
    ]

-- how `poll_loop` goes on behind a turn
abbrev go_on : ℕ → List PollItem → List Round → Bool × Turn → Polled
go_on me items rounds result = elim (result.1) [
  | stopped ↦ throws
  | again q ↦ poll_loop me items result.0 rounds q
  | finished q ↦ polled q
]

behind-append : (d : Dispatcher) (es fs : List ℕ) → behind (behind d es) fs ≡ behind d (es ++ fs)
behind-append d es fs = ap (λ m. record d { mainq = m }) (append_assoc d.mainq es fs)

Interrupted-poll_loop :
    (me : ℕ) (items : List PollItem) (rest : List Round) {rs : List Round} {wait wait' : Bool}
    {p q : EventPoll} {es : List ℕ}
    → Interrupted me items rs wait p es wait' q
    → (poll_loop me items wait (rs ++ rest) p ≡ poll_loop me items wait' rest q)
      × (p.fdmap ≡ q.fdmap)
      × (q.dispatcher ≡ behind p.dispatcher es)
unfolding poll_loop answer
Interrupted-poll_loop me items rest {p = p} not_yet = (
  refl,
  refl,
  ap (λ m. record (p.dispatcher) { mainq = m }) (sym (append-nil p.dispatcher.mainq)),
)
Interrupted-poll_loop me items rest
      (once_more {r = r} {rs = rs} {wait = wait} {p = p} {timeout = timeout} {xs = xs} {es = es}
        {t = t} a b c h) =
    let ih = Interrupted-poll_loop me items rest h in
    (
      ap (go_on me items (rs ++ rest)) (
            turn_lem me items wait r p timeout xs t a b
            ∙ ap (λ o. (still_waits me wait r p, answer o (behind_round me r xs t p))) c)
          ∙ ih.0,
      ih.1,
      ih.2 ∙ behind-append p.dispatcher ((signalled me r p).0 ++ xs) es,
    )

last_round :
    (me : ℕ) (wait : Bool) (r : Round) (rounds : List Round) (p : EventPoll)
    (answers : ℕ → PollMask) (timeout : ℕ) (xs : List ℕ) (t : Tracker)
    → poll_timeout (still_waits me wait r p) r.before p.tracker ≡ some timeout
    → post_expired r.after p.tracker ≡ posted xs t
    → SortedFrom 0 p.fdmap
    → r.poll timeout (poll_list p.fdmap)
      ≡ ready (count_answers answers (poll_list p.fdmap)) (answered answers (poll_list p.fdmap))
    → poll_loop me (poll_list p.fdmap) wait (r ∷ rounds) p
      ≡ polled (record (behind_round me r xs t p) {
        fdmap = waiting answers p.fdmap;
        dispatcher = behind p.dispatcher (((signalled me r p).0 ++ xs) ++ due answers p.fdmap);
      })
unfolding poll_loop answer post_ready_events
last_round me wait r rounds p answers timeout xs t a b sorted c =
    ap (go_on me (poll_list p.fdmap) rounds) (
      turn_lem me (poll_list p.fdmap) wait r p timeout xs t a b
      ∙ ap (λ o. (still_waits me wait r p, answer o u)) c)
    ∙ ap
        (λ (z : List ℕ × List FdEvent).
          polled (record u { fdmap = z.1; dispatcher = add_events z.0 u.dispatcher }))
        (post_ready_lem answers 0 p.fdmap sorted)
    ∙ ap (λ d. polled (record u { fdmap = waiting answers p.fdmap; dispatcher = d }))
        (add_events-behind (due answers p.fdmap) u.dispatcher
          ∙ behind-append p.dispatcher ((signalled me r p).0 ++ xs) (due answers p.fdmap))
  where
    u : EventPoll
    u = behind_round me r xs t p

-- After any number of rounds in which `poll` is interrupted, a round in which it answers for each of
-- its items ends `doPoll`, provided that in no round the time makes the tracker throw, and that
-- `fdmap_` is in order. The dispatcher's queue then holds, behind what it held, for each round the
-- events of the signals that arrived before it and then those of the timers, and at the end the
-- events of the descriptors whose conditions are answered, in the order of `fdmap_`, which loses
-- them. If an event of a signal was posted, `poll` is not to wait in that round or a later one.
pub do_poll_lem :
    (me : ℕ) (wait wait' : Bool) (rs : List Round) (r : Round) (rounds : List Round)
    (p q : EventPoll) (answers : ℕ → PollMask) (timeout : ℕ) (es xs : List ℕ) (t : Tracker)
    → Interrupted me (poll_list p.fdmap) rs wait p es wait' q
    → SortedFrom 0 p.fdmap
    → poll_timeout (still_waits me wait' r q) r.before q.tracker ≡ some timeout
    → post_expired r.after q.tracker ≡ posted xs t
    → r.poll timeout (poll_list p.fdmap)
      ≡ ready (count_answers answers (poll_list p.fdmap)) (answered answers (poll_list p.fdmap))
    → do_poll me wait (rs ++ (r ∷ rounds)) p
      ≡ polled (record {
        fdmap = waiting answers p.fdmap;
        tracker = t;
        signals = (signalled me r q).1;
        dispatcher =
            behind p.dispatcher (es ++ (((signalled me r q).0 ++ xs) ++ due answers p.fdmap));
      })
unfolding do_poll
do_poll_lem me wait wait' rs r rounds p q answers timeout es xs t h sorted a b c =
    go.0
    ∙ subst
        (λ fs.
          SortedFrom 0 fs
          → r.poll timeout (poll_list fs)
            ≡ ready (count_answers answers (poll_list fs)) (answered answers (poll_list fs))
          → poll_loop me (poll_list fs) wait' (r ∷ rounds) q
            ≡ polled (record (behind_round me r xs t q) {
              fdmap = waiting answers fs;
              dispatcher = behind q.dispatcher (new ++ due answers fs);
            }))
        (sym go.1) (last_round me wait' r rounds q answers timeout xs t a b) sorted c
    ∙ ap
        (λ d.
          polled
            (record (behind_round me r xs t q) { fdmap = waiting answers p.fdmap; dispatcher = d }))
        (ap (λ d. behind d (new ++ due answers p.fdmap)) go.2
          ∙ behind-append p.dispatcher es (new ++ due answers p.fdmap))
  where
    new : List ℕ
    new = (signalled me r q).0 ++ xs

    go :
        (poll_loop me (poll_list p.fdmap) wait (rs ++ (r ∷ rounds)) p
          ≡ poll_loop me (poll_list p.fdmap) wait' (r ∷ rounds) q)
        × (p.fdmap ≡ q.fdmap)
        × (q.dispatcher ≡ behind p.dispatcher es)
    go = Interrupted-poll_loop me (poll_list p.fdmap) (r ∷ rounds) h
