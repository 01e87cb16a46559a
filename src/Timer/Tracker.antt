-- ===== src/Timer/Tracker.antt =====
-- `TimerEventTracker`. An event is a number, and `post_expired` answers with the events that it
-- adds to the dispatcher, in order. `thrown` is the `range_error`.
use str_mod.Base.{
  ℕ, ◌+◌, ◌*◌, zero, suc, Bool, true, not, ◌&&◌, leb, ◌==◌, if◌then◌else◌, List, [], ◌∷◌, length,
}
use str_mod.Timer.Interval.{Interval, interval, interval_lt, interval_add}
use str_mod.Timer.Absolute.{Absolute, absolute, absolute_lt, absolute_sub}
use str_mod.Timer.Heap.{Entry, insert, expired, pending}

pub record Tracker : Type 0 where
  pub map1 : List Entry
  pub map2 : List Entry
  pub map1_current : Bool
  pub old_base : ℕ
  pub current_base : ℕ
  pub base_diff : Interval

unfoldable pub new_tracker : ℕ → Tracker
unfolding interval
new_tracker now = record {
  map1 = [];
  map2 = [];
  map1_current = true;
  old_base = now;
  current_base = now;
  base_diff = interval 0 0;
}

abbrev pub the_heap : Tracker → List Entry
the_heap t = if t.map1_current then t.map1 else t.map2

abbrev pub the_old_heap : Tracker → List Entry
the_old_heap t = if t.map1_current then t.map2 else t.map1

abbrev pub with_heaps : List Entry → List Entry → Tracker → Tracker
with_heaps cur old t =
    if t.map1_current
    then record t { map1 = cur; map2 = old }
    else record t { map1 = old; map2 = cur }

-- a `time_t` as an `absolute_t`
abbrev pub at_base : ℕ → Absolute
at_base base = absolute base 0 0

unfoldable pub post_at : Absolute → ℕ → Tracker → Tracker
unfolding absolute absolute_lt absolute_sub interval insert
post_at at ev t =
    let curbase = at_base t.current_base in
    let timexp = if absolute_lt curbase at then absolute_sub at curbase else interval 0 0 in
    with_heaps (insert timexp ev (the_heap t)) (the_old_heap t) t

-- The next event of the two ranges, and what is left of them.
unfoldable pub next_posted :
    Interval → Entry → List Entry → List Entry → ℕ × List Entry × List Entry
unfolding interval_lt interval_add
next_posted base_diff o os [] = (o.1, [], os)
next_posted base_diff o os (c ∷ cs) =
    if interval_lt c.0 (interval_add o.0 base_diff) then (c.1, cs, o ∷ os) else (o.1, c ∷ cs, os)

-- The loop of `postExpired` over the events of both maps, with as much fuel as there are events.
unfoldable pub merge : ℕ → Interval → List Entry → List Entry → List ℕ
unfolding next_posted
merge zero base_diff cur old = []
merge (suc fuel) base_diff [] [] = []
merge (suc fuel) base_diff (c ∷ cs) [] = c.1 ∷ merge fuel base_diff cs []
merge (suc fuel) base_diff cur (o ∷ os) =
    let next = next_posted base_diff o os cur in next.0 ∷ merge fuel base_diff next.1 next.2

unfoldable pub insert_shifted : Interval → List Entry → List Entry → List Entry
unfolding insert interval_add
insert_shifted base_diff [] heap = heap
insert_shifted base_diff ((j, f) ∷ old) heap =
    insert_shifted base_diff old (insert (interval_add j base_diff) f heap)

-- what `postExpired` does once a week
unfoldable pub rotate : Absolute → Tracker → Tracker
unfolding insert_shifted absolute absolute_sub
rotate now t =
    let heap = insert_shifted t.base_diff (the_old_heap t) (the_heap t) in
    let moved = with_heaps heap [] t in
    record moved {
      old_base = t.current_base;
      current_base = now.time;
      base_diff = absolute_sub (at_base now.time) (at_base t.current_base);
      map1_current = not t.map1_current;
    }

pub data Posted : Type 0 where
  thrown : Posted
  posted : List ℕ → Tracker → Posted

unfoldable pub post_expired : Absolute → Tracker → Posted
unfolding absolute absolute_lt absolute_sub expired pending merge rotate
post_expired now t =
    if absolute_lt now (at_base t.current_base)
    then thrown
    else (let cur = absolute_sub now (at_base t.current_base) in
        let old = absolute_sub now (at_base t.old_base) in
        let due = expired cur (the_heap t) in
        let olddue = expired old (the_old_heap t) in
        let events = merge (length due + length olddue) t.base_diff due olddue in
        let left = with_heaps (pending cur (the_heap t)) (pending old (the_old_heap t)) t in
        posted events (
          if not (now.time == t.current_base) && leb (7 * 24 * 60 * 60) cur.seconds
          then rotate now left
          else left))

-- The earliest time of the two maps, or `nothing` where both are empty.
pub data Earliest : Type 0 where
  nothing : Earliest
  at_time : Absolute → Earliest

unfoldable pub earliest_of : ℕ → ℕ → List Entry → List Entry → Earliest
unfolding absolute_lt
earliest_of current_base old_base [] [] = nothing
earliest_of current_base old_base [] (o ∷ os) = at_time (record { time = old_base; offset = o.0 })
earliest_of current_base old_base (c ∷ cs) [] =
    at_time (record { time = current_base; offset = c.0 })
earliest_of current_base old_base (c ∷ cs) (o ∷ os) =
    let first : Absolute = record { time = current_base; offset = c.0 } in
    let contender : Absolute = record { time = old_base; offset = o.0 } in
    at_time (if absolute_lt contender first then contender else first)

pub data Expiration : Type 0 where
  refused : Expiration
  expires_in : Interval → Expiration

-- `nextExpirationIn` behind its choice of the earliest time
unfoldable pub expiration : Absolute → Interval → Earliest → Interval
unfolding absolute_lt absolute_sub interval_lt interval
expiration now maxtime nothing = maxtime
expiration now maxtime (at_time earliest) =
    if absolute_lt now earliest
    then (let next = absolute_sub earliest now in
        if interval_lt maxtime next then maxtime else next)
    else interval 0 0

unfoldable pub next_expiration_in : Absolute → Interval → Tracker → Expiration
unfolding absolute absolute_lt earliest_of expiration
next_expiration_in now maxtime t =
    if absolute_lt now (at_base t.current_base)
    then refused
    else expires_in (
        expiration now maxtime
          (earliest_of t.current_base t.old_base (the_heap t) (the_old_heap t)))
