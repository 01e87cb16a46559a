-- ===== src/Timer/Tests.antt =====
-- Times and trackers at concrete values.
use str_mod.Base.{ℕ, ◌+◌, ◌*◌, ◌≡◌, refl, true, false, List, [], ◌∷◌, arith}
use str_mod.Timer.Interval.{Interval, billion}
use str_mod.Timer.Arith.{nanos}
use str_mod.Timer.Absolute.{Absolute}
use str_mod.Timer.Heap.{Entry, key_lt, IsSorted}
use str_mod.Timer.Tracker.{
  Tracker, new_tracker, the_old_heap, at_base, post_at, rotate, Posted, posted, thrown,
  post_expired, next_expiration_in, refused,
}
use str_mod.Timer.Conserve.{Conserves, post_expired-Conserves}
use str_mod.Timer.Overdue.{post_expired_throws, rotate_delays}

abbrev secs : ℕ → ℕ → Interval
secs s n = record { seconds = s; nanoseconds = n }

abbrev moment : ℕ → ℕ → ℕ → Absolute
moment t s n = record { time = t; offset = secs s n }

-- two events, of which the first is due a second after the start, and the second after two
abbrev two_events : Tracker
two_events = record {
  map1 = (secs 1 0, 7) ∷ (secs 2 0, 8) ∷ [];
  map2 = [];
  map1_current = true;
  old_base = 100;
  current_base = 100;
  base_diff = secs 0 0;
}

abbrev events_of : Posted → List ℕ
events_of thrown = []
events_of (posted es t) = es

post_first : events_of (post_expired (moment 101 0 5) two_events) ≡ 7 ∷ []
unfolding post_expired
post_first = refl

post_both : events_of (post_expired (moment 100 9 0) two_events) ≡ 7 ∷ 8 ∷ []
unfolding post_expired
post_both = refl

post_in_order :
    post_at (moment 101 0 0) 7 (post_at (moment 101 1 0) 8 (new_tracker 100)) ≡ two_events
unfolding post_at new_tracker
post_in_order = refl

abbrev heap : List Entry
heap = (secs 1 0, 7) ∷ (secs 2 0, 8) ∷ []

heap-IsSorted : IsSorted heap
unfolding key_lt
heap-IsSorted = ground arith

post_expired-Conserves_example : Conserves 7 two_events (post_expired (moment 101 0 5) two_events)
post_expired-Conserves_example = post_expired-Conserves 7 (moment 101 0 5) two_events

post_expired_throws_example :
    (post_expired (at_base 100) two_events ≡ thrown)
    × (next_expiration_in (at_base 100) (secs 60 0) two_events ≡ refused)
post_expired_throws_example = post_expired_throws two_events (secs 60 0)

-- an event that waits for 30 days, at the second change of the maps
abbrev month : Tracker
month = record {
  map1 = (secs 2592000 0, 7) ∷ [];
  map2 = [];
  map1_current = false;
  old_base = 0;
  current_base = 604800;
  base_diff = secs 604800 0;
}

rotate_delays_example :
    (j : Interval) × (the_old_heap (rotate (moment 1209600 0 0) month) ≡ (j, 7) ∷ [])
    × ((rotate (moment 1209600 0 0) month).old_base * billion + nanos j
        ≡ (month.old_base * billion + nanos (secs 2592000 0)) + 2 * nanos month.base_diff)
rotate_delays_example =
    rotate_delays (moment 1209600 0 0) month (secs 2592000 0) 7 refl refl (omega arith) refl
      (omega arith, omega arith) (omega arith, omega arith) (omega arith)
