-- ===== src/Timer/Overdue.antt =====
-- When the tracker posts, and when it says that it will.
use str_mod.Base.{
  ℕ, ◌+◌, ◌-◌, ◌*◌, ◌≤◌, ◌<◌, ◌≡◌, ◌∙◌, refl, min, true, if◌then◌else◌, [], ◌∷◌, arith, Bool-cases,
  inl, inr, u64_mod,
}
use str_mod.Timer.Interval.{
  Interval, billion, normalize, interval, interval_lt, interval_add, interval_le,
}
use str_mod.Timer.Arith.{nanos, Fits, interval_lt_iff, interval_add_lem}
use str_mod.Timer.Absolute.{Absolute, absolute, absolute_lt, absolute_sub, instant, IsTime}
use str_mod.Timer.Instants.{absolute_lt_iff, absolute_sub_lem}
use str_mod.Timer.Heap.{insert}
use str_mod.Timer.Tracker.{
  Tracker, the_heap, the_old_heap, at_base, rotate, insert_shifted, thrown, post_expired, at_time,
  expiration, next_expiration_in, refused,
}

not_below_itself : (base : ℕ) → absolute_lt (at_base base) (at_base base) ≡ true
unfolding absolute_lt absolute interval interval_le interval_lt normalize
not_below_itself base = ground arith

-- At the very time that is the tracker's base, which is the time given to its constructor, or the
-- last one at which the maps changed places, without a fraction of a second, both `postExpired`
-- and `nextExpirationIn` throw the error that is meant for earlier times.
pub post_expired_throws :
    (t : Tracker) (maxtime : Interval)
    → (post_expired (at_base t.current_base) t ≡ thrown)
      × (next_expiration_in (at_base t.current_base) maxtime t ≡ refused)
unfolding post_expired next_expiration_in
post_expired_throws t maxtime = let e = not_below_itself t.current_base in (rw e refl, rw e refl)

shorter :
    (m n : Interval)
    → Fits m
    → Fits n
    → nanos (if interval_lt m n then m else n) ≡ min (nanos m) (nanos n)
shorter m n f g = ground (arith, interval_lt_iff m n f g)

-- Behind the test of its argument, `nextExpirationIn` answers with the time from now to the
-- earliest event, which is 0 if that is past, or with `maxtime` if that is less.
pub expiration_lem :
    (now e : Absolute) (maxtime : Interval)
    → IsTime now
    → IsTime e
    → Fits maxtime
    → nanos (expiration now maxtime (at_time e)) ≡ min (nanos maxtime) (instant e - instant now)
unfolding expiration interval normalize
expiration_lem now e maxtime f g h =
    let iff = absolute_lt_iff now e f g in
    elim (Bool-cases (absolute_lt now e)) [
      | inl x ↦
          let below : instant now ≤ instant e = ground (arith, iff.0 x) in
          let (n, d) = absolute_sub_lem e now g f below in
          let m = shorter maxtime (absolute_sub e now) h (omega arith, omega arith) in
          rw x (omega (arith, m, d))
      | inr x ↦ let past : instant e ≤ instant now = ground (arith, iff.1) in rw x (omega arith)
    ]

rotate_old_heap :
    (now : Absolute) (t : Tracker)
    → the_old_heap (rotate now t) ≡ insert_shifted t.base_diff (the_old_heap t) (the_heap t)
unfolding rotate
rotate_old_heap now t = elim (Bool-cases t.map1_current) [ inl e ↦ rw e refl | inr e ↦ rw e refl ]

-- At the weekly change of maps, an event that waits in the old map and is carried over
-- becomes due later, by twice the time between the two bases, where it should stay due when it was.
pub rotate_delays :
    (now : Absolute) (t : Tracker) (i : Interval) (ev : ℕ)
    → the_heap t ≡ []
    → the_old_heap t ≡ (i, ev) ∷ []
    → t.old_base ≤ t.current_base
    → nanos t.base_diff ≡ (t.current_base - t.old_base) * billion
    → Fits i
    → Fits t.base_diff
    → i.seconds + t.base_diff.seconds + 10 < u64_mod
    → (j : Interval) × (the_old_heap (rotate now t) ≡ (j, ev) ∷ [])
      × ((rotate now t).old_base * billion + nanos j
          ≡ (t.old_base * billion + nanos i) + 2 * nanos t.base_diff)
unfolding rotate insert_shifted insert
rotate_delays now t i ev c o b d f g h =
    let (n, e) = interval_add_lem i t.base_diff f g h in
    (interval_add i t.base_diff, rotate_old_heap now t ∙ rw (o, c) refl, omega (arith, e))
