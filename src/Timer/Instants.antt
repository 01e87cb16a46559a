-- ===== src/Timer/Instants.antt =====
-- What the operators on times compute, as numbers of nanoseconds.
use str_mod.Base.{
  ℕ, ◌+◌, ◌-◌, ◌≤◌, ◌<◌, ◌≡◌, ◌↔◌, ◌⊎◌, true, arith, ◌==◌, ltb, ◌^◌, Bool-cases, inl, inr, ltb→lt,
  ==_iff, ap, if◌then◌else◌,
}
use str_mod.Timer.Interval.{
  Interval, normalize, interval, interval_lt, interval_le, interval_sub, interval_add,
}
use str_mod.Timer.Arith.{nanos, IsNormal, interval_lt_iff, interval_sub_lem, interval_add_lem}
use str_mod.Timer.Absolute.{Absolute, absolute_lt, absolute_sub, absolute_add, instant, IsTime}

-- `<` on times compares the instants that they stand for, but for times with the same `time`: a
-- time is then below each that stands for the same instant, itself included.
pub absolute_lt_iff :
    (a b : Absolute)
    → IsTime a
    → IsTime b
    → (absolute_lt a b ≡ true)
      ↔ ((instant a < instant b) ⊎ ((a.time ≡ b.time) × (instant a ≡ instant b)))
unfolding absolute_lt interval_lt interval_le normalize
absolute_lt_iff a b f g = ground arith

whole :
    (n : ℕ)
    → n < 2 ^ 62
    → IsNormal (interval n 0) × (interval n 0 ≡ record { seconds = n; nanoseconds = 0 })
unfolding interval normalize
whole n h = ground arith

-- The whole seconds between two times.
abbrev gap : ℕ → ℕ → Interval
gap x y = interval (y - x) 0

module _ (a b : Absolute) (f : IsTime a) (g : IsTime b) (h : instant b ≤ instant a) where
  sub_before :
      a.time < b.time
      → let t = gap a.time b.time in
        let r =
          if interval_lt a.offset t
          then interval 0 0
          else interval_sub (interval_sub a.offset t) b.offset in
        IsNormal r × (nanos r ≡ instant a - instant b)
  sub_before l =
      let (n, e) = whole (b.time - a.time) (omega arith) in
      let t = gap a.time b.time in
      let se = ap Interval.seconds e in
      let ne = ap Interval.nanoseconds e in
      let lt = interval_lt_iff a.offset t (omega arith, omega arith) (omega arith, omega arith) in
      let (m, d) =
        interval_sub_lem a.offset t (omega arith, omega arith) (omega arith, omega arith) in
      let (k, c) =
        interval_sub_lem (interval_sub a.offset t) b.offset (omega arith, omega arith)
          (omega arith, omega arith) in
      ground (arith, lt)

  sub_after :
      b.time < a.time
      → let t = gap b.time a.time in
        let r =
          if interval_lt a.offset b.offset
          then interval_sub t (interval_sub b.offset a.offset)
          else interval_add t (interval_sub a.offset b.offset) in
        IsNormal r × (nanos r ≡ instant a - instant b)
  sub_after l =
      let (n, e) = whole (a.time - b.time) (omega arith) in
      let t = gap b.time a.time in
      let se = ap Interval.seconds e in
      let ne = ap Interval.nanoseconds e in
      let lt =
        interval_lt_iff a.offset b.offset (omega arith, omega arith) (omega arith, omega arith) in
      let (m, d) =
        interval_sub_lem b.offset a.offset (omega arith, omega arith) (omega arith, omega arith) in
      let (p, q) =
        interval_sub_lem a.offset b.offset (omega arith, omega arith) (omega arith, omega arith) in
      let (k, c) =
        interval_sub_lem t (interval_sub b.offset a.offset) (omega arith, omega arith)
          (omega arith, omega arith) in
      let (u, v) =
        interval_add_lem t (interval_sub a.offset b.offset) (omega arith, omega arith)
          (omega arith, omega arith) (omega arith) in
      ground (arith, lt)

  -- The difference of two times, the later one first, is the interval between their instants,
  -- normalized.
  pub absolute_sub_lem :
      IsNormal (absolute_sub a b) × (nanos (absolute_sub a b) ≡ instant a - instant b)
  unfolding absolute_sub
  absolute_sub_lem =
      let same =
        interval_sub_lem a.offset b.offset (omega arith, omega arith) (omega arith, omega arith) in
      elim (Bool-cases (ltb a.time b.time)) [
        | inl e ↦ rw e (sub_before (ltb→lt a.time b.time e))
        | inr e ↦ elim (Bool-cases (a.time == b.time)) [
          | inl u ↦ let t = (==_iff a.time b.time).0 u in rw (e, u) (same.0, omega arith)
          | inr u ↦ rw (e, u) (sub_after (ground arith))
        ]
      ]

-- Adding an interval to a time moves its instant by the interval's nanoseconds.
pub absolute_add_lem :
    (a : Absolute) (i : Interval)
    → IsTime a
    → IsNormal i
    → i.seconds < 2 ^ 62
    → (instant (absolute_add a i) ≡ instant a + nanos i) × IsNormal (absolute_add a i).offset
unfolding absolute_add
absolute_add_lem a i f n h =
    let (m, e) =
      interval_add_lem a.offset i (omega arith, omega arith) (omega arith, omega arith)
        (omega arith) in
    (omega arith, m)
