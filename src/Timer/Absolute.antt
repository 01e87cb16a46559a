-- ===== src/Timer/Absolute.antt =====
-- `Timer::absolute_t`: a time of the system and an interval behind it. A `time_t` is a number of
-- seconds, not negative; `difftime` of two of them is exact, so that the fractions of seconds that
-- the code takes from it are 0.
use str_mod.Base.{ℕ, ◌+◌, ◌-◌, ◌*◌, ◌<◌, Bool, not, ltb, ◌==◌, if◌then◌else◌, ◌^◌}
use str_mod.Timer.Interval.{
  Interval, billion, add64, add32, normalize, interval, interval_lt, interval_le, interval_eq,
  interval_sub, interval_add,
}
use str_mod.Timer.Arith.{nanos}

pub record Absolute : Type 0 where
  pub time : ℕ
  pub offset : Interval

unfoldable pub absolute : ℕ → ℕ → ℕ → Absolute
unfolding interval
absolute time secs nanosecs = record { time = time; offset = interval secs nanosecs }

-- an interval with the whole seconds `isecs` added to it, and no nanoseconds
abbrev pub later_by : ℕ → Interval → Interval
later_by isecs i = record {
  seconds = add64 (normalize i).seconds isecs;
  nanoseconds = add32 (normalize i).nanoseconds 0;
}

unfoldable pub absolute_lt : Absolute → Absolute → Bool
unfolding interval_lt interval_le normalize
absolute_lt a b =
    if a.time == b.time
    then interval_le a.offset b.offset
    else if ltb a.time b.time
    then interval_lt a.offset (later_by (b.time - a.time) b.offset)
    else interval_lt (later_by (a.time - b.time) a.offset) b.offset

unfoldable pub absolute_eq : Absolute → Absolute → Bool
unfolding interval_eq normalize
absolute_eq a b =
    if a.time == b.time
    then interval_eq a.offset b.offset
    else if ltb a.time b.time
    then interval_eq a.offset (later_by (b.time - a.time) b.offset)
    else interval_eq (later_by (a.time - b.time) a.offset) b.offset

unfoldable pub absolute_ge : Absolute → Absolute → Bool
unfolding absolute_lt
absolute_ge a b = not (absolute_lt a b)

unfoldable pub absolute_gt : Absolute → Absolute → Bool
unfolding absolute_lt
absolute_gt a b = absolute_lt b a

unfoldable pub absolute_le : Absolute → Absolute → Bool
unfolding absolute_lt
absolute_le a b = not (absolute_lt b a)

unfoldable pub absolute_ne : Absolute → Absolute → Bool
unfolding absolute_eq
absolute_ne a b = not (absolute_eq a b)

unfoldable pub absolute_sub : Absolute → Absolute → Interval
unfolding interval interval_lt interval_sub interval_add
absolute_sub a b =
    if ltb a.time b.time
    then (let tdiffint = interval (b.time - a.time) 0 in
        if interval_lt a.offset tdiffint
        then interval 0 0
        else interval_sub (interval_sub a.offset tdiffint) b.offset)
    else if a.time == b.time
    then interval_sub a.offset b.offset
    else (let tdiffint = interval (a.time - b.time) 0 in
        if interval_lt a.offset b.offset
        then interval_sub tdiffint (interval_sub b.offset a.offset)
        else interval_add tdiffint (interval_sub a.offset b.offset))

unfoldable pub absolute_add : Absolute → Interval → Absolute
unfolding interval_add
absolute_add a i = record { time = a.time; offset = interval_add a.offset i }

-- The nanosecond that a time stands for.
abbrev pub instant : Absolute → ℕ
instant a = a.time * billion + nanos a.offset

-- Times and seconds are below 2 ^ 62, and the interval is normalized.
abbrev pub IsTime : Absolute → Type 0
IsTime a = (a.time < 2 ^ 62) × (a.offset.seconds < 2 ^ 62) × (a.offset.nanoseconds < billion)
