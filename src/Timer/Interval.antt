-- ===== src/Timer/Interval.antt =====
-- `Timer::interval_t`: `unsigned long` seconds and 32 bits of nanoseconds.
use str_mod.Base.{ℕ, ◌+◌, ◌-◌, ◌/◌, ◌%◌, Bool, not, ltb, leb, ◌==◌, if◌then◌else◌, u32_mod, u64_mod}

pub record Interval : Type 0 where
  pub seconds : ℕ
  pub nanoseconds : ℕ

abbrev pub billion : ℕ
billion = 1000000000

abbrev pub add64 : ℕ → ℕ → ℕ
add64 a b = (a + b) % u64_mod

abbrev pub sub64 : ℕ → ℕ → ℕ
sub64 a b = (a + u64_mod - b) % u64_mod

abbrev pub add32 : ℕ → ℕ → ℕ
add32 a b = (a + b) % u32_mod

abbrev pub sub32 : ℕ → ℕ → ℕ
sub32 a b = (a + u32_mod - b) % u32_mod

unfoldable pub normalize : Interval → Interval
normalize i =
    if leb billion i.nanoseconds
    then record {
      seconds = add64 i.seconds (i.nanoseconds / billion);
      nanoseconds = i.nanoseconds % billion;
    }
    else i

unfoldable pub interval : ℕ → ℕ → Interval
unfolding normalize
interval secs nanosecs = normalize (record { seconds = secs; nanoseconds = nanosecs })

-- `operator <` on intervals that are normalized, and the body that `operator <` and `operator ==`
-- share
abbrev pub below : Interval → Interval → Bool
below an bn =
    if not (an.seconds == bn.seconds)
    then ltb an.seconds bn.seconds
    else ltb an.nanoseconds bn.nanoseconds

unfoldable pub interval_lt : Interval → Interval → Bool
unfolding normalize
interval_lt a b = below (normalize a) (normalize b)

unfoldable pub interval_eq : Interval → Interval → Bool
unfolding normalize
interval_eq a b = below (normalize a) (normalize b)

unfoldable pub interval_ge : Interval → Interval → Bool
unfolding interval_lt
interval_ge a b = not (interval_lt a b)

unfoldable pub interval_gt : Interval → Interval → Bool
unfolding interval_lt
interval_gt a b = interval_lt b a

unfoldable pub interval_le : Interval → Interval → Bool
unfolding interval_lt
interval_le a b = not (interval_lt b a)

unfoldable pub interval_ne : Interval → Interval → Bool
unfolding interval_eq
interval_ne a b = not (interval_eq a b)

-- `operator -` on intervals that are normalized
unfoldable pub difference : Interval → Interval → Interval
unfolding interval
difference an bn =
    if ltb bn.seconds an.seconds
    then (let secdiff = sub64 an.seconds bn.seconds in
        if leb bn.nanoseconds an.nanoseconds
        then interval secdiff (sub32 an.nanoseconds bn.nanoseconds)
        else interval (sub64 secdiff 1) (sub32 (add32 an.nanoseconds billion) bn.nanoseconds))
    else if an.seconds == bn.seconds
    then (if leb bn.nanoseconds an.nanoseconds
        then interval 0 (sub32 an.nanoseconds bn.nanoseconds)
        else interval 0 (sub32 bn.nanoseconds an.nanoseconds))
    else (let secdiff = sub64 bn.seconds an.seconds in
        if leb an.nanoseconds bn.nanoseconds
        then interval secdiff (sub32 bn.nanoseconds an.nanoseconds)
        else interval (sub64 secdiff 1) (sub32 (add32 bn.nanoseconds billion) an.nanoseconds))

unfoldable pub interval_sub : Interval → Interval → Interval
unfolding difference normalize
interval_sub a b = difference (normalize a) (normalize b)

unfoldable pub interval_add : Interval → Interval → Interval
unfolding interval normalize
interval_add a b =
    let an = normalize a in
    let bn = normalize b in
    normalize (interval (add64 an.seconds bn.seconds) (add32 an.nanoseconds bn.nanoseconds))
