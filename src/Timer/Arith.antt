-- ===== src/Timer/Arith.antt =====
-- What the operators on intervals compute, as numbers of nanoseconds.
use str_mod.Base.{ℕ, ◌+◌, ◌-◌, ◌*◌, ◌≤◌, ◌<◌, ◌≡◌, ◌↔◌, true, false, arith, u32_mod, u64_mod}
use str_mod.Timer.Interval.{
  Interval, billion, add64, add32, normalize, interval, interval_lt, interval_eq, difference,
  interval_sub, interval_add,
}

abbrev pub nanos : Interval → ℕ
nanos i = i.seconds * billion + i.nanoseconds

-- Words, of which the seconds do not overflow when the nanoseconds are carried: at most 4.
abbrev pub Fits : Interval → Type 0
Fits i = (i.seconds + 4 < u64_mod) × (i.nanoseconds < u32_mod)

abbrev pub IsNormal : Interval → Type 0
IsNormal i = (i.seconds < u64_mod) × (i.nanoseconds < billion)

pub normalize_lem :
    (i : Interval) → Fits i → IsNormal (normalize i) × (nanos (normalize i) ≡ nanos i)
unfolding normalize
normalize_lem i (f, g) = ground arith

pub normalize_normal : (i : Interval) → IsNormal i → normalize i ≡ i
unfolding normalize
normalize_normal i (f, g) = ground arith

below_normal :
    (a b : Interval) → IsNormal a → IsNormal b → (interval_lt a b ≡ true) ↔ (nanos a < nanos b)
unfolding interval_lt normalize
below_normal a b f g = ground arith

difference_lem :
    (a b : Interval)
    → IsNormal a
    → IsNormal b
    → IsNormal (difference a b)
      × (nanos (difference a b) ≡ (nanos a - nanos b) + (nanos b - nanos a))
unfolding difference interval normalize
difference_lem a b f g = ground arith

-- `<` on intervals compares the numbers of nanoseconds that they stand for, whether or not they are
-- normalized.
pub interval_lt_iff :
    (a b : Interval) → Fits a → Fits b → (interval_lt a b ≡ true) ↔ (nanos a < nanos b)
unfolding interval_lt
interval_lt_iff a b f g =
    let (n, e) = normalize_lem a f in
    let (m, h) = normalize_lem b g in ground (arith, below_normal (normalize a) (normalize b) n m)

-- Subtraction of intervals gives the distance between them, whichever is longer, normalized.
pub interval_sub_lem :
    (a b : Interval)
    → Fits a
    → Fits b
    → IsNormal (interval_sub a b)
      × (nanos (interval_sub a b) ≡ (nanos a - nanos b) + (nanos b - nanos a))
unfolding interval_sub
interval_sub_lem a b f g =
    let (n, e) = normalize_lem a f in
    let (m, h) = normalize_lem b g in
    let (k, d) = difference_lem (normalize a) (normalize b) n m in (k, omega arith)

normalize_seconds : (i : Interval) → Fits i → (normalize i).seconds ≤ i.seconds + 4
unfolding normalize
normalize_seconds i (f, g) = ground arith

sum : Interval → Interval → Interval
unfolding interval
sum an bn = normalize (interval (add64 an.seconds bn.seconds) (add32 an.nanoseconds bn.nanoseconds))

sum_lem :
    (a b : Interval)
    → IsNormal a
    → IsNormal b
    → a.seconds + b.seconds + 1 < u64_mod
    → IsNormal (sum a b) × (nanos (sum a b) ≡ nanos a + nanos b)
unfolding sum interval normalize
sum_lem a b f g h = ground arith

-- Addition of intervals adds, and its result is normalized. The sum of the seconds is to fit, with
-- what the nanoseconds carry.
pub interval_add_lem :
    (a b : Interval)
    → Fits a
    → Fits b
    → a.seconds + b.seconds + 10 < u64_mod
    → IsNormal (interval_add a b) × (nanos (interval_add a b) ≡ nanos a + nanos b)
unfolding interval_add sum
interval_add_lem a b f g r =
    let (n, e) = normalize_lem a f in
    let (m, h) = normalize_lem b g in
    let x = normalize_seconds a f in
    let y = normalize_seconds b g in
    let (k, d) = sum_lem (normalize a) (normalize b) n m (omega arith) in (k, omega arith)

-- `==` on intervals is the same function as `<`, so that no interval equals itself.
pub interval_eq-interval_lt :
    (a b : Interval) → (interval_eq a b ≡ interval_lt a b) × (interval_eq a a ≡ false)
unfolding interval_eq interval_lt
interval_eq-interval_lt a b = ground arith
