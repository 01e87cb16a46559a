-- ===== src/Timer/Conserve.antt =====
-- How often each event waits, and is posted.
use str_mod.Base.{
  ℕ, ◌+◌, ◌*◌, ◌≤◌, ◌≡◌, refl, zero, suc, Bool, true, false, not, ◌&&◌, leb, ◌==◌, if◌then◌else◌,
  List, [], ◌∷◌, length, arith,
}
use str_mod.Timer.Interval.{Interval, interval, interval_add}
use str_mod.Timer.Absolute.{Absolute, absolute_sub, absolute_lt}
use str_mod.Timer.Heap.{Entry, insert, expired, pending, waits, waits-insert, waits-expired}
use str_mod.Timer.Tracker.{
  Tracker, the_heap, the_old_heap, with_heaps, at_base, post_at, next_posted, merge, insert_shifted,
  rotate, Posted, posted, thrown, post_expired,
}

-- How often an event stands in a list.
abbrev count : ℕ → List ℕ → ℕ
count x [] = 0
count x (y ∷ ys) = (if x == y then 1 else 0) + count x ys

-- How often an event waits in the tracker.
abbrev pub waiting : ℕ → Tracker → ℕ
waiting x t = waits x t.map1 + waits x t.map2

next_posted_lem :
    (x : ℕ) (d : Interval) (o : Entry) (os cur : List Entry)
    → let n = next_posted d o os cur in
      ((if x == n.0 then 1 else 0) + (waits x n.1 + waits x n.2) ≡ waits x cur + waits x (o ∷ os))
      × (suc (length n.1 + length n.2) ≡ length cur + length (o ∷ os))
unfolding next_posted
next_posted_lem x d (j, f) os [] = ground arith
next_posted_lem x d (j, f) os ((k, g) ∷ cs) = ground arith

merge-count :
    (x fuel : ℕ) (d : Interval) (cur old : List Entry)
    → length cur + length old ≤ fuel
    → count x (merge fuel d cur old) ≡ waits x cur + waits x old
unfolding merge
merge-count x zero d [] [] h = refl
merge-count x zero d (c ∷ cs) old h = absurd (omega arith)
merge-count x zero d [] (o ∷ os) h = absurd (omega arith)
merge-count x (suc fuel) d [] [] h = refl
merge-count x (suc fuel) d ((j, f) ∷ cs) [] h =
    omega (arith, merge-count x fuel d cs [] (omega arith))
merge-count x (suc fuel) d cur (o ∷ os) h =
    let n = next_posted d o os cur in
    let (e, l) = next_posted_lem x d o os cur in
    omega (arith, e, merge-count x fuel d n.1 n.2 (omega (arith, l)))

insert_shifted-waits :
    (x : ℕ) (d : Interval) (old heap : List Entry)
    → waits x (insert_shifted d old heap) ≡ waits x old + waits x heap
unfolding insert_shifted
insert_shifted-waits x d [] heap = omega arith
insert_shifted-waits x d ((j, f) ∷ old) heap = omega (
  arith,
  insert_shifted-waits x d old (insert (interval_add j d) f heap),
  waits-insert x (interval_add j d) f heap,
)

rotate-waiting : (x : ℕ) (now : Absolute) (t : Tracker) → waiting x (rotate now t) ≡ waiting x t
unfolding rotate
rotate-waiting x now t =
    ground (arith, insert_shifted-waits x t.base_diff (the_old_heap t) (the_heap t))

-- Posting an event adds one to how often that event waits, whatever the time, and changes nothing
-- for the others.
pub post_at-waiting :
    (x : ℕ) (at : Absolute) (ev : ℕ) (t : Tracker)
    → waiting x (post_at at ev t) ≡ (if x == ev then 1 else 0) + waiting x t
unfolding post_at
post_at-waiting x at ev t =
    let key =
      if absolute_lt (at_base t.current_base) at
      then absolute_sub at (at_base t.current_base)
      else interval 0 0 in
    ground (arith, waits-insert x key ev (the_heap t))

left-waiting :
    (x : ℕ) (a b : Interval) (t : Tracker)
    → waiting x (with_heaps (pending a (the_heap t)) (pending b (the_old_heap t)) t)
        + (waits x (expired a (the_heap t)) + waits x (expired b (the_old_heap t)))
      ≡ waiting x t
left-waiting x a b t =
    ground (arith, waits-expired x a (the_heap t), waits-expired x b (the_old_heap t))

abbrev pub Conserves : ℕ → Tracker → Posted → Type 0
Conserves x t thrown = Unit
Conserves x t (posted es q) = count x es + waiting x q ≡ waiting x t

answer-Conserves :
    (x : ℕ) (t left rotated : Tracker) (es : List ℕ) (throws rotates : Bool)
    → count x es + waiting x left ≡ waiting x t
    → waiting x rotated ≡ waiting x left
    → Conserves x t (if throws then thrown else posted es (if rotates then rotated else left))
answer-Conserves x t left rotated es true rotates h r = tt
answer-Conserves x t left rotated es false true h r = omega arith
answer-Conserves x t left rotated es false false h r = h

-- Where `postExpired` does not throw, no event is lost and none is made up: each has been posted
-- and waits, taken together, as often as it waited before, also where the maps change places.
pub post_expired-Conserves :
    (x : ℕ) (now : Absolute) (t : Tracker) → Conserves x t (post_expired now t)
unfolding post_expired
post_expired-Conserves x now t =
    let a = absolute_sub now (at_base t.current_base) in
    let b = absolute_sub now (at_base t.old_base) in
    let due = expired a (the_heap t) in
    let olddue = expired b (the_old_heap t) in
    let left = with_heaps (pending a (the_heap t)) (pending b (the_old_heap t)) t in
    let m = merge-count x (length due + length olddue) t.base_diff due olddue (omega arith) in
    let l = left-waiting x a b t in
    let r = rotate-waiting x now left in
    answer-Conserves x t left (rotate now left)
      (merge (length due + length olddue) t.base_diff due olddue)
      (absolute_lt now (at_base t.current_base))
      (not (now.time == t.current_base) && leb (7 * 24 * 60 * 60) a.seconds) (omega (arith, m, l)) r
