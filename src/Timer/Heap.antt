-- ===== src/Timer/Heap.antt =====
-- The `multimap` from intervals to events, as a list in the order of its keys: an event is inserted
-- behind those with the same key.
use str_mod.Base.{
  ℕ, ◌+◌, ◌≡◌, ap, refl, Bool, true, false, ◌&&◌, ◌||◌, ltb, ◌==◌, if◌then◌else◌, List, [], ◌∷◌,
  ◌++◌, arith, Bool-cases, inl, inr,
}
use str_mod.Timer.Interval.{Interval}

abbrev pub Entry : Type 0
Entry = Interval × ℕ

-- `compare_intervals`
unfoldable pub key_lt : Interval → Interval → Bool
key_lt a b = ltb a.seconds b.seconds || (a.seconds == b.seconds && ltb a.nanoseconds b.nanoseconds)

unfoldable pub insert : Interval → ℕ → List Entry → List Entry
unfolding key_lt
insert k e [] = (k, e) ∷ []
insert k e ((j, f) ∷ xs) =
    let rest = insert k e xs in if key_lt k j then (k, e) ∷ (j, f) ∷ xs else (j, f) ∷ rest

-- up to `upper_bound(k)`, and from there on
unfoldable pub expired : Interval → List Entry → List Entry
unfolding key_lt
expired k [] = []
expired k ((j, f) ∷ xs) = let rest = expired k xs in if key_lt k j then [] else (j, f) ∷ rest

unfoldable pub pending : Interval → List Entry → List Entry
unfolding key_lt
pending k [] = []
pending k ((j, f) ∷ xs) = let rest = pending k xs in if key_lt k j then (j, f) ∷ xs else rest

-- How often an event waits.
abbrev pub waits : ℕ → List Entry → ℕ
waits x [] = 0
waits x ((j, f) ∷ xs) = (if x == f then 1 else 0) + waits x xs

pub waits-insert :
    (x : ℕ) (k : Interval) (e : ℕ) (xs : List Entry)
    → waits x (insert k e xs) ≡ (if x == e then 1 else 0) + waits x xs
unfolding insert
waits-insert x k e [] = ground arith
waits-insert x k e ((j, f) ∷ xs) = ground (arith, waits-insert x k e xs)

pub waits-expired :
    (x : ℕ) (k : Interval) (xs : List Entry)
    → waits x (expired k xs) + waits x (pending k xs) ≡ waits x xs
unfolding expired pending
waits-expired x k [] = ground arith
waits-expired x k ((j, f) ∷ xs) = ground (arith, waits-expired x k xs)

-- The key at the front is not above the other ones.
abbrev pub Bounds : Interval → List Entry → Type 0
Bounds k [] = Unit
Bounds k ((j, f) ∷ xs) = (key_lt j k ≡ false) × Bounds k xs

abbrev pub IsSorted : List Entry → Type 0
IsSorted [] = Unit
IsSorted ((j, f) ∷ xs) = Bounds j xs × IsSorted xs

-- No key is above `k`; every key is above `k`.
abbrev pub AllUpTo : Interval → List Entry → Type 0
AllUpTo k [] = Unit
AllUpTo k ((j, f) ∷ xs) = (key_lt k j ≡ false) × AllUpTo k xs

abbrev pub AllAbove : Interval → List Entry → Type 0
AllAbove k [] = Unit
AllAbove k ((j, f) ∷ xs) = (key_lt k j ≡ true) × AllAbove k xs

key_lt_trans : (i j k : Interval) → key_lt j i ≡ false → key_lt k j ≡ false → key_lt k i ≡ false
unfolding key_lt
key_lt_trans i j k h l = ground arith

key_lt_above : (k i j : Interval) → key_lt k i ≡ true → key_lt j i ≡ false → key_lt k j ≡ true
unfolding key_lt
key_lt_above k i j h l = ground arith

key_lt-false : (i j : Interval) → key_lt i j ≡ true → key_lt j i ≡ false
unfolding key_lt
key_lt-false i j h = ground arith

Bounds-trans : (i j : Interval) (xs : List Entry) → key_lt j i ≡ false → Bounds j xs → Bounds i xs
Bounds-trans i j [] h b = tt
Bounds-trans i j ((k, f) ∷ xs) h (l, b) = (key_lt_trans i j k h l, Bounds-trans i j xs h b)

Bounds-insert :
    (i k : Interval) (e : ℕ) (xs : List Entry)
    → key_lt k i ≡ false
    → Bounds i xs
    → Bounds i (insert k e xs)
unfolding insert
Bounds-insert i k e [] h b = (h, tt)
Bounds-insert i k e ((j, f) ∷ xs) h (l, b) = ground (arith, Bounds-insert i k e xs h b)

-- Inserting an event keeps the order of the keys.
pub insert-IsSorted :
    (k : Interval) (e : ℕ) (xs : List Entry) → IsSorted xs → IsSorted (insert k e xs)
unfolding insert
insert-IsSorted k e [] s = ground arith
insert-IsSorted k e ((j, f) ∷ xs) (b, s) = elim (Bool-cases (key_lt k j)) [
  | inl h ↦ let l = key_lt-false k j h in rw h ((l, Bounds-trans k j xs l b), (b, s))
  | inr h ↦ rw h (Bounds-insert j k e xs h b, insert-IsSorted k e xs s)
]

Bounds-AllAbove :
    (k i : Interval) (xs : List Entry) → key_lt k i ≡ true → Bounds i xs → AllAbove k xs
Bounds-AllAbove k i [] h b = tt
Bounds-AllAbove k i ((j, f) ∷ xs) h (l, b) = (key_lt_above k i j h l, Bounds-AllAbove k i xs h b)

-- The events that `postExpired` takes from a map are those of which the time is not past `k`, and
-- those that it leaves are those past `k`, each in their order, and the map stays sorted.
pub expired_lem :
    (k : Interval) (xs : List Entry)
    → IsSorted xs
    → (expired k xs ++ pending k xs ≡ xs)
      × AllUpTo k (expired k xs)
      × AllAbove k (pending k xs)
      × IsSorted (pending k xs)
unfolding expired pending
expired_lem k [] s = (refl, tt, tt, tt)
expired_lem k ((j, f) ∷ xs) (b, s) = elim (Bool-cases (key_lt k j)) [
  | inl h ↦ rw h (refl, tt, (h, Bounds-AllAbove k j xs h b), (b, s))
  | inr h ↦ let (a, u, o, t) = expired_lem k xs s in rw h (ap (◌∷◌ (j, f)) a, (h, u), o, t)
]
