-- ===== src/Telnet/Regions.antt =====
-- What holds of the parser between two bytes, and the regions that it reports.
use mathlib.Core.List.{append-nil}
use mathlib.Core.Path.{subst}
use native.Mathlib.Nat.{le_refl}
use str_mod.Base.{
  true, ℕ, ◌+◌, ◌≤◌, ◌<◌, ◌≡◌, refl, sym, inl, inr, Bool, false, none, some, List, [], ◌∷◌, ◌++◌,
  arith, Bool-cases, length, length-replicate, lt→ltb, ◌==◌,
}
use str_mod.Telnet.Buffer.{Collects, state_subopt_lem, state_subopt_escape_lem}
use str_mod.Telnet.Chars.{iac, se}
use str_mod.Telnet.State.{
  ParserState, normal, escape, sub_neg, subopt_num, subopt, subopt_escape, Parser, Event,
  data_block, char_command, negotiation_command, suboption, Step, done, ◌>>=◌, max_pos, add64,
}
use str_mod.Telnet.Asserted.{FailsOr, process_data-FailsOr}
use str_mod.Telnet.Parser.{
  state_normal, state_escape, state_sub_neg, state_subopt_num, state_subopt, state_subopt_escape,
  step, process_from, process_data, end_of_chunk_in, end_of_chunk, abort_suboption, reset,
}

-- How many of the bytes before the next one belong to a command that has been begun.
abbrev pub begun : ParserState → ℕ
begun normal = 0
begun escape = 1
begun sub_neg = 2
begun subopt_num = 2
begun subopt = 0
begun subopt_escape = 1

abbrev Owns : ParserState → Parser → ℕ → Type 0
Owns normal p i = p.cooked ≡ none
Owns escape p i = p.cooked ≡ none
Owns sub_neg p i = p.cooked ≡ none
Owns subopt_num p i = p.cooked ≡ none
Owns st p i =
    (xs : List ℕ) × (p.cooked ≡ some xs)
    × (length xs ≡ p.cooked_total)
    × (48 ≤ p.cooked_total)
    × (p.cooked_used ≤ p.cooked_total)
    × (p.cooked_used + p.regionbegin + begun st ≤ i)

-- The parser is about to read the byte at `i`.
abbrev pub IsAt : ParserState → ℕ → Parser → Type 0
IsAt st i p = (p.state ≡ st) × (p.regionbegin + begun st ≤ i) × Owns st p i

-- The regions lie one behind the other between `lo` and `hi`.
abbrev pub Between : ℕ → ℕ → List Event → Type 0
Between lo hi [] = lo ≤ hi
Between lo hi (data_block b e ∷ es) = (lo ≤ b) × (b ≤ e) × Between e hi es
Between lo hi (suboption t b e xs ∷ es) = (lo ≤ b) × (b ≤ e) × Between e hi es
Between lo hi (char_command c ∷ es) = Between lo hi es
Between lo hi (negotiation_command n o ∷ es) = Between lo hi es

-- A step does not fault, and leaves the parser at `i`, with `curpos_` at `cp`
-- and with the regions it reports behind `lo`.
abbrev pub Goes : ℕ → ℕ → ℕ → Step → Type 0
Goes cp lo i none = ⊥
Goes cp lo i (some (q, es)) = (q.curpos ≡ cp) × IsAt q.state i q × Between lo q.regionbegin es

module _ (junk i : ℕ) (small : i < max_pos) where
  state_normal-Goes :
      (ch : ℕ) (p : Parser)
      → IsAt normal i p
      → Goes p.curpos p.regionbegin (i + 1) (state_normal ch p)
  unfolding state_normal
  state_normal-Goes ch p h = ground arith

  state_escape-Goes :
      (ch : ℕ) (p : Parser)
      → IsAt escape i p
      → Goes p.curpos p.regionbegin (i + 1) (state_escape false junk ch i p)
  unfolding state_escape
  state_escape-Goes ch p h = ground arith

  state_sub_neg-Goes :
      (ch : ℕ) (p : Parser)
      → IsAt sub_neg i p
      → Goes p.curpos p.regionbegin (i + 1) (state_sub_neg false junk ch i p)
  unfolding state_sub_neg
  state_sub_neg-Goes ch p h = ground arith

  state_subopt_num-Goes :
      (ch : ℕ) (p : Parser)
      → IsAt subopt_num i p
      → Goes p.curpos p.regionbegin (i + 1) (state_subopt_num false junk ch i p)
  unfolding state_subopt_num
  state_subopt_num-Goes ch p h = ground (arith, length-replicate 48 junk)

  -- A step that collects bytes, no more than were read since the region began.
  Collects-Goes :
      (p : Parser) (xs bs : List ℕ) (s : Step)
      → p.cooked_used + p.regionbegin + length bs ≤ i + 1
      → Collects p xs bs s
      → Goes p.curpos p.regionbegin (i + 1) s
  Collects-Goes p xs bs s h (ys, e, l, u, _, _) =
      rw e (refl, (refl, omega arith, (ys, refl, refl, l, u, omega arith)), omega arith)

  state_subopt-Goes :
      (ch : ℕ) (p : Parser)
      → IsAt subopt i p
      → Goes p.curpos p.regionbegin (i + 1) (state_subopt false junk ch p)
  state_subopt-Goes ch p (e, r, (xs, c, l, b, u, o)) = elim (Bool-cases (ch == iac)) [
    | inl k ↦ unfold state_subopt in ground arith
    | inr k ↦
        Collects-Goes p xs (ch ∷ []) _ (omega arith)
          (state_subopt_lem junk ch p xs e (c, l, b, u, omega arith) k)
  ]

  state_subopt_escape-Goes :
      (ch : ℕ) (p : Parser)
      → IsAt subopt_escape i p
      → Goes p.curpos p.regionbegin (i + 1) (state_subopt_escape false junk ch i p)
  state_subopt_escape-Goes ch p (e, r, (xs, c, l, b, u, o)) = elim (Bool-cases (ch == se)) [
    | inl k ↦ unfold state_subopt_escape in ground arith
    | inr k ↦
        Collects-Goes p xs _ _ (ground arith)
          (state_subopt_escape_lem junk ch i p xs (c, l, b, u, omega arith) (omega arith) k)
  ]

  step-Goes :
      (st : ParserState) (ch : ℕ) (p : Parser)
      → IsAt st i p
      → Goes p.curpos p.regionbegin (i + 1) (step false junk st ch i p)
  unfolding step
  step-Goes normal ch p h = state_normal-Goes ch p h
  step-Goes escape ch p h = state_escape-Goes ch p h
  step-Goes sub_neg ch p h = state_sub_neg-Goes ch p h
  step-Goes subopt_num ch p h = state_subopt_num-Goes ch p h
  step-Goes subopt ch p h = state_subopt-Goes ch p h
  step-Goes subopt_escape ch p h = state_subopt_escape-Goes ch p h

pub Between-append :
    (lo mid hi : ℕ) (es fs : List Event)
    → Between lo mid es
    → Between mid hi fs
    → Between lo hi (es ++ fs)
Between-append lo mid hi [] fs h k = lower fs h k
  where
    lower : (fs : List Event) → lo ≤ mid → Between mid hi fs → Between lo hi fs
    lower [] h k = omega arith
    lower (data_block b e ∷ fs) h k = ground arith
    lower (suboption t b e xs ∷ fs) h k = ground arith
    lower (char_command c ∷ fs) h k = lower fs h k
    lower (negotiation_command n o ∷ fs) h k = lower fs h k
Between-append lo mid hi (data_block b e ∷ es) fs h k =
    (h.0, h.1, Between-append e mid hi es fs h.2 k)
Between-append lo mid hi (suboption t b e xs ∷ es) fs h k =
    (h.0, h.1, Between-append e mid hi es fs h.2 k)
Between-append lo mid hi (char_command c ∷ es) fs h k = Between-append lo mid hi es fs h k
Between-append lo mid hi (negotiation_command n o ∷ es) fs h k = Between-append lo mid hi es fs h k

bind-Goes :
    (cp lo i j : ℕ) (s : Step) (f : Parser → Step)
    → Goes cp lo i s
    → ((q : Parser) → q.curpos ≡ cp → IsAt q.state i q → Goes cp q.regionbegin j (f q))
    → Goes cp lo j (s >>= f)
bind-Goes cp lo i j none f h g = absurd h
bind-Goes cp lo i j (some (q, es)) f (c, a, b) g = go (f q) (g q c a)
  where
    go :
        (t : Step)
        → Goes cp q.regionbegin j t
        → Goes cp lo j (elim t as (λ _. Step) [ none ↦ none | some (r, fs) ↦ some (r, es ++ fs) ])
    go none k = absurd k
    go (some (r, fs)) k = (k.0, k.1, Between-append lo q.regionbegin r.regionbegin es fs b k.2)

process_from-Goes :
    (junk cp dataend i : ℕ) (chars : List ℕ) (p : Parser)
    → dataend < max_pos
    → dataend ≡ i + length chars
    → p.curpos ≡ cp
    → IsAt p.state i p
    → Goes cp p.regionbegin dataend (process_from false junk dataend i chars p)
unfolding process_from
process_from-Goes junk cp dataend i [] p s e c h =
    (c, subst (λ k. IsAt p.state k p) (omega arith) h, omega arith)
process_from-Goes junk cp dataend i (ch ∷ chars) p s e c h =
    let next : add64 i 1 ≡ i + 1 = omega arith in
    rw (lt→ltb i dataend (omega arith), next)
      (bind-Goes cp p.regionbegin (i + 1) dataend _ _
        (subst (λ k. Goes k p.regionbegin (i + 1) (step false junk p.state ch i p)) c
          (step-Goes junk i (omega arith) p.state ch p h))
        (λ q c' a. process_from-Goes junk cp dataend (i + 1) chars q s (omega arith) c' a))

-- A parser between two bytes, none of its positions near the end of the range.
abbrev pub IsValid : Parser → Type 0
IsValid p = IsAt p.state p.curpos p

-- What an operation leaves of a valid parser at position `pos`: no fault, a valid parser at `end`,
-- and regions that lie in order and without overlap from the old `regionbegin_` to the new one.
abbrev pub Advances : Parser → ℕ → Step → Type 0
Advances p end none = ⊥
Advances p end (some (q, es)) =
    IsValid q × (q.curpos ≡ end) × Between p.regionbegin q.regionbegin es

Owns-moved :
    (st : ParserState) (p : Parser) (c i : ℕ) → Owns st p i → Owns st (record p { curpos = c }) i
Owns-moved normal p c i h = h
Owns-moved _ p c i h = h

without_asserts :
    (junk : ℕ) (chars : List ℕ) (p : Parser)
    → IsValid p
    → p.curpos + length chars < max_pos
    → Advances p (p.curpos + length chars) (process_data false junk chars p)
unfolding process_data
without_asserts junk chars p v s =
    let end : add64 p.curpos (length chars) ≡ p.curpos + length chars = omega arith in
    go (process_from false junk (add64 p.curpos (length chars)) p.curpos chars p) (
      rw end
        (process_from-Goes junk p.curpos (p.curpos + length chars) p.curpos chars p s refl refl v))
  where
    go :
        (t : Step)
        → Goes p.curpos p.regionbegin (p.curpos + length chars) t
        → Advances p
            (p.curpos + length chars)
            (t >>= λ q. done (record q { curpos = add64 q.curpos (length chars) }) [])
    go none k = absurd k
    go (some (q, es)) (c, a, b) =
        let end : add64 q.curpos (length chars) ≡ p.curpos + length chars = omega arith in
        rw (end, append-nil)
          ((refl, a.1, Owns-moved q.state q (p.curpos + length chars) _ a.2), refl, b)

-- With the assertions compiled out, processing any bytes never faults: it leaves a valid parser
-- behind them, and the regions that it reports lie in order, without overlap, between the old and
-- the new beginning of the current region. With the assertions in, it does the same unless one
-- fails. Positions are below 2 ^ 31.
pub process_data-Advances :
    (junk : ℕ) (chars : List ℕ) (p : Parser)
    → IsValid p
    → p.curpos + length chars < max_pos
    → Advances p (p.curpos + length chars) (process_data false junk chars p)
      × FailsOr (process_data true junk chars p) (process_data false junk chars p)
process_data-Advances junk chars p v s =
    (without_asserts junk chars p v s, process_data-FailsOr junk chars p)

-- At the end of a chunk, with the assertions compiled in or not, nothing faults: what is pending of
-- plain data is reported, and the parser stays valid where it is.
pub end_of_chunk-Advances :
    (asserts : Bool) (junk : ℕ) (p : Parser)
    → IsValid p
    → p.curpos < max_pos
    → Advances p p.curpos (end_of_chunk asserts junk p)
unfolding end_of_chunk
end_of_chunk-Advances asserts junk p v s = go p.state v
  where
    go :
        (st : ParserState)
        → IsAt st p.curpos p
        → Advances p p.curpos (end_of_chunk_in asserts junk st p)
    go subopt v = (subst (λ st. IsAt st p.curpos p) (sym (v.0)) v, refl, le_refl p.regionbegin)
    go subopt_escape v =
        (subst (λ st. IsAt st p.curpos p) (sym (v.0)) v, refl, le_refl p.regionbegin)
    go _ v = ground arith

-- The parser starts anew at the byte that comes next, and its regions lie in order as above.
abbrev pub Restarts : Parser → Step → Type 0
Restarts p none = ⊥
Restarts p (some (q, es)) =
    (q.state ≡ normal)
    × (q.regionbegin ≡ p.curpos)
    × (q.curpos ≡ p.curpos)
    × (q.cooked ≡ none)
    × Between p.regionbegin p.curpos es

-- A reset of a valid parser never faults, in whatever state it is: it reports the suboption that is
-- being read, if there is one, and leaves a parser without a buffer in its starting state, whose
-- region begins at the next byte.
pub reset-Restarts :
    (asserts : Bool) (junk : ℕ) (p : Parser) → IsValid p → Restarts p (reset asserts junk p)
unfolding reset
reset-Restarts asserts junk p v = go p.state v
  where
    go :
        (st : ParserState)
        → IsAt st p.curpos p
        → Restarts p (
            abort_suboption asserts junk st p >>= λ q.
            done (record q { regionbegin = q.curpos; state = normal }) [])
    go normal v = ground arith
    go _ v = ground arith
