-- ===== src/Telnet/Split.antt =====
-- Cutting the stream into buffers.
use mathlib.Core.List.{append-nil}
use mathlib.Core.Path.{subst, fun_ext}
use native.Mathlib.Nat.{le_refl}
use str_mod.Base.{
  ℕ, suc, ◌+◌, ◌^◌, ◌≤◌, ◌<◌, ◌≡◌, refl, sym, ◌∙◌, ap, ◌⊎◌, inl, inr, Bool, true, false, none, some,
  List, [], ◌∷◌, ◌++◌, arith, length, length-append, lt→ltb,
}
use str_mod.Telnet.State.{
  ParserState, normal, escape, sub_neg, subopt_num, subopt, subopt_escape, Parser, Step, done,
  ◌>>=◌, done-bind, bind_assoc, add64,
}
use str_mod.Telnet.Asserted.{FailsOr, process_data-FailsOr, process_data_twice-FailsOr}
use str_mod.Telnet.Parser.{step, process_from, process_data}

-- The same outcome, with `curpos_` at `c`.
abbrev pub moved : ℕ → Step → Step
moved c none = none
moved c (some (q, es)) = some (record q { curpos = c }, es)

module _ (junk : ℕ) where
  -- With no assertion to read it, `curpos_` does not matter to a step.
  step-moved :
      (st : ParserState) (ch i c : ℕ) (p : Parser)
      → step false junk st ch i (record p { curpos = c }) ≡ moved c (step false junk st ch i p)
  unfolding step
  step-moved normal ch i c p = ground arith
  step-moved escape ch i c p = ground arith
  step-moved sub_neg ch i c p = ground arith
  step-moved subopt_num ch i c p = ground arith
  step-moved subopt ch i c p = ground arith
  step-moved subopt_escape ch i c p = ground arith

  -- The loop without its bound.
  unfoldable pub feed : ℕ → List ℕ → Parser → Step
  feed i [] p = done p []
  feed i (ch ∷ chars) p = step false junk p.state ch i p >>= feed (i + 1) chars

  bind-moved :
      (c : ℕ) (s : Step) (f : Parser → Step)
      → ((q : Parser) → f (record q { curpos = c }) ≡ moved c (f q))
      → (moved c s >>= f) ≡ moved c (s >>= f)
  bind-moved c none f h = refl
  bind-moved c (some (q, es)) f h = rw (h q) (go (f q))
    where
      go :
          (t : Step)
          → elim (moved c t) as (λ _. Step) [ none ↦ none | some (r, fs) ↦ some (r, es ++ fs) ]
            ≡ moved c (elim t as (λ _. Step) [ none ↦ none | some (r, fs) ↦ some (r, es ++ fs) ])
      go none = refl
      go (some (r, fs)) = refl

  feed-moved :
      (i c : ℕ) (chars : List ℕ) (p : Parser)
      → feed i chars (record p { curpos = c }) ≡ moved c (feed i chars p)
  unfolding feed
  feed-moved i c [] p = refl
  feed-moved i c (ch ∷ chars) p =
      ap (λ s. s >>= feed (i + 1) chars) (step-moved p.state ch i c p)
      ∙ bind-moved c (step false junk p.state ch i p) (feed (i + 1) chars)
          (feed-moved (i + 1) c chars)

  feed-append :
      (i : ℕ) (a b : List ℕ) (p : Parser)
      → feed i (a ++ b) p ≡ (feed i a p >>= feed (i + length a) b)
  unfolding feed
  feed-append i [] b p =
      subst (λ k. feed i b p ≡ (done p [] >>= feed k b)) (omega arith)
        (sym (done-bind p (feed i b)))
  feed-append i (ch ∷ a) b p =
      ap (λ f. step false junk p.state ch i p >>= f) (fun_ext (feed-append (i + 1) a b))
      ∙ subst
          (λ k.
            (step false junk p.state ch i p >>= λ q. feed (i + 1) a q >>= feed k b)
            ≡ (step false junk p.state ch i p >>= feed (i + 1) a >>= feed (i + suc (length a)) b))
          (omega arith)
          (sym (
            bind_assoc (step false junk p.state ch i p) (feed (i + 1) a)
              (feed (i + suc (length a)) b)))

  -- The bound of the loop is never met early.
  process_from-feed :
      (dataend i : ℕ) (chars : List ℕ) (p : Parser)
      → i + length chars ≤ dataend
      → dataend < 2 ^ 64
      → process_from false junk dataend i chars p ≡ feed i chars p
  unfolding process_from feed
  process_from-feed dataend i [] p h s = refl
  process_from-feed dataend i (ch ∷ chars) p h s =
      let next : add64 i 1 ≡ i + 1 = omega arith in
      rw (lt→ltb i dataend (omega arith), next)
        (ap (λ f. step false junk p.state ch i p >>= f)
          (fun_ext (λ q. process_from-feed dataend (i + 1) chars q (omega arith) s)))

  -- `processData`, when no position wraps.
  pub process_data_lem :
      (chars : List ℕ) (p : Parser)
      → p.curpos + length chars < 2 ^ 64
      → process_data false junk chars p ≡ moved (p.curpos + length chars) (feed p.curpos chars p)
  unfolding process_data
  process_data_lem chars p h =
      let end : add64 p.curpos (length chars) ≡ p.curpos + length chars = omega arith in
      rw (end, process_from-feed (p.curpos + length chars) p.curpos chars p (le_refl _) h)
        (subst (λ t. (t >>= set_end) ≡ moved (p.curpos + length chars) t)
          (sym (feed-moved p.curpos p.curpos chars p)) (go (feed p.curpos chars p)))
    where
      set_end : Parser → Step
      set_end q = done (record q { curpos = add64 q.curpos (length chars) }) []

      go :
          (t : Step)
          → (moved p.curpos t >>= set_end) ≡ moved (p.curpos + length chars) (moved p.curpos t)
      go none = refl
      go (some (q, es)) =
          let end : add64 p.curpos (length chars) ≡ p.curpos + length chars = omega arith in
          rw (end, append-nil)

parts :
    (junk : ℕ) (a b : List ℕ) (p : Parser)
    → p.curpos + length a + length b < 2 ^ 64
    → process_data false junk (a ++ b) p
      ≡ (process_data false junk a p >>= process_data false junk b)
parts junk a b p h =
    process_data_lem junk (a ++ b) p (omega (arith, length-append a b))
    ∙ rw (feed-append junk p.curpos a b p, process_data_lem junk a p (omega arith))
        (go (feed junk p.curpos a p))
  where
    go :
        (t : Step)
        → moved (p.curpos + length (a ++ b)) (t >>= feed junk (p.curpos + length a) b)
          ≡ (moved (p.curpos + length a) t >>= process_data false junk b)
    go none = refl
    go (some (q, es)) =
        rw (ends) (last (feed junk (p.curpos + length a) b q) ∙ sym (ap prefixed second))
      where
        prefixed : Step → Step
        prefixed t = elim t [ none ↦ none | some (r, fs) ↦ some (r, es ++ fs) ]

        ends : p.curpos + length (a ++ b) ≡ p.curpos + length a + length b
        ends = omega (arith, length-append a b)

        second :
            process_data false junk b (record q { curpos = p.curpos + length a })
            ≡ moved
                (p.curpos + length a + length b)
                (moved (p.curpos + length a) (feed junk (p.curpos + length a) b q))
        second =
            process_data_lem junk b (record q { curpos = p.curpos + length a }) h
            ∙ ap (moved (p.curpos + length a + length b))
                (feed-moved junk (p.curpos + length a) (p.curpos + length a) b q)

        last :
            (t : Step)
            → moved (p.curpos + length a + length b) (prefixed t)
              ≡ prefixed (moved (p.curpos + length a + length b) (moved (p.curpos + length a) t))
        last none = refl
        last (some (r, fs)) = refl

-- With the assertions compiled out it makes no difference where the stream is cut into buffers:
-- processing `a` and then `b` leaves the parser, and makes the calls with the positions, that
-- processing `a ++ b` does, and faults exactly if that does. With the assertions in, the same holds
-- unless one fails on the whole or on the parts. No position reaches 2 ^ 64.
pub process_data-append :
    (junk : ℕ) (a b : List ℕ) (p : Parser)
    → p.curpos + length a + length b < 2 ^ 64
    → let whole = λ (asserts : Bool). process_data asserts junk (a ++ b) p in
      let in_turn =
        λ (asserts : Bool). process_data asserts junk a p >>= process_data asserts junk b in
      (whole false ≡ in_turn false)
      × ((whole true ≡ none) ⊎ (in_turn true ≡ none) ⊎ (whole true ≡ in_turn true))
process_data-append junk a b p h = (
  parts junk a b p h,
  go (process_data-FailsOr junk (a ++ b) p) (process_data_twice-FailsOr junk a b p),
)
  where
    one : Bool → Step
    one asserts = process_data asserts junk (a ++ b) p

    two : Bool → Step
    two asserts = process_data asserts junk a p >>= process_data asserts junk b

    go :
        FailsOr (one true) (one false)
        → FailsOr (two true) (two false)
        → (one true ≡ none) ⊎ (two true ≡ none) ⊎ (one true ≡ two true)
    go (inl e) k = inl e
    go (inr e) (inl k) = inr (inl k)
    go (inr e) (inr k) = inr (inr (e ∙ parts junk a b p h ∙ sym k))
