-- ===== src/Telnet/Asserted.antt =====
-- The parser with the assertions compiled in, beside the one without.
use str_mod.Base.{
  ℕ, Bool, true, false, not, ltb, leb, ◌==◌, if◌then◌else◌, Option, none, some, List, [], ◌∷◌, ◌≡◌,
  refl, sym, ap, subst, ◌&&◌, ◌++◌, replicate, ◌⊎◌, inl, inr, length,
}
use str_mod.Telnet.Chars.{iac, sb, se, convert_char_to_command, convert_char_to_option_negotiation}
use str_mod.Telnet.State.{
  ParserState, normal, escape, sub_neg, subopt_num, subopt, subopt_escape, Parser, Step, done,
  ◌>>=◌, add64, sub64, put_cooked, data_block, char_command, negotiation_command,
}
use str_mod.Telnet.Parser.{
  check, end_region, escaped_iac, escaped_command, state_escape, state_sub_neg, state_subopt_num,
  grow, state_subopt, end_suboption, state_subopt_escape, step, process_from, process_data,
}

-- `s` fails, or is as `t`.
abbrev pub FailsOr : Step → Step → Type 0
FailsOr s t = (s ≡ none) ⊎ (s ≡ t)

FailsOr-bind :
    (s t : Step) (f g : Parser → Step)
    → FailsOr s t
    → ((q : Parser) → FailsOr (f q) (g q))
    → FailsOr (s >>= f) (t >>= g)
FailsOr-bind s t f g (inl e) h = inl (ap (λ r. r >>= f) e)
FailsOr-bind s t f g (inr e) h = subst (λ u. FailsOr (u >>= f) (t >>= g)) (sym e) (both t)
  where
    both : (u : Step) → FailsOr (u >>= f) (u >>= g)
    both none = inr refl
    both (some (q, es)) = at (h q)
      where
        prefixed : Step → Step
        prefixed r = elim r [ none ↦ none | some (p, fs) ↦ some (p, es ++ fs) ]

        at : FailsOr (f q) (g q) → FailsOr (some (q, es) >>= f) (some (q, es) >>= g)
        at (inl m) = inl (ap prefixed m)
        at (inr m) = inr (ap prefixed m)

-- The same step first, or the same step last.
FailsOr-then : (s t : Step) (f : Parser → Step) → FailsOr s t → FailsOr (s >>= f) (t >>= f)
FailsOr-then s t f h = FailsOr-bind s t f f h (λ q. inr refl)

module _ (junk : ℕ) where
  check-FailsOr :
      (test : Bool) (p : Parser) → FailsOr (check true junk test p) (check false junk test p)
  unfolding check
  check-FailsOr true p = inr refl
  check-FailsOr false p = inl refl

  end_region-FailsOr :
      (e : ℕ) (p : Parser) → FailsOr (end_region true junk e p) (end_region false junk e p)
  unfolding end_region
  end_region-FailsOr e p =
      let q : Parser = record p { regionend = e } in
      FailsOr-then (check true junk (leb q.regionbegin e) q)
        (check false junk (leb q.regionbegin e) q)
        (λ q. done q (if ltb q.regionbegin e then data_block q.regionbegin e ∷ [] else []))
        (check-FailsOr (leb q.regionbegin e) q)

  escaped_command-FailsOr :
      (o : Option ℕ) (i : ℕ) (p : Parser)
      → FailsOr (escaped_command true junk o i p) (escaped_command false junk o i p)
  unfolding escaped_command
  escaped_command-FailsOr none i p = inr refl
  escaped_command-FailsOr (some cmd) i p =
      FailsOr-then (end_region true junk (sub64 i 1) p) (end_region false junk (sub64 i 1) p)
        (λ q. done (record q { regionbegin = add64 i 1; state = normal }) (char_command cmd ∷ []))
        (end_region-FailsOr (sub64 i 1) p)

  state_escape-FailsOr :
      (ch i : ℕ) (p : Parser)
      → FailsOr (state_escape true junk ch i p) (state_escape false junk ch i p)
  unfolding state_escape escaped_iac
  state_escape-FailsOr ch i p =
      FailsOr-bind (escaped_iac true junk ch i p) (escaped_iac false junk ch i p) (behind true)
        (behind false) (inr refl) (λ q. go q (ch == sb) (convert_char_to_option_negotiation ch))
    where
      rest : Bool → Bool → Option ℕ → Parser → Step
      rest asserts b o q = if b then done (record q { state = subopt_num }) [] else elim o [
        | some negtype ↦ done (record q { negtype = negtype; state = sub_neg }) []
        | none ↦ escaped_command asserts junk (convert_char_to_command ch) i q
      ]

      behind : Bool → Parser → Step
      behind asserts = rest asserts (ch == sb) (convert_char_to_option_negotiation ch)

      go : (q : Parser) (b : Bool) (o : Option ℕ) → FailsOr (rest true b o q) (rest false b o q)
      go q true o = inr refl
      go q false (some n) = inr refl
      go q false none = escaped_command-FailsOr (convert_char_to_command ch) i q

  state_sub_neg-FailsOr :
      (ch i : ℕ) (p : Parser)
      → FailsOr (state_sub_neg true junk ch i p) (state_sub_neg false junk ch i p)
  unfolding state_sub_neg
  state_sub_neg-FailsOr ch i p =
      FailsOr-then (end_region true junk (sub64 i 2) p) (end_region false junk (sub64 i 2) p)
        (λ q.
          done (record q { regionbegin = add64 i 1; state = normal })
            (negotiation_command q.negtype ch ∷ []))
        (end_region-FailsOr (sub64 i 2) p)

  state_subopt_num-FailsOr :
      (ch i : ℕ) (p : Parser)
      → FailsOr (state_subopt_num true junk ch i p) (state_subopt_num false junk ch i p)
  unfolding state_subopt_num check
  state_subopt_num-FailsOr ch i p = go (leb q.regionbegin q.regionend) (leb q.regionbegin q.curpos)
    where
      q : Parser
      q = record p { regionend = sub64 i 2 }

      body : Parser → Step
      body q =
          done
            (record (if not (ch == 255)
              then record q {
                subopt_type = ch;
                cooked = some (replicate 48 junk);
                cooked_total = 48;
                cooked_used = 0;
                state = subopt;
              }
              else record q { state = normal }) { regionbegin = add64 i 1 })
            (if ltb q.regionbegin q.regionend
              then data_block q.regionbegin q.regionend ∷ []
              else [])

      go :
          (a b : Bool)
          → FailsOr
              ((if true && not a then none else done q [])
                >>= (λ (r : Parser). if true && not b then none else done r [])
                >>= body)
              (done q [] >>= (λ (r : Parser). done r []) >>= body)
      go false b = inl refl
      go true false = inl refl
      go true true = inr refl

  state_subopt-FailsOr :
      (ch : ℕ) (p : Parser) → FailsOr (state_subopt true junk ch p) (state_subopt false junk ch p)
  unfolding state_subopt grow
  state_subopt-FailsOr ch p = go (ch == iac) (leb p.cooked_total p.cooked_used)
    where
      room : Bool → Bool → Step
      room asserts full =
          if full
          then grow asserts junk p.cooked_used p
            >>= (λ q. check asserts junk (ltb q.cooked_used q.cooked_total) q)
          else done p []

      room-FailsOr : (full : Bool) → FailsOr (room true full) (room false full)
      room-FailsOr false = inr refl
      room-FailsOr true =
          FailsOr-bind (grow true junk p.cooked_used p) (grow false junk p.cooked_used p)
            (λ q. check true junk (ltb q.cooked_used q.cooked_total) q)
            (λ q. check false junk (ltb q.cooked_used q.cooked_total) q) (inr refl)
            (λ q. check-FailsOr (ltb q.cooked_used q.cooked_total) q)

      go :
          (b full : Bool)
          → FailsOr
              (if b
                then done (record p { state = subopt_escape }) []
                else room true full >>= put_cooked ch)
              (if b
                then done (record p { state = subopt_escape }) []
                else room false full >>= put_cooked ch)
      go true full = inr refl
      go false full =
          FailsOr-then (room true full) (room false full) (put_cooked ch) (room-FailsOr full)

  state_subopt_escape-FailsOr :
      (ch i : ℕ) (p : Parser)
      → FailsOr (state_subopt_escape true junk ch i p) (state_subopt_escape false junk ch i p)
  unfolding state_subopt_escape grow end_suboption
  state_subopt_escape-FailsOr ch i p = go (ch == se) (leb p.cooked_total (add64 p.cooked_used 1))
    where
      open_again : Parser
      open_again = record p { state = subopt }

      room : Bool → Bool → Step
      room asserts full =
          if full
          then grow asserts junk p.cooked_used open_again
            >>= (λ q. check asserts junk (ltb (add64 q.cooked_used 1) q.cooked_total) q)
          else done open_again []

      room-FailsOr : (full : Bool) → FailsOr (room true full) (room false full)
      room-FailsOr false = inr refl
      room-FailsOr true =
          FailsOr-bind (grow true junk p.cooked_used open_again)
            (grow false junk p.cooked_used open_again)
            (λ q. check true junk (ltb (add64 q.cooked_used 1) q.cooked_total) q)
            (λ q. check false junk (ltb (add64 q.cooked_used 1) q.cooked_total) q) (inr refl)
            (λ q. check-FailsOr (ltb (add64 q.cooked_used 1) q.cooked_total) q)

      closed : Bool → Step
      closed asserts =
          end_suboption asserts junk (sub64 i 1) p
          >>= (λ q. done (record q { regionbegin = add64 i 1; state = normal }) [])

      other : Parser → Step
      other q = if not (ch == iac) then put_cooked iac q else done q []

      go :
          (b full : Bool)
          → FailsOr
              (if b then closed true else room true full >>= other >>= put_cooked ch)
              (if b then closed false else room false full >>= other >>= put_cooked ch)
      go true full = inr refl
      go false full =
          FailsOr-then (room true full >>= other) (room false full >>= other) (put_cooked ch)
            (FailsOr-then (room true full) (room false full) other (room-FailsOr full))

  step-FailsOr :
      (st : ParserState) (ch i : ℕ) (p : Parser)
      → FailsOr (step true junk st ch i p) (step false junk st ch i p)
  unfolding step
  step-FailsOr normal ch i p = inr refl
  step-FailsOr escape ch i p = state_escape-FailsOr ch i p
  step-FailsOr sub_neg ch i p = state_sub_neg-FailsOr ch i p
  step-FailsOr subopt_num ch i p = state_subopt_num-FailsOr ch i p
  step-FailsOr subopt ch i p = state_subopt-FailsOr ch p
  step-FailsOr subopt_escape ch i p = state_subopt_escape-FailsOr ch i p

  process_from-FailsOr :
      (dataend i : ℕ) (chars : List ℕ) (p : Parser)
      → FailsOr
          (process_from true junk dataend i chars p)
          (process_from false junk dataend i chars p)
  unfolding process_from
  process_from-FailsOr dataend i [] p = inr refl
  process_from-FailsOr dataend i (ch ∷ chars) p =
      go (ltb i dataend) (process_from-FailsOr dataend (add64 i 1) chars)
    where
      rest : Bool → Parser → Step
      rest asserts = process_from asserts junk dataend (add64 i 1) chars

      go :
          (b : Bool)
          → ((q : Parser) → FailsOr (rest true q) (rest false q))
          → FailsOr
              (if b then step true junk p.state ch i p >>= rest true else done p [])
              (if b then step false junk p.state ch i p >>= rest false else done p [])
      go false ih = inr refl
      go true ih =
          FailsOr-bind (step true junk p.state ch i p) (step false junk p.state ch i p) (rest true)
            (rest false) (step-FailsOr p.state ch i p) ih

  -- With the assertions in, `processData` fails one or does what it does without them.
  pub process_data-FailsOr :
      (chars : List ℕ) (p : Parser)
      → FailsOr (process_data true junk chars p) (process_data false junk chars p)
  unfolding process_data
  process_data-FailsOr chars p =
      FailsOr-then (process_from true junk (add64 p.curpos (length chars)) p.curpos chars p)
        (process_from false junk (add64 p.curpos (length chars)) p.curpos chars p)
        (λ q. done (record q { curpos = add64 q.curpos (length chars) }) [])
        (process_from-FailsOr (add64 p.curpos (length chars)) p.curpos chars p)

-- Two buffers in turn.
pub process_data_twice-FailsOr :
    (junk : ℕ) (a b : List ℕ) (p : Parser)
    → FailsOr
        (process_data true junk a p >>= process_data true junk b)
        (process_data false junk a p >>= process_data false junk b)
process_data_twice-FailsOr junk a b p =
    FailsOr-bind (process_data true junk a p) (process_data false junk a p)
      (process_data true junk b) (process_data false junk b) (process_data-FailsOr junk a p)
      (process_data-FailsOr junk b)
