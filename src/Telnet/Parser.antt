-- ===== src/Telnet/Parser.antt =====
-- The operations of StrMod/TelnetParser.cxx. `asserts` says whether the assertions are compiled in,
-- and `junk` is the byte that new storage holds.
use str_mod.Base.{
  ℕ, ◌/◌, Bool, not, ◌&&◌, ltb, leb, ◌==◌, if◌then◌else◌, Option, none, some, List, [], ◌∷◌, length,
  replicate,
}
use str_mod.Telnet.Chars.{iac, sb, se, convert_char_to_command, convert_char_to_option_negotiation}
use str_mod.Telnet.State.{
  ParserState, normal, escape, sub_neg, subopt_num, subopt, subopt_escape, Parser, data_block,
  char_command, negotiation_command, suboption, Step, done, ◌>>=◌, add64, sub64, resize, put_cooked,
}

unfoldable pub state_normal : ℕ → Parser → Step
state_normal ch p = done (if ch == iac then record p { state = escape } else p) []

-- `bytes` bytes chopped off the front
unfoldable pub drop_bytes : ℕ → Parser → Parser
drop_bytes bytes p =
    if leb bytes p.regionbegin
    then record p { regionbegin = sub64 p.regionbegin bytes; curpos = sub64 p.curpos bytes }
    else p

module _ (asserts : Bool) (junk : ℕ) where
  unfoldable pub check : Bool → Parser → Step
  check test p = if asserts && not test then none else done p []

  -- `regionend_ = e; assert(regionend_ >= regionbegin_); if (regionend_ > regionbegin_) ...`
  unfoldable pub end_region : ℕ → Parser → Step
  unfolding check
  end_region e p =
      let q = record p { regionend = e } in
      check (leb q.regionbegin e) q >>= λ q.
      done q (if ltb q.regionbegin e then data_block q.regionbegin e ∷ [] else [])

  -- the test that stands first in `stateEscape`, and falls through to the next one
  unfoldable pub escaped_iac : ℕ → ℕ → Parser → Step
  escaped_iac ch i p =
      if ch == iac
      then done (record p { regionend = i; regionbegin = add64 i 1; state = normal })
          (data_block p.regionbegin i ∷ [])
      else done p []

  -- the last branch of `stateEscape`
  unfoldable pub escaped_command : Option ℕ → ℕ → Parser → Step
  unfolding end_region
  escaped_command none i p = done (record p { state = normal }) []
  escaped_command (some cmd) i p = end_region (sub64 i 1) p >>= λ q.
      done (record q { regionbegin = add64 i 1; state = normal }) (char_command cmd ∷ [])

  unfoldable pub state_escape : ℕ → ℕ → Parser → Step
  unfolding escaped_iac escaped_command convert_char_to_command convert_char_to_option_negotiation
  state_escape ch i p = escaped_iac ch i p >>= λ q.
      if ch == sb
      then done (record q { state = subopt_num }) []
      else elim (convert_char_to_option_negotiation ch) [
        | some negtype ↦ done (record q { negtype = negtype; state = sub_neg }) []
        | none ↦ escaped_command (convert_char_to_command ch) i q
      ]

  unfoldable pub state_sub_neg : ℕ → ℕ → Parser → Step
  unfolding end_region
  state_sub_neg ch i p = end_region (sub64 i 2) p >>= λ q.
      done (record q { regionbegin = add64 i 1; state = normal })
        (negotiation_command q.negtype ch ∷ [])

  -- The second assertion reads `curpos_`, which stands at the beginning of the buffer that is
  -- processed. A new buffer of 48 bytes is resized to 48.
  unfoldable pub state_subopt_num : ℕ → ℕ → Parser → Step
  unfolding check
  state_subopt_num ch i p =
      let q = record p { regionend = sub64 i 2 } in
      check (leb q.regionbegin q.regionend) q >>= check (leb q.regionbegin q.curpos) >>= λ q.
      done
        (record (if not (ch == 255)
          then record q {
            subopt_type = ch;
            cooked = some (replicate 48 junk);
            cooked_total = 48;
            cooked_used = 0;
            state = subopt;
          }
          else record q { state = normal }) { regionbegin = add64 i 1 })
        (if ltb q.regionbegin q.regionend then data_block q.regionbegin q.regionend ∷ [] else [])

  -- `cooked_->resize(cooked_used_ + cooked_used_ / 2)` and the two lines behind it
  unfoldable pub grow : ℕ → Parser → Step
  unfolding resize
  grow used p = elim p.cooked [
    | none ↦ none
    | some xs ↦
        let ys = resize junk (add64 used (used / 2)) xs in
        done (record p { cooked = some ys; cooked_total = length ys }) []
  ]

  unfoldable pub state_subopt : ℕ → Parser → Step
  unfolding grow check put_cooked
  state_subopt ch p =
      if ch == iac
      then done (record p { state = subopt_escape }) []
      else (if leb p.cooked_total p.cooked_used
          then grow p.cooked_used p >>= (λ q. check (ltb q.cooked_used q.cooked_total) q)
          else done p [])
        >>= put_cooked ch

  -- The shared buffer goes to the builder, and the parser's pointer is reset.
  unfoldable pub end_suboption : ℕ → Parser → Step
  unfolding resize
  end_suboption e p = elim p.cooked [
    | none ↦ none
    | some xs ↦
        done (record p { regionend = e; cooked = none })
          (suboption p.subopt_type p.regionbegin e (resize junk p.cooked_used xs) ∷ [])
  ]

  unfoldable pub state_subopt_escape : ℕ → ℕ → Parser → Step
  unfolding grow check put_cooked end_suboption
  state_subopt_escape ch i p =
      if ch == se
      then end_suboption (sub64 i 1) p
        >>= (λ q. done (record q { regionbegin = add64 i 1; state = normal }) [])
      else (if leb p.cooked_total (add64 p.cooked_used 1)
          then grow p.cooked_used (record p { state = subopt })
            >>= (λ q. check (ltb (add64 q.cooked_used 1) q.cooked_total) q)
          else done (record p { state = subopt }) [])
        >>= (λ q. if not (ch == iac) then put_cooked iac q else done q [])
        >>= put_cooked ch

  -- the switch in the loop of `processData`
  unfoldable pub step : ParserState → ℕ → ℕ → Parser → Step
  unfolding state_normal state_escape state_sub_neg state_subopt_num state_subopt
      state_subopt_escape
  step normal ch i p = state_normal ch p
  step escape ch i p = state_escape ch i p
  step sub_neg ch i p = state_sub_neg ch i p
  step subopt_num ch i p = state_subopt_num ch i p
  step subopt ch i p = state_subopt ch p
  step subopt_escape ch i p = state_subopt_escape ch i p

  unfoldable pub process_from : ℕ → ℕ → List ℕ → Parser → Step
  unfolding step
  process_from dataend i [] p = done p []
  process_from dataend i (ch ∷ chars) p =
      let rest = process_from dataend (add64 i 1) chars in
      if ltb i dataend then step p.state ch i p >>= rest else done p []

  unfoldable pub process_data : List ℕ → Parser → Step
  unfolding process_from
  process_data chars p = process_from (add64 p.curpos (length chars)) p.curpos chars p >>= λ q.
      done (record q { curpos = add64 q.curpos (length chars) }) []

  -- `endOfChunk`; a suboption goes on.
  unfoldable pub end_of_chunk_in : ParserState → Parser → Step
  unfolding check end_region
  end_of_chunk_in normal p =
      done (record p { regionend = p.curpos; regionbegin = p.curpos })
        (data_block p.regionbegin p.curpos ∷ [])
  end_of_chunk_in escape p = check (leb 1 p.curpos) p >>= end_region (sub64 p.curpos 1) >>= λ q.
      done (record q { regionbegin = q.regionend }) []
  end_of_chunk_in subopt_num p = check (leb 2 p.curpos) p >>= end_region (sub64 p.curpos 2) >>= λ q.
      done (record q { regionbegin = q.regionend }) []
  end_of_chunk_in sub_neg p = check (leb 2 p.curpos) p >>= end_region (sub64 p.curpos 2) >>= λ q.
      done (record q { regionbegin = q.regionend }) []
  end_of_chunk_in _ p = done p []

  unfoldable pub end_of_chunk : Parser → Step
  unfolding end_of_chunk_in
  end_of_chunk p = end_of_chunk_in p.state p

  -- `reset` first finishes off a suboption that is being read
  unfoldable pub abort_suboption : ParserState → Parser → Step
  unfolding end_suboption
  abort_suboption subopt p = end_suboption p.curpos p
  abort_suboption subopt_escape p = end_suboption p.curpos p
  abort_suboption _ p = done p []

  unfoldable pub reset : Parser → Step
  unfolding abort_suboption
  reset p = abort_suboption p.state p >>= λ q.
      done (record q { regionbegin = q.curpos; state = normal }) []
