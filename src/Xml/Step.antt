-- ===== src/Xml/Step.antt =====
-- `Lexer::advanceState` of xml/utf8_Lexer.cpp: the switch on the substate, then the switch on the
-- state, a function for each group of cases. The `default:` cases have no counterpart.
use str_mod.Base.{
  ℕ, ◌+◌, Bool, true, false, not, ◌||◌, ◌==◌, if◌then◌else◌, List, [], ◌∷◌, ◌++◌, leb, set, take,
}
use str_mod.Xml.Builder.{
  Position, Event, start_element_tag, add_attribute, end_element_tag, close_element_tag,
}
use str_mod.Xml.Chars.{
  exclamation, doublequote, poundsign, singlequote, dash, forwslash, semicolon, lessthan, equals,
  greaterthan, char_x, is_white, is_name_start, is_name_body, is_digit, is_xdigit,
}
use str_mod.Xml.State.{
  XState, bad, start, less, comment_excl, comment_excl_dash, in_comment, dash_in_comment,
  dash_dash_in_comment, open_element, in_open_element, empty_element_end, close_element,
  in_close_element, attr, attr_after_eq, attr_sq, attr_dq, XSubState, sub_none, sub_bad,
  sub_start_name, sub_in_name, sub_entity, sub_named_entity, sub_char_entity, sub_dec_entity,
  sub_hex_entity_start, sub_hex_entity, sub_end_entity, name_size, Machine, Result, ok,
  out_of_range, ◌>>=◌,
}

abbrev pub goto : XState → Machine → Machine
goto st m = record m { ss = record m.ss { state = st } }

abbrev pub sub_goto : XSubState → Machine → Machine
sub_goto st m = record m { ss = record m.ss { substate = st } }

-- `name_[ss.namepos_++] = c`
abbrev pub put_name : ℕ → Machine → Machine
put_name c m = record m {
  name = set m.name m.ss.namepos c;
  ss = record m.ss { namepos = m.ss.namepos + 1 };
}

abbrev pub emit : Event → Machine → Machine
emit e m = record m { events = m.events ++ (e ∷ []) }

-- `::std::string(name_, namepos)`
abbrev pub name_of : Machine → List ℕ
name_of m = take m.ss.namepos m.name

unfoldable pub call_start_element_tag : Machine → Machine
call_start_element_tag m = emit (start_element_tag m.ss.elbegin (name_of m)) m

unfoldable pub call_close_element_tag : Position → Machine → Machine
call_close_element_tag last m = emit (close_element_tag m.ss.elbegin last (name_of m)) m

unfoldable pub call_add_attribute : Position → Position → Machine → Machine
call_add_attribute attrend valend m =
    emit (add_attribute m.ss.attrbegin attrend m.ss.attrvalbegin valend (name_of m)) m

-- case XSStartName, XSInName
unfoldable pub start_name : ℕ → Machine → Machine
start_name c m = if is_name_start c then put_name c (sub_goto sub_in_name m) else sub_goto sub_bad m

unfoldable pub in_name : ℕ → Machine → Result
in_name c m =
    if not (is_name_body c)
    then ok (sub_goto sub_none m)
    else if leb name_size m.ss.namepos
    then out_of_range m
    else ok (put_name c m)

-- the cases of an entity
unfoldable pub entity_step : XSubState → ℕ → Machine → Machine
entity_step sub_entity c m =
    if is_name_start c
    then sub_goto sub_named_entity m
    else if c == poundsign
    then sub_goto sub_char_entity m
    else sub_goto sub_bad m
entity_step sub_named_entity c m =
    if c == semicolon
    then sub_goto sub_end_entity m
    else if not (is_name_body c)
    then sub_goto sub_bad m
    else m
entity_step sub_char_entity c m =
    if is_digit c
    then sub_goto sub_dec_entity m
    else if c == char_x
    then sub_goto sub_hex_entity_start m
    else sub_goto sub_bad m
entity_step sub_dec_entity c m =
    if c == semicolon
    then sub_goto sub_end_entity m
    else if not (is_digit c)
    then sub_goto sub_bad m
    else m
entity_step sub_hex_entity_start c m =
    if is_xdigit c then sub_goto sub_hex_entity m else sub_goto sub_bad m
entity_step sub_hex_entity c m =
    if c == semicolon
    then sub_goto sub_end_entity m
    else if not (is_xdigit c)
    then sub_goto sub_bad m
    else m
entity_step sub_end_entity c m = sub_goto sub_none m
entity_step _ c m = m

-- the first switch
unfoldable pub substate_step : XSubState → ℕ → Machine → Result
unfolding start_name in_name entity_step
substate_step sub_start_name c m = ok (start_name c m)
substate_step sub_in_name c m = in_name c m
substate_step sub c m = ok (entity_step sub c m)

module _ (nonwsok : Bool) (here next : Position) where
  unfoldable pub state_start : ℕ → Machine → Machine
  state_start c m =
      if c == lessthan
      then record m { ss = record m.ss { elbegin = here; used_elbegin = true; state = less } }
      else if not (nonwsok || is_white c)
      then goto bad m
      else m

  unfoldable pub state_less : ℕ → Machine → Machine
  state_less c m =
      if c == exclamation
      then record m { ss = record m.ss { state = comment_excl; used_elbegin = false } }
      else if is_name_start c
      then put_name c (record m {
        ss = record m.ss { state = open_element; substate = sub_in_name; namepos = 0 };
      })
      else if c == forwslash
      then record m {
        ss = record m.ss { state = close_element; substate = sub_start_name; namepos = 0 };
      }
      else goto bad m

  -- XCommentExcl to XDashDashInComment
  unfoldable pub state_comment : XState → ℕ → Machine → Machine
  state_comment comment_excl c m = if c == dash then goto comment_excl_dash m else goto bad m
  state_comment comment_excl_dash c m = if c == dash then goto in_comment m else goto bad m
  state_comment in_comment c m = if c == dash then goto dash_in_comment m else m
  state_comment dash_in_comment c m =
      if c == dash then goto dash_dash_in_comment m else goto in_comment m
  state_comment dash_dash_in_comment c m =
      if c == greaterthan then goto start m else goto in_comment m
  state_comment _ c m = m

  unfoldable pub state_open_element : ℕ → Machine → Machine
  unfolding call_start_element_tag
  state_open_element c m =
      let called = call_start_element_tag m in
      let n = record called { ss = record called.ss { used_elbegin = false } } in
      if c == greaterthan
      then goto start (emit (end_element_tag next false) n)
      else if is_white c
      then goto in_open_element n
      else if c == forwslash
      then goto empty_element_end n
      else goto bad n

  unfoldable pub state_in_open_element : ℕ → Machine → Machine
  state_in_open_element c m =
      if c == greaterthan
      then goto start (emit (end_element_tag next false) m)
      else if c == forwslash
      then goto empty_element_end m
      else if is_name_start c
      then put_name c (record m {
        ss = record m.ss {
          state = attr;
          namepos = 0;
          attrbegin = here;
          used_attr = true;
          substate = sub_in_name;
        };
      })
      else if not (is_white c)
      then goto bad m
      else m

  unfoldable pub state_empty_element_end : ℕ → Machine → Machine
  state_empty_element_end c m =
      if c == greaterthan then goto start (emit (end_element_tag next true) m) else goto bad m

  -- XCloseElement and XInCloseElement at `>`
  unfoldable pub closed : Machine → Machine
  unfolding call_close_element_tag
  closed m =
      let called = call_close_element_tag next m in
      record called { ss = record called.ss { used_elbegin = false; state = start } }

  unfoldable pub state_close_element : ℕ → Machine → Machine
  unfolding closed
  state_close_element c m =
      if is_white c
      then goto in_close_element m
      else if c == greaterthan
      then closed m
      else goto bad m

  unfoldable pub state_in_close_element : ℕ → Machine → Machine
  unfolding closed
  state_in_close_element c m =
      if c == greaterthan then closed m else if not (is_white c) then goto bad m else m

  unfoldable pub state_attr : ℕ → Machine → Machine
  state_attr c m =
      if c == equals then goto attr_after_eq m else if not (is_white c) then goto bad m else m

  unfoldable pub state_attr_after_eq : ℕ → Machine → Machine
  state_attr_after_eq c m =
      if c == doublequote
      then record m { ss = record m.ss { state = attr_dq; attrvalbegin = next } }
      else if c == singlequote
      then record m { ss = record m.ss { state = attr_sq; attrvalbegin = next } }
      else if not (is_white c)
      then goto bad m
      else m

  -- XAttrSQ and XAttrDQ, with the quote that ends the value
  unfoldable pub state_attr_value : ℕ → ℕ → Machine → Machine
  unfolding call_add_attribute
  state_attr_value quote c m =
      if c == quote
      then (let called = call_add_attribute next here m in
          record called { ss = record called.ss { used_attr = false; state = in_open_element } })
      else if c == lessthan
      then goto bad m
      else m

  -- the second switch
  unfoldable pub state_step : XState → ℕ → Machine → Machine
  unfolding state_start state_less state_comment state_open_element state_in_open_element
      state_empty_element_end state_close_element state_in_close_element state_attr
      state_attr_after_eq state_attr_value
  state_step start c m = state_start c m
  state_step less c m = state_less c m
  state_step open_element c m = state_open_element c m
  state_step in_open_element c m = state_in_open_element c m
  state_step empty_element_end c m = state_empty_element_end c m
  state_step close_element c m = state_close_element c m
  state_step in_close_element c m = state_in_close_element c m
  state_step attr c m = state_attr c m
  state_step attr_after_eq c m = state_attr_after_eq c m
  state_step attr_sq c m = state_attr_value singlequote c m
  state_step attr_dq c m = state_attr_value doublequote c m
  state_step bad c m = m
  state_step st c m = state_comment st c m

  -- behind the first switch
  unfoldable pub settle : XSubState → ℕ → Machine → Machine
  unfolding state_step
  settle sub_bad c m = goto bad m
  settle sub_none c m = state_step m.ss.state c m
  settle _ c m = m

-- `here` is `Position(bh, i)`, and `next` is `Position(bh, i + 1)`.
unfoldable pub advance_state : Bool → ℕ → ℕ → ℕ → Machine → Result
unfolding substate_step settle
advance_state nonwsok bh i c m = substate_step m.ss.substate c m >>= λ n. ok (
    settle nonwsok (record { bufhdl = bh; bufoffset = i })
      (record { bufhdl = bh; bufoffset = i + 1 }) n.ss.substate c n)
