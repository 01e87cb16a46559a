-- ===== src/Xml/Answer.antt =====
-- What a call of `lex` leaves and answers.
use str_mod.Base.{◌≢◌, ℕ, ◌≡◌, refl, Bool, true, false, List, arith}
use str_mod.Xml.Builder.{Event}
use str_mod.Xml.State.{
  XState, bad, less, open_element, close_element, in_close_element, attr, attr_after_eq, attr_sq,
  attr_dq, LocalState, Lexer, Machine, Result, ok, out_of_range,
}
use str_mod.Xml.Lex.{finish, lex, returned}
use str_mod.Xml.Invariant.{Fits, IsValid, Keeps, run-Keeps}

-- The buffer in which the pending tag began, or else the pending attribute, or else `bh`; and
-- whether a tag or an attribute is pending.
abbrev pub waits : LocalState → ℕ → XState → Bool × ℕ
waits ss bh less = (true, ss.elbegin.bufhdl)
waits ss bh open_element = (true, ss.elbegin.bufhdl)
waits ss bh close_element = (true, ss.elbegin.bufhdl)
waits ss bh in_close_element = (true, ss.elbegin.bufhdl)
waits ss bh attr = (true, ss.attrbegin.bufhdl)
waits ss bh attr_after_eq = (true, ss.attrbegin.bufhdl)
waits ss bh attr_sq = (true, ss.attrbegin.bufhdl)
waits ss bh attr_dq = (true, ss.attrbegin.bufhdl)
waits ss bh _ = (false, bh)

finish-IsValid :
    (l : Lexer) (bh : ℕ) (r : Result) → IsValid l → Keeps r → IsValid (finish l bh r).lexer
unfolding finish
finish-IsValid l bh (ok m) v k = k
finish-IsValid l bh (out_of_range m) (r, f) k = ((k, r.1), f)

-- Whatever the bytes, `lex` leaves a valid lexer: the name buffer keeps its 256 bytes with no more
-- of them in use, no entity is begun, and the substate and the positions in use are those that go
-- with the state. This holds after an exception too.
pub lex-IsValid :
    (l : Lexer) (buf : List ℕ) (bh : ℕ) (events : List Event)
    → IsValid l
    → IsValid (lex l buf bh events).lexer
unfolding lex
lex-IsValid l buf bh events v = finish-IsValid l bh _ v (run-Keeps l.nonwsok bh 0 buf _ v)

finish_reply :
    (l : Lexer) (bh : ℕ) (st : XState) (m : Machine)
    → m.ss.state ≡ st
    → st ≢ bad
    → Fits st m.ss.namepos m.ss.substate m.ss.used_elbegin m.ss.used_attr
    → ((finish l bh (ok m)).reply ≡ returned (waits m.ss bh st).0)
      × ((finish l bh (ok m)).lastbuf ≡ (waits m.ss bh st).1)
unfolding finish
finish_reply l bh bad m e n f = absurd (n refl)
finish_reply l bh _ m e n f = ground arith

result_reply :
    (l : Lexer) (bh : ℕ) (r : Result) (b : Bool)
    → Keeps r
    → (finish l bh r).reply ≡ returned b
    → (finish l bh r).lexer.localstate.state ≢ bad
    → let x = finish l bh r in (b, x.lastbuf) ≡ waits x.lexer.localstate bh x.lexer.localstate.state
unfolding finish
result_reply l bh (out_of_range m) b k e n = cc
result_reply l bh (ok m) b (r, f) e n = ground (arith, finish_reply l bh m.ss.state m refl n f)

-- When `lex` returns and has met no error, it returns true exactly if a tag or an attribute is
-- pending, and `lastbuf` is then the handle of the buffer in which that began, and otherwise the
-- handle that was passed in.
pub lex_reply :
    (l : Lexer) (buf : List ℕ) (bh : ℕ) (events : List Event) (b : Bool)
    → IsValid l
    → (lex l buf bh events).reply ≡ returned b
    → (lex l buf bh events).lexer.localstate.state ≢ bad
    → let x = lex l buf bh events in
      (b, x.lastbuf) ≡ waits x.lexer.localstate bh x.lexer.localstate.state
unfolding lex
lex_reply l buf bh events b v e n = result_reply l bh _ b (run-Keeps l.nonwsok bh 0 buf _ v) e n
