-- ===== src/Xml/Lex.antt =====
-- `Lexer::lex` of xml/utf8_Lexer.cpp.
use str_mod.Base.{ℕ, ◌+◌, Bool, true, false, List, [], ◌∷◌, if◌then◌else◌}
use str_mod.Xml.Builder.{Event}
use str_mod.Xml.State.{XState, bad, Lexer, Machine, Result, ok, out_of_range, ◌>>=◌}
use str_mod.Xml.Step.{advance_state}

abbrev pub is_bad : XState → Bool
is_bad bad = true
is_bad _ = false

-- The loop from index `i` on. The exception leaves it at once.
unfoldable pub run : Bool → ℕ → ℕ → List ℕ → Machine → Result
unfolding advance_state
run nonwsok bh i [] m = ok m
run nonwsok bh i (c ∷ cs) m =
    let rest = run nonwsok bh (i + 1) cs in
    if is_bad m.ss.state then ok m else advance_state nonwsok bh i c m >>= rest

-- What a call of `lex` leaves: the lexer, `lastbuf`, the builder's calls, and the returned `bool`
-- or the exception.
pub data Reply : Type 0 where
  returned : Bool → Reply
  thrown : Reply

pub record Lexed : Type 0 where
  pub lexer : Lexer
  pub lastbuf : ℕ
  pub events : List Event
  pub reply : Reply

-- behind the loop; the exception skips `localstate_ = stackstate`
unfoldable pub finish : Lexer → ℕ → Result → Lexed
finish l bh (out_of_range m) = record {
  lexer = record l { name = m.name };
  lastbuf = bh;
  events = m.events;
  reply = thrown;
}
finish l bh (ok m) = record {
  lexer = record l { name = m.name; localstate = m.ss };
  lastbuf =
      if m.ss.used_elbegin
      then m.ss.elbegin.bufhdl
      else if m.ss.used_attr
      then m.ss.attrbegin.bufhdl
      else bh;
  events = m.events;
  reply = returned (if m.ss.used_elbegin then true else if m.ss.used_attr then true else false);
}

unfoldable pub lex : Lexer → List ℕ → ℕ → List Event → Lexed
unfolding run finish
lex l buf lastbuf events =
    finish l lastbuf
      (run l.nonwsok lastbuf 0 buf (record { name = l.name; ss = l.localstate; events = events }))
