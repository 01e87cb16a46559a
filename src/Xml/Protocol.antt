-- ===== src/Xml/Protocol.antt =====
-- The order in which the lexer calls its builder.
use mathlib.Core.Path.{subst, subst₂}
use str_mod.Base.{
  ℕ, ◌+◌, ◌≡◌, ◌≢◌, refl, sym, ◌⊎◌, inl, inr, Bool, true, false, Option, none, some, List, [], ◌∷◌,
  ◌++◌, arith, Bool-cases,
}
use str_mod.Xml.Builder.{
  Position, Event, start_element_tag, add_attribute, end_element_tag, close_element_tag,
}
use str_mod.Xml.State.{
  XState, bad, open_element, in_open_element, empty_element_end, attr, attr_after_eq, attr_sq,
  attr_dq, close_element, in_close_element, XSubState, sub_none, sub_bad, sub_start_name,
  sub_in_name, Lexer, Machine, Result, ok, out_of_range, ◌>>=◌,
}
use str_mod.Xml.Step.{name_of, entity_step, substate_step, settle, state_step, advance_state}
use str_mod.Xml.Lex.{run, finish, lex, is_bad, thrown}

-- Between tags, or inside an element open tag.
pub data Phase : Type 0 where
  outside inside : Phase

abbrev pub say : Phase → Event → Option Phase
say outside (start_element_tag _ _) = some inside
say inside (add_attribute _ _ _ _ _) = some inside
say inside (end_element_tag _ _) = some outside
say outside (close_element_tag _ _ _) = some outside
say _ _ = none

-- An open tag is a start, then attributes, then an end; a close tag stands outside of these.
abbrev pub talk : Phase → List Event → Option Phase
talk p [] = some p
talk p (e ∷ es) = elim (say p e) [ none ↦ none | some q ↦ talk q es ]

abbrev pub phase : XState → Phase
phase in_open_element = inside
phase empty_element_end = inside
phase attr = inside
phase attr_after_eq = inside
phase attr_sq = inside
phase attr_dq = inside
phase _ = outside

talk-append :
    (p q : Phase) (es : List Event) (e : Event)
    → talk p es ≡ some q
    → talk p (es ++ (e ∷ [])) ≡ say q e
talk-append p q [] e h = ground arith
talk-append p q (d ∷ es) e h =
    elim (say p d)
        as (λ o.
          elim o [ none ↦ none | some r ↦ talk r es ] ≡ some q
          → elim o [ none ↦ none | some r ↦ talk r (es ++ (e ∷ [])) ] ≡ say q e) [
            | none ↦ λ k. cc
            | some r ↦ λ k. talk-append r q es e k
          ]
      h

-- The calls so far keep the order, and the state tells the phase unless it is bad.
abbrev pub Speaks : Phase → XState → List Event → Type 0
Speaks p bad es = talk p es ≢ none
Speaks p st es = talk p es ≡ some (phase st)

abbrev Kept : Machine → Result → Type 0
Kept m (ok n) = (n.ss.state ≡ m.ss.state) × (n.events ≡ m.events)
Kept m (out_of_range n) = n.events ≡ m.events

entity_step-Kept : (sub : XSubState) (c : ℕ) (m : Machine) → Kept m (ok (entity_step sub c m))
unfolding entity_step
entity_step-Kept sub_none c m = ground arith
entity_step-Kept _ c m = ground arith

substate_step-Kept : (sub : XSubState) (c : ℕ) (m : Machine) → Kept m (substate_step sub c m)
unfolding substate_step
substate_step-Kept sub_start_name c m = ground arith
substate_step-Kept sub_in_name c m = ground arith
substate_step-Kept sub c m = entity_step-Kept sub c m

weaken : (p : Phase) (st : XState) (es : List Event) → Speaks p st es → Speaks p bad es
weaken p bad es h = h
weaken p _ es h = ground arith

module _ (p : Phase) (nonwsok : Bool) (here next : Position) where
  state_step-Speaks :
      (st : XState) (c : ℕ) (m : Machine)
      → m.ss.state ≡ st
      → Speaks p st m.events
      → let n = state_step nonwsok here next st c m in Speaks p n.ss.state n.events
  unfolding state_step
  state_step-Speaks open_element c m e h =
      let started = start_element_tag m.ss.elbegin (name_of m) in
      ground (
        arith,
        talk-append p outside m.events started,
        talk-append p inside (m.events ++ (started ∷ [])) (end_element_tag next false),
      )
  state_step-Speaks in_open_element c m e h =
      ground (arith, talk-append p inside m.events (end_element_tag next false))
  state_step-Speaks empty_element_end c m e h =
      ground (arith, talk-append p inside m.events (end_element_tag next true))
  state_step-Speaks close_element c m e h =
      ground
        (arith, talk-append p outside m.events (close_element_tag m.ss.elbegin next (name_of m)))
  state_step-Speaks in_close_element c m e h =
      ground
        (arith, talk-append p outside m.events (close_element_tag m.ss.elbegin next (name_of m)))
  state_step-Speaks attr_sq c m e h = ground (
    arith,
    talk-append p inside m.events
        (add_attribute m.ss.attrbegin next m.ss.attrvalbegin here (name_of m)),
  )
  state_step-Speaks attr_dq c m e h = ground (
    arith,
    talk-append p inside m.events
        (add_attribute m.ss.attrbegin next m.ss.attrvalbegin here (name_of m)),
  )
  state_step-Speaks _ c m e h = ground arith

  settle-Speaks :
      (sub : XSubState) (c : ℕ) (m : Machine)
      → Speaks p m.ss.state m.events
      → let n = settle nonwsok here next sub c m in Speaks p n.ss.state n.events
  unfolding settle
  settle-Speaks sub_none c m h = state_step-Speaks m.ss.state c m refl h
  settle-Speaks sub_bad c m h = weaken p m.ss.state m.events h
  settle-Speaks _ c m h = h

abbrev Holds : Phase → Result → Type 0
Holds p (ok m) = Speaks p m.ss.state m.events
Holds p (out_of_range m) = talk p m.events ≢ none

advance_state-Speaks :
    (p : Phase) (nonwsok : Bool) (bh i c : ℕ) (m : Machine)
    → Speaks p m.ss.state m.events
    → Holds p (advance_state nonwsok bh i c m)
unfolding advance_state
advance_state-Speaks p nonwsok bh i c m h =
    go (substate_step m.ss.substate c m) (substate_step-Kept m.ss.substate c m)
  where
    go :
        (r : Result)
        → Kept m r
        → Holds p (
            r >>= λ n. ok (
              settle nonwsok
                (record { bufhdl = bh; bufoffset = i })
                (record { bufhdl = bh; bufoffset = i + 1 })
                n.ss.substate
                c
                n))
    go (ok n) (e, f) =
        settle-Speaks p nonwsok _ _ n.ss.substate c n (subst₂ (Speaks p) (sym e) (sym f) h)
    go (out_of_range n) f = subst (λ es. talk p es ≢ none) (sym f) (weaken p m.ss.state m.events h)

run-Speaks :
    (p : Phase) (nonwsok : Bool) (bh i : ℕ) (buf : List ℕ) (m : Machine)
    → Speaks p m.ss.state m.events
    → Holds p (run nonwsok bh i buf m)
unfolding run
run-Speaks p nonwsok bh i [] m h = h
run-Speaks p nonwsok bh i (c ∷ cs) m h = elim (Bool-cases (is_bad m.ss.state)) [
  | inl b ↦ rw b h
  | inr b ↦ rw b (
      go (advance_state nonwsok bh i c m) (advance_state-Speaks p nonwsok bh i c m h)
        (run-Speaks p nonwsok bh (i + 1) cs))
]
  where
    go :
        (r : Result)
        → Holds p r
        → ((n : Machine) → Speaks p n.ss.state n.events → Holds p (run nonwsok bh (i + 1) cs n))
        → Holds p (r >>= run nonwsok bh (i + 1) cs)
    go (ok n) k later = later n k
    go (out_of_range n) k later = k

finish-Speaks :
    (p : Phase) (l : Lexer) (bh : ℕ) (r : Result)
    → Holds p r
    → let x = finish l bh r in
      (talk p x.events ≢ none) × ((x.reply ≡ thrown) ⊎ Speaks p x.lexer.localstate.state x.events)
unfolding finish
finish-Speaks p l bh (ok m) h = (weaken p m.ss.state m.events h, inr h)
finish-Speaks p l bh (out_of_range m) h = (h, inl refl)

-- Over any bytes, and over any sequence of buffers, the lexer keeps the order of calls: an open tag
-- is a start, then its attributes, then its end, and a close tag stands outside of open tags. If
-- the calls so far kept the order and led to the phase of the lexer's state, the calls after `lex`
-- keep it; and unless it throws they lead to the phase of its new state again, if that is not bad.
pub lex-Speaks :
    (p : Phase) (l : Lexer) (buf : List ℕ) (bh : ℕ) (events : List Event)
    → Speaks p l.localstate.state events
    → let x = lex l buf bh events in
      (talk p x.events ≢ none) × ((x.reply ≡ thrown) ⊎ Speaks p x.lexer.localstate.state x.events)
unfolding lex
lex-Speaks p l buf bh events h = finish-Speaks p l bh _ (run-Speaks p l.nonwsok bh 0 buf _ h)
