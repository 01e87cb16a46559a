-- ===== src/Xml/Names.antt =====
-- The names that the lexer reports.
use mathlib.Core.Path.{subst}
use str_mod.Base.{
  ℕ, ◌+◌, ◌≡◌, refl, sym, ◌⊎◌, inl, inr, Bool, true, false, List, [], ◌∷◌, ◌++◌, arith, Bool-cases,
  take,
}
use str_mod.Xml.Builder.{
  Position, Event, start_element_tag, add_attribute, end_element_tag, close_element_tag,
}
use str_mod.Xml.State.{
  XState, bad, less, open_element, in_open_element, empty_element_end, close_element,
  in_close_element, attr, attr_sq, attr_dq, XSubState, sub_none, sub_bad, sub_start_name,
  sub_in_name, Lexer, Machine, Result, ok, out_of_range, ◌>>=◌,
}
use str_mod.Xml.Step.{
  name_of, in_name, start_name, entity_step, substate_step, settle, state_step, advance_state,
}
use str_mod.Xml.Lex.{run, finish, lex, is_bad, thrown}
use str_mod.Xml.Invariant.{
  At, no_entity, Half, substate_step-Half, IsValidState, IsValid, Fits, Room, Keeps,
  advance_state-Keeps, run-Keeps,
}
use str_mod.Xml.Spelling.{AllNamed, Reads, AllNamed-append, IsName-put, IsName-first}

abbrev Spells : Machine → Type 0
Spells m = AllNamed m.events × Reads m.ss.state m.ss.substate (name_of m)

abbrev HalfSpells : Result → Type 0
HalfSpells (ok m) =
    AllNamed m.events × ((m.ss.substate ≡ sub_bad) ⊎ Reads m.ss.state m.ss.substate (name_of m))
HalfSpells (out_of_range m) = AllNamed m.events

in_name-Spells :
    (st : XState) (c : ℕ) (m : Machine)
    → m.ss.state ≡ st
    → m.ss.substate ≡ sub_in_name
    → Room m.name m.ss
    → Fits st m.ss.namepos sub_in_name m.ss.used_elbegin m.ss.used_attr
    → AllNamed m.events
    → Reads st sub_in_name (name_of m)
    → HalfSpells (in_name c m)
unfolding in_name
in_name-Spells open_element c m e s r f a h = ground (arith, IsName-put m.name m.ss.namepos c)
in_name-Spells close_element c m e s r f a h = ground (arith, IsName-put m.name m.ss.namepos c)
in_name-Spells attr c m e s r f a h = ground (arith, IsName-put m.name m.ss.namepos c)
in_name-Spells bad c m e s r f a h = ground arith
in_name-Spells _ c m e s r f a h = cc

start_name-Spells :
    (st : XState) (c : ℕ) (m : Machine)
    → m.ss.state ≡ st
    → m.ss.substate ≡ sub_start_name
    → Room m.name m.ss
    → Fits st m.ss.namepos sub_start_name m.ss.used_elbegin m.ss.used_attr
    → AllNamed m.events
    → HalfSpells (ok (start_name c m))
unfolding start_name
start_name-Spells close_element c m e s r f a = ground (arith, IsName-first m.name m.ss.namepos c)
start_name-Spells bad c m e s r f a = ground arith
start_name-Spells _ c m e s r f a = ground arith

entity_step-Spells :
    (sub : XSubState) (c : ℕ) (m : Machine)
    → (sub ≡ sub_none) ⊎ (sub ≡ sub_bad)
    → AllNamed m.events
    → Reads m.ss.state m.ss.substate (name_of m)
    → HalfSpells (ok (entity_step sub c m))
unfolding entity_step
entity_step-Spells sub_none c m d a h = (a, inr h)
entity_step-Spells sub_bad c m d a h = (a, inr h)
entity_step-Spells _ c m d a h = absurd (ground arith)

substate_step-Spells :
    (sub : XSubState) (m : Machine) (c : ℕ)
    → At m.ss.state sub m
    → AllNamed m.events
    → Reads m.ss.state sub (name_of m)
    → HalfSpells (substate_step sub c m)
unfolding substate_step
substate_step-Spells sub_in_name m c (_, e, r, f) a h = in_name-Spells m.ss.state c m refl e r f a h
substate_step-Spells sub_start_name m c (_, e, r, f) a h =
    start_name-Spells m.ss.state c m refl e r f a
substate_step-Spells sub_none m c (_, e, _, _) a h =
    entity_step-Spells sub_none c m (inl refl) a
      (subst (λ x. Reads m.ss.state x (name_of m)) (sym e) h)
substate_step-Spells sub_bad m c (_, e, _, _) a h =
    entity_step-Spells sub_bad c m (inr refl) a
      (subst (λ x. Reads m.ss.state x (name_of m)) (sym e) h)
substate_step-Spells sub m c k a h = ground (arith, no_entity m.ss.state sub m k)

module _ (nonwsok : Bool) (here next : Position) where
  state_step-Spells :
      (st : XState) (c : ℕ) (m : Machine)
      → m.ss.state ≡ st
      → m.ss.substate ≡ sub_none
      → Room m.name m.ss
      → AllNamed m.events
      → Reads st sub_none (name_of m)
      → Spells (state_step nonwsok here next st c m)
  unfolding state_step
  state_step-Spells less c m e s r a h = ground (arith, IsName-first m.name 0 c)
  state_step-Spells open_element c m e s r a h =
      let started = start_element_tag m.ss.elbegin (name_of m) in
      ground (
        arith,
        AllNamed-append m.events started,
        AllNamed-append (m.events ++ (started ∷ [])) (end_element_tag next false),
      )
  state_step-Spells in_open_element c m e s r a h =
      ground (arith, IsName-first m.name 0 c, AllNamed-append m.events (end_element_tag next false))
  state_step-Spells empty_element_end c m e s r a h =
      ground (arith, AllNamed-append m.events (end_element_tag next true))
  state_step-Spells close_element c m e s r a h =
      ground (arith, AllNamed-append m.events (close_element_tag m.ss.elbegin next (name_of m)))
  state_step-Spells in_close_element c m e s r a h =
      ground (arith, AllNamed-append m.events (close_element_tag m.ss.elbegin next (name_of m)))
  state_step-Spells attr_sq c m e s r a h = ground (
    arith,
    AllNamed-append m.events (add_attribute m.ss.attrbegin next m.ss.attrvalbegin here (name_of m)),
  )
  state_step-Spells attr_dq c m e s r a h = ground (
    arith,
    AllNamed-append m.events (add_attribute m.ss.attrbegin next m.ss.attrvalbegin here (name_of m)),
  )
  state_step-Spells _ c m e s r a h = ground arith

  settle-Spells :
      (sub : XSubState) (c : ℕ) (m : Machine)
      → m.ss.substate ≡ sub
      → Room m.name m.ss
      → HalfSpells (ok m)
      → Spells (settle nonwsok here next sub c m)
  unfolding settle
  settle-Spells sub_none c m e r (a, inl b) = cc
  settle-Spells sub_none c m e r (a, inr h) =
      state_step-Spells m.ss.state c m refl e r a (subst (λ x. Reads m.ss.state x (name_of m)) e h)
  settle-Spells sub_bad c m e r (a, h) = (a, tt)
  settle-Spells sub c m e r (a, inl b) = cc
  settle-Spells sub c m e r (a, inr h) = (a, h)

abbrev Named : Result → Type 0
Named (ok m) = Spells m
Named (out_of_range m) = AllNamed m.events

advance_state-Spells :
    (nonwsok : Bool) (bh i c : ℕ) (m : Machine)
    → IsValidState m.name m.ss
    → Spells m
    → Named (advance_state nonwsok bh i c m)
unfolding advance_state
advance_state-Spells nonwsok bh i c m (r, f) (a, h) =
    go (substate_step m.ss.substate c m)
      (substate_step-Half m.ss.state m.ss.substate c m (refl, refl, r, f))
      (substate_step-Spells m.ss.substate m c (refl, refl, r, f) a h)
  where
    go :
        (n : Result)
        → Half n
        → HalfSpells n
        → Named (
            n >>= λ n. ok (
              settle nonwsok
                (record { bufhdl = bh; bufoffset = i })
                (record { bufhdl = bh; bufoffset = i + 1 })
                n.ss.substate
                c
                n))
    go (ok n) (r, _) k = settle-Spells nonwsok _ _ n.ss.substate c n refl r k
    go (out_of_range n) _ k = k

run-Spells :
    (nonwsok : Bool) (bh i : ℕ) (buf : List ℕ) (m : Machine)
    → IsValidState m.name m.ss
    → Spells m
    → Named (run nonwsok bh i buf m)
unfolding run
run-Spells nonwsok bh i [] m v h = h
run-Spells nonwsok bh i (c ∷ cs) m v h = elim (Bool-cases (is_bad m.ss.state)) [
  | inl b ↦ rw b h
  | inr b ↦ rw b (
      go (advance_state nonwsok bh i c m) (advance_state-Keeps nonwsok bh i c m v)
        (advance_state-Spells nonwsok bh i c m v h) (run-Spells nonwsok bh (i + 1) cs))
]
  where
    go :
        (r : Result)
        → Keeps r
        → Named r
        → ((n : Machine)
            → IsValidState n.name n.ss
            → Spells n
            → Named (run nonwsok bh (i + 1) cs n))
        → Named (r >>= run nonwsok bh (i + 1) cs)
    go (ok n) v k later = later n v k
    go (out_of_range n) v k later = k

-- A valid lexer whose name buffer holds the beginning of a name wherever its state has begun one.
abbrev pub IsReading : Lexer → Type 0
IsReading l =
    IsValid l × Reads l.localstate.state l.localstate.substate (take l.localstate.namepos l.name)

finish-Spells :
    (l : Lexer) (bh : ℕ) (r : Result)
    → Keeps r
    → Named r
    → let x = finish l bh r in AllNamed x.events × ((x.reply ≡ thrown) ⊎ IsReading x.lexer)
unfolding finish
finish-Spells l bh (ok m) k (a, h) = (a, inr (k, h))
finish-Spells l bh (out_of_range m) k a = (a, inl refl)

-- Every element and attribute name that the lexer reports, over any bytes and any sequence of
-- buffers, is a name start followed by name bytes, of 256 bytes at most: a lexer that reads a name
-- well goes on so, unless it throws, and then too all that it has reported are names.
pub lex-AllNamed :
    (l : Lexer) (buf : List ℕ) (bh : ℕ) (events : List Event)
    → IsReading l
    → AllNamed events
    → let x = lex l buf bh events in AllNamed x.events × ((x.reply ≡ thrown) ⊎ IsReading x.lexer)
unfolding lex
lex-AllNamed l buf bh events (v, h) a =
    finish-Spells l bh _ (run-Keeps l.nonwsok bh 0 buf _ v)
      (run-Spells l.nonwsok bh 0 buf _ v (a, h))
