-- ===== src/Xml/Invariant.antt =====
-- What holds of the lexer between two bytes: which substate, and which stored positions, go with
-- each state, and how much of the name buffer is in use.
use mathlib.Core.Path.{subst}
use str_mod.Base.{
  sym, ℕ, ◌+◌, ◌≤◌, ◌≡◌, refl, ◌⊎◌, inl, inr, Bool, true, false, List, [], ◌∷◌, arith, length,
  length-set, Bool-cases,
}
use str_mod.Xml.Builder.{Position}
use str_mod.Xml.State.{
  XState, bad, less, open_element, close_element, in_close_element, attr, attr_after_eq, attr_sq,
  attr_dq, XSubState, sub_none, sub_bad, sub_start_name, sub_in_name, name_size, LocalState, Lexer,
  Machine, Result, ok, out_of_range, ◌>>=◌,
}
use str_mod.Xml.Step.{in_name, start_name, substate_step, settle, state_step, advance_state}
use str_mod.Xml.Lex.{run, is_bad}

abbrev Unnamed : XSubState → Bool → Bool → Bool → Bool → Type 0
Unnamed sub eb ab e' a' = (sub ≡ sub_none) × (eb ≡ e') × (ab ≡ a')

abbrev Named : XSubState → Bool → Bool → Bool → Bool → Type 0
Named sub eb ab e' a' = ((sub ≡ sub_none) ⊎ (sub ≡ sub_in_name)) × (eb ≡ e') × (ab ≡ a')

-- The substates and the used positions that go with a state. No entity is ever begun, and the
-- positions of an element and of an attribute are never both in use.
abbrev pub Fits : XState → ℕ → XSubState → Bool → Bool → Type 0
Fits bad np sub eb ab = ((sub ≡ sub_none) ⊎ (sub ≡ sub_bad)) × ((eb ≡ false) ⊎ (ab ≡ false))
Fits less np sub eb ab = Unnamed sub eb ab true false
Fits in_close_element np sub eb ab = Unnamed sub eb ab true false
Fits open_element np sub eb ab = Named sub eb ab true false
Fits close_element np sub eb ab =
    ((sub ≡ sub_none) ⊎ (sub ≡ sub_in_name) ⊎ ((sub ≡ sub_start_name) × (np ≡ 0)))
    × (eb ≡ true)
    × (ab ≡ false)
Fits attr np sub eb ab = Named sub eb ab false true
Fits attr_after_eq np sub eb ab = Unnamed sub eb ab false true
Fits attr_sq np sub eb ab = Unnamed sub eb ab false true
Fits attr_dq np sub eb ab = Unnamed sub eb ab false true
Fits _ np sub eb ab = Unnamed sub eb ab false false

-- In the middle of a step the substate may have turned bad.
abbrev pub Broken : XState → XSubState → Bool → Bool → Type 0
Broken st sub eb ab = (sub ≡ sub_bad) × ((eb ≡ false) ⊎ (ab ≡ false))

abbrev pub Room : List ℕ → LocalState → Type 0
Room name ss = (length name ≡ name_size) × (ss.namepos ≤ name_size)

abbrev pub IsValidState : List ℕ → LocalState → Type 0
IsValidState name ss =
    Room name ss × Fits ss.state ss.namepos ss.substate ss.used_elbegin ss.used_attr

abbrev pub IsValid : Lexer → Type 0
IsValid l = IsValidState l.name l.localstate

abbrev pub Keeps : Result → Type 0
Keeps (ok m) = IsValidState m.name m.ss
Keeps (out_of_range m) = length m.name ≡ name_size

abbrev pub Half : Result → Type 0
Half (ok m) =
    Room m.name m.ss
    × (Fits m.ss.state m.ss.namepos m.ss.substate m.ss.used_elbegin m.ss.used_attr
        ⊎ Broken m.ss.state m.ss.substate m.ss.used_elbegin m.ss.used_attr)
Half (out_of_range m) = length m.name ≡ name_size

-- `m` is in state `st`, with substate `sub`, and may stay so.
abbrev pub At : XState → XSubState → Machine → Type 0
At st sub m =
    (m.ss.state ≡ st)
    × (m.ss.substate ≡ sub)
    × Room m.name m.ss
    × Fits st m.ss.namepos sub m.ss.used_elbegin m.ss.used_attr

in_name-Half : (st : XState) (c : ℕ) (m : Machine) → At st sub_in_name m → Half (in_name c m)
unfolding in_name
in_name-Half bad c m h = ground arith
in_name-Half _ c m h = ground (arith, length-set m.name m.ss.namepos c)

start_name-Half :
    (st : XState) (c : ℕ) (m : Machine) → At st sub_start_name m → Half (ok (start_name c m))
unfolding start_name
start_name-Half bad c m h = ground arith
start_name-Half _ c m h = ground (arith, length-set m.name m.ss.namepos c)

entity_step-Half :
    (st : XState) (c : ℕ) (m : Machine) → At st sub_none m ⊎ At st sub_bad m → Half (ok m)
entity_step-Half bad c m h = ground arith
entity_step-Half _ c m h = ground arith

pub no_entity :
    (st : XState) (sub : XSubState) (m : Machine)
    → At st sub m
    → (sub ≡ sub_none) ⊎ (sub ≡ sub_bad) ⊎ (sub ≡ sub_in_name) ⊎ (sub ≡ sub_start_name)
no_entity bad sub m h = ground arith
no_entity _ sub m h = ground arith

pub substate_step-Half :
    (st : XState) (sub : XSubState) (c : ℕ) (m : Machine)
    → At st sub m
    → Half (substate_step sub c m)
unfolding substate_step
substate_step-Half st sub_none c m h = entity_step-Half st c m (inl h)
substate_step-Half st sub_bad c m h = entity_step-Half st c m (inr h)
substate_step-Half st sub_in_name c m h = in_name-Half st c m h
substate_step-Half st sub_start_name c m h = start_name-Half st c m h
substate_step-Half st sub c m h = ground (arith, no_entity st sub m h)

module _ (nonwsok : Bool) (here next : Position) where
  state_step-Keeps :
      (st : XState) (c : ℕ) (m : Machine)
      → At st sub_none m
      → Keeps (ok (state_step nonwsok here next st c m))
  unfolding state_step
  state_step-Keeps bad c m h = ground (arith, length-set m.name 0 c)
  state_step-Keeps _ c m h = ground (arith, length-set m.name 0 c)

  to_bad :
      (st : XState) (c : ℕ) (m : Machine)
      → At st sub_bad m ⊎ Broken st m.ss.substate m.ss.used_elbegin m.ss.used_attr
      → Room m.name m.ss
      → m.ss.substate ≡ sub_bad
      → Keeps (ok (settle nonwsok here next sub_bad c m))
  unfolding settle
  to_bad bad c m h r s = ground arith
  to_bad _ c m h r s = ground arith

  stays :
      (st : XState) (sub : XSubState) (c : ℕ) (m : Machine)
      → At st sub m ⊎ (Room m.name m.ss × Broken st sub m.ss.used_elbegin m.ss.used_attr)
      → m.ss.substate ≡ sub
      → Keeps (ok (settle nonwsok here next sub c m))
  unfolding settle
  stays st sub_none c m (inl h) s =
      subst (λ x. Keeps (ok (state_step nonwsok here next x c m))) (sym h.0)
        (state_step-Keeps st c m h)
  stays st sub_none c m (inr h) s = cc (h.1.0)
  stays st sub_bad c m (inl h) s = to_bad st c m (inl h) h.2 s
  stays st sub_bad c m (inr h) s = to_bad st c m (inr (rw s h.1)) h.0 s
  stays st sub c m (inl (a, b, r, f)) s = (r, rw (a, b) f)
  stays st sub c m (inr h) s = cc (h.1.0)

  settle-Keeps :
      (m : Machine) (c : ℕ) → Half (ok m) → Keeps (ok (settle nonwsok here next m.ss.substate c m))
  settle-Keeps m c (r, inl f) = stays m.ss.state m.ss.substate c m (inl (refl, refl, r, f)) refl
  settle-Keeps m c (r, inr f) = stays m.ss.state m.ss.substate c m (inr (r, f)) refl

pub advance_state-Keeps :
    (nonwsok : Bool) (bh i c : ℕ) (m : Machine)
    → IsValidState m.name m.ss
    → Keeps (advance_state nonwsok bh i c m)
unfolding advance_state
advance_state-Keeps nonwsok bh i c m (r, f) =
    go (substate_step m.ss.substate c m)
      (substate_step-Half m.ss.state m.ss.substate c m (refl, refl, r, f))
  where
    go :
        (n : Result)
        → Half n
        → Keeps (
            n >>= λ n. ok (
              settle nonwsok
                (record { bufhdl = bh; bufoffset = i })
                (record { bufhdl = bh; bufoffset = i + 1 })
                n.ss.substate
                c
                n))
    go (ok n) h = settle-Keeps nonwsok _ _ n c h
    go (out_of_range n) h = h

pub run-Keeps :
    (nonwsok : Bool) (bh i : ℕ) (buf : List ℕ) (m : Machine)
    → IsValidState m.name m.ss
    → Keeps (run nonwsok bh i buf m)
unfolding run
run-Keeps nonwsok bh i [] m v = v
run-Keeps nonwsok bh i (c ∷ cs) m v = elim (Bool-cases (is_bad m.ss.state)) [
  | inl b ↦ rw b v
  | inr b ↦ rw b (
      go (advance_state nonwsok bh i c m) (advance_state-Keeps nonwsok bh i c m v)
        (run-Keeps nonwsok bh (i + 1) cs))
]
  where
    go :
        (r : Result)
        → Keeps r
        → ((n : Machine) → IsValidState n.name n.ss → Keeps (run nonwsok bh (i + 1) cs n))
        → Keeps (r >>= run nonwsok bh (i + 1) cs)
    go (ok n) h later = later n h
    go (out_of_range n) h later = h
