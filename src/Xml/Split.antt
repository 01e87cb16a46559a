-- ===== src/Xml/Split.antt =====
-- Cutting the text into buffers.
use mathlib.Core.Path.{subst}
use str_mod.Base.{
  ℕ, ◌+◌, ◌≡◌, ◌≢◌, ◌↔◌, refl, sym, ◌∙◌, ap, inl, inr, Bool, true, false, List, [], ◌∷◌, ◌++◌,
  arith, Bool-cases,
}
use str_mod.Xml.Builder.{
  Position, Event, start_element_tag, add_attribute, end_element_tag, close_element_tag,
}
use str_mod.Xml.State.{
  XState, bad, open_element, in_open_element, empty_element_end, close_element, in_close_element,
  attr_sq, attr_dq, XSubState, sub_none, sub_bad, origin, LocalState, Lexer, Machine, Result, ok,
  out_of_range, ◌>>=◌,
}
use str_mod.Xml.Step.{name_of, substate_step, settle, state_step, advance_state}
use str_mod.Xml.Lex.{run, finish, lex, is_bad, thrown, Lexed}

-- The same call, with its positions forgotten.
abbrev pub unplaced : Event → Event
unplaced (start_element_tag _ n) = start_element_tag origin n
unplaced (add_attribute _ _ _ _ n) = add_attribute origin origin origin origin n
unplaced (end_element_tag _ e) = end_element_tag origin e
unplaced (close_element_tag _ _ n) = close_element_tag origin origin n

abbrev pub unplaced_all : List Event → List Event
unplaced_all [] = []
unplaced_all (e ∷ es) = unplaced e ∷ unplaced_all es

-- Like calls made after like calls are like calls.
unplaced_all-append :
    (es fs : List Event) (e f : Event)
    → unplaced_all es ≡ unplaced_all fs
    → unplaced e ≡ unplaced f
    → unplaced_all (es ++ (e ∷ [])) ≡ unplaced_all (fs ++ (f ∷ []))
unplaced_all-append [] [] e f h k = rw k
unplaced_all-append [] (d ∷ fs) e f h k = cc
unplaced_all-append (d ∷ es) [] e f h k = cc
unplaced_all-append (d ∷ es) (g ∷ fs) e f h k = ground (arith, unplaced_all-append es fs e f)

-- All that the lexer goes by, which is all of its state but the positions.
abbrev pub LikeState : LocalState → LocalState → Type 0
LikeState s t =
    (s.state ≡ t.state)
    × (s.substate ≡ t.substate)
    × (s.namepos ≡ t.namepos)
    × (s.used_elbegin ≡ t.used_elbegin)
    × (s.used_attr ≡ t.used_attr)

abbrev Like : Machine → Machine → Type 0
Like m n = (m.name ≡ n.name) × LikeState m.ss n.ss × (unplaced_all m.events ≡ unplaced_all n.events)

abbrev LikeResult : Result → Result → Type 0
LikeResult (ok m) (ok n) = Like m n
LikeResult (out_of_range m) (out_of_range n) =
    (m.name ≡ n.name) × (unplaced_all m.events ≡ unplaced_all n.events)
LikeResult _ _ = ⊥

substate_step-Like :
    (sub : XSubState) (c : ℕ) (m n : Machine)
    → Like m n
    → LikeResult (substate_step sub c m) (substate_step sub c n)
unfolding substate_step
substate_step-Like sub_none c m n h = ground arith
substate_step-Like _ c m n h = ground arith

module _ (nonwsok : Bool) (here next here' next' : Position) where
  state_step-Like :
      (st : XState) (c : ℕ) (m n : Machine)
      → Like m n
      → Like (state_step nonwsok here next st c m) (state_step nonwsok here' next' st c n)
  unfolding state_step
  state_step-Like bad c m n h = h
  state_step-Like open_element c m n h =
      let begun = start_element_tag m.ss.elbegin (name_of m) in
      let begun' = start_element_tag n.ss.elbegin (name_of n) in
      ground (
        arith,
        unplaced_all-append m.events n.events begun begun',
        unplaced_all-append (m.events ++ (begun ∷ [])) (n.events ++ (begun' ∷ []))
            (end_element_tag next false) (end_element_tag next' false),
      )
  state_step-Like in_open_element c m n h = ground (
    arith,
    unplaced_all-append m.events n.events (end_element_tag next false)
        (end_element_tag next' false),
  )
  state_step-Like empty_element_end c m n h = ground (
    arith,
    unplaced_all-append m.events n.events (end_element_tag next true) (end_element_tag next' true),
  )
  state_step-Like close_element c m n h = ground (
    arith,
    unplaced_all-append m.events n.events (close_element_tag m.ss.elbegin next (name_of m))
        (close_element_tag n.ss.elbegin next' (name_of n)),
  )
  state_step-Like in_close_element c m n h = ground (
    arith,
    unplaced_all-append m.events n.events (close_element_tag m.ss.elbegin next (name_of m))
        (close_element_tag n.ss.elbegin next' (name_of n)),
  )
  state_step-Like attr_sq c m n h = ground (
    arith,
    unplaced_all-append m.events n.events
        (add_attribute m.ss.attrbegin next m.ss.attrvalbegin here (name_of m))
        (add_attribute n.ss.attrbegin next' n.ss.attrvalbegin here' (name_of n)),
  )
  state_step-Like attr_dq c m n h = ground (
    arith,
    unplaced_all-append m.events n.events
        (add_attribute m.ss.attrbegin next m.ss.attrvalbegin here (name_of m))
        (add_attribute n.ss.attrbegin next' n.ss.attrvalbegin here' (name_of n)),
  )
  state_step-Like _ c m n h = ground arith

  settle-Like :
      (sub : XSubState) (c : ℕ) (m n : Machine)
      → Like m n
      → Like (settle nonwsok here next sub c m) (settle nonwsok here' next' sub c n)
  unfolding settle
  settle-Like sub_none c m n h =
      subst
        (λ st.
          Like (state_step nonwsok here next m.ss.state c m)
            (state_step nonwsok here' next' st c n))
        (h.1.0) (state_step-Like m.ss.state c m n h)
  settle-Like sub_bad c m n h = ground arith
  settle-Like _ c m n h = h

advance_state-Like :
    (nonwsok : Bool) (bh i bh' i' c : ℕ) (m n : Machine)
    → Like m n
    → LikeResult (advance_state nonwsok bh i c m) (advance_state nonwsok bh' i' c n)
unfolding advance_state
advance_state-Like nonwsok bh i bh' i' c m n h =
    go (substate_step m.ss.substate c m) (substate_step n.ss.substate c n) (
      subst (λ sub. LikeResult (substate_step m.ss.substate c m) (substate_step sub c n)) (h.1.1)
        (substate_step-Like m.ss.substate c m n h))
  where
    after : ℕ → ℕ → Machine → Result
    after b j k = ok (
        settle nonwsok (record { bufhdl = b; bufoffset = j })
          (record { bufhdl = b; bufoffset = j + 1 }) k.ss.substate c k)

    go : (r s : Result) → LikeResult r s → LikeResult (r >>= after bh i) (s >>= after bh' i')
    go (ok p) (ok q) k =
        subst
          (λ sub.
            Like
              (settle nonwsok (record { bufhdl = bh; bufoffset = i })
                (record { bufhdl = bh; bufoffset = i + 1 }) p.ss.substate c p)
              (settle nonwsok (record { bufhdl = bh'; bufoffset = i' })
                (record { bufhdl = bh'; bufoffset = i' + 1 }) sub c q))
          (k.1.1) (settle-Like nonwsok _ _ _ _ p.ss.substate c p q k)
    go (out_of_range p) (out_of_range q) k = k
    go (ok p) (out_of_range q) k = absurd k
    go (out_of_range p) (ok q) k = absurd k

module _ (nonwsok : Bool) where
  run-Like :
      (bh i bh' i' : ℕ) (buf : List ℕ) (m n : Machine)
      → Like m n
      → LikeResult (run nonwsok bh i buf m) (run nonwsok bh' i' buf n)
  unfolding run
  run-Like bh i bh' i' [] m n h = h
  run-Like bh i bh' i' (c ∷ cs) m n h = elim (Bool-cases (is_bad m.ss.state)) [
    | inl b ↦ rw (b, sym (ap is_bad (h.1.0)) ∙ b) h
    | inr b ↦
        rw (b, sym (ap is_bad (h.1.0)) ∙ b)
          (go _ _ (advance_state-Like nonwsok bh i bh' i' c m n h)
            (run-Like bh (i + 1) bh' (i' + 1) cs))
  ]
    where
      go :
          (r s : Result)
          → LikeResult r s
          → ((p q : Machine)
              → Like p q
              → LikeResult (run nonwsok bh (i + 1) cs p) (run nonwsok bh' (i' + 1) cs q))
          → LikeResult (r >>= run nonwsok bh (i + 1) cs) (s >>= run nonwsok bh' (i' + 1) cs)
      go (ok p) (ok q) k later = later p q k
      go (out_of_range p) (out_of_range q) k later = k
      go (ok p) (out_of_range q) k later = absurd k
      go (out_of_range p) (ok q) k later = absurd k

  -- The index at which the second part begins.
  after_part : ℕ → List ℕ → ℕ
  after_part i [] = i
  after_part i (c ∷ cs) = after_part (i + 1) cs

  run_bad :
      (bh i : ℕ) (buf : List ℕ) (m : Machine)
      → is_bad m.ss.state ≡ true
      → run nonwsok bh i buf m ≡ ok m
  unfolding run
  run_bad bh i [] m b = refl
  run_bad bh i (c ∷ cs) m b = rw b

  run-append :
      (bh i : ℕ) (a b : List ℕ) (m : Machine)
      → run nonwsok bh i (a ++ b) m ≡ (run nonwsok bh i a m >>= run nonwsok bh (after_part i a) b)
  unfolding run after_part
  run-append bh i [] b m = refl
  run-append bh i (c ∷ cs) b m = elim (Bool-cases (is_bad m.ss.state)) [
    | inl e ↦ rw e (sym (unfold run in run_bad bh _ b m e))
    | inr e ↦ rw e (go (advance_state nonwsok bh i c m) (run-append bh (i + 1) cs b))
  ]
    where
      go :
          (r : Result)
          → ((n : Machine)
              → run nonwsok bh (i + 1) (cs ++ b) n
                ≡ (run nonwsok bh (i + 1) cs n >>= run nonwsok bh (after_part (i + 1) cs) b))
          → (r >>= run nonwsok bh (i + 1) (cs ++ b))
            ≡ ((r >>= run nonwsok bh (i + 1) cs) >>= run nonwsok bh (after_part (i + 1) cs) b)
      go (ok n) later = later n
      go (out_of_range n) later = refl

-- The first buffer was lexed with another handle than the whole.
two_parts :
    (nonwsok : Bool) (h₁ h₂ h₃ : ℕ) (a b : List ℕ) (m n p : Machine)
    → Like m n
    → run nonwsok h₁ 0 a m ≡ ok p
    → LikeResult (run nonwsok h₂ 0 b p) (run nonwsok h₃ 0 (a ++ b) n)
two_parts nonwsok h₁ h₂ h₃ a b m n p h e = rw (run-append nonwsok h₃ 0 a b n) (
    go (run nonwsok h₃ 0 a n)
      (subst (λ r. LikeResult r (run nonwsok h₃ 0 a n)) e (run-Like nonwsok h₁ 0 h₃ 0 a m n h)))
  where
    go :
        (r : Result)
        → LikeResult (ok p) r
        → LikeResult (run nonwsok h₂ 0 b p) (r >>= run nonwsok h₃ (after_part nonwsok 0 a) b)
    go (ok q) k = run-Like nonwsok h₂ 0 h₃ (after_part nonwsok 0 a) b p q k
    go (out_of_range q) k = absurd k

-- The outcomes agree: the same calls but for positions, the same name buffer, both thrown or
-- neither, and if not thrown, the same state but for positions.
abbrev pub Agree : Lexed → Lexed → Type 0
Agree x y =
    (unplaced_all x.events ≡ unplaced_all y.events)
    × (x.lexer.name ≡ y.lexer.name)
    × ((x.reply ≡ thrown) ↔ (y.reply ≡ thrown))
    × (x.reply ≢ thrown → LikeState x.lexer.localstate y.lexer.localstate)

finish-Agree :
    (l k : Lexer) (bh bh' : ℕ) (r s : Result)
    → LikeResult r s
    → Agree (finish l bh r) (finish k bh' s)
unfolding finish
finish-Agree l k bh bh' (ok m) (ok n) h = (h.2, h.0, (λ e. cc, λ e. cc), λ _. h.1)
finish-Agree l k bh bh' (out_of_range m) (out_of_range n) h =
    (h.1, h.0, (λ _. refl, λ _. refl), λ n. absurd (n refl))
finish-Agree l k bh bh' (ok m) (out_of_range n) h = absurd h
finish-Agree l k bh bh' (out_of_range m) (ok n) h = absurd h

resume :
    (l : Lexer) (h₁ h₂ h₃ : ℕ) (b : List ℕ) (r s : Result)
    → (finish l h₁ r).reply ≢ thrown
    → ((p : Machine) → r ≡ ok p → LikeResult (run l.nonwsok h₂ 0 b p) s)
    → let x = finish l h₁ r in Agree (lex x.lexer b h₂ x.events) (finish l h₃ s)
unfolding finish lex
resume l h₁ h₂ h₃ b (ok p) s n f = finish-Agree (finish l h₁ (ok p)).lexer l h₂ h₃ _ s (f p refl)
resume l h₁ h₂ h₃ b (out_of_range p) s n f = absurd (n refl)

-- Where a text is cut into two buffers makes no difference: unless the first call throws, lexing
-- `a` and then `b`, with any handles, makes the calls that lexing `a ++ b` makes, throws exactly if
-- that throws, and otherwise leaves the same state, all but the positions.
pub lex-append :
    (l : Lexer) (a b : List ℕ) (h₁ h₂ h₃ : ℕ) (events : List Event)
    → (lex l a h₁ events).reply ≢ thrown
    → let x = lex l a h₁ events in Agree (lex x.lexer b h₂ x.events) (lex l (a ++ b) h₃ events)
unfolding lex
lex-append l a b h₁ h₂ h₃ events n =
    resume l h₁ h₂ h₃ b _ _ n
      (λ p e. two_parts l.nonwsok h₁ h₂ h₃ a b _ _ p (refl, (refl, refl, refl, refl, refl), refl) e)
