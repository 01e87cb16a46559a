-- ===== src/Telnet/Buffer.antt =====
-- The buffer that collects a suboption's bytes.
use mathlib.Core.List.{append_assoc}
use mathlib.Core.Path.{subst}
use native.Mathlib.Numerals.{add-one}
use str_mod.Base.{
  length-resize, take-resize, Bool-cases, inl, inr, ◌==◌, leb, ltb, if◌then◌else◌, ℕ, ◌+◌, ◌/◌, ◌%◌,
  ◌^◌, ◌≤◌, ◌<◌, ◌≡◌, refl, ap, ◌∙◌, false, some, List, [], ◌∷◌, ◌++◌, arith, length, take, set,
  length-set, take-set,
}
use str_mod.Telnet.Chars.{iac, se}
use str_mod.Telnet.State.{
  ParserState, subopt, Parser, Step, done, resize, put_cooked, max_pos, done-bind, bind_assoc,
  ◌>>=◌, add64,
}
use str_mod.Telnet.Parser.{check, grow, state_subopt, state_subopt_escape}

module _ (junk : ℕ) where
  -- A buffer of 47 bytes or more in use grows by two at least, and keeps what is in use.
  pub grow_lem :
      (p : Parser) (xs : List ℕ)
      → p.cooked ≡ some xs
      → 47 ≤ p.cooked_used
      → p.cooked_used ≤ max_pos
      → p.cooked_used ≤ length xs
      → (ys : List ℕ) × (grow false junk p.cooked_used p
          ≡ done (record p { cooked = some ys; cooked_total = length ys }) [])
        × (p.cooked_used + 2 ≤ length ys)
        × (take p.cooked_used ys ≡ take p.cooked_used xs)
  unfolding grow
  grow_lem p xs e l b f =
      let n = (p.cooked_used + p.cooked_used / 2) % 2 ^ 64 in
      (
        resize junk n xs,
        ground arith,
        omega (arith, length-resize junk n xs),
        take-resize junk n p.cooked_used xs f (omega arith) (omega arith),
      )

pub put_cooked_lem :
    (ch : ℕ) (p : Parser) (xs : List ℕ)
    → p.cooked ≡ some xs
    → p.cooked_used < length xs
    → p.cooked_used ≤ max_pos
    → put_cooked ch p
      ≡ done
          (record p { cooked = some (set xs p.cooked_used ch); cooked_used = p.cooked_used + 1 })
          []
unfolding put_cooked
put_cooked_lem ch p xs e l b = ground arith

-- The step puts `bs` behind the bytes in use, and goes on with the suboption.
abbrev pub Collects : Parser → List ℕ → List ℕ → Step → Type 0
Collects p xs bs s =
    (ys : List ℕ) × (s
      ≡ done
          (record p {
            state = subopt;
            cooked = some ys;
            cooked_total = length ys;
            cooked_used = p.cooked_used + length bs;
          })
          [])
    × (48 ≤ length ys)
    × (p.cooked_used + length bs ≤ length ys)
    × (take (p.cooked_used + length bs) ys ≡ take p.cooked_used xs ++ bs)
    × (length xs ≤ length ys)

-- The parser collects a suboption in the buffer `xs`.
abbrev pub Fills : Parser → List ℕ → Type 0
Fills p xs =
    (p.cooked ≡ some xs)
    × (length xs ≡ p.cooked_total)
    × (48 ≤ p.cooked_total)
    × (p.cooked_used ≤ p.cooked_total)
    × (p.cooked_used ≤ max_pos)

put-Collects :
    (ch : ℕ) (p : Parser) (xs : List ℕ)
    → p.state ≡ subopt
    → Fills p xs
    → p.cooked_used < length xs
    → Collects p xs (ch ∷ []) (put_cooked ch p)
put-Collects ch p xs s (c, l, b, u, o) h = (
  set xs p.cooked_used ch,
  put_cooked_lem ch p xs c h (omega arith) ∙ ground (arith, length-set xs p.cooked_used ch),
  omega (arith, length-set xs p.cooked_used ch),
  omega (arith, length-set xs p.cooked_used ch),
  rw add-one (take-set xs p.cooked_used ch h),
  omega (arith, length-set xs p.cooked_used ch),
)

-- The step may be made on a larger buffer that keeps the bytes in use.
grown :
    (p : Parser) (xs ys bs : List ℕ) (st : ParserState) (s : Step)
    → take p.cooked_used ys ≡ take p.cooked_used xs
    → length xs ≤ length ys
    → Collects (record p { state = st; cooked = some ys; cooked_total = length ys }) ys bs s
    → Collects p xs bs s
grown p xs ys bs st s kept n (zs, e, l, u, t, m) =
    (zs, e, l, u, t ∙ ap (λ z. z ++ bs) kept, omega arith)

-- Two steps that put in a byte each, one behind the other.
then-Collects :
    (p : Parser) (xs : List ℕ) (a b : ℕ) (s : Step) (f : Parser → Step)
    → p.cooked_used < max_pos
    → Collects p xs (a ∷ []) s
    → ((q : Parser) (ys : List ℕ)
        → q.state ≡ subopt
        → q.cooked_used ≡ p.cooked_used + 1
        → Fills q ys
        → length xs ≤ length ys
        → Collects q ys (b ∷ []) (f q))
    → Collects p xs (a ∷ b ∷ []) (s >>= f)
then-Collects p xs a b s f o (ys, e, l, u, t, m) g =
    let q = record p {
      state = subopt;
      cooked = some ys;
      cooked_total = length ys;
      cooked_used = p.cooked_used + 1;
    } in
    let (zs, e', l', u', t', m') = g q ys refl refl (refl, refl, l, u, omega arith) m in
    (
      zs,
      rw (e, done-bind) (e' ∙ ground arith),
      l',
      omega arith,
      subst (λ n. take n zs ≡ take p.cooked_used xs ++ (a ∷ b ∷ [])) (omega arith)
          (t' ∙ ap (λ z. z ++ (b ∷ [])) t ∙ append_assoc (take p.cooked_used xs) (a ∷ []) (b ∷ [])),
      omega arith,
    )

module _ (junk : ℕ) where
  pub state_subopt_lem :
      (ch : ℕ) (p : Parser) (xs : List ℕ)
      → p.state ≡ subopt
      → Fills p xs
      → (ch == iac) ≡ false
      → Collects p xs (ch ∷ []) (state_subopt false junk ch p)
  unfolding state_subopt
  state_subopt_lem ch p xs s f k = elim (Bool-cases (leb p.cooked_total p.cooked_used)) [
    | inl full ↦
        let (ys, g, room, kept) =
          grow_lem junk p xs (f.0) (ground arith) (omega arith) (omega arith) in
        let q = record p { cooked = some ys; cooked_total = length ys } in
        rw (k, full, g, done-bind)
          (grown p xs ys (ch ∷ []) p.state (put_cooked ch q) kept (ground arith) (
            put-Collects ch q ys s (refl, refl, ground arith, omega arith, omega arith)
              (omega arith)))
    | inr room ↦ rw (k, room, done-bind) (put-Collects ch p xs s f (ground arith))
  ]

  -- The step in `stateSuboptEscape` that makes room for two bytes.
  room_for_two :
      (p : Parser) (xs : List ℕ) (f : Parser → Step) (bs : List ℕ)
      → Fills p xs
      → ((q : Parser) (ys : List ℕ)
          → q.state ≡ subopt
          → q.cooked_used ≡ p.cooked_used
          → Fills q ys
          → p.cooked_used + 1 < length ys
          → Collects q ys bs (f q))
      → Collects p xs bs (
          (if leb p.cooked_total (add64 p.cooked_used 1)
            then grow false junk p.cooked_used (record p { state = subopt })
              >>= (λ q. check false junk (ltb (add64 q.cooked_used 1) q.cooked_total) q)
            else done (record p { state = subopt }) [])
          >>= f)
  unfolding check
  room_for_two p xs f bs h next = elim (Bool-cases (leb p.cooked_total (add64 p.cooked_used 1))) [
    | inl full ↦
        let (ys, g, room, kept) =
          grow_lem junk (record p { state = subopt }) xs (h.0) (ground arith) (omega arith)
            (omega arith) in
        let q = record p { state = subopt; cooked = some ys; cooked_total = length ys } in
        rw (full, g, done-bind)
          (grown p xs ys bs subopt (f q) kept (ground arith) (
            next q ys refl refl (refl, refl, ground arith, omega arith, omega arith) (omega arith)))
    | inr room ↦
        rw (room, done-bind) (next (record p { state = subopt }) xs refl refl h (ground arith))
  ]

  -- A byte behind an escape, other than SE: an escaped IAC is put in alone, and any other byte with
  -- its IAC.
  pub state_subopt_escape_lem :
      (ch i : ℕ) (p : Parser) (xs : List ℕ)
      → Fills p xs
      → p.cooked_used < max_pos
      → (ch == se) ≡ false
      → Collects p xs
          (if ch == iac then ch ∷ [] else iac ∷ ch ∷ [])
          (state_subopt_escape false junk ch i p)
  unfolding state_subopt_escape
  state_subopt_escape_lem ch i p xs h o k = elim (Bool-cases (ch == iac)) [
    | inl c ↦
        rw (k, bind_assoc, c)
          (room_for_two p xs _ (ch ∷ []) h
            (λ q ys s u f r. rw done-bind (put-Collects ch q ys s f (omega arith))))
    | inr c ↦
        rw (k, bind_assoc, c)
          (room_for_two p xs _ (iac ∷ ch ∷ []) h (λ q ys s u f r.
            then-Collects q ys iac ch _ _ (omega arith) (put-Collects iac q ys s f (omega arith))
              (λ q' zs s' u' f' m. put-Collects ch q' zs s' f' (omega arith))))
  ]
