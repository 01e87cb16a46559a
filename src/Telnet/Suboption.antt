-- ===== src/Telnet/Suboption.antt =====
-- A suboption from the wire to the builder.
use mathlib.Core.List.{append-nil, append_assoc}
use mathlib.Core.Path.{subst}
use str_mod.Base.{
  ◌%◌, ==_iff, ℕ, suc, ◌+◌, ◌-◌, ◌^◌, ◌≤◌, ◌<◌, ◌≡◌, refl, sym, ◌∙◌, ap, ap₂, inl, inr, false, none,
  some, List, [], ◌∷◌, ◌++◌, arith, Bool-cases, length, length-append, take, replicate, ltb, ◌==◌,
  if◌then◌else◌,
}
use str_mod.Telnet.Chars.{iac, sb, se}
use str_mod.Telnet.State.{
  normal, escape, subopt_num, subopt, subopt_escape, Parser, Event, data_block, suboption, Step,
  done, ◌>>=◌, done-bind, max_pos, add64,
}
use str_mod.Telnet.Parser.{
  step, state_normal, state_escape, state_subopt_num, state_subopt, state_subopt_escape,
  end_suboption, process_data,
}
use str_mod.Telnet.Buffer.{Fills, state_subopt_lem, state_subopt_escape_lem}
use str_mod.Telnet.Split.{feed, moved, process_data_lem}

-- What a sender writes for the bytes of a suboption: each IAC twice.
abbrev pub escaped : List ℕ → List ℕ
escaped [] = []
escaped (c ∷ cs) = if c == iac then iac ∷ iac ∷ escaped cs else c ∷ escaped cs

pub length-escaped : (bs : List ℕ) → length bs ≤ length (escaped bs)
length-escaped [] = omega arith
length-escaped (c ∷ cs) = ground (arith, length-escaped cs)

-- The parser with the buffer `ys`, in which `n` more bytes are in use.
abbrev after : Parser → List ℕ → ℕ → Parser
after p ys n = record p {
  state = subopt;
  cooked = some ys;
  cooked_total = length ys;
  cooked_used = p.cooked_used + n;
}

-- `ys` holds `bs` behind what was in use of `xs`.
abbrev Holds : Parser → List ℕ → List ℕ → List ℕ → Type 0
Holds p xs bs ys =
    (48 ≤ length ys)
    × (p.cooked_used + length bs ≤ length ys)
    × (take (p.cooked_used + length bs) ys ≡ take p.cooked_used xs ++ bs)

module _ (junk : ℕ) where
  feed_plain :
      (i c : ℕ) (rest : List ℕ) (p : Parser) (xs : List ℕ)
      → p.state ≡ subopt
      → Fills p xs
      → (c == iac) ≡ false
      → (ys : List ℕ) × (feed junk i (c ∷ rest) p ≡ feed junk (i + 1) rest (after p ys 1))
        × Holds p xs (c ∷ []) ys
  unfolding feed step
  feed_plain i c rest p xs s f k =
      let (ys, e, l, u, t, _) = state_subopt_lem junk c p xs s f k in
      (
        ys,
        ap (λ st. step false junk st c i p >>= feed junk (i + 1) rest) s
            ∙ ap (λ t. t >>= feed junk (i + 1) rest) e
            ∙ done-bind _ (feed junk (i + 1) rest),
        (l, u, t),
      )

  feed_doubled :
      (i : ℕ) (rest : List ℕ) (p : Parser) (xs : List ℕ)
      → p.state ≡ subopt
      → Fills p xs
      → p.cooked_used < max_pos
      → (ys : List ℕ) × (feed junk i (iac ∷ iac ∷ rest) p ≡ feed junk (i + 2) rest (after p ys 1))
        × Holds p xs (iac ∷ []) ys
  unfolding feed step state_subopt
  feed_doubled i rest p xs s f o =
      let q = record p { state = subopt_escape } in
      let (ys, e, l, u, t, _) = state_subopt_escape_lem junk iac (i + 1) q xs f o refl in
      (
        ys,
        ap (λ st. step false junk st iac i p >>= feed junk (i + 1) (iac ∷ rest)) s
            ∙ done-bind q (feed junk (i + 1) (iac ∷ rest))
            ∙ ap (λ t. t >>= feed junk (i + 1 + 1) rest) e
            ∙ done-bind (after p ys 1) (feed junk (i + 1 + 1) rest)
            ∙ ap (λ k. feed junk k rest (after p ys 1)) (omega arith),
        (l, u, t),
      )

  -- The text, of which `n` bytes are read, makes the parser collect `bs`, and `rest` is left.
  abbrev Fed : Parser → List ℕ → List ℕ → ℕ → ℕ → List ℕ → List ℕ → Type 0
  Fed p xs bs i n rest text =
      (ys : List ℕ) × (feed junk i text p ≡ feed junk (i + n) rest (after p ys (length bs)))
      × Holds p xs bs ys

  joined :
      (p : Parser) (xs ys cs rest mid text : List ℕ) (c i m n : ℕ)
      → feed junk i text p ≡ feed junk (i + m) mid (after p ys 1)
      → Holds p xs (c ∷ []) ys
      → Fed (after p ys 1) ys cs (i + m) n rest mid
      → Fed p xs (c ∷ cs) i (m + n) rest text
  joined p xs ys cs rest mid text c i m n e h (zs, e', h') = (
    zs,
    e
        ∙ e'
        ∙ ap₂ (λ k u. feed junk k rest (record (after p zs 0) { cooked_used = u })) (omega arith)
            (omega arith),
    (
      h'.0,
      omega arith,
      subst (λ u. take u zs ≡ take p.cooked_used xs ++ (c ∷ cs)) (omega arith)
          (h'.2 ∙ ap (λ z. z ++ cs) h.2 ∙ append_assoc (take p.cooked_used xs) (c ∷ []) cs),
    ),
  )

  feed_escaped :
      (bs : List ℕ) (i : ℕ) (rest : List ℕ) (p : Parser) (xs : List ℕ)
      → p.state ≡ subopt
      → Fills p xs
      → p.cooked_used + length bs < max_pos
      → Fed p xs bs i (length (escaped bs)) rest (escaped bs ++ rest)
  feed_escaped [] i rest p xs s f o =
      let same : p ≡ after p xs 0 = ground arith in
      (
        xs,
        ap₂ (λ k q. feed junk k rest q) (omega arith) same,
        (omega arith, omega arith, rw append-nil (ap (λ u. take u xs) (omega arith))),
      )
  feed_escaped (c ∷ cs) i rest p xs s f o = elim (Bool-cases (c == iac)) [
    | inl k ↦
        let (ys, e, h) = feed_doubled i (escaped cs ++ rest) p xs s f (omega arith) in
        let mid = escaped cs ++ rest in
        rw k (
          subst (λ b. Fed p xs (b ∷ cs) i (suc (suc (length (escaped cs)))) rest (iac ∷ iac ∷ mid))
            (sym ((==_iff c iac).0 k))
            (subst (λ n. Fed p xs (iac ∷ cs) i n rest (iac ∷ iac ∷ mid)) (omega arith)
              (joined p xs ys cs rest mid (iac ∷ iac ∷ mid) iac i 2 (length (escaped cs)) e h (
                feed_escaped cs (i + 2) rest (after p ys 1) ys refl
                  (refl, refl, h.0, h.1, omega arith) (omega arith)))))
    | inr k ↦
        let (ys, e, h) = feed_plain i c (escaped cs ++ rest) p xs s f k in
        rw k (
          subst (λ n. Fed p xs (c ∷ cs) i n rest (c ∷ (escaped cs ++ rest))) (omega arith)
            (joined p xs ys cs rest (escaped cs ++ rest) (c ∷ (escaped cs ++ rest)) c i 1
              (length (escaped cs)) e h
              (feed_escaped cs (i + 1) rest (after p ys 1) ys refl
                (refl, refl, h.0, h.1, omega arith) (omega arith))))
  ]

  -- The end of a suboption: the builder gets the bytes that are in use.
  end_suboption_lem :
      (e : ℕ) (p : Parser) (ys : List ℕ)
      → p.cooked ≡ some ys
      → p.cooked_used ≤ length ys
      → p.cooked_used < max_pos
      → end_suboption false junk e p
        ≡ done
            (record p { regionend = e; cooked = none })
            (suboption p.subopt_type p.regionbegin e (take p.cooked_used ys) ∷ [])
  unfolding end_suboption
  end_suboption_lem e p ys c h s =
      let none_new : p.cooked_used - length ys ≡ 0 = omega arith in
      let small : p.cooked_used % 2 ^ 32 ≡ p.cooked_used = omega arith in
      rw (c, small, none_new, append-nil)

  -- The parser that has read the beginning of a suboption of type `t`, up to the position `e`.
  abbrev opened : ℕ → ℕ → Parser → Parser
  opened t e p = record p {
    state = subopt;
    subopt_type = t;
    cooked = some (replicate 48 junk);
    cooked_total = 48;
    cooked_used = 0;
    regionend = e;
    regionbegin = e + 3;
  }

  opening :
      (i t : ℕ) (p : Parser)
      → p.regionbegin ≤ i
      → i + 3 < max_pos
      → (t == 255) ≡ false
      → state_subopt_num false junk t (i + 1 + 1) p
        ≡ done (opened t i p) (if ltb p.regionbegin i then data_block p.regionbegin i ∷ [] else [])
  unfolding state_subopt_num
  opening i t p r s k = ground arith

  feed_opening :
      (i t : ℕ) (rest : List ℕ) (p : Parser)
      → p.state ≡ normal
      → p.regionbegin ≤ i
      → i + 3 < max_pos
      → (t == 255) ≡ false
      → feed junk i (iac ∷ sb ∷ t ∷ rest) p ≡ (
          done (opened t i p) (if ltb p.regionbegin i then data_block p.regionbegin i ∷ [] else [])
          >>= feed junk (i + 3) rest)
  unfolding feed step state_normal state_escape
  feed_opening i t rest p s r h k =
      let q = record p { state = subopt_num } in
      ap (λ st. step false junk st iac i p >>= feed junk (i + 1) (sb ∷ t ∷ rest)) s
      ∙ done-bind (record p { state = escape }) (feed junk (i + 1) (sb ∷ t ∷ rest))
      ∙ done-bind q (feed junk (i + 1 + 1) (t ∷ rest))
      ∙ ap (λ z. z >>= feed junk (i + 1 + 1 + 1) rest) (opening i t q r h k)
      ∙ ap
          (λ j.
            done (opened t i p)
              (if ltb p.regionbegin i then data_block p.regionbegin i ∷ [] else [])
            >>= feed junk j rest)
          (omega arith)

  feed_closing :
      (i : ℕ) (p : Parser) (ys : List ℕ)
      → p.state ≡ subopt
      → p.cooked ≡ some ys
      → p.cooked_used ≤ length ys
      → i + 2 < max_pos
      → p.cooked_used < max_pos
      → feed junk i (iac ∷ se ∷ []) p
        ≡ done
            (record p { state = normal; regionend = i; cooked = none; regionbegin = i + 2 })
            (suboption p.subopt_type p.regionbegin i (take p.cooked_used ys) ∷ [])
  unfolding feed step state_subopt state_subopt_escape
  feed_closing i p ys s c l h o =
      let q = record p { state = subopt_escape } in
      ap (λ st. step false junk st iac i p >>= feed junk (i + 1) (se ∷ [])) s
      ∙ done-bind q (feed junk (i + 1) (se ∷ []))
      ∙ ap (λ z. z >>= ended >>= λ r. done r [])
          (ap (λ e. end_suboption false junk e q) (omega arith) ∙ end_suboption_lem i q ys c l o)
      ∙ ap
          (λ b.
            done (record p { state = normal; regionend = i; cooked = none; regionbegin = b })
              (suboption p.subopt_type p.regionbegin i (take p.cooked_used ys) ∷ []))
          (omega arith)
    where
      ended : Parser → Step
      ended r = done (record r { regionbegin = add64 (i + 1) 1; state = normal }) []

-- The calls for a suboption that begins at `i` behind a region that begins at `b`: what is pending
-- of plain data, if there is any, and then the suboption.
abbrev pub calls : ℕ → ℕ → ℕ → List ℕ → List Event
calls b i t bs =
    (if ltb b i then data_block b i ∷ [] else [])
    ++ (suboption t (i + 3) (i + 3 + length (escaped bs)) bs ∷ [])

-- A suboption of any type but 255 and of any bytes, sent as IAC SB, the type, the bytes with each
-- IAC doubled, and IAC SE, reaches the builder as these bytes, however often the parser's buffer
-- has to grow. What was pending of plain data comes first, and the parser is back in its starting
-- state behind the suboption, without a buffer. Positions stay below 2 ^ 31.
pub process_data-escaped :
    (junk t : ℕ) (bs : List ℕ) (p : Parser)
    → p.state ≡ normal
    → p.regionbegin ≤ p.curpos
    → (t == 255) ≡ false
    → p.curpos + length (escaped bs) + 5 < max_pos
    → (q : Parser) × (process_data false junk (iac ∷ sb ∷ t ∷ (escaped bs ++ (iac ∷ se ∷ []))) p
        ≡ done q (calls p.regionbegin p.curpos t bs))
      × (q.state ≡ normal)
      × (q.cooked ≡ none)
      × (q.curpos ≡ p.curpos + length (escaped bs) + 5)
      × (q.regionbegin ≡ q.curpos)
process_data-escaped junk t bs p s r k h =
    let i = p.curpos in
    let n = length (escaped bs) in
    let o = opened junk t i p in
    let tail = iac ∷ se ∷ [] in
    let (ys, e, held) =
      feed_escaped junk bs (i + 3) tail o (replicate 48 junk) refl
        (refl, refl, omega arith, omega arith, omega arith) (omega (arith, length-escaped bs)) in
    let q = after o ys (length bs) in
    let fed =
      e
      ∙ feed_closing junk (i + 3 + n) q ys refl refl held.1 (omega arith)
          (omega (arith, length-escaped bs)) in
    let text = iac ∷ sb ∷ t ∷ (escaped bs ++ tail) in
    let size : length text ≡ n + 5 = omega (arith, length-append (escaped bs) tail) in
    let pending = if ltb p.regionbegin i then data_block p.regionbegin i ∷ [] else [] in
    let out = record q {
      state = normal;
      regionend = i + 3 + n;
      cooked = none;
      regionbegin = i + 3 + n + 2;
    } in
    (
      record out { curpos = i + length text },
      process_data_lem junk text p (omega arith)
          ∙ ap (moved (i + length text)) (
              feed_opening junk i t (escaped bs ++ tail) p s r (omega arith) k
              ∙ ap (λ z. done o pending >>= λ _. z) fed)
          ∙ ap
              (λ b.
                done (record out { curpos = i + length text })
                  (pending ++ (suboption t (i + 3) (i + 3 + n) b ∷ [])))
              held.2,
      refl,
      refl,
      omega arith,
      omega arith,
    )
