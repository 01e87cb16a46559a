-- ===== src/Chunker/Idle.antt =====
-- A chunker with nothing pending, and the bytes of one suboption.
use mathlib.Core.List.{append-nil}
use str_mod.Base.{
  ℕ, ◌+◌, ◌-◌, ◌<◌, ◌≡◌, refl, sym, ap, ap₂, subst, ◌∙◌, Bool, true, false, ◌==◌, leb, ltb,
  if◌then◌else◌, Option, none, some, List, [], ◌∷◌, ◌++◌, length, length-append, arith, ==_iff,
  sub64,
}
use str_mod.Chunk.Slices.{slice, slice-append, slice_all, slice_none}
use str_mod.Chunk.Tree.{Chunk, suboption, chunk_length, bytes, IsSound, optend}
use str_mod.Chunk.Sound.{chunk_length-bytes}
use str_mod.Telnet.Chars.{iac, sb, se}
use str_mod.Telnet.State.{Parser, Event, data_block, Step, done, ◌>>=◌, normal, max_pos}
use str_mod.Telnet.State
use str_mod.Telnet.Parser.{process_data, end_of_chunk, end_of_chunk_in}
use str_mod.Telnet.Regions.{IsAt, IsValid}
use str_mod.Telnet.Suboption.{escaped, calls, process_data-escaped}
use str_mod.Chunker.{
  Builder, Chunker, has_data, max_suboptsize, drop_front, without_incoming, set_incoming, deliver,
  trim, run_step, parse_incoming, add_incoming, process_incoming,
}
use str_mod.Chunker as C
use str_mod.Chunker.Built.{Built, Front}
use str_mod.Chunker.Fed.{parse_incoming-bytes}
use str_mod.Chunker.Gathered.{add_incoming_lem}
use str_mod.Chunker.Tuned.{RunOutcome, run_step_lem}

abbrev pub no_builder : Builder
no_builder = record { chunks = []; curchunk = none; curlen = 0 }

-- Between two commands, with nothing kept and nothing queued.
abbrev pub IsIdle : Chunker → Type 0
IsIdle k =
    (k.builder ≡ no_builder)
    × (k.parser.state ≡ normal)
    × (k.parser.regionbegin ≡ 0)
    × (k.parser.curpos ≡ 0)
    × (k.parser.cooked ≡ none)

-- what the raw bytes of a suboption are sent as
abbrev pub sent : ℕ → List ℕ → List ℕ
sent t bs = iac ∷ sb ∷ t ∷ (escaped bs ++ (iac ∷ se ∷ []))

module _ (junk : ℕ) where
  at_end :
      (q : Parser) (es : List Event) (m : ℕ)
      → q.state ≡ normal
      → q.regionbegin ≡ m
      → q.curpos ≡ m
      → (done q es >>= end_of_chunk false junk)
        ≡ some
            (record q { regionend = q.curpos; regionbegin = q.curpos }, es ++ (data_block m m ∷ []))
  unfolding end_of_chunk
  at_end q es m s b c =
      ap
        (λ st. elim (end_of_chunk_in false junk st q) as (λ _. Step) [
          | none ↦ none
          | some (r, fs) ↦ some (r, es ++ fs)
        ])
        s
      ∙ ap₂
          (λ i j. some (
            record q { regionend = q.curpos; regionbegin = q.curpos },
            es ++ (data_block i j ∷ []),
          ))
          b c

  parsed :
      (t : ℕ) (bs : List ℕ) (p : Parser)
      → p.state ≡ normal
      → p.regionbegin ≡ 0
      → p.curpos ≡ 0
      → (t == 255) ≡ false
      → length (escaped bs) + 5 < max_pos
      → let n = length (escaped bs) in
        (r : Parser) × ((process_data false junk (sent t bs) p >>= end_of_chunk false junk)
          ≡ some (r, State.suboption t 3 (3 + n) bs ∷ data_block (n + 5) (n + 5) ∷ []))
        × (r.regionbegin ≡ n + 5)
        × (r.curpos ≡ n + 5)
  parsed t bs p s b c k h =
      let n = length (escaped bs) in
      let (q, e, st, ck, cp, rb) =
        process_data-escaped junk t bs p s (omega (arith, b, c)) k (omega (arith, c, h)) in
      let cp' : q.curpos ≡ n + 5 = omega (arith, cp, c) in
      (
        record q { regionend = q.curpos; regionbegin = q.curpos },
        ap (λ z. z >>= end_of_chunk false junk) (e ∙ ap₂ (λ i j. done q (calls i j t bs)) b c)
            ∙ at_end q (calls 0 0 t bs) (n + 5) st (omega (arith, rb, cp')) cp',
        cp',
        cp',
      )

  -- a range behind the first three
  raw_slice :
      (a b c n : ℕ) (xs : List ℕ) → length xs ≡ n → slice 3 n (a ∷ b ∷ c ∷ (xs ++ optend)) ≡ xs
  raw_slice a b c n xs e =
      slice-append 0 n 0 0 xs optend (omega arith) (omega (arith, e))
      ∙ ap₂ ◌++◌ (slice_all n xs (omega (arith, e))) (slice_none 0 0 optend refl)
      ∙ append-nil xs

  -- Where all is parsed, all that is kept is dropped.
  trim_done :
      (c : Chunk) (inlen : ℕ) (k : Chunker)
      → k.parser.regionbegin ≡ k.builder.curlen
      → k.builder.curlen < max_pos
      → trim false junk c inlen k
        ≡ deliver false junk (without_incoming (drop_front k.builder.curlen k))
  unfolding trim
  trim_done c inlen k e h =
      let short : ltb max_suboptsize (sub64 k.builder.curlen k.parser.regionbegin) ≡ false =
        ground (arith, e, h) in
      rw (short, (==_iff k.parser.regionbegin k.builder.curlen).1 e)

  -- What is left when the suboption is parsed.
  abbrev pub Ready : ℕ → List ℕ → Option Chunker → Type 0
  Ready t bs none = leb (length (escaped bs)) 0 ≡ true
  Ready t bs (some u) =
      (leb (length (escaped bs)) 0 ≡ false)
      × (u.incoming ≡ none)
      × (u.outgoing_ready ≡ true)
      × (has_data u.builder ≡ false)
      × ((raw : Chunk) × (u.outgoing ≡ some (suboption t raw (length (escaped bs)) bs))
          × (bytes raw ≡ escaped bs))

  module _ (t : ℕ) (bs : List ℕ) (k : Chunker) (d g : Chunk) (r : Parser) where
    abbrev n : ℕ
    n = length (escaped bs)

    abbrev events : List Event
    events = State.suboption t 3 (3 + n) bs ∷ data_block (n + 5) (n + 5) ∷ []

    abbrev holding : Chunker
    holding = record k { builder = set_incoming g (n + 5) no_builder }

    delivered :
        (ds : List Chunk)
        → Built (bytes g) events ds
        → bytes g ≡ sent t bs
        → leb n 0 ≡ false
        → Ready t bs (
            deliver false junk (
              without_incoming (
                drop_front (n + 5) (record k {
                  parser = r;
                  builder = record { chunks = ds; curchunk = some g; curlen = n + 5 };
                }))))
    unfolding deliver
    delivered [] b e f = absurd b
    delivered (x ∷ []) (z, (raw, made, same), _) e f =
        let m : 3 + n - 3 ≡ n = omega arith in
        (
          f,
          refl,
          refl,
          refl,
          (
            raw,
            ap some (made ∙ ap (λ l. suboption t raw l bs) m),
            same ∙ ap₂ (λ l xs. slice 3 l xs) m e ∙ raw_slice iac sb t n (escaped bs) refl,
          ),
        )
    delivered (x ∷ y ∷ ds) (z, w, rest) e f = absurd (last ((n + 5) == (n + 5)) refl rest)
      where
        last :
            (q : Bool)
            → ((n + 5) == (n + 5)) ≡ q
            → (if q
                then (y ∷ ds) ≡ []
                else Front (bytes g) (data_block (n + 5) (n + 5)) (λ cs. cs ≡ []) (y ∷ ds))
            → ⊥
        last true e h = cc
        last false e h = ground (arith, e)

    ran :
        r.regionbegin ≡ n + 5
        → bytes g ≡ sent t bs
        → n + 5 < max_pos
        → (o : Option Chunker) → RunOutcome g holding r events o
        → Ready t bs (C.◌>>=◌ o (trim false junk d (n + 5)))
    ran rb e h none z = ground (arith, z)
    ran rb e h (some u) (f, ds, w, b, q) =
        let v : Chunker = record k {
          parser = r;
          builder = record { chunks = ds; curchunk = some g; curlen = n + 5 };
        } in
        subst (λ x. Ready t bs (trim false junk d (n + 5) x)) (sym w)
          (subst (Ready t bs) (sym (trim_done d (n + 5) v rb h))
            (delivered ds b e (ground (arith, f))))

  -- A chunk of the bytes that a suboption is sent as.
  pub received :
      (unique : Bool) (t : ℕ) (bs : List ℕ) (k : Chunker) (d : Chunk)
      → IsIdle k
      → IsSound d
      → bytes d ≡ sent t bs
      → (t == 255) ≡ false
      → length (escaped bs) + 5 < max_pos
      → Ready t bs (process_incoming false junk unique d k)
  unfolding process_incoming
  received unique t bs k d (bl, s, b, c, ck) z e f h =
      let (g, a', y, f') = added in
      let (r, pe, rb, rc) = parsed t bs k.parser s b c f h in
      let pe' =
        parse_incoming-bytes junk d k.parser z valid (omega (arith, c, m', h))
        ∙ ap (λ xs. process_data false junk xs k.parser >>= end_of_chunk false junk) e
        ∙ pe in
      let k' = record k { builder = set_incoming g (length (escaped bs) + 5) no_builder } in
      subst (λ x. Ready t bs (process_incoming false junk unique d (record k { builder = x })))
        (sym bl)
        (rw (filled, a', m, pe')
          (ran t bs k d g r rb (f' ∙ e) h (run_step false junk (some (r, events t bs k d g r)) k') (
            run_step_lem junk g k' r (events t bs k d g r)
              (refl, y, omega (arith, m', ap length (f' ∙ e), ap length e), omega (arith, h))
              (omega (arith, b), omega arith, (omega arith, omega arith, omega (arith, rb)))
              (omega (arith, rb)) tt)))
    where
      m' : length (bytes d) ≡ length (escaped bs) + 5
      m' = ap length e ∙ omega (arith, length-append (escaped bs) optend)

      m : chunk_length d ≡ length (escaped bs) + 5
      m = (chunk_length-bytes d z).0 ∙ m'

      filled : (chunk_length d == 0) ≡ false
      filled = ground (arith, m)

      added :
          (g : Chunk) × (add_incoming false junk unique d no_builder
            ≡ some (set_incoming g (length (escaped bs) + 5) no_builder))
          × IsSound g
          × (bytes g ≡ bytes d)
      added =
          let (g, a, y, f) =
            add_incoming_lem junk unique d no_builder (tt, refl) z (omega (arith, m'))
              (omega (arith, m', h)) in
          (g, a ∙ ap (λ i. some (set_incoming g i no_builder)) (omega (arith, m')), y, f)

      valid : IsValid k.parser
      valid = subst (λ st. IsAt st k.parser.curpos k.parser) (sym s) (s, omega (arith, b), ck)
