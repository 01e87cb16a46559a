-- ===== src/Chunker/Tuned.antt =====
-- What holds of a chunker between two incoming chunks.
use str_mod.Base.{
  ℕ, ◌-◌, ◌≤◌, ◌<◌, ◌≡◌, ◌⊎◌, inl, inr, refl, sym, ap, subst, ◌∙◌, true, false, Option, none, some,
  List, [], ◌∷◌, ◌++◌, length, arith,
}
use mathlib.Core.List.{append-nil}
use str_mod.Chunk.Tree.{Chunk, bytes, IsSound}
use str_mod.Telnet.State.{
  ParserState, normal, escape, sub_neg, subopt_num, subopt, subopt_escape, Parser, Event, Step,
  max_pos,
}
use str_mod.Telnet.State
use str_mod.Telnet.Parser.{abort_suboption, end_suboption, drop_bytes, reset}
use str_mod.Telnet.Regions.{IsAt, IsValid, Between, Between-append, Restarts, reset-Restarts}
use str_mod.Chunker.{
  Builder, Chunker, ◌>>=◌, build_all, drop_front, without_incoming, run_step, reset_parser, deliver,
}
use str_mod.Chunker.Built.{
  IsCurrent, has_empty, queued, Outcome, Built, build_all-Outcome, QueueSound, queued-QueueSound,
}
use str_mod.Chunker.Gathered.{kept, KeptSound, KeepsLength}

abbrev pub IsTuned : Chunker → Type 0
IsTuned k =
    IsValid k.parser
    × (k.parser.curpos ≡ k.builder.curlen)
    × KeepsLength k.builder
    × QueueSound k.builder.chunks
    × (k.builder.curlen < max_pos)

pub region_le : (p : Parser) → IsValid p → p.regionbegin ≤ p.curpos
region_le p v = omega (arith, v.1)

pub snoc-QueueSound :
    (cs : List Chunk) (d : Chunk) → QueueSound cs → IsSound d → QueueSound (cs ++ (d ∷ []))
snoc-QueueSound [] d s t = (t, tt)
snoc-QueueSound (c ∷ cs) d s t = (s.0, snoc-QueueSound cs d s.1 t)

-- Bytes that no region needs any more may be dropped.
pub drop_bytes-IsValid :
    (n : ℕ) (p : Parser)
    → IsValid p
    → n ≤ p.regionbegin
    → p.curpos < max_pos
    → IsValid (drop_bytes n p)
      × ((drop_bytes n p).curpos ≡ p.curpos - n)
      × ((drop_bytes n p).regionbegin ≡ p.regionbegin - n)
unfolding drop_bytes
drop_bytes-IsValid n p v h s = go p.state v
  where
    go :
        (st : ParserState)
        → IsAt st p.curpos p
        → IsValid (drop_bytes n p)
          × ((drop_bytes n p).curpos ≡ p.curpos - n)
          × ((drop_bytes n p).regionbegin ≡ p.regionbegin - n)
    go normal v = ground arith
    go _ v = ground arith

-- A reset with bytes pending reports no suboption without a byte.
abbrev NoEmpty : Step → Type 0
NoEmpty none = Unit
NoEmpty (some (q, es)) = has_empty es ≡ false

reset-NoEmpty :
    (junk : ℕ) (p : Parser) → IsValid p → p.regionbegin < p.curpos → NoEmpty (reset false junk p)
unfolding reset abort_suboption end_suboption
reset-NoEmpty junk p v h = go p.state v
  where
    go :
        (st : ParserState)
        → IsAt st p.curpos p
        → NoEmpty (
            State.◌>>=◌
              (abort_suboption false junk st p)
              (λ q. State.done (record q { regionbegin = q.curpos; state = normal }) []))
    go normal v = ground arith
    go _ v = ground arith

-- What a step of the parser leaves of a chunker that keeps `c`, if the builder does not fault.
abbrev pub RunOutcome : Chunk → Chunker → Parser → List Event → Option Chunker → Type 0
RunOutcome c k q es none = has_empty es ≡ true
RunOutcome c k q es (some t) =
    (has_empty es ≡ false)
    × (ds : List Chunk) × (t ≡ record k { parser = q; builder = queued k.builder ds })
    × Built (bytes c) es ds
    × QueueSound (k.builder.chunks ++ ds)

pub run_step_lem :
    (junk : ℕ) (c : Chunk) (k : Chunker) (q : Parser) (es : List Event)
    → IsCurrent c k.builder
    → Between k.parser.regionbegin q.regionbegin es
    → q.regionbegin ≤ k.builder.curlen
    → QueueSound k.builder.chunks
    → RunOutcome c k q es (run_step false junk (some (q, es)) k)
unfolding run_step
run_step_lem junk c k q es cur a h s =
    let within : Between k.parser.regionbegin k.builder.curlen (es ++ []) =
      Between-append k.parser.regionbegin q.regionbegin k.builder.curlen es [] a h in
    go (build_all false junk es k.builder) (
      build_all-Outcome junk k.parser.regionbegin es c k.builder cur
        (subst (Between k.parser.regionbegin k.builder.curlen) (append-nil es) within))
  where
    go :
        (r : Option Builder)
        → Outcome c k.builder es r
        → RunOutcome c k q es (r >>= λ b. some (record k { parser = q; builder = b }))
    go none o = o
    go (some b) o = (
      o.0,
      o.1,
      ap (λ u. record k { parser = q; builder = u }) o.2,
      o.3,
      queued-QueueSound (bytes c) es k.builder.chunks o.1 s o.3,
    )

-- What follows a reset: a tuned chunker whose region begins at the end of what is kept.
abbrev pub IsReset : Chunker → Option Chunker → Type 0
IsReset k none = ⊥
IsReset k (some t) =
    IsTuned t × (t.parser.regionbegin ≡ k.builder.curlen) × (t.builder.curlen ≡ k.builder.curlen)

pub reset_parser-IsReset :
    (junk : ℕ) (k : Chunker)
    → IsTuned k
    → k.parser.regionbegin < k.builder.curlen
    → IsReset k (reset_parser false junk k)
unfolding reset_parser
reset_parser-IsReset junk k (v, p, l, s, m) h =
    go (reset false junk k.parser) (reset-Restarts false junk k.parser v)
      (reset-NoEmpty junk k.parser v (omega (arith, p, h)))
  where
    close :
        (q : Parser) (es : List Event) (c : Chunk)
        → Restarts k.parser (some (q, es))
        → has_empty es ≡ false
        → (r : Option Chunker) → RunOutcome c k q es r
        → IsReset k r
    close q es c z f none o = cc
    close q es c (st, b, e, o, w) f (some t) r =
        let valid : IsValid q =
          subst (λ n. IsAt n q.curpos q) (sym st) (st, omega (arith, b, e), o) in
        subst (λ u. IsReset k (some u)) (sym r.2)
          ((valid, omega (arith, e, p), l, r.4, m), omega (arith, b, p), refl)

    current : (o : Option Chunk) → k.builder.curchunk ≡ o → (c : Chunk) × IsCurrent c k.builder
    current none e = absurd (omega (arith, h, l.1, ap (λ o. length (kept o)) e))
    current (some c) e =
        (c, (e, subst KeptSound e l.0, l.1 ∙ ap (λ o. length (kept o)) e, omega (arith, m)))

    go : (z : Step) → Restarts k.parser z → NoEmpty z → IsReset k (run_step false junk z k)
    go none z f = absurd z
    go (some (q, es)) (st, b, e, o, w) f =
        let (c, cur) = current k.builder.curchunk refl in
        close q es c (st, b, e, o, w) f (run_step false junk (some (q, es)) k)
          (run_step_lem junk c k q es cur (subst (λ n. Between k.parser.regionbegin n es) (sym b) w)
            (omega (arith, b, p)) s)

-- All that is kept is dropped.
pub drop_all-IsTuned :
    (n : ℕ) (k : Chunker)
    → IsTuned k
    → k.parser.regionbegin ≡ n
    → k.builder.curlen ≡ n
    → IsTuned (without_incoming (drop_front n k))
drop_all-IsTuned n k (v, p, l, s, m) b e =
    let d = drop_bytes-IsValid n k.parser v (omega (arith, b)) (omega (arith, p, m)) in
    (d.0, omega (arith, d.1, p, e), (tt, refl), s, omega arith)

-- At the end either nothing is waiting any more, or a chunk is ready.
abbrev pub IsDelivered : Option Chunker → Type 0
IsDelivered none = ⊥
IsDelivered (some t) =
    IsTuned t
    × ((t.incoming ≡ none)
        ⊎ ((c : Chunk) × (t.outgoing ≡ some c) × IsSound c × (t.outgoing_ready ≡ true)))

pub deliver-IsDelivered : (junk : ℕ) (k : Chunker) → IsTuned k → IsDelivered (deliver false junk k)
unfolding deliver
deliver-IsDelivered junk k (v, p, l, s, m) = go k.builder.chunks s
  where
    go :
        (cs : List Chunk)
        → QueueSound cs
        → IsDelivered (elim cs as (λ _. Option Chunker) [
          | [] ↦ some (record k { incoming = none })
          | c ∷ cs ↦ some (record k {
            builder = record (k.builder) { chunks = cs };
            incoming = elim cs [ [] ↦ none | d ∷ ds ↦ k.incoming ];
            outgoing = some c;
            outgoing_ready = true;
          })
        ])
    go [] z = ((v, p, l, s, m), inl refl)
    go (c ∷ cs) z = ((v, p, l, z.1, m), inr (c, refl, z.0, refl))
