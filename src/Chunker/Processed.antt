-- ===== src/Chunker/Processed.antt =====
-- `processIncoming` as a whole.
use str_mod.Base.{
  ℕ, ◌+◌, ◌≤◌, ◌<◌, ◌≡◌, refl, sym, ap, subst, Bool, true, false, ◌||◌, ◌==◌, if◌then◌else◌, Option,
  none, some, List, [], ◌++◌, length, arith, length-append,
}
use str_mod.Chunk.Tree.{Chunk, chunk_length, bytes, IsSound}
use str_mod.Chunk.Sound.{chunk_length-bytes}
use str_mod.Telnet.State.{Event, Step, max_pos}
use str_mod.Telnet.Regions.{Advances}
use str_mod.Chunker.{
  Builder, Chunker, ◌>>=◌, set_incoming, has_data, run_step, deliver, process_empty, trim,
  parse_incoming, add_incoming, process_incoming,
}
use str_mod.Chunker.Built.{has_empty, queued}
use str_mod.Chunker.Fed.{parse_incoming-Advances}
use str_mod.Chunker.Gathered.{kept, add_incoming_lem}
use str_mod.Chunker.Tuned.{
  region_le, IsTuned, RunOutcome, run_step_lem, IsDelivered, deliver-IsDelivered,
}
use str_mod.Chunker.Trimmed.{trim-IsDelivered, process_empty-IsDelivered}

-- A step with a sound chunk that is not empty, by the outcome of its parsing.
abbrev pub calls_of : Step → List Event
calls_of none = []
calls_of (some (q, es)) = es

-- A fault exactly if a suboption with no byte is reported; else the chunker is tuned again.
abbrev pub Processed : List Event → Option Chunker → Type 0
Processed es none = has_empty es ≡ true
Processed es (some t) = (has_empty es ≡ false) × IsDelivered (some t)

module _ (junk : ℕ) where
  run_step-Processed :
      (c : Chunk) (k : Chunker)
      → IsTuned k
      → IsSound c
      → k.builder.curlen + length (bytes c) < max_pos
      → (g : Chunk) → IsSound g
      → bytes g ≡ kept k.builder.curchunk ++ bytes c
      → (s : Step) → Advances k.parser (k.parser.curpos + length (bytes c)) s
      → Processed (calls_of s) (
          run_step false junk s
            (record k { builder = set_incoming g (k.builder.curlen + length (bytes c)) k.builder })
          >>= trim false junk c (length (bytes c)))
  run_step-Processed c k tuned z h g y e none a = absurd a
  run_step-Processed c k (v, po, l, sq, m) z h g y e (some (q, es)) (w, cp, bt) =
      close (run_step false junk (some (q, es)) k')
        (run_step_lem junk g k' q es (refl, y, len, omega (arith, h)) bt reached sq)
    where
      k' : Chunker
      k' = record k { builder = set_incoming g (k.builder.curlen + length (bytes c)) k.builder }

      len : k.builder.curlen + length (bytes c) ≡ length (bytes g)
      len = omega (arith, l.1, ap length e, length-append (kept k.builder.curchunk) (bytes c))

      reached : q.regionbegin ≤ k.builder.curlen + length (bytes c)
      reached = omega (arith, region_le q w, cp, po)

      close :
          (r : Option Chunker)
          → RunOutcome g k' q es r
          → Processed es (r >>= trim false junk c (length (bytes c)))
      close none o = o
      close (some t) (f, ds, f', b, s) =
          let u = record k' { parser = q; builder = queued (k'.builder) ds } in
          let d =
            trim-IsDelivered junk c u (w, omega (arith, cp, po), (y, len), s, h) z (omega arith)
              reached in
          subst (λ x. Processed es (trim false junk c (length (bytes c)) x)) (sym f')
            (delivered (trim false junk c (length (bytes c)) u) d)
        where
          delivered : (r : Option Chunker) → IsDelivered r → Processed es r
          delivered none d = absurd d
          delivered (some t) d = (f, d)

  -- With the assertions compiled out, `processIncoming` of a sound chunk keeps it that the parser
  -- is valid and stands at the end of what is kept, that the kept length is right and that what is
  -- queued is sound, and afterwards nothing is waiting or a sound chunk is ready. There is one way
  -- to fault: a chunk that is parsed, as it has bytes and nothing is queued, and in which a
  -- suboption with no byte is reported. It makes no difference whether the kept chunks are shared.
  pub process_incoming-IsDelivered :
      (unique : Bool) (c : Chunk) (k : Chunker)
      → IsTuned k
      → IsSound c
      → k.builder.curlen + length (bytes c) < max_pos
      → Processed
          (if has_data k.builder || chunk_length c == 0
            then []
            else calls_of (parse_incoming false junk c k.parser))
          (process_incoming false junk unique c k)
  unfolding process_incoming
  process_incoming-IsDelivered unique c k tuned z h =
      choose (has_data k.builder) (chunk_length c == 0) refl
    where
      n : chunk_length c ≡ length (bytes c)
      n = (chunk_length-bytes c z).0

      calls : List Event
      calls = calls_of (parse_incoming false junk c k.parser)

      fine : (r : Option Chunker) → IsDelivered r → Processed [] r
      fine none d = absurd d
      fine (some t) d = (refl, d)

      parsed : Builder → Option Chunker
      parsed b =
          run_step false junk (parse_incoming false junk c k.parser) (record k { builder = b })
          >>= trim false junk c (chunk_length c)

      filled :
          (chunk_length c == 0) ≡ false
          → Processed calls (add_incoming false junk unique c k.builder >>= parsed)
      filled e =
          let (g, a, y, f) =
            add_incoming_lem junk unique c k.builder tuned.2 z (ground (arith, e, n))
              (omega (arith, h)) in
          rw (a, n)
            (run_step-Processed c k tuned z h g y f (parse_incoming false junk c k.parser)
              (parse_incoming-Advances junk c k.parser z tuned.0 (omega (arith, tuned.1, h))))

      choose :
          (q e : Bool)
          → (chunk_length c == 0) ≡ e
          → Processed (if q || e then [] else calls) (
              if q
              then deliver false junk k
              else if e
              then process_empty false junk c k >>= deliver false junk
              else add_incoming false junk unique c k.builder >>= parsed)
      choose true e f = fine (deliver false junk k) (deliver-IsDelivered junk k tuned)
      choose false true f = fine _ (process_empty-IsDelivered junk c k tuned z)
      choose false false f = filled f
