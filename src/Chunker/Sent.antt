-- ===== src/Chunker/Sent.antt =====
-- Suboptions that reach a chunker with nothing pending.
use str_mod.Base.{
  ℕ, ◌+◌, ◌<◌, ◌≡◌, refl, ap, Bool, true, false, ◌==◌, Option, none, some, List, [], ◌∷◌, length,
  arith,
}
use str_mod.Chunk.Tree.{Chunk, buffer, suboption, chunk_length, bytes, IsSound}
use str_mod.Telnet.Chars.{iac, sb, se}
use str_mod.Telnet.State.{max_pos}
use str_mod.Telnet.Suboption.{escaped, length-escaped}
use str_mod.Chunker.{
  Builder, Chunker, has_data, max_suboptsize, drop_front, without_incoming, set_incoming, deliver,
  trim, run_step, parse_incoming, add_incoming, process_incoming,
}
use str_mod.Chunker as C
use str_mod.Chunker.Cooked.{cooked_to_raw, new_suboption, cooked_to_raw-escaped}
use str_mod.Chunker.Idle.{IsIdle, Ready, received}

module _ (junk : ℕ) where
  -- What a `Suboption` of any type but 255 and of any bytes but none is sent as, whether or not the
  -- assertions are compiled in where it is made, comes out of an idle chunker as one suboption of
  -- that type, with those bytes cooked and with each IAC doubled as its raw ones; nothing is left
  -- behind. Positions stay below 2 ^ 31.
  pub new_suboption-process_incoming :
      (asserts unique : Bool) (t : ℕ) (bs : List ℕ) (k : Chunker)
      → IsIdle k
      → (t == 255) ≡ false
      → 0 < length bs
      → length (escaped bs) + 5 < max_pos
      → (d : Chunk) × (u : Chunker) × (raw : Chunk) × (new_suboption asserts junk t bs ≡ some d)
        × (process_incoming false junk unique d k ≡ some u)
        × (u.outgoing ≡ some (suboption t raw (length (escaped bs)) bs))
        × (bytes raw ≡ escaped bs)
        × (u.outgoing_ready ≡ true)
        × (u.incoming ≡ none)
        × (has_data u.builder ≡ false)
  unfolding new_suboption IsSound bytes
  new_suboption-process_incoming asserts unique t bs k i f p h =
      let (u, e, (l, w, o, q, (raw, out, same))) =
        result (process_incoming false junk unique d k) refl
          (received junk unique t bs k d i (omega (arith, h), refl, omega (arith, h)) refl f h) in
      (
        d,
        u,
        raw,
        ap (λ r. C.◌>>=◌ r (λ raw. some (suboption t raw (chunk_length raw) bs))) made,
        e,
        out,
        same,
        o,
        w,
        q,
      )
    where
      d : Chunk
      d = suboption t (buffer (escaped bs)) (length (escaped bs)) bs

      made : cooked_to_raw asserts junk bs ≡ some (buffer (escaped bs))
      made = cooked_to_raw-escaped asserts junk bs (omega (arith, h))

      result :
          (r : Option Chunker)
          → process_incoming false junk unique d k ≡ r
          → Ready junk t bs r
          → (u : Chunker) × (process_incoming false junk unique d k ≡ some u)
            × Ready junk t bs (some u)
      result none e z = absurd (ground (arith, z, length-escaped bs, p))
      result (some u) e z = (u, e, z)

  -- A suboption with no byte, IAC SB, a type but 255, IAC SE, makes an idle chunker fault, with the
  -- assertions compiled out: the length of raw data that are not there is asked for.
  pub process_incoming_faults :
      (unique : Bool) (t : ℕ) (k : Chunker) (d : Chunk)
      → IsIdle k
      → IsSound d
      → bytes d ≡ iac ∷ sb ∷ t ∷ iac ∷ se ∷ []
      → (t == 255) ≡ false
      → process_incoming false junk unique d k ≡ none
  process_incoming_faults unique t k d i s e f =
      go (process_incoming false junk unique d k)
        (received junk unique t [] k d i s e f (omega arith))
    where
      go : (r : Option Chunker) → Ready junk t [] r → r ≡ none
      go none z = refl
      go (some u) z = cc (z.0)
