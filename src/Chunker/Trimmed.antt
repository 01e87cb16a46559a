-- ===== src/Chunker/Trimmed.antt =====
-- The end of `processIncoming`, and its branch for an empty chunk.
use str_mod.Base.{
  ℕ, ◌-◌, ◌≤◌, ◌<◌, ◌≡◌, inl, inr, refl, sym, ap, subst, ◌∙◌, Bool, true, false, not, ◌&&◌, leb,
  ◌==◌, if◌then◌else◌, Option, none, some, length, arith, Bool-cases, ==_iff, ltb, sub64,
}
use str_mod.Chunk.Tree.{Chunk, bytes, IsSound}
use str_mod.Chunker.{
  Chunker, ◌>>=◌, add_outgoing, set_incoming, has_data, drop_front, without_incoming,
  max_suboptsize, reset_parser, deliver, process_empty, trim,
}
use str_mod.Chunker.Tuned.{
  region_le, snoc-QueueSound, IsTuned, IsReset, reset_parser-IsReset, drop_all-IsTuned,
  drop_bytes-IsValid, IsDelivered, deliver-IsDelivered,
}

module _ (junk : ℕ) where
  -- the branch of `trim` for a suboption that has grown too long
  trim_reset :
      (k : Chunker) (r : Option Chunker)
      → IsReset k r
      → IsDelivered (
          r >>= λ t.
          let u = without_incoming (drop_front k.builder.curlen t) in
          if has_data u.builder then deliver false junk u else some (record u { incoming = none }))
  trim_reset k none h = absurd h
  trim_reset k (some t) (v, b, e) = go (has_data t.builder)
    where
      u : Chunker
      u = without_incoming (drop_front k.builder.curlen t)

      tuned : IsTuned u
      tuned = drop_all-IsTuned k.builder.curlen t v b e

      go :
          (q : Bool)
          → IsDelivered (if q then deliver false junk u else some (record u { incoming = none }))
      go true = deliver-IsDelivered junk u tuned
      go false = (tuned, inl refl)

  trim_front :
      (c : Chunk) (k : Chunker)
      → IsTuned k
      → IsSound c
      → length (bytes c) ≤ k.builder.curlen
      → k.builder.curlen - k.parser.regionbegin ≤ length (bytes c)
      → let u = drop_front (k.builder.curlen - length (bytes c)) k in
        IsTuned (record u { builder = set_incoming c (length (bytes c)) u.builder })
  trim_front c k (v, p, l, s, m) z h n =
      let d =
        drop_bytes-IsValid (k.builder.curlen - length (bytes c)) k.parser v (omega arith)
          (omega (arith, p, m)) in
      (d.0, omega (arith, d.1, p, h), (z, refl), s, omega (arith, h, m))

  pub trim-IsDelivered :
      (c : Chunk) (k : Chunker)
      → IsTuned k
      → IsSound c
      → length (bytes c) ≤ k.builder.curlen
      → k.parser.regionbegin ≤ k.builder.curlen
      → IsDelivered (trim false junk c (length (bytes c)) k)
  unfolding trim
  trim-IsDelivered c k tuned z h w =
      elim (Bool-cases (ltb max_suboptsize (sub64 k.builder.curlen k.parser.regionbegin))) [
        | inl long ↦ rw long (
            trim_reset k (reset_parser false junk k)
              (reset_parser-IsReset junk k tuned (too_long long)))
        | inr short ↦ rw short (go _ refl)
      ]
    where
      n : ℕ
      n = length (bytes c)

      u : Chunker
      u = drop_front (sub64 k.builder.curlen n) k

      pending :
          sub64 k.builder.curlen k.parser.regionbegin ≡ k.builder.curlen - k.parser.regionbegin
      pending = omega (arith, w, tuned.4)

      too_long :
          ltb max_suboptsize (sub64 k.builder.curlen k.parser.regionbegin) ≡ true
          → k.parser.regionbegin < k.builder.curlen
      too_long q = ground (arith, pending, w)

      front : sub64 k.builder.curlen n ≡ k.builder.curlen - n
      front = omega (arith, h, tuned.4)

      rest : Bool → Chunker
      rest q = if q then record u { builder = set_incoming c n u.builder } else k

      rest-IsTuned :
          (q : Bool)
          → (not (k.parser.regionbegin == 0) && leb (sub64 k.builder.curlen k.parser.regionbegin) n)
            ≡ q
          → IsTuned (rest q)
      rest-IsTuned true e =
          subst
            (λ i.
              IsTuned
                (record (drop_front i k) { builder = set_incoming c n (drop_front i k).builder }))
            (sym front) (trim_front c k tuned z h (ground (arith, e, pending)))
      rest-IsTuned false e = tuned

      go :
          (q : Bool)
          → (k.parser.regionbegin == k.builder.curlen) ≡ q
          → IsDelivered (
              if q
              then deliver false junk (without_incoming (drop_front k.builder.curlen k))
              else deliver false junk (
                  rest (
                    not (k.parser.regionbegin == 0)
                    && leb (sub64 k.builder.curlen k.parser.regionbegin) n)))
      go true e =
          deliver-IsDelivered junk _
            (drop_all-IsTuned k.builder.curlen k tuned ((==_iff _ _).0 e) refl)
      go false e = deliver-IsDelivered junk _ (rest-IsTuned _ refl)

  reset_empty-IsTuned :
      (c : Chunk) (k : Chunker) (r : Option Chunker)
      → IsSound c
      → IsReset k r
      → IsDelivered (
          r >>= λ t.
          let u = without_incoming (drop_front t.parser.regionbegin t) in
          deliver false junk (record u { builder = add_outgoing c u.builder }))
  reset_empty-IsTuned c k none z h = absurd h
  reset_empty-IsTuned c k (some t) z (v, b, e) =
      let u = drop_all-IsTuned t.parser.regionbegin t v refl (omega (arith, b, e)) in
      deliver-IsDelivered junk _ (u.0, u.1, u.2, snoc-QueueSound t.builder.chunks c u.3 z, u.4)

  -- An empty chunk is passed on behind what a reset reports.
  pub process_empty-IsDelivered :
      (c : Chunk) (k : Chunker)
      → IsTuned k
      → IsSound c
      → IsDelivered (process_empty false junk c k >>= deliver false junk)
  unfolding process_empty
  process_empty-IsDelivered c k (v, p, l, s, m) z =
      go (k.parser.regionbegin == k.builder.curlen) refl
    where
      bind_assoc :
          (r : Option Chunker) (f g : Chunker → Option Chunker)
          → (r >>= λ t. f t >>= g) ≡ (r >>= f >>= g)
      bind_assoc none f g = refl
      bind_assoc (some t) f g = refl

      front : Chunker → Option Chunker
      front t =
          let u = without_incoming (drop_front t.parser.regionbegin t) in
          some (record u { builder = add_outgoing c u.builder })

      behind : k.parser.regionbegin ≤ k.builder.curlen
      behind = omega (arith, region_le k.parser v, p)

      go :
          (q : Bool)
          → (k.parser.regionbegin == k.builder.curlen) ≡ q
          → IsDelivered (
              (if q then some k else reset_parser false junk k >>= λ t. some t)
              >>= front
              >>= deliver false junk)
      go true e =
          let b = (==_iff _ _).0 e in
          let u = drop_all-IsTuned k.parser.regionbegin k (v, p, l, s, m) refl (sym b) in
          deliver-IsDelivered junk _ (u.0, u.1, u.2, snoc-QueueSound k.builder.chunks c u.3 z, u.4)
      go false e =
          subst IsDelivered
            (bind_assoc (reset_parser false junk k) front (deliver false junk)
              ∙ ap (λ r. r >>= front >>= deliver false junk)
                  (sym (same (reset_parser false junk k))))
            (reset_empty-IsTuned c k (reset_parser false junk k) z
              (reset_parser-IsReset junk k (v, p, l, s, m) (ground (arith, e, behind))))
        where
          same : (r : Option Chunker) → (r >>= λ t. some t) ≡ r
          same none = refl
          same (some t) = refl
