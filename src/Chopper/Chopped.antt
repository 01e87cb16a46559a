-- ===== src/Chopper/Chopped.antt =====
-- What a chopper does with the stream.
use mathlib.Core.List.{append-nil, append_assoc}
use str_mod.Base.{
  ℕ, ◌+◌, ◌<◌, ◌≤◌, ◌≡◌, refl, sym, ap, ap₂, subst, ◌∙◌, Bool, true, false, if◌then◌else◌, leb,
  none, some, List, [], ◌++◌, length, length-append, take, drop, length-take, take_all, arith,
}
use str_mod.LinearExtent.{extent, length_max}
use str_mod.Chunk.Tree.{Chunk, bytes, chunk_length, str_sub_chunk, IsSound}
use str_mod.Chunk.Sound.{chunk_length-bytes}
use str_mod.Chopper.{
  CharChopper, in_maybe, scan, add_curdata, add_chunk, check_incoming, drop_incoming, left_over,
  keep_front, process_incoming,
}
use str_mod.Chopper.Held.{out, held, OutSound, IsGood, limit, Adds}
use str_mod.Chopper.Added.{add_curdata-Adds, add_chunk-Adds}
use str_mod.Chopper.Pieces.{
  Absent, Piece, take-drop, scan-length, scan-Absent, scan-Piece, append-Piece, Absent-append,
}
use str_mod.Chopper.Front.{left_over_lem, keep_front-Adds}

-- all bytes that are on their way
abbrev pub in_flight : CharChopper → List ℕ
in_flight s = held s ++ out s.incoming

-- What is ready is one piece; what is not has no end of a piece in it, and all that came is in it.
abbrev pub ReadyFits : ℕ → Bool → CharChopper → Type 0
ReadyFits chopchar true s = Piece chopchar (out s.outgoing) × (s.curdata ≡ none)
ReadyFits chopchar false s = Absent chopchar (held s) × (s.incoming ≡ none)

abbrev pub IsChopped : ℕ → CharChopper → Type 0
IsChopped chopchar s = IsGood s × OutSound s.incoming × ReadyFits chopchar s.outgoing_ready s

module _ (junk chopchar : ℕ) (ascii : chopchar < 128) where
  process_found :
      (incoming : Chunk) (s t : CharChopper) (b : Bool)
      → IsGood s
      → Absent chopchar (held s)
      → IsSound incoming
      → length (held s) + length (bytes incoming) ≤ limit
      → (scan chopchar (bytes incoming)).1 ≡ b
      → Adds s t (take (scan chopchar (bytes incoming)).0 (bytes incoming))
      → let u =
          drop_incoming incoming (scan chopchar (bytes incoming)).0 (chunk_length incoming) t in
        let v = record (if b then add_curdata junk u else u) { outgoing_ready = b } in
        IsChopped chopchar v × (in_flight v ≡ held s ++ bytes incoming)
  unfolding drop_incoming left_over
  process_found incoming s t true g a i h e k =
      let xs = bytes incoming in
      let n = (scan chopchar xs).0 in
      let len = chunk_length-bytes incoming i in
      let u = drop_incoming incoming n (chunk_length incoming) t in
      let l =
        left_over_lem (leb (chunk_length incoming) n) incoming n (chunk_length incoming) i
          (omega (arith, len)) (omega (arith, len, h)) (scan-length chopchar xs) refl in
      let fits : length (held u) ≤ length_max =
        omega (arith, h, ap length k.1, length-append (held s) (take n xs), length-take n xs) in
      let c = add_curdata-Adds junk u k.0 fits in
      let w = add_curdata junk u in
      let piece = append-Piece chopchar (held s) (take n xs) a (scan-Piece chopchar ascii xs e) in
      (
        (
          c.0.0,
          subst OutSound (sym c.3) l.0,
          (subst (Piece chopchar) (sym (c.1 ∙ k.1)) piece, c.2),
        ),
        ap₂ (λ bs cs. bs ++ cs) (c.0.1 ∙ append-nil (held u) ∙ k.1) (ap out c.3 ∙ l.1)
            ∙ append_assoc (held s) (take n xs) (drop n xs)
            ∙ ap (λ bs. held s ++ bs) (take-drop n xs),
      )
  process_found incoming s t false g a i h e k =
      let xs = bytes incoming in
      let n = (scan chopchar xs).0 in
      let len = chunk_length-bytes incoming i in
      let f = scan-Absent chopchar ascii xs e in
      let all : take n xs ≡ xs = take_all n xs (omega (arith, f.0)) in
      let over : leb (chunk_length incoming) n ≡ true = ground (arith, f.0, len.0) in
      let none_left : left_over incoming n (chunk_length incoming) ≡ none =
        ap
          (λ b.
            if b then none else some (str_sub_chunk incoming (extent n (chunk_length incoming))))
          over in
      (
        (
          k.0,
          subst OutSound (sym none_left) tt,
          (
            subst (Absent chopchar) (sym (k.1 ∙ ap (λ bs. held s ++ bs) all))
                (Absent-append chopchar (held s) xs a f.1),
            none_left,
          ),
        ),
        ap₂ (λ bs cs. bs ++ cs) (k.1 ∙ ap (λ bs. held s ++ bs) all) (ap out none_left)
            ∙ append-nil (held s ++ xs),
      )

  -- `processIncoming` of a sound chunk for a character below 128, where nothing is ready and what is held has no end of a
  -- piece: afterwards a whole piece is ready or no end of one has come, and no byte is lost.
  pub process_incoming-IsChopped :
      (incoming : Chunk) (s : CharChopper)
      → IsGood s
      → Absent chopchar (held s)
      → s.outgoing_ready ≡ false
      → IsSound incoming
      → length (held s) + length (bytes incoming) ≤ limit
      → let t = process_incoming junk chopchar incoming s in
        IsChopped chopchar t × (in_flight t ≡ held s ++ bytes incoming)
  unfolding process_incoming check_incoming
  process_incoming-IsChopped incoming s g a r i h = go (leb (chunk_length incoming) 0) refl
    where
      go :
          (t : Bool)
          → leb (chunk_length incoming) 0 ≡ t
          → let s₀ = check_incoming incoming s in
            let inlen = chunk_length incoming in
            let found = scan chopchar (bytes incoming) in
            let u =
              drop_incoming incoming found.0 inlen
                (keep_front junk incoming found.1 found.0 inlen s₀) in
            let v =
              if t
              then record (add_chunk junk incoming s₀) {
                incoming = none;
                incoming_is_bc = in_maybe;
              }
              else record (if found.1 then add_curdata junk u else u) {
                outgoing_ready = found.1;
              } in
            IsChopped chopchar v × (in_flight v ≡ held s ++ bytes incoming)
      go true e =
          let s₀ = check_incoming incoming s in
          let k = add_chunk-Adds junk incoming s₀ g i (omega (arith, h)) in
          let t = add_chunk junk incoming s₀ in
          let len = chunk_length-bytes incoming i in
          let zero_length : chunk_length incoming ≤ 0 = ground (arith, e) in
          let empty : [] ≡ bytes incoming =
            take_all 0 (bytes incoming) (omega (arith, len, zero_length)) in
          let absent =
            Absent-append chopchar (held s) (bytes incoming) a (subst (Absent chopchar) empty tt) in
          (
            (
              k.0.0,
              tt,
              subst
                  (λ b.
                    ReadyFits chopchar b (record t { incoming = none; incoming_is_bc = in_maybe }))
                  (sym (k.2 ∙ r)) (subst (Absent chopchar) (sym k.0.1) absent, refl),
            ),
            append-nil (held t) ∙ k.0.1,
          )
      go false e =
          let s₀ = check_incoming incoming s in
          let xs = bytes incoming in
          let found = scan chopchar xs in
          let t = keep_front junk incoming found.1 found.0 (chunk_length incoming) s₀ in
          process_found incoming s₀ t found.1 g a i h refl
            (keep_front-Adds junk incoming found.1 found.0 s₀ g i (scan-length chopchar xs) h)
