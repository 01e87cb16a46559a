-- ===== src/Chopper/Stream.antt =====
-- What is written to a chopper and read from it.
use mathlib.Core.List.{append-nil}
use str_mod.Base.{
  ℕ, ◌+◌, ◌<◌, ◌≤◌, ◌≡◌, refl, sym, ap, ap₂, subst, ◌∙◌, Bool, true, false, if◌then◌else◌, Option,
  none, some, [], ◌++◌, length, length-append, arith,
}
use str_mod.Chunk.Tree.{Chunk, bytes, IsSound}
use str_mod.Chopper.{CharChopper, process_incoming, write_to, read_from}
use str_mod.Chopper.Held.{out, cur, held, OutSound, limit}
use str_mod.Chopper.Pieces.{Absent, Piece}
use str_mod.Chopper.Chopped.{in_flight, ReadyFits, IsChopped, process_incoming-IsChopped}

module _ (junk chopchar : ℕ) (ascii : chopchar < 128) where
  -- `writeTo` of a sound chunk, for a character below 128, where none is waiting: the chopper stays as above, with the chunk's
  -- bytes behind all others, whether or not a piece is ready.
  pub write_to-IsChopped :
      (chnk : Chunk) (s : CharChopper)
      → IsChopped chopchar s
      → s.incoming ≡ none
      → IsSound chnk
      → length (held s) + length (bytes chnk) ≤ limit
      → let t = write_to junk chopchar chnk s in
        IsChopped chopchar t × (in_flight t ≡ in_flight s ++ bytes chnk)
  unfolding write_to
  write_to-IsChopped chnk s k n i h = go s.outgoing_ready refl
    where
      bytes_behind : held s ++ bytes chnk ≡ in_flight s ++ bytes chnk
      bytes_behind =
          ap (λ bs. bs ++ bytes chnk) (sym (ap (λ o. held s ++ out o) n ∙ append-nil (held s)))

      go :
          (b : Bool)
          → s.outgoing_ready ≡ b
          → let t = record s { incoming = some chnk } in
            let u = if b then t else process_incoming junk chopchar chnk t in
            IsChopped chopchar u × (in_flight u ≡ in_flight s ++ bytes chnk)
      go true e =
          let fits = subst (λ b. ReadyFits chopchar b s) e k.2 in
          let t = record s { incoming = some chnk } in
          ((k.0, i, subst (λ b. ReadyFits chopchar b t) (sym e) fits), bytes_behind)
      go false e =
          let fits = subst (λ b. ReadyFits chopchar b s) e k.2 in
          let t = record s { incoming = some chnk } in
          let r = process_incoming-IsChopped junk chopchar ascii chnk t k.0 fits.0 e i h in
          (r.0, r.1 ∙ bytes_behind)

  -- `readFrom`, for a character below 128, where a piece is ready: it is what ends with the first `chopchar` of all bytes on
  -- their way, the others stay, and the chopper is as above again.
  pub read_from-IsChopped :
      (s : CharChopper)
      → IsChopped chopchar s
      → s.outgoing_ready ≡ true
      → length (in_flight s) ≤ limit
      → let r = read_from junk chopchar s in
        Piece chopchar (out r.0) × IsChopped chopchar r.1 × (out r.0 ++ in_flight r.1 ≡ in_flight s)
  unfolding read_from
  read_from-IsChopped s k e h = let r = read s.incoming refl k.1 in (fits.0, r.0, r.1)
    where
      fits : ReadyFits chopchar true s
      fits = subst (λ b. ReadyFits chopchar b s) e k.2

      t : CharChopper
      t = record s { outgoing = none; outgoing_ready = false }

      nothing : held t ≡ []
      nothing = ap (λ o. cur o s.usedsize) fits.1

      whole : held s ≡ out s.outgoing
      whole = ap (λ o. out s.outgoing ++ cur o s.usedsize) fits.1 ∙ append-nil (out s.outgoing)

      absent : Absent chopchar (held t)
      absent = subst (Absent chopchar) (sym nothing) tt

      read :
          (o : Option Chunk)
          → s.incoming ≡ o
          → OutSound s.incoming
          → let u = elim o as (λ _. CharChopper) [
            | none ↦ t
            | some incoming ↦ process_incoming junk chopchar incoming t
          ] in
            IsChopped chopchar u × (out s.outgoing ++ in_flight u ≡ in_flight s)
      read none f i = (
        ((tt, k.0.1), i, (absent, f)),
        ap (λ bs. out s.outgoing ++ (bs ++ out s.incoming)) nothing
            ∙ ap (λ bs. bs ++ out s.incoming) (sym whole),
      )
      read (some c) f i =
          let sound : IsSound c = subst OutSound f i in
          let n : length (in_flight s) ≡ length (held s) + length (bytes c) =
            length-append (held s) (out s.incoming)
            ∙ ap (λ o. length (held s) + length (out o)) f in
          let r =
            process_incoming-IsChopped junk chopchar ascii c t (tt, k.0.1) absent refl sound
              (omega (arith, ap length nothing, n, h)) in
          (
            r.0,
            ap (λ bs. out s.outgoing ++ bs) (r.1 ∙ ap (λ bs. bs ++ bytes c) nothing)
                ∙ ap₂ (λ bs o. bs ++ out o) (sym whole) (sym f),
          )
