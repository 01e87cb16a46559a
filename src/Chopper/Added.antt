-- ===== src/Chopper/Added.antt =====
-- The steps by which a chopper takes over bytes.
use mathlib.Core.List.{append-nil, append_assoc}
use str_mod.Base.{
  ℕ, ◌+◌, ◌≤◌, ◌≡◌, refl, sym, ap, subst, ◌∙◌, Bool, true, false, Option, none, some, List, [],
  ◌++◌, length, length-append, take, length-take, arith,
}
use str_mod.LinearExtent.{length_max}
use str_mod.Chunk.Tree.{
  Chunk, buffer, decorator, sub, group, single_char, option_negotiation, suboption, nil, cons,
  bytes, chunk_length, push_back, IsSound,
}
use str_mod.LinearExtent.{add32}
use str_mod.Chunk.Sound.{chunk_length-bytes, push-IsSound}
use str_mod.Base.{resize}
use str_mod.Chopper.{CharChopper, grouped, add_outgoing, add_curdata, add_chunk, copy_bytes}
use str_mod.Chopper.Held.{out, cur, held, OutSound, CurFits, IsGood, limit, Adds, Keeps}
use str_mod.Base.{length-resize, resize_used}
use str_mod.Chopper.Copied.{copied_lem}

-- A new group of two.
alone :
    (o c : Chunk)
    → IsSound o
    → IsSound c
    → length (bytes o) + length (bytes c) ≤ length_max
    → let g = push_back (cons o nil) (add32 0 (chunk_length o)) c in
      IsSound g × (bytes g ≡ bytes o ++ bytes c)
unfolding IsSound bytes
alone o c s t h =
    let lo = chunk_length-bytes o s in
    let lc = chunk_length-bytes c t in
    let e : add32 0 (chunk_length o) ≡ chunk_length o = omega (arith, lo) in
    let one : IsSound (group (cons o nil) (add32 0 (chunk_length o))) =
      ((s, tt), e ∙ lo.0 ∙ ap length (sym (append-nil (bytes o))), omega (arith, e, lo)) in
    let k =
      push-IsSound (cons o nil) (add32 0 (chunk_length o)) c one t (omega (arith, e, lo, lc, h)) in
    (k.0.0, k.1 ∙ ap (λ bs. bs ++ bytes c) (append-nil (bytes o)))

grouped-IsSound :
    (o c : Chunk)
    → IsSound o
    → IsSound c
    → length (bytes o) + length (bytes c) ≤ length_max
    → IsSound (grouped o c) × (bytes (grouped o c) ≡ bytes o ++ bytes c)
unfolding grouped bytes IsSound
grouped-IsSound (group cs total) c s t h =
    let k = push-IsSound cs total c s t (omega (arith, chunk_length-bytes c t, s.1, h)) in
    (k.0.0, k.1)
grouped-IsSound (buffer bs) c s t h = alone (buffer bs) c s t h
grouped-IsSound (decorator d) c s t h = alone (decorator d) c s t h
grouped-IsSound (sub d e) c s t h = alone (sub d e) c s t h
grouped-IsSound (single_char opt) c s t h = alone (single_char opt) c s t h
grouped-IsSound (option_negotiation request opt) c s t h =
    alone (option_negotiation request opt) c s t h
grouped-IsSound (suboption opt raw rawlen cooked) c s t h =
    alone (suboption opt raw rawlen cooked) c s t h

add_outgoing-Adds :
    (c : Chunk) (s : CharChopper)
    → OutSound s.outgoing
    → IsSound c
    → length (out s.outgoing) + length (bytes c) ≤ length_max
    → (OutSound (add_outgoing c s).outgoing
        × (out (add_outgoing c s).outgoing ≡ out s.outgoing ++ bytes c)
        × Keeps s (add_outgoing c s))
unfolding add_outgoing
add_outgoing-Adds c s g t h = go s.outgoing g h
  where
    go :
        (o : Option Chunk)
        → OutSound o
        → length (out o) + length (bytes c) ≤ length_max
        → let r = elim o as (λ _. CharChopper) [
          | some outgoing ↦ record s { outgoing = some (grouped outgoing c); groupdata = true }
          | none ↦ record s { outgoing = some c; groupdata = false }
        ] in
          OutSound r.outgoing × (out r.outgoing ≡ out o ++ bytes c) × Keeps s r
    go none g h = (t, refl, (refl, refl, refl))
    go (some o) g h = let k = grouped-IsSound o c g t h in (k.0, k.1, (refl, refl, refl))

resize-IsSound :
    (junk used : ℕ) (xs : List ℕ)
    → used ≤ length xs
    → used ≤ length_max
    → IsSound (buffer (resize junk used xs)) × (bytes (buffer (resize junk used xs)) ≡ take used xs)
unfolding IsSound bytes
resize-IsSound junk used xs h l =
    (omega (arith, length-resize junk used xs l), resize_used junk used xs h l)

module _ (junk : ℕ) where
  -- What `curdata_` has goes to the outgoing data.
  pub add_curdata-Adds :
      (s : CharChopper)
      → IsGood s
      → length (held s) ≤ length_max
      → Adds s (add_curdata junk s) []
        × (out (add_curdata junk s).outgoing ≡ held s)
        × ((add_curdata junk s).curdata ≡ none)
        × ((add_curdata junk s).incoming ≡ s.incoming)
        × ((add_curdata junk s).outgoing_ready ≡ s.outgoing_ready)
  unfolding add_curdata
  add_curdata-Adds s g h = go s.curdata refl
    where
      go :
          (o : Option (List ℕ))
          → s.curdata ≡ o
          → let t = elim o as (λ _. CharChopper) [
            | none ↦ s
            | some xs ↦ record (add_outgoing (buffer (resize junk s.usedsize xs)) s) {
              curdata = none;
            }
          ] in
            Adds s t []
            × (out t.outgoing ≡ held s)
            × (t.curdata ≡ none)
            × (t.incoming ≡ s.incoming)
            × (t.outgoing_ready ≡ s.outgoing_ready)
      go none e = (
        (g, sym (append-nil (held s))),
        sym (append-nil (out s.outgoing)) ∙ ap (λ o. out s.outgoing ++ cur o s.usedsize) (sym e),
        e,
        refl,
        refl,
      )
      go (some xs) e =
          let f : s.usedsize ≤ length xs = subst (λ o. CurFits o s.usedsize) e g.1 in
          let all : held s ≡ out s.outgoing ++ take s.usedsize xs =
            ap (λ o. out s.outgoing ++ cur o s.usedsize) e in
          let n : length (held s) ≡ length (out s.outgoing) + s.usedsize =
            ap length all
            ∙ length-append (out s.outgoing) (take s.usedsize xs)
            ∙ omega (arith, f, length-take s.usedsize xs) in
          let k = resize-IsSound junk s.usedsize xs f (omega (arith, n, h)) in
          let b = buffer (resize junk s.usedsize xs) in
          let fits : length (out s.outgoing) + length (bytes b) ≤ length_max =
            omega (arith, n, h, ap length k.1, f, length-take s.usedsize xs) in
          let a = add_outgoing-Adds b s g.0 k.0 fits in
          let o = a.1 ∙ ap (λ bs. out s.outgoing ++ bs) k.1 ∙ sym all in
          (
            (
              (a.0, tt),
              append-nil (out (add_outgoing b s).outgoing) ∙ o ∙ sym (append-nil (held s)),
            ),
            o,
            refl,
            a.2.1,
            a.2.2,
          )

  -- A chunk goes behind everything.
  pub add_chunk-Adds :
      (c : Chunk) (s : CharChopper)
      → IsGood s
      → IsSound c
      → length (held s) + length (bytes c) ≤ length_max
      → Adds s (add_chunk junk c s) (bytes c)
        × ((add_chunk junk c s).curdata ≡ none)
        × ((add_chunk junk c s).outgoing_ready ≡ s.outgoing_ready)
  unfolding add_chunk add_outgoing
  add_chunk-Adds c s g t h =
      let k = add_curdata-Adds s g (omega (arith, h)) in
      let u = add_curdata junk s in
      let a = add_outgoing-Adds c u k.0.0.0 t (omega (arith, h, ap length k.1)) in
      let v = add_outgoing c u in
      let e : v.curdata ≡ none = a.2.0 ∙ k.2 in
      (
        (
          (a.0, subst (λ o. CurFits o v.usedsize) (sym e) tt),
          ap (λ o. out v.outgoing ++ cur o v.usedsize) e
              ∙ append-nil (out v.outgoing)
              ∙ a.1
              ∙ ap (λ bs. bs ++ bytes c) k.1,
        ),
        e,
        a.2.2 ∙ k.4,
      )

  -- A copy goes behind everything too, in the buffer.
  pub copy_bytes-Adds :
      (foundchar : Bool) (count : ℕ) (buf : List ℕ) (s : CharChopper)
      → IsGood s
      → count ≡ length buf
      → count ≤ 16
      → length (held s) ≤ limit
      → Adds s (copy_bytes junk foundchar count buf s) buf
  unfolding copy_bytes
  copy_bytes-Adds foundchar count buf s g n c h =
      let part = length-append (out s.outgoing) (cur s.curdata s.usedsize) in
      let k =
        copied_lem junk foundchar count buf s.curdata s.usedsize g.1 n c (omega (arith, h, part)) in
      (
        (g.0, k.0),
        ap (λ bs. out s.outgoing ++ bs) k.1
            ∙ sym (append_assoc (out s.outgoing) (cur s.curdata s.usedsize) buf),
      )
