-- ===== src/Plug/Pushed.antt =====
-- What the loop of `pushLoop` moves between modules that keep to their part.
use mathlib.Core.List.{append_assoc}
use str_mod.Base.{
  ℕ, zero, suc, ◌≤◌, ◌==◌, ◌&&◌, ◌≡◌, refl, sym, ap, ap₂, subst, ◌∙◌, Bool, true, false,
  if◌then◌else◌, Option, none, some, List, [], ◌∷◌, ◌++◌, length, arith,
}
use str_mod.Plug.{
  Plug, Net, on, with_reading, with_writing, is_readable, is_plugged, is_writeable, plugged_into,
  start_writing, stop_writing, follow_writing, push_from, push_loop,
}
use str_mod.Plug.Linked.{other_of, on_here}

both : (a b : Bool) → (a && b) ≡ true → (a ≡ true) × (b ≡ true)
both a b h = ground arith

equal : (q : ℕ) → (q == q) ≡ true
equal q = ground arith

kept {ℓ} :
    {A : Type ℓ} {U : Type 0} (g : Plug → A) (f : Plug → Plug)
    → ((x : Plug) → g (f x) ≡ g x)
    → (r s : ℕ) (w : Net U) → g ((on r f w).plug s) ≡ g (w.plug s)
kept g f h r s w = go (s == r)
  where
    go : (b : Bool) → g (if b then f (w.plug s) else w.plug s) ≡ g (w.plug s)
    go true = h (w.plug s)
    go false = refl

module _ {U C : Type 0} (source sink : U → List C) where
  abbrev can_move : ℕ → ℕ → Net U → Bool
  can_move p q w = (w.plug p).flags.canread && (w.plug q).flags.canwrite

  -- A readable plug has a chunk to read.
  abbrev pub NotDry : ℕ → Net U → Type 0
  NotDry p w = (w.plug p).flags.canread ≡ true → 1 ≤ length (source w.user)

  -- What is documented of `i_Read` of a readable plug: it gives the next chunk. It does not fill up
  -- the plug that is written, nor pull out its own.
  abbrev pub Reads : (ℕ → Net U → C × Net U) → ℕ → ℕ → Type 0
  Reads i_read p q =
      (w : Net U)
      → NotDry p w
      → (w.plug p).flags.canread ≡ true
      → (source w.user ≡ (i_read p w).0 ∷ source (i_read p w).1.user)
        × (sink (i_read p w).1.user ≡ sink w.user)
        × (((i_read p w).1.plug q).flags.canwrite ≡ (w.plug q).flags.canwrite)
        × (other_of p (i_read p w).1 ≡ other_of p w)
        × NotDry p (i_read p w).1

  -- What is documented of `i_Write` to a writeable plug: it takes the chunk. It does not pull out the
  -- other plug.
  abbrev pub WritesTo : (ℕ → C → Net U → Net U) → ℕ → ℕ → Type 0
  WritesTo i_write p q =
      (w : Net U) (c : C)
      → NotDry p w
      → (w.plug q).flags.canwrite ≡ true
      → (sink (i_write q c w).user ≡ sink w.user ++ (c ∷ []))
        × (source (i_write q c w).user ≡ source w.user)
        × (other_of p (i_write q c w) ≡ other_of p w)
        × NotDry p (i_write q c w)

  module _ (i_read : ℕ → Net U → C × Net U) (i_write : ℕ → C → Net U → Net U) where
    -- The chunks that were with both are with both, in their order.
    abbrev pub Moved : Net U → Net U → Type 0
    Moved w t = sink t.user ++ source t.user ≡ sink w.user ++ source w.user

    abbrev Stopped : ℕ → ℕ → Net U → Type 0
    Stopped p q t = ((t.plug p).flags.canread && (t.plug q).flags.canwrite) ≡ false

    -- The loop came back for plug `q`, with all that can be moved moved.
    abbrev Pushes : Option (Option ℕ × Net U) → ℕ → ℕ → Net U → Type 0
    Pushes o p q w =
        (t : Net U) × (o ≡ some (some q, t)) × Moved w t × Stopped p q t × (other_of p t ≡ some q)

    follow_lem : (p q : ℕ) (w : Net U) → other_of p w ≡ some q → follow_writing p q w ≡ (some q, w)
    follow_lem p q w e =
        let same : plugged_into (w.plug p) (some q) ≡ true =
          ap (λ o. elim o as (λ _. Bool) [ none ↦ false | some r ↦ r == q ]) e ∙ equal q in
        ap
          (λ b.
            if b
            then (some q, w)
            else (let v = on q (with_writing false) w in
                ((v.plug p).other, start_writing (v.plug p).other v)))
          same

    push_from_lem :
        (fuel p q : ℕ) (w : Net U)
        → Reads i_read p q
        → WritesTo i_write p q
        → other_of p w ≡ some q
        → NotDry p w
        → length (source w.user) ≤ fuel
        → Pushes (push_from i_read i_write fuel p (some q) w) p q w
    unfolding push_from
    push_from_lem zero p q w r s e d h = go (can_move p q w) refl
      where
        go : (b : Bool) → can_move p q w ≡ b → Pushes (if b then none else some (some q, w)) p q w
        go true g =
            let k = r w d (both (w.plug p).flags.canread (w.plug q).flags.canwrite g).0 in
            absurd (omega (arith, h, ap length k.0))
        go false g = (w, refl, refl, g, e)
    push_from_lem (suc fuel) p q w r s e d h =
        go (can_move p q w) refl (λ v. push_from_lem fuel p q v r s)
      where
        go :
            (b : Bool)
            → can_move p q w ≡ b
            → ((v : Net U)
                → other_of p v ≡ some q
                → NotDry p v
                → length (source v.user) ≤ fuel
                → Pushes (push_from i_read i_write fuel p (some q) v) p q v)
            → let r = i_read p w in
              let f = follow_writing p q (i_write q r.0 r.1) in
              Pushes (if b then push_from i_read i_write fuel p f.0 f.1 else some (some q, w)) p q w
        go false g ih = (w, refl, refl, g, e)
        go true g ih =
            let can = both (w.plug p).flags.canread (w.plug q).flags.canwrite g in
            let k = r w d can.0 in
            let u = (i_read p w).1 in
            let c = (i_read p w).0 in
            let l = s u c k.4 (k.2 ∙ can.1) in
            let v = i_write q c u in
            let o : other_of p v ≡ some q = l.2 ∙ k.3 ∙ e in
            let (t, m, n, x, y) = ih v o l.3 (omega (arith, h, ap length k.0, ap length l.1)) in
            (
              t,
              ap (λ f. push_from i_read i_write fuel p f.0 f.1) (follow_lem p q v o) ∙ m,
              n
                  ∙ ap₂ (λ a b. a ++ b) (l.0 ∙ ap (λ a. a ++ (c ∷ [])) k.1) l.1
                  ∙ append_assoc (sink w.user) (c ∷ []) (source u.user)
                  ∙ ap (λ a. sink w.user ++ a) (sym k.0),
              x,
              y,
            )

    -- the end of `pushLoop`, and its part behind the assertions
    abbrev ended : ℕ → Option (Option ℕ × Net U) → Option (Net U)
    ended p none = none
    ended p (some r) = some (stop_writing r.0 (on p (with_reading false) r.1))

    abbrev body : ℕ → ℕ → Net U → Option ℕ → Option (Net U)
    body fuel p w o =
        ended p (push_from i_read i_write fuel p o (on p (with_reading true) (start_writing o w)))

    start_lem :
        (p q : ℕ) (w : Net U)
        → other_of p w ≡ some q
        → let v = on p (with_reading true) (start_writing (some q) w) in
          (v.user ≡ w.user)
          × (other_of p v ≡ some q)
          × ((v.plug p).flags.canread ≡ (w.plug p).flags.canread)
    start_lem p q w e = go (is_writeable (w.plug q))
      where
        go :
            (b : Bool)
            → let v = on p (with_reading true) (if b then on q (with_writing true) w else w) in
              (v.user ≡ w.user)
              × (other_of p v ≡ some q)
              × ((v.plug p).flags.canread ≡ (w.plug p).flags.canread)
        go true = (
          refl,
          kept (λ x. x.other) (with_reading true) (λ x. refl) p p (on q (with_writing true) w)
              ∙ kept (λ x. x.other) (with_writing true) (λ x. refl) q p w
              ∙ e,
          kept (λ x. x.flags.canread) (with_reading true) (λ x. refl) p p
                (on q (with_writing true) w)
              ∙ kept (λ x. x.flags.canread) (with_writing true) (λ x. refl) q p w,
        )
        go false = (
          refl,
          kept (λ x. x.other) (with_reading true) (λ x. refl) p p w ∙ e,
          kept (λ x. x.flags.canread) (with_reading true) (λ x. refl) p p w,
        )

    -- `pushLoop` of a readable plug, with modules that keep to their part, comes back after as many
    -- steps as there are chunks at most: none is lost, and their order stays; then no more can be
    -- moved, and neither plug is marked as being read or written.
    pub push_loop-Moved :
        (fuel p q : ℕ) (w : Net U)
        → Reads i_read p q
        → WritesTo i_write p q
        → other_of p w ≡ some q
        → NotDry p w
        → is_readable (w.plug p) ≡ true
        → length (source w.user) ≤ fuel
        → (t : Net U) × (push_loop i_read i_write fuel p w ≡ some t)
          × Moved w t
          × (((t.plug p).flags.canread && (t.plug q).flags.canwrite) ≡ false)
          × ((t.plug p).flags.isreading ≡ false)
          × ((t.plug q).flags.iswriting ≡ false)
    unfolding push_loop
    push_loop-Moved fuel p q w r s e d a h =
        let begun = on p (with_reading true) (start_writing (some q) w) in
        let b = start_lem p q w e in
        let (t, m, n, x, y) =
          push_from_lem fuel p q begun r s b.1
            (λ c. subst (λ u. 1 ≤ length (source u)) (sym b.0) (d (sym b.2 ∙ c)))
            (subst (λ u. length (source u) ≤ fuel) (sym b.0) h) in
        let u = on p (with_reading false) t in
        (
          on q (with_writing false) u,
          ap (λ c. if c && is_plugged (w.plug p) then body fuel p w (w.plug p).other else none) a
              ∙ ap
                  (λ o.
                    if is_plugged (record (w.plug p) { other = o }) then body fuel p w o else none)
                  e
              ∙ ap (ended p) m,
          n ∙ ap (λ v. sink v ++ source v) b.0,
          ap₂ ◌&&◌
                (kept (λ z. z.flags.canread) (with_writing false) (λ z. refl) q p u
                  ∙ kept (λ z. z.flags.canread) (with_reading false) (λ z. refl) p p t)
                (kept (λ z. z.flags.canwrite) (with_writing false) (λ z. refl) q q u
                  ∙ kept (λ z. z.flags.canwrite) (with_reading false) (λ z. refl) p q t)
              ∙ x,
          kept (λ z. z.flags.isreading) (with_writing false) (λ z. refl) q p u
              ∙ ap (λ z. z.flags.isreading) (on_here p (with_reading false) t),
          ap (λ z. z.flags.iswriting) (on_here q (with_writing false) u),
        )
