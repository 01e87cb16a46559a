-- ===== src/Plug/Linked.antt =====
-- Which plugs are plugged into which.
use str_mod.Base.{
  ℕ, suc, ◌==◌, ◌≡◌, ◌≢◌, sym, ap, ◌∙◌, ◌⊎◌, inl, inr, Bool, true, false, if◌then◌else◌, Option,
  none, some, arith,
}
use str_mod.Plug.{Plug, Net, cleared, on, link, unplug}

eq_cases : (a b : ℕ) → ((a ≡ b) × ((a == b) ≡ true)) ⊎ ((a ≢ b) × ((a == b) ≡ false))
eq_cases a b = ground arith

paired :
    (p q r s : ℕ) (o o' : ℕ → Option ℕ)
    → o p ≡ none
    → o q ≡ none
    → ((r ≡ q) × (o' r ≡ some p))
      ⊎ ((r ≢ q) × (r ≡ p) × (o' r ≡ some q))
      ⊎ ((r ≢ q) × (r ≢ p) × (o' r ≡ o r))
    → ((s ≡ q) × (o' s ≡ some p))
      ⊎ ((s ≢ q) × (s ≡ p) × (o' s ≡ some q))
      ⊎ ((s ≢ q) × (s ≢ p) × (o' s ≡ o s))
    → (o r ≡ some s → o s ≡ some r)
    → o' r ≡ some s
    → o' s ≡ some r
paired p q r s o o' e f a b c g = ground arith

first :
    (p q : ℕ) (o' o : ℕ → Option ℕ)
    → ((p ≡ q) × (o' p ≡ some p))
      ⊎ ((p ≢ q) × (p ≡ p) × (o' p ≡ some q))
      ⊎ ((p ≢ q) × (p ≢ p) × (o' p ≡ o p))
    → o' p ≡ some q
first p q o' o a = ground arith

module _ {U : Type 0} where
  abbrev pub other_of : ℕ → Net U → Option ℕ
  other_of p w = (w.plug p).other

  -- Plugs point to each other.
  abbrev pub IsPaired : Net U → Type 0
  IsPaired w = (p q : ℕ) → other_of p w ≡ some q → other_of q w ≡ some p

  pub on_here : (p : ℕ) (f : Plug → Plug) (w : Net U) → (on p f w).plug p ≡ f (w.plug p)
  on_here p f w =
      let e : (p == p) ≡ true = ground arith in ap (λ b. if b then f (w.plug p) else w.plug p) e

  on_there : (p q : ℕ) (f : Plug → Plug) (w : Net U) → q ≢ p → (on p f w).plug q ≡ w.plug q
  on_there p q f w h =
      let e : (q == p) ≡ false = ground (arith, h) in
      ap (λ b. if b then f (w.plug q) else w.plug q) e

  pub other-on :
      (p r : ℕ) (f : Plug → Plug) (w : Net U)
      → ((r ≡ p) × (other_of r (on p f w) ≡ (f (w.plug p)).other))
        ⊎ ((r ≢ p) × (other_of r (on p f w) ≡ other_of r w))
  other-on p r f w = elim (eq_cases r p) [
    | inl e ↦ inl (e.0, ap (λ x. other_of x (on p f w)) e.0 ∙ ap (λ x. x.other) (on_here p f w))
    | inr e ↦ inr (e.0, ap (λ x. x.other) (on_there p r f w e.0))
  ]

  -- What the plugs point to behind `link`.
  link-other :
      (n m : ℕ → Bool) (p q r : ℕ) (w : Net U)
      → ((r ≡ q) × (other_of r (link n m p q w) ≡ some p))
        ⊎ ((r ≢ q) × (r ≡ p) × (other_of r (link n m p q w) ≡ some q))
        ⊎ ((r ≢ q) × (r ≢ p) × (other_of r (link n m p q w) ≡ other_of r w))
  unfolding link
  link-other n m p q r w =
      let fp : Plug → Plug = λ x. record x {
        flags = record (x.flags) { notifyonread = n q; notifyonwrite = m q };
        other = some q;
      } in
      let fq : Plug → Plug = λ x. record x {
        flags = record (x.flags) { notifyonread = n p; notifyonwrite = m p };
        other = some p;
      } in
      elim (other-on q r fq (on p fp w)) [
        | inl e ↦ inl e
        | inr e ↦ elim (other-on p r fp w) [
          | inl d ↦ inr (inl (e.0, d.0, e.1 ∙ d.1))
          | inr d ↦ inr (inr (e.0, d.0, e.1 ∙ d.1))
        ]
      ]

  -- Two plugs that are plugged into none point to each other when they are linked, whichever they
  -- are, and no others change.
  pub link-IsPaired :
      (needs_read needs_write : ℕ → Bool) (p q : ℕ) (w : Net U)
      → IsPaired w
      → other_of p w ≡ none
      → other_of q w ≡ none
      → IsPaired (link needs_read needs_write p q w)
        × (other_of p (link needs_read needs_write p q w) ≡ some q)
  link-IsPaired n m p q w h e f =
      let v = link n m p q w in
      (
        (λ r s g.
            let a = link-other n m p q r w in
            let b = link-other n m p q s w in
            let c = h r s in paired p q r s (λ x. other_of x w) (λ x. other_of x v) e f a b c g),
        first p q (λ x. other_of x v) (λ x. other_of x w) (link-other n m p q p w),
      )

  unplug-none :
      (disc : ℕ → Net U → Net U) (fuel p : ℕ) (w : Net U)
      → other_of p w ≡ none
      → unplug disc (suc fuel) p w ≡ some w
  unfolding unplug
  unplug-none disc fuel p w e =
      ap
        (λ o. elim o as (λ _. Option (Net U)) [
          | none ↦ some w
          | some q ↦ elim (unplug disc fuel q (on p cleared w)) as (λ _. Option (Net U)) [
            | none ↦ none
            | some v ↦ some (disc p v)
          ]
        ])
        e

  unplug-some :
      (disc : ℕ → Net U → Net U) (fuel p q : ℕ) (w v : Net U)
      → other_of p w ≡ some q
      → unplug disc fuel q (on p cleared w) ≡ some v
      → unplug disc (suc fuel) p w ≡ some (disc p v)
  unfolding unplug
  unplug-some disc fuel p q w v e g =
      ap
        (λ o. elim o as (λ _. Option (Net U)) [
          | none ↦ some w
          | some q ↦ elim (unplug disc fuel q (on p cleared w)) as (λ _. Option (Net U)) [
            | none ↦ none
            | some v ↦ some (disc p v)
          ]
        ])
        e
      ∙ ap (λ o. elim o as (λ _. Option (Net U)) [ none ↦ none | some v ↦ some (disc p v) ]) g

  -- `unPlug` of a plug in another one comes back: it clears both, and then tells the other's module
  -- and its own, in this order and once each, whatever these do.
  pub unplug_lem :
      (disc : ℕ → Net U → Net U) (fuel p q : ℕ) (w : Net U)
      → IsPaired w
      → other_of p w ≡ some q
      → p ≢ q
      → unplug disc (suc (suc (suc fuel))) p w
        ≡ some (disc p (disc q (on q cleared (on p cleared w))))
  unplug_lem disc fuel p q w h e n =
      let u = on p cleared w in
      let v = on q cleared u in
      let q_other : other_of q u ≡ some p =
        ap (λ x. x.other) (on_there p q cleared w (λ d. n (sym d))) ∙ h p q e in
      let p_other : other_of p v ≡ none =
        ap (λ x. x.other) (on_there q p cleared u n ∙ on_here p cleared w) in
      unplug-some disc (suc (suc fuel)) p q w (disc q v) e
        (unplug-some disc (suc fuel) q p u v q_other (unplug-none disc fuel p v p_other))
