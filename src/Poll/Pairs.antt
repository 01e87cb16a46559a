-- ===== src/Poll/Pairs.antt =====
-- `fdmap_` as what it stands for: the pairs of each descriptor.
use mathlib.Core.List.{append-nil}
use str_mod.Base.{
  ℕ, ◌<◌, Bool, true, false, ◌||◌, leb, ◌==◌, if◌then◌else◌, List, [], ◌∷◌, ◌++◌, ◌≡◌, refl, sym,
  ap, ◌∙◌, arith, ==_iff, subst,
}
use str_mod.Poll.Conditions.{PollMask}
use str_mod.Poll.Descriptors.{
  FdEvent, register_fd_cond, free_fd, poll_list, post_ready, hits, is_bad,
}
use str_mod.Poll.Sorted.{
  SortedFrom, Others, SortedFrom-Others, SortedFrom-mono, register_fd_cond-SortedFrom, free_fd_lem,
}
use str_mod.Poll.Answered.{conds, waiting, answered, count_answers}
use str_mod.Poll.Ready.{post_ready_lem}

-- The pairs of the descriptor `d`, in the order of `fdmap_`.
abbrev pub pairs_at : ℕ → List FdEvent → List FdEvent
pairs_at d [] = []
pairs_at d (f ∷ fs) = if f.fd == d then f ∷ pairs_at d fs else pairs_at d fs

pairs_at-Others : (d : ℕ) (fs : List FdEvent) → Others d fs → pairs_at d fs ≡ []
pairs_at-Others d [] h = refl
pairs_at-Others d (f ∷ fs) h =
    ap (λ q. if q then f ∷ pairs_at d fs else pairs_at d fs) h.0 ∙ pairs_at-Others d fs h.1

abbrev new_at : ℕ → FdEvent → List FdEvent
new_at d e = if e.fd == d then e ∷ [] else []

pairs_at-register_fd_cond :
    (lo d : ℕ) (e : FdEvent) (fs : List FdEvent)
    → SortedFrom lo fs
    → pairs_at d (register_fd_cond e fs) ≡ pairs_at d fs ++ new_at d e
unfolding register_fd_cond
pairs_at-register_fd_cond lo d e [] s = refl
pairs_at-register_fd_cond lo d e (f ∷ fs) s =
    go (leb f.fd e.fd) refl (pairs_at-register_fd_cond f.fd d e fs s.1)
  where
    front :
        (q : Bool) (xs : List FdEvent)
        → xs ≡ pairs_at d fs ++ new_at d e
        → (if q then f ∷ xs else xs)
          ≡ (if q then f ∷ pairs_at d fs else pairs_at d fs) ++ new_at d e
    front true xs h = ap (◌∷◌ f) h
    front false xs h = h

    first :
        (q : Bool)
        → (e.fd == d) ≡ q
        → e.fd < f.fd
        → (if q then e ∷ pairs_at d (f ∷ fs) else pairs_at d (f ∷ fs))
          ≡ pairs_at d (f ∷ fs) ++ (if q then e ∷ [] else [])
    first true k less =
        let above : d < f.fd = subst (λ i. i < f.fd) ((==_iff e.fd d).0 k) less in
        let none_at : pairs_at d (f ∷ fs) ≡ [] =
          pairs_at-Others d (f ∷ fs) (SortedFrom-Others d f.fd (f ∷ fs) above (omega arith, s.1)) in
        ap (◌∷◌ e) none_at ∙ ap (λ xs. xs ++ (e ∷ [])) (sym none_at)
    first false k less = sym (append-nil (pairs_at d (f ∷ fs)))

    go :
        (q : Bool)
        → leb f.fd e.fd ≡ q
        → pairs_at d (register_fd_cond e fs) ≡ pairs_at d fs ++ new_at d e
        → pairs_at d (if q then f ∷ register_fd_cond e fs else e ∷ f ∷ fs)
          ≡ pairs_at d (f ∷ fs) ++ new_at d e
    go true k ih = front (f.fd == d) (pairs_at d (register_fd_cond e fs)) ih
    go false k ih = first (e.fd == d) refl (ground (arith, k))

pairs_at-free_fd :
    (d fd : ℕ) (fs : List FdEvent)
    → pairs_at d (free_fd fd fs) ≡ (if d == fd then [] else pairs_at d fs)
unfolding free_fd
pairs_at-free_fd d fd [] = ground arith
pairs_at-free_fd d fd (f ∷ fs) = go (f.fd == fd) refl (f.fd == d) refl (pairs_at-free_fd d fd fs)
  where
    go :
        (p : Bool)
        → (f.fd == fd) ≡ p
        → (q : Bool) → (f.fd == d) ≡ q
        → pairs_at d (free_fd fd fs) ≡ (if d == fd then [] else pairs_at d fs)
        → pairs_at d (if p then free_fd fd fs else f ∷ free_fd fd fs)
          ≡ (if d == fd then [] else if q then f ∷ pairs_at d fs else pairs_at d fs)
    go true h true k ih =
        let same : (d == fd) ≡ true = ground (arith, h, k) in
        ih
        ∙ ap (λ b. if b then [] else pairs_at d fs) same
        ∙ ap (λ b. if b then [] else f ∷ pairs_at d fs) (sym same)
    go true h false k ih = ih
    go false h q k ih =
        ap (λ b. if b then f ∷ pairs_at d (free_fd fd fs) else pairs_at d (free_fd fd fs)) k
        ∙ under q k
      where
        under :
            (q : Bool)
            → (f.fd == d) ≡ q
            → (if q then f ∷ pairs_at d (free_fd fd fs) else pairs_at d (free_fd fd fs))
              ≡ (if d == fd then [] else if q then f ∷ pairs_at d fs else pairs_at d fs)
        under false k = ih
        under true k =
            let apart : (d == fd) ≡ false = ground (arith, h, k) in
            ap (◌∷◌ f) (ih ∙ ap (λ b. if b then [] else pairs_at d fs) apart)
            ∙ ap (λ b. if b then [] else f ∷ pairs_at d fs) (sym apart)

module _ (answers : ℕ → PollMask) where
  pairs_at-waiting :
      (d : ℕ) (fs : List FdEvent)
      → pairs_at d (waiting answers fs) ≡ waiting answers (pairs_at d fs)
  pairs_at-waiting d [] = refl
  pairs_at-waiting d (f ∷ fs) =
      go (hits (conds answers f) f || is_bad (conds answers f)) refl (f.fd == d) refl
        (pairs_at-waiting d fs)
    where
      go :
          (p : Bool)
          → (hits (conds answers f) f || is_bad (conds answers f)) ≡ p
          → (q : Bool) → (f.fd == d) ≡ q
          → pairs_at d (waiting answers fs) ≡ waiting answers (pairs_at d fs)
          → pairs_at d (if p then waiting answers fs else f ∷ waiting answers fs)
            ≡ waiting answers (if q then f ∷ pairs_at d fs else pairs_at d fs)
      go p h q k ih = ground (arith, h, k, ih)

  waiting-SortedFrom :
      (lo : ℕ) (fs : List FdEvent) → SortedFrom lo fs → SortedFrom lo (waiting answers fs)
  waiting-SortedFrom lo [] s = tt
  waiting-SortedFrom lo (f ∷ fs) s =
      go (hits (conds answers f) f || is_bad (conds answers f)) (waiting-SortedFrom f.fd fs s.1)
    where
      go :
          (q : Bool)
          → SortedFrom f.fd (waiting answers fs)
          → SortedFrom lo (if q then waiting answers fs else f ∷ waiting answers fs)
      go true ih = SortedFrom-mono lo f.fd (waiting answers fs) s.0 ih
      go false ih = (s.0, ih)

  -- Where `fdmap_` is in order, it stays so, and what it holds for a descriptor changes as follows. A pair that is
  -- registered comes behind the others of its descriptor, and those of no other change. Where a
  -- descriptor is freed, no pair of it is left, and those of all others stay. Where `poll` answers
  -- for each item, the pairs that stay are those none of whose conditions is answered, of a
  -- descriptor that is not closed or invalid.
  pub fdmap-pairs_at :
      (d : ℕ) (e : FdEvent) (fd : ℕ) (fs : List FdEvent)
      → SortedFrom 0 fs
      → SortedFrom 0 (register_fd_cond e fs)
        × SortedFrom 0 (free_fd fd fs)
        × SortedFrom 0
            (post_ready
              (count_answers answers (poll_list fs))
              (answered answers (poll_list fs))
              fs).1
        × (pairs_at d (register_fd_cond e fs) ≡ pairs_at d fs ++ (if e.fd == d then e ∷ [] else []))
        × (pairs_at d (free_fd fd fs) ≡ (if d == fd then [] else pairs_at d fs))
        × (pairs_at d
              (post_ready
                (count_answers answers (poll_list fs))
                (answered answers (poll_list fs))
                fs).1
            ≡ waiting answers (pairs_at d fs))
  fdmap-pairs_at d e fd fs s = (
    register_fd_cond-SortedFrom 0 e fs (omega arith) s,
    (free_fd_lem 0 fd fs s).0,
    subst (λ (r : List ℕ × List FdEvent). SortedFrom 0 r.1) (sym (post_ready_lem answers 0 fs s))
        (waiting-SortedFrom 0 fs s),
    pairs_at-register_fd_cond 0 d e fs s,
    pairs_at-free_fd d fd fs,
    ap (λ (r : List ℕ × List FdEvent). pairs_at d r.1) (post_ready_lem answers 0 fs s)
        ∙ pairs_at-waiting d fs,
  )
