-- ===== src/Poll/Answered.antt =====
-- What `poll` answers, and the loop over the pairs of one descriptor (UniEvent/UnixEventPoll.cxx).
use mathlib.Core.List.{append-nil}
use str_mod.Base.{
  ℕ, ◌<◌, suc, Bool, true, false, ◌||◌, ◌==◌, if◌then◌else◌, List, [], ◌∷◌, ◌++◌, ◌≡◌, refl, sym,
  ap, ap₂, subst, ◌∙◌, arith, ==_iff,
}
use str_mod.Poll.Conditions.{CondSet, PollMask, cond_and, cond_any, pollmask_to_condmask, mask_any}
use str_mod.Poll.Descriptors.{FdEvent, PollItem, hits, is_bad, post_fd}
use str_mod.Poll.Sorted.{AllAt, AllBelow, Others}

-- `answers fd` is what `poll` stores for a descriptor.
module _ (answers : ℕ → PollMask) where
  abbrev pub conds : FdEvent → CondSet
  conds f = pollmask_to_condmask (answers f.fd)

  -- the events that are due, in order, and the pairs that stay
  abbrev pub due : List FdEvent → List ℕ
  due [] = []
  due (f ∷ fs) = if hits (conds f) f then f.ev ∷ due fs else due fs

  abbrev pub waiting : List FdEvent → List FdEvent
  waiting [] = []
  waiting (f ∷ fs) = if hits (conds f) f || is_bad (conds f) then waiting fs else f ∷ waiting fs

  abbrev pub answered : List PollItem → List (PollItem × PollMask)
  answered [] = []
  answered (i ∷ is) = (i, answers i.fd) ∷ answered is

  -- the result of `poll`: how many items have an answer that is not 0
  abbrev pub count_answers : List PollItem → ℕ
  count_answers [] = 0
  count_answers (i ∷ is) =
      if mask_any (answers i.fd) then suc (count_answers is) else count_answers is

post_fd-append :
    (c : ℕ) (k : CondSet) (fs gs : List FdEvent)
    → post_fd c k (fs ++ gs)
      ≡ ((post_fd c k fs).0 ++ (post_fd c k gs).0, (post_fd c k fs).1 ++ (post_fd c k gs).1)
unfolding post_fd
post_fd-append c k [] gs = refl
post_fd-append c k (f ∷ fs) gs = ground (arith, post_fd-append c k fs gs)

post_fd-Others : (c : ℕ) (k : CondSet) (fs : List FdEvent) → Others c fs → post_fd c k fs ≡ ([], fs)
unfolding post_fd
post_fd-Others c k [] h = refl
post_fd-Others c k (f ∷ fs) h = ground (arith, post_fd-Others c k fs h.1)

no_conds_of :
    (m : PollMask)
    → mask_any m ≡ false
    → (c : CondSet)
    → (cond_any (cond_and (pollmask_to_condmask m) c) ≡ false)
      × (is_bad (pollmask_to_condmask m) ≡ false)
no_conds_of m h c = (ground (arith, h), ground (arith, h))

module _ (answers : ℕ → PollMask) where
  pub due-append :
      (fs gs : List FdEvent) → due answers (fs ++ gs) ≡ due answers fs ++ due answers gs
  due-append [] gs = refl
  due-append (f ∷ fs) gs = ground (arith, due-append fs gs)

  pub waiting-append :
      (fs gs : List FdEvent) → waiting answers (fs ++ gs) ≡ waiting answers fs ++ waiting answers gs
  waiting-append [] gs = refl
  waiting-append (f ∷ fs) gs = ground (arith, waiting-append fs gs)

  pub waiting-AllBelow :
      (c d : ℕ) (fs : List FdEvent) → AllAt c fs → c < d → AllBelow d (waiting answers fs)
  waiting-AllBelow c d [] h k = tt
  waiting-AllBelow c d (f ∷ fs) h k =
      go (hits (conds answers f) f || is_bad (conds answers f)) (waiting-AllBelow c d fs h.1 k)
    where
      go :
          (q : Bool)
          → AllBelow d (waiting answers fs)
          → AllBelow d (if q then waiting answers fs else f ∷ waiting answers fs)
      go true ih = ih
      go false ih = (omega (arith, h.0, k), ih)

  -- all pairs of the descriptor
  post_fd_group :
      (c : ℕ) (g : List FdEvent)
      → AllAt c g
      → post_fd c (pollmask_to_condmask (answers c)) g ≡ (due answers g, waiting answers g)
  unfolding post_fd
  post_fd_group c [] h = refl
  post_fd_group c (f ∷ g) (e, h) =
      subst
        (λ i. post_fd c (pollmask_to_condmask (answers c)) (f ∷ g) ≡ (
          (if hits (pollmask_to_condmask (answers i)) f
              then f.ev ∷ due answers g
              else due answers g),
          (if hits (pollmask_to_condmask (answers i)) f || is_bad (pollmask_to_condmask (answers i))
              then waiting answers g
              else f ∷ waiting answers g),
        ))
        (sym e)
        (ap (one (f.fd == c)) (post_fd_group c g h)
          ∙ ap (λ q. one q (due answers g, waiting answers g)) ((==_iff f.fd c).1 e)
          ∙ choose (hits k f) (is_bad k))
    where
      k : CondSet
      k = pollmask_to_condmask (answers c)

      one : Bool → List ℕ × List FdEvent → List ℕ × List FdEvent
      one q r =
          if q
          then (if hits k f
              then (f.ev ∷ r.0, r.1)
              else if is_bad k
              then (r.0, r.1)
              else (r.0, f ∷ r.1))
          else (r.0, f ∷ r.1)

      choose :
          (q b : Bool)
          → ◌≡◌ {A = List ℕ × List FdEvent}
              (if q
                then (f.ev ∷ due answers g, waiting answers g)
                else if b
                then (due answers g, waiting answers g)
                else (due answers g, f ∷ waiting answers g))
              (
                (if q then f.ev ∷ due answers g else due answers g),
                (if q || b then waiting answers g else f ∷ waiting answers g),
              )
      choose true b = refl
      choose false true = refl
      choose false false = refl

  -- A descriptor that `poll` says nothing about.
  pub quiet :
      (c : ℕ) (g : List FdEvent)
      → AllAt c g
      → mask_any (answers c) ≡ false
      → (due answers g ≡ []) × (waiting answers g ≡ g)
  quiet c [] h m = (refl, refl)
  quiet c (f ∷ g) h m =
      let (unhit, good) =
        no_conds_of (answers f.fd) (subst (λ i. mask_any (answers i) ≡ false) (sym h.0) m)
          f.condset in
      let ih = quiet c g h.1 m in (rw unhit ih.0, rw (unhit, good) (ap (◌∷◌ f) ih.1))

  -- The loop over the pairs of one descriptor, amid those of others.
  pub post_fd_amid :
      (c : ℕ) (ys g zs : List FdEvent)
      → Others c ys
      → AllAt c g
      → Others c zs
      → post_fd c (pollmask_to_condmask (answers c)) (ys ++ (g ++ zs))
        ≡ (due answers g, ys ++ (waiting answers g ++ zs))
  post_fd_amid c ys g zs hy hg hz =
      let k = pollmask_to_condmask (answers c) in
      post_fd-append c k ys (g ++ zs)
      ∙ ap₂ (λ (r t : List ℕ × List FdEvent). (r.0 ++ t.0, r.1 ++ t.1)) (post_fd-Others c k ys hy)
          (post_fd-append c k g zs
            ∙ ap₂ (λ (r t : List ℕ × List FdEvent). (r.0 ++ t.0, r.1 ++ t.1)) (post_fd_group c g hg)
                (post_fd-Others c k zs hz)
            ∙ ap (λ es. (es, waiting answers g ++ zs)) (append-nil (due answers g)))
