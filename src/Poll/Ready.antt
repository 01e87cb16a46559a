-- ===== src/Poll/Ready.antt =====
-- Which events are posted for file descriptors.
use mathlib.Core.List.{append_assoc}
use str_mod.Base.{
  ℕ, ◌<◌, zero, suc, Bool, true, false, ◌==◌, if◌then◌else◌, List, [], ◌∷◌, ◌++◌, ◌≡◌, refl, sym,
  ap, ap₂, subst, ◌∙◌, arith, ==_iff,
}
use str_mod.Poll.Conditions.{
  CondSet, PollMask, cond_or, condmask_to_pollmask, pollmask_to_condmask, mask_any,
}
use str_mod.Poll.Descriptors.{FdEvent, PollItem, poll_from, poll_list, post_fd, post_ready}
use str_mod.Poll.Sorted.{
  SortedFrom, AllAt, AllBelow, Others, AllBelow-Others, SortedFrom-Others, AllBelow-mono,
  AllBelow-append, AllAt-append,
}
use str_mod.Poll.Answered.{
  due, waiting, answered, count_answers, due-append, waiting-append, waiting-AllBelow, quiet,
  post_fd_amid,
}

module _ (answers : ℕ → PollMask) where
  abbrev looped : List PollItem → List FdEvent → List ℕ × List FdEvent
  looped items fs = post_ready (count_answers answers items) (answered answers items) fs

  -- The loop over the first item.
  looped_cons :
      (i : PollItem) (items : List PollItem) (ys g zs : List FdEvent)
      → Others i.fd ys
      → AllAt i.fd g
      → Others i.fd zs
      → let rest = looped items (ys ++ (waiting answers g ++ zs)) in
        looped (i ∷ items) (ys ++ (g ++ zs)) ≡ (due answers g ++ rest.0, rest.1)
  unfolding post_ready
  looped_cons i items ys g zs hy hg hz =
      go (mask_any (answers i.fd)) refl (count_answers answers items)
    where
      fs : List FdEvent
      fs = ys ++ (g ++ zs)

      kept : List FdEvent
      kept = ys ++ (waiting answers g ++ zs)

      after : ℕ → List FdEvent → List ℕ × List FdEvent
      after n xs = post_ready n (answered answers items) xs

      go :
          (q : Bool)
          → mask_any (answers i.fd) ≡ q
          → (n : ℕ)
          → post_ready (if q then suc n else n) ((i, answers i.fd) ∷ answered answers items) fs
            ≡ (due answers g ++ (after n kept).0, (after n kept).1)
      go true e n =
          ap
            (λ q.
              let one = post_fd i.fd (pollmask_to_condmask (answers i.fd)) fs in
              let rest = after n one.1 in if q then (one.0 ++ rest.0, rest.1) else after (suc n) fs)
            e
          ∙ ap
              (λ (one : List ℕ × List FdEvent).
                let rest = after n one.1 in (one.0 ++ rest.0, rest.1))
              (post_fd_amid answers i.fd ys g zs hy hg hz)
      go false e n = skipped n e ∙ ap₂ (parts n) (sym nothing.0) (sym nothing.1)
        where
          nothing : (due answers g ≡ []) × (waiting answers g ≡ g)
          nothing = quiet answers i.fd g hg e

          parts : ℕ → List ℕ → List FdEvent → List ℕ × List FdEvent
          parts n d w = let rest = after n (ys ++ (w ++ zs)) in (d ++ rest.0, rest.1)

          skipped :
              (n : ℕ)
              → mask_any (answers i.fd) ≡ false
              → post_ready n ((i, answers i.fd) ∷ answered answers items) fs ≡ parts n [] g
          skipped zero e = refl
          skipped (suc n) e =
              ap
                (λ q.
                  let one = post_fd i.fd (pollmask_to_condmask (answers i.fd)) fs in
                  let rest = after n one.1 in
                  if q then (one.0 ++ rest.0, rest.1) else after (suc n) fs)
                e

  -- The loops from the descriptor `c` on, of whose pairs `g` are behind, as `ys` is.
  looped_from :
      (c : ℕ) (acc : CondSet) (ys g es : List FdEvent)
      → AllBelow c ys
      → AllAt c g
      → SortedFrom c es
      → looped (poll_from c acc es) (ys ++ (g ++ es))
        ≡ (due answers (g ++ es), ys ++ waiting answers (g ++ es))
  unfolding poll_from post_ready
  looped_from c acc ys g [] hy hg s =
      looped_cons (record { fd = c; events = condmask_to_pollmask acc }) [] ys g []
        (AllBelow-Others c ys hy) hg tt
      ∙ ap₂ (λ (d : List ℕ) (w : List FdEvent). (d, ys ++ w)) (sym (due-append answers g []))
          (sym (waiting-append answers g []))
  looped_from c acc ys g (f ∷ es) hy hg s =
      go (f.fd == c) refl (looped_from c (cond_or acc f.condset) ys (g ++ (f ∷ [])) es hy)
        (looped_from f.fd f.condset (ys ++ waiting answers g) (f ∷ []) es)
    where
      Result : List PollItem → List FdEvent → Type 0
      Result items xs = looped items (ys ++ xs) ≡ (due answers xs, ys ++ waiting answers xs)

      zs : List FdEvent
      zs = f ∷ es

      later : List PollItem
      later = poll_from f.fd f.condset es

      go :
          (q : Bool)
          → (f.fd == c) ≡ q
          → (AllAt c (g ++ (f ∷ []))
              → SortedFrom c es
              → Result (poll_from c (cond_or acc f.condset) es) ((g ++ (f ∷ [])) ++ es))
          → (AllBelow f.fd (ys ++ waiting answers g)
              → AllAt f.fd (f ∷ [])
              → SortedFrom f.fd es
              → looped later ((ys ++ waiting answers g) ++ zs)
                ≡ (due answers zs, (ys ++ waiting answers g) ++ waiting answers zs))
          → Result
              (if q
                then poll_from c (cond_or acc f.condset) es
                else record { fd = c; events = condmask_to_pollmask acc } ∷ later)
              (g ++ zs)
      go true e same next =
          let at = (==_iff f.fd c).0 e in
          subst (Result (poll_from c (cond_or acc f.condset) es)) (append_assoc g (f ∷ []) es)
            (same (AllAt-append c g (f ∷ []) hg (at, tt)) (subst (λ i. SortedFrom i es) at s.1))
      go false e same next =
          let above : c < f.fd = ground (arith, e, s.0) in
          let w = waiting answers g in
          looped_cons (record { fd = c; events = condmask_to_pollmask acc }) later ys g zs
            (AllBelow-Others c ys hy) hg (SortedFrom-Others c f.fd zs above (omega arith, s.1))
          ∙ ap (λ xs. let rest = looped later xs in (due answers g ++ rest.0, rest.1))
              (sym (append_assoc ys w zs))
          ∙ ap (λ (rest : List ℕ × List FdEvent). (due answers g ++ rest.0, rest.1))
              (next
                (AllBelow-append f.fd ys w (AllBelow-mono c f.fd ys (omega (arith, above)) hy)
                  (waiting-AllBelow answers c f.fd g hg above))
                (refl, tt) s.1)
          ∙ ap₂ (λ (d : List ℕ) (v : List FdEvent). (d, v)) (sym (due-append answers g zs))
              (append_assoc ys w (waiting answers zs)
                ∙ ap (λ v. ys ++ v) (sym (waiting-append answers g zs)))

  -- If `fdmap_` is in order, and `poll` answers for each of the items that it is given and says how
  -- many answers are not 0, then the loop posts, in the order of `fdmap_`, exactly the events of
  -- the pairs one of whose conditions is answered. Those leave `fdmap_`, and so do the others of a
  -- descriptor that is closed or invalid; all else stays as it is.
  pub post_ready_lem :
      (lo : ℕ) (fs : List FdEvent)
      → SortedFrom lo fs
      → post_ready (count_answers answers (poll_list fs)) (answered answers (poll_list fs)) fs
        ≡ (due answers fs, waiting answers fs)
  unfolding poll_list post_ready
  post_ready_lem lo [] s = refl
  post_ready_lem lo (f ∷ fs) s = looped_from f.fd f.condset [] (f ∷ []) fs tt (refl, tt) s.1
