-- ===== src/Poll/Descriptors.antt =====
-- The events that wait for a file descriptor. `fdmap_` is a list in the order of its keys, and the
-- descriptors are not negative.
use str_mod.Base.{ℕ, zero, suc, Bool, leb, ◌==◌, if◌then◌else◌, List, [], ◌∷◌, ◌++◌}
use str_mod.Poll.Conditions.{
  CondSet, PollMask, cond_or, cond_and, cond_any, condmask_to_pollmask, pollmask_to_condmask,
  mask_any, badset,
}

-- a pair of `fdmap_`
pub record FdEvent : Type 0 where
  pub fd : ℕ
  pub ev : ℕ
  pub condset : CondSet

-- A new pair comes behind those of its key.
unfoldable pub register_fd_cond : FdEvent → List FdEvent → List FdEvent
register_fd_cond e [] = e ∷ []
register_fd_cond e (f ∷ fs) = if leb f.fd e.fd then f ∷ register_fd_cond e fs else e ∷ f ∷ fs

unfoldable pub free_fd : ℕ → List FdEvent → List FdEvent
free_fd fd [] = []
free_fd fd (f ∷ fs) = let rest = free_fd fd fs in if f.fd == fd then rest else f ∷ rest

pub record PollItem : Type 0 where
  pub fd : ℕ
  pub events : PollMask

-- the two loops that fill `polllist_`, from a descriptor and the conditions met so far on
unfoldable pub poll_from : ℕ → CondSet → List FdEvent → List PollItem
poll_from curfd condset [] = record { fd = curfd; events = condmask_to_pollmask condset } ∷ []
poll_from curfd condset (f ∷ fs) =
    let same = poll_from curfd (cond_or condset f.condset) fs in
    let next = poll_from f.fd f.condset fs in
    if f.fd == curfd
    then same
    else record { fd = curfd; events = condmask_to_pollmask condset } ∷ next

unfoldable pub poll_list : List FdEvent → List PollItem
unfolding poll_from
poll_list [] = []
poll_list (f ∷ fs) = poll_from f.fd f.condset fs

abbrev pub hits : CondSet → FdEvent → Bool
hits condset f = cond_any (cond_and condset f.condset)

abbrev pub is_bad : CondSet → Bool
is_bad condset = cond_any (cond_and badset condset)

-- The loop over the pairs of `fd`: the events that are posted, and what stays in `fdmap_`.
unfoldable pub post_fd : ℕ → CondSet → List FdEvent → List ℕ × List FdEvent
post_fd fd condset [] = ([], [])
post_fd fd condset (f ∷ fs) =
    let (posted, kept) = post_fd fd condset fs in
    if f.fd == fd
    then (if hits condset f
        then (f.ev ∷ posted, kept)
        else if is_bad condset
        then (posted, kept)
        else (posted, f ∷ kept))
    else (posted, f ∷ kept)

-- The loop over `polllist_`, with what `poll` has stored in each item, for `pollresult` items.
unfoldable pub post_ready : ℕ → List (PollItem × PollMask) → List FdEvent → List ℕ × List FdEvent
unfolding post_fd
post_ready zero items fs = ([], fs)
post_ready (suc n) [] fs = ([], fs)
post_ready (suc n) ((i, revents) ∷ items) fs =
    let one = post_fd i.fd (pollmask_to_condmask revents) fs in
    let rest = post_ready n items one.1 in
    let skip = post_ready (suc n) items fs in
    if mask_any revents then (one.0 ++ rest.0, rest.1) else skip
