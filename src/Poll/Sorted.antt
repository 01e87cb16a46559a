-- ===== src/Poll/Sorted.antt =====
-- `fdmap_` in the order of its keys.
use str_mod.Base.{
  ℕ, ◌≤◌, ◌<◌, Bool, true, false, leb, ◌==◌, if◌then◌else◌, List, [], ◌∷◌, ◌++◌, ◌≡◌, refl, arith,
}
use str_mod.Poll.Descriptors.{FdEvent, register_fd_cond, free_fd}

-- Every descriptor is at least `lo`, and none is below one before it.
abbrev pub SortedFrom : ℕ → List FdEvent → Type 0
SortedFrom lo [] = Unit
SortedFrom lo (f ∷ fs) = (lo ≤ f.fd) × SortedFrom f.fd fs

abbrev pub AllAt : ℕ → List FdEvent → Type 0
AllAt c [] = Unit
AllAt c (f ∷ fs) = (f.fd ≡ c) × AllAt c fs

abbrev pub AllBelow : ℕ → List FdEvent → Type 0
AllBelow c [] = Unit
AllBelow c (f ∷ fs) = (f.fd < c) × AllBelow c fs

abbrev pub Others : ℕ → List FdEvent → Type 0
Others c [] = Unit
Others c (f ∷ fs) = ((f.fd == c) ≡ false) × Others c fs

pub AllBelow-Others : (c : ℕ) (fs : List FdEvent) → AllBelow c fs → Others c fs
AllBelow-Others c [] h = tt
AllBelow-Others c (f ∷ fs) h = (ground (arith, h.0), AllBelow-Others c fs h.1)

pub SortedFrom-Others : (c lo : ℕ) (fs : List FdEvent) → c < lo → SortedFrom lo fs → Others c fs
SortedFrom-Others c lo [] h s = tt
SortedFrom-Others c lo (f ∷ fs) h s =
    (ground (arith, h, s.0), SortedFrom-Others c f.fd fs (omega (arith, h, s.0)) s.1)

pub AllBelow-mono : (c d : ℕ) (fs : List FdEvent) → c ≤ d → AllBelow c fs → AllBelow d fs
AllBelow-mono c d [] h k = tt
AllBelow-mono c d (f ∷ fs) h k = (omega (arith, h, k.0), AllBelow-mono c d fs h k.1)

pub AllBelow-append :
    (c : ℕ) (fs gs : List FdEvent) → AllBelow c fs → AllBelow c gs → AllBelow c (fs ++ gs)
AllBelow-append c [] gs h k = k
AllBelow-append c (f ∷ fs) gs h k = (h.0, AllBelow-append c fs gs h.1 k)

pub AllAt-append : (c : ℕ) (fs gs : List FdEvent) → AllAt c fs → AllAt c gs → AllAt c (fs ++ gs)
AllAt-append c [] gs h k = k
AllAt-append c (f ∷ fs) gs h k = (h.0, AllAt-append c fs gs h.1 k)

pub SortedFrom-mono :
    (lo hi : ℕ) (fs : List FdEvent) → lo ≤ hi → SortedFrom hi fs → SortedFrom lo fs
SortedFrom-mono lo hi [] h s = tt
SortedFrom-mono lo hi (f ∷ fs) h s = (omega (arith, h, s.0), s.1)

pub register_fd_cond-SortedFrom :
    (lo : ℕ) (e : FdEvent) (fs : List FdEvent)
    → lo ≤ e.fd
    → SortedFrom lo fs
    → SortedFrom lo (register_fd_cond e fs)
unfolding register_fd_cond
register_fd_cond-SortedFrom lo e [] h s = (h, tt)
register_fd_cond-SortedFrom lo e (f ∷ fs) h s =
    go (leb f.fd e.fd) refl (λ k. register_fd_cond-SortedFrom f.fd e fs k s.1)
  where
    go :
        (q : Bool)
        → leb f.fd e.fd ≡ q
        → (f.fd ≤ e.fd → SortedFrom f.fd (register_fd_cond e fs))
        → SortedFrom lo (if q then f ∷ register_fd_cond e fs else e ∷ f ∷ fs)
    go true k ih = (s.0, ih (ground (arith, k)))
    go false k ih = (h, (ground (arith, k), s.1))

pub free_fd_lem :
    (lo fd : ℕ) (fs : List FdEvent)
    → SortedFrom lo fs
    → SortedFrom lo (free_fd fd fs) × Others fd (free_fd fd fs)
unfolding free_fd
free_fd_lem lo fd [] s = (tt, tt)
free_fd_lem lo fd (f ∷ fs) s = go (f.fd == fd) refl (free_fd_lem f.fd fd fs s.1)
  where
    go :
        (q : Bool)
        → (f.fd == fd) ≡ q
        → SortedFrom f.fd (free_fd fd fs) × Others fd (free_fd fd fs)
        → SortedFrom lo (if q then free_fd fd fs else f ∷ free_fd fd fs)
          × Others fd (if q then free_fd fd fs else f ∷ free_fd fd fs)
    go true k ih = (SortedFrom-mono lo f.fd (free_fd fd fs) s.0 ih.0, ih.1)
    go false k ih = ((s.0, ih.0), (k, ih.1))
