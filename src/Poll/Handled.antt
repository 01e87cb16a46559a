-- ===== src/Poll/Handled.antt =====
-- Which signals a registry handles, and which events are posted for them.
use str_mod.Base.{
  ℕ, ◌-◌, ◌≤◌, zero, suc, Bool, true, false, not, ◌&&◌, leb, ltb, ◌==◌, if◌then◌else◌, some, List,
  [], ◌∷◌, ◌++◌, length, set, replicate, ◌≡◌, refl, ap, ap₂, ◌∙◌, arith,
}
use str_mod.Poll.Signals.{
  sig_occurred, update, SigData, new_sigdata, Signals, grown, data_at, with_data, is_empty,
  un_handle_signal, post_signal, post_signals, post_sig_events,
}

pub data_at-set :
    (i n : ℕ) (d : SigData) (ds : List SigData)
    → data_at i (set ds n d) ≡ (if i == n && ltb n (length ds) then d else data_at i ds)
data_at-set i n d [] = ground arith
data_at-set zero zero d (e ∷ ds) = ground arith
data_at-set zero (suc n) d (e ∷ ds) = ground arith
data_at-set (suc i) zero d (e ∷ ds) = ground arith
data_at-set (suc i) (suc n) d (e ∷ ds) = ground (arith, data_at-set i n d ds)

data_at-replicate : (i n : ℕ) → data_at i (replicate n new_sigdata) ≡ new_sigdata
data_at-replicate i zero = refl
data_at-replicate zero (suc n) = refl
data_at-replicate (suc i) (suc n) = data_at-replicate i n

data_at-append :
    (i n : ℕ) (ds : List SigData) → data_at i (ds ++ replicate n new_sigdata) ≡ data_at i ds
data_at-append i n [] = data_at-replicate i n
data_at-append zero n (d ∷ ds) = refl
data_at-append (suc i) n (d ∷ ds) = data_at-append i n ds

pub data_at-grown : (i signo : ℕ) (ds : List SigData) → data_at i (grown signo ds) ≡ data_at i ds
data_at-grown i signo ds = go (leb (length ds) signo)
  where
    go :
        (q : Bool)
        → data_at i (if q then ds ++ replicate (suc signo - length ds) new_sigdata else ds)
          ≡ data_at i ds
    go true = data_at-append i (suc signo - length ds) ds
    go false = refl

-- Where a handler is registered, the shared table names this registry.
abbrev pub IsOwner : ℕ → Signals → Type 0
IsOwner me s = (i : ℕ) → (data_at i s.hdlrinfo).handler_registered ≡ true → s.handled_by i ≡ some me

-- The events that wait for the signals that were caught, for `n` signals from `i` on.
abbrev pub expected : ℕ → ℕ → (ℕ → Bool) → List SigData → List ℕ
expected zero i caught ds = []
expected (suc n) i caught ds =
    (if caught i && (data_at i ds).handler_registered then (data_at i ds).events else [])
    ++ expected n (suc i) caught ds

-- The data of later signals are those of `ds`.
abbrev SameFrom : ℕ → List SigData → List SigData → Type 0
SameFrom i ds es = (j : ℕ) → i ≤ j → data_at j ds ≡ data_at j es

expected_same :
    (n i : ℕ) (caught : ℕ → Bool) (ds es : List SigData)
    → SameFrom i ds es
    → expected n i caught ds ≡ expected n i caught es
expected_same zero i caught ds es h = refl
expected_same (suc n) i caught ds es h =
    ap₂
      (λ (d : SigData) (xs : List ℕ).
        (if caught i && d.handler_registered then d.events else []) ++ xs)
      (h i (omega arith)) (expected_same n (suc i) caught ds es (λ j k. h j (omega (arith, k))))

post_signal_lem :
    (i : ℕ) (s : Signals)
    → let d = data_at i s.hdlrinfo in
      ((post_signal i s).0 ≡ (if d.handler_registered then d.events else []))
      × SameFrom (suc i) (post_signal i s).1.hdlrinfo s.hdlrinfo
unfolding post_signal
post_signal_lem i s = go (data_at i s.hdlrinfo).handler_registered (data_at i s.hdlrinfo).events
  where
    other : (d : SigData) → SameFrom (suc i) (set s.hdlrinfo i d) s.hdlrinfo
    other d j h =
        data_at-set j i d s.hdlrinfo
        ∙ ap (λ q. if q && ltb i (length s.hdlrinfo) then d else data_at j s.hdlrinfo)
            (let k : (j == i) ≡ false = ground (arith, h) in k)

    go :
        (q : Bool) (es : List ℕ)
        → let d : SigData = record { handler_registered = q; events = es } in
          let r : List ℕ × Signals =
            if not q
            then ([], with_data i (record d { events = [] }) s)
            else if is_empty es
            then ([], with_data i (record d { handler_registered = false }) (un_handle_signal i s))
            else (es, s) in
          (r.0 ≡ (if q then es else [])) × SameFrom (suc i) r.1.hdlrinfo s.hdlrinfo
    go true [] = (refl, other (record { handler_registered = false; events = [] }))
    go true (e ∷ es) = (refl, λ j h. refl)
    go false es = (refl, other (record { handler_registered = false; events = [] }))

SameFrom-suc : (i : ℕ) (ds es : List SigData) → SameFrom i ds es → SameFrom (suc i) ds es
SameFrom-suc i ds es h j k = h j (omega (arith, k))

post_signals-expected :
    (n i : ℕ) (caught : ℕ → Bool) (s : Signals)
    → (post_signals n i caught s).0 ≡ expected n i caught s.hdlrinfo
unfolding post_signals
post_signals-expected zero i caught s = refl
post_signals-expected (suc n) i caught s = go (caught i) (post_signals-expected n (suc i) caught)
  where
    d : SigData
    d = data_at i s.hdlrinfo

    go :
        (q : Bool)
        → ((t : Signals)
            → (post_signals n (suc i) caught t).0 ≡ expected n (suc i) caught t.hdlrinfo)
        → let (posted, t) = if q then post_signal i s else ([], s) in
          (posted ++ (post_signals n (suc i) caught t).0) ≡ (
            (if q && d.handler_registered then d.events else [])
            ++ expected n (suc i) caught s.hdlrinfo)
    go true ih =
        let one = post_signal_lem i s in
        ap₂ ◌++◌ one.0 (
          ih (post_signal i s).1
          ∙ expected_same n (suc i) caught (post_signal i s).1.hdlrinfo s.hdlrinfo one.1)
    go false ih = ih s

-- What the loop leaves of the flags is what it finds.
post_signal_flags :
    (i : ℕ) (s : Signals)
    → ((post_signal i s).1.sigoccurred ≡ s.sigoccurred) × ((post_signal i s).1.caught ≡ s.caught)
unfolding post_signal un_handle_signal
post_signal_flags i s = go (data_at i s.hdlrinfo).handler_registered (data_at i s.hdlrinfo).events
  where
    go :
        (q : Bool) (es : List ℕ)
        → let r : List ℕ × Signals =
            if not q
            then ([], with_data i (record { handler_registered = q; events = [] }) s)
            else if is_empty es
            then (
              [],
              with_data i
                  (record { handler_registered = false; events = es })
                  (un_handle_signal i s),
            )
            else (es, s) in
          (r.1.sigoccurred ≡ s.sigoccurred) × (r.1.caught ≡ s.caught)
    go false es = (refl, refl)
    go true [] = (refl, refl)
    go true (e ∷ es) = (refl, refl)

post_signals_flags :
    (n i : ℕ) (caught : ℕ → Bool) (s : Signals)
    → let t = (post_signals n i caught s).1 in
      (t.sigoccurred ≡ s.sigoccurred) × (t.caught ≡ s.caught)
unfolding post_signals
post_signals_flags zero i caught s = (refl, refl)
post_signals_flags (suc n) i caught s = go (caught i) (post_signals_flags n (suc i) caught)
  where
    Same : Signals → Signals → Type 0
    Same t u = (t.sigoccurred ≡ u.sigoccurred) × (t.caught ≡ u.caught)

    go :
        (q : Bool)
        → ((t : Signals) → Same (post_signals n (suc i) caught t).1 t)
        → let t = if q then post_signal i s else ([], s) in
          Same (post_signals n (suc i) caught t.1).1 s
    go true ih =
        let one = post_signal_flags i s in
        let r = ih (post_signal i s).1 in (r.0 ∙ one.0, r.1 ∙ one.1)
    go false ih = ih s

-- If a signal has occurred, what is posted is, in the order of the signals, all that waits for those
-- that were caught and that this registry has a handler for, and no signal is caught or has occurred
-- afterwards; if none has, nothing is posted. A second call posts nothing, and when a signal `j`
-- occurs in between, the second call posts what waits for `j` and for no signal that an earlier call
-- has seen.
pub post_sig_events-expected :
    (j : ℕ) (s : Signals)
    → let r = post_sig_events s in
      let left : ℕ → Bool = λ i. if s.sigoccurred then false else s.caught i in
      (r.0 ≡ (if s.sigoccurred then expected (length s.hdlrinfo) 0 s.caught s.hdlrinfo else []))
      × (r.1.sigoccurred ≡ false)
      × (r.1.caught ≡ left)
      × ((post_sig_events r.1).0 ≡ [])
      × ((post_sig_events (sig_occurred j r.1)).0
          ≡ expected (length r.1.hdlrinfo) 0 (update left j true) r.1.hdlrinfo)
unfolding post_sig_events sig_occurred
post_sig_events-expected j s = go s.sigoccurred
  where
    left : Bool → ℕ → Bool
    left q i = if q then false else s.caught i

    quiet : (t : Signals) → t.sigoccurred ≡ false → (post_sig_events t).0 ≡ []
    quiet t e =
        ap
          (λ q.
            let u : Signals = record t { caught = λ i. false; sigoccurred = false } in
            let r : List ℕ × Signals =
              if q then post_signals (length t.hdlrinfo) 0 t.caught u else ([], t) in
            r.0)
          e

    go :
        (q : Bool)
        → let u : Signals = record s { sigoccurred = q } in
          let r = post_sig_events u in
          (r.0 ≡ (if q then expected (length s.hdlrinfo) 0 s.caught s.hdlrinfo else []))
          × (r.1.sigoccurred ≡ false)
          × (r.1.caught ≡ left q)
          × ((post_sig_events r.1).0 ≡ [])
          × ((post_sig_events (sig_occurred j r.1)).0
              ≡ expected (length r.1.hdlrinfo) 0 (update (left q) j true) r.1.hdlrinfo)
    go false = (
      refl,
      refl,
      refl,
      refl,
      post_signals-expected (length s.hdlrinfo) 0 (update s.caught j true)
          (record s { caught = λ i. false; sigoccurred = false }),
    )
    go true =
        let t : Signals = record s { caught = λ i. false; sigoccurred = false } in
        let v = (post_signals (length s.hdlrinfo) 0 s.caught t).1 in
        let flags = post_signals_flags (length s.hdlrinfo) 0 s.caught t in
        (
          post_signals-expected (length s.hdlrinfo) 0 s.caught t,
          flags.0,
          flags.1,
          quiet v flags.0,
          post_signals-expected (length v.hdlrinfo) 0 (update v.caught j true)
                (record v { caught = λ i. false; sigoccurred = false })
              ∙ ap (λ c. expected (length v.hdlrinfo) 0 (update c j true) v.hdlrinfo) flags.1,
        )
