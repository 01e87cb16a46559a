-- ===== src/Poll/Owned.antt =====
-- The table of the registries that handle signals.
use str_mod.Base.{
  ℕ, zero, suc, Bool, true, false, not, ◌&&◌, ltb, ◌==◌, if◌then◌else◌, Option, none, some, List,
  [], ◌∷◌, length, set, ◌≡◌, refl, sym, ap, subst, ◌∙◌, arith, ==_iff,
}
use str_mod.Poll.Signals.{
  SigData, new_sigdata, Signals, update, Status, done, range_error, data_at, with_data, is_empty,
  remove, too_large, un_handle_signal, clear_event, clear_signal, post_signal, post_signals,
  post_sig_events,
}
use str_mod.Poll.Handled.{IsOwner, data_at-set}

-- A handler is registered in range.
in_range :
    (i : ℕ) (ds : List SigData)
    → (data_at i ds).handler_registered ≡ true
    → ltb i (length ds) ≡ true
in_range i [] h = cc
in_range zero (d ∷ ds) h = ground arith
in_range (suc i) (d ∷ ds) h = ground (arith, in_range i ds h)

abbrev pub Registered : SigData → Type 0
Registered d = d.handler_registered ≡ true

module _ (me : ℕ) where
  -- A change of the table and of the data at one signal.
  pub set-IsOwner :
      (signo : ℕ) (d : SigData) (table : ℕ → Option ℕ) (s : Signals)
      → IsOwner me s
      → (d.handler_registered ≡ true → table signo ≡ some me)
      → ((i : ℕ) → (i == signo) ≡ false → table i ≡ s.handled_by i)
      → IsOwner me (record s { handled_by = table; hdlrinfo = set s.hdlrinfo signo d })
  set-IsOwner signo d table s own new old i h =
      go (i == signo) refl (subst Registered (data_at-set i signo d s.hdlrinfo) h)
    where
      go :
          (q : Bool)
          → (i == signo) ≡ q
          → Registered (if q && ltb signo (length s.hdlrinfo) then d else data_at i s.hdlrinfo)
          → table i ≡ some me
      go false e k = old i e ∙ own i k
      go true e k = inner (ltb signo (length s.hdlrinfo)) refl k
        where
          at : i ≡ signo
          at = (==_iff i signo).0 e

          inner :
              (r : Bool)
              → ltb signo (length s.hdlrinfo) ≡ r
              → Registered (if r then d else data_at i s.hdlrinfo)
              → table i ≡ some me
          inner true f k = subst (λ j. table j ≡ some me) (sym at) (new k)
          inner false f k = absurd (ground (arith, f, in_range i s.hdlrinfo k, at))

  pub updated :
      (signo i : ℕ) (a : Option ℕ) (table : ℕ → Option ℕ)
      → (i == signo) ≡ false
      → update table signo a i ≡ table i
  updated signo i a table e = ap (λ q. if q then a else table i) e

  pub same : (signo : ℕ) → (signo == signo) ≡ true
  same signo = (==_iff signo signo).1 refl

  pub un_handle-IsOwner :
      (signo : ℕ) (d : SigData) (s : Signals)
      → IsOwner me s
      → d.handler_registered ≡ false
      → IsOwner me (with_data signo d (un_handle_signal signo s))
  unfolding un_handle_signal
  un_handle-IsOwner signo d s own f =
      set-IsOwner signo d (update s.handled_by signo none) s own (λ h. cc)
        (λ i e. updated signo i none s.handled_by e)

  pub clear_signal-IsOwner :
      (bits signo : ℕ) (s : Signals) → IsOwner me s → IsOwner me (clear_signal bits signo s).1
  unfolding clear_signal
  clear_signal-IsOwner bits signo s own =
      go (too_large bits signo)
        (ltb signo (length s.hdlrinfo) && (data_at signo s.hdlrinfo).handler_registered)
    where
      go :
          (q r : Bool)
          → let t : Status × Signals =
              if q
              then (range_error, s)
              else if r
              then (done, with_data signo new_sigdata (un_handle_signal signo s))
              else (done, s) in
            IsOwner me t.1
      go true r = own
      go false true = un_handle-IsOwner signo new_sigdata s own refl
      go false false = own

  pub clear_event-IsOwner :
      (bits signo e : ℕ) (s : Signals) → IsOwner me s → IsOwner me (clear_event bits signo e s).1
  unfolding clear_event
  clear_event-IsOwner bits signo e s own =
      go (too_large bits signo) (ltb signo (length s.hdlrinfo)) (remove e d.events)
    where
      d : SigData
      d = data_at signo s.hdlrinfo

      go :
          (q r : Bool) (left : List ℕ)
          → let t : Status × Signals =
              if q
              then (range_error, s)
              else if r
              then (
                done,
                if is_empty left
                    then with_data signo
                        (record { handler_registered = false; events = [] })
                        (un_handle_signal signo s)
                    else with_data signo (record d { events = left }) s,
              )
              else (done, s) in
            IsOwner me t.1
      go true r left = own
      go false false left = own
      go false true [] =
          un_handle-IsOwner signo (record { handler_registered = false; events = [] }) s own refl
      go false true (x ∷ left) =
          set-IsOwner signo (record d { events = x ∷ left }) s.handled_by s own (own signo)
            (λ i f. refl)

  pub post_signal-IsOwner : (i : ℕ) (s : Signals) → IsOwner me s → IsOwner me (post_signal i s).1
  unfolding post_signal
  post_signal-IsOwner i s own = go d.handler_registered d.events refl
    where
      d : SigData
      d = data_at i s.hdlrinfo

      go :
          (q : Bool) (es : List ℕ)
          → d.handler_registered ≡ q
          → let t : List ℕ × Signals =
              if not q
              then ([], with_data i (record { handler_registered = q; events = [] }) s)
              else if is_empty es
              then (
                [],
                with_data i
                    (record { handler_registered = false; events = es })
                    (un_handle_signal i s),
              )
              else (es, s) in
            IsOwner me t.1
      go false es f =
          set-IsOwner i (record { handler_registered = false; events = [] }) s.handled_by s own
            (λ h. cc) (λ j e. refl)
      go true [] f =
          un_handle-IsOwner i (record { handler_registered = false; events = [] }) s own refl
      go true (x ∷ es) f = own

  post_signals-IsOwner :
      (n i : ℕ) (caught : ℕ → Bool) (s : Signals)
      → IsOwner me s
      → IsOwner me (post_signals n i caught s).1
  unfolding post_signals
  post_signals-IsOwner zero i caught s own = own
  post_signals-IsOwner (suc n) i caught s own =
      go (caught i) (post_signals-IsOwner n (suc i) caught)
    where
      go :
          (q : Bool)
          → ((t : Signals) → IsOwner me t → IsOwner me (post_signals n (suc i) caught t).1)
          → let t = if q then post_signal i s else ([], s) in
            IsOwner me (post_signals n (suc i) caught t.1).1
      go true ih = ih (post_signal i s).1 (post_signal-IsOwner i s own)
      go false ih = ih s own

  pub post_sig_events-IsOwner : (s : Signals) → IsOwner me s → IsOwner me (post_sig_events s).1
  unfolding post_sig_events
  post_sig_events-IsOwner s own = go s.sigoccurred
    where
      go :
          (q : Bool)
          → let t : List ℕ × Signals =
              if q
              then post_signals
                  (length s.hdlrinfo)
                  0
                  s.caught
                  (record s { caught = λ i. false; sigoccurred = false })
              else ([], s) in
            IsOwner me t.1
      go true =
          post_signals-IsOwner (length s.hdlrinfo) 0 s.caught
            (record s { caught = λ i. false; sigoccurred = false }) own
      go false = own
