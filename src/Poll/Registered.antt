-- ===== src/Poll/Registered.antt =====
-- A handler that is registered, and one that is taken away.
use str_mod.Base.{
  ℕ, ◌-◌, ◌<◌, suc, Bool, true, false, ◌&&◌, leb, ltb, ◌==◌, if◌then◌else◌, Option, none, some,
  List, [], ◌∷◌, ◌++◌, length, set, ◌≡◌, refl, sym, ap, ap₂, subst, ◌∙◌, arith, lt→ltb, ==_iff,
  length-append, length-replicate, replicate,
}
use str_mod.Poll.Signals.{
  SigData, new_sigdata, Signals, update, Status, done, range_error, logic_error, unix_error, grown,
  data_at, with_data, is_others, too_large, handle_signal, un_handle_signal, on_signal, clear_event,
  clear_signal, post_sig_events,
}
use str_mod.Poll.Handled.{IsOwner, data_at-set, data_at-grown}
use str_mod.Poll.Foreign.{
  KeepsEntries, on_signal-KeepsEntries, clear_signal-KeepsEntries, post_sig_events-KeepsEntries,
}
use str_mod.Poll.Owned.{
  set-IsOwner, updated, same, clear_signal-IsOwner, clear_event-IsOwner, post_sig_events-IsOwner,
  Registered,
}

grown-length : (signo : ℕ) (ds : List SigData) → ltb signo (length (grown signo ds)) ≡ true
grown-length signo ds = go (leb (length ds) signo) refl
  where
    more : List SigData
    more = replicate (suc signo - length ds) new_sigdata

    go :
        (q : Bool)
        → leb (length ds) signo ≡ q
        → ltb signo (length (if q then ds ++ more else ds)) ≡ true
    go true h =
        ground (arith, length-append ds more, length-replicate (suc signo - length ds) new_sigdata)
    go false h = ground arith

-- the state of a registry when another one has left its own in `t`
abbrev pub beside : Signals → Signals → Signals
beside s t = record s { handled_by = t.handled_by }

module _ (me : ℕ) where
  -- the outcome of `onSignal`
  abbrev Taken : ℕ → ℕ → Signals → Status × Signals → Type 0
  Taken signo e s r =
      IsOwner me r.1
      × (r.0 ≡ done
          → (r.1.handled_by signo ≡ some me)
            × ((data_at signo r.1.hdlrinfo).handler_registered ≡ true)
            × ((data_at signo r.1.hdlrinfo).events ≡ (data_at signo s.hdlrinfo).events ++ (e ∷ [])))

  on_signal-Taken :
      (bits : ℕ) (fails : Bool) (signo e : ℕ) (s : Signals)
      → IsOwner me s
      → Taken signo e s (on_signal bits me fails signo e s)
  unfolding on_signal handle_signal
  on_signal-Taken bits fails signo e s own =
      go (too_large bits signo) d.handler_registered refl (is_others me (s.handled_by signo)) fails
    where
      ds : List SigData
      ds = grown signo s.hdlrinfo

      t : Signals
      t = record s { hdlrinfo = ds }

      d : SigData
      d = data_at signo ds

      entry : SigData
      entry = record { handler_registered = true; events = d.events ++ (e ∷ []) }

      mine : ℕ → Option ℕ
      mine = update s.handled_by signo (some me)

      mine_here : mine signo ≡ some me
      mine_here = ap (λ q. if q then some me else s.handled_by signo) (same me signo)

      own_t : IsOwner me t
      own_t i h = own i (subst Registered (data_at-grown i signo s.hdlrinfo) h)

      own_mine : IsOwner me (record t { handled_by = mine })
      own_mine i h = choose (i == signo)
        where
          choose : (q : Bool) → (if q then some me else s.handled_by i) ≡ some me
          choose true = refl
          choose false = own_t i h

      stored : data_at signo (set ds signo entry) ≡ entry
      stored =
          data_at-set signo signo entry ds
          ∙ ap₂ (λ q r. if q && r then entry else data_at signo ds) (same me signo)
              (grown-length signo s.hdlrinfo)

      result :
          (u : Signals)
          → u.handled_by signo ≡ some me
          → u.hdlrinfo ≡ set ds signo entry
          → (u.handled_by signo ≡ some me)
            × ((data_at signo u.hdlrinfo).handler_registered ≡ true)
            × ((data_at signo u.hdlrinfo).events ≡ (data_at signo s.hdlrinfo).events ++ (e ∷ []))
      result u h f =
          let at = ap (data_at signo) f ∙ stored in
          (
            h,
            ap (λ (x : SigData). x.handler_registered) at,
            ap (λ (x : SigData). x.events) at
                ∙ ap (λ (x : SigData). x.events ++ (e ∷ [])) (data_at-grown signo signo s.hdlrinfo),
          )

      go :
          (q r : Bool)
          → d.handler_registered ≡ r
          → (o f : Bool)
          → let (taken, u) = handle_signal me f signo t in
            Taken signo e s (
              if q
              then (range_error, s)
              else if r
              then (done, with_data signo entry t)
              else if o
              then (logic_error, t)
              else if taken
              then (done, with_data signo entry u)
              else (unix_error, u))
      go true r k o f = (own, λ h. cc)
      go false true k o f = (
        set-IsOwner me signo entry s.handled_by t own_t (λ h. own_t signo k) (λ i h. refl),
        λ h. result (with_data signo entry t) (own_t signo k) refl,
      )
      go false false k true f = (own_t, λ h. cc)
      go false false k false true = (own_mine, λ h. cc)
      go false false k false false = (
        set-IsOwner me signo entry mine t own_t (λ h. mine_here)
            (λ i h. updated me signo i (some me) s.handled_by h),
        λ h.
            result
              (with_data signo entry
                (record t { handled_by = mine; handled = update s.handled signo true }))
              mine_here refl,
      )

  -- Where a registry has registered a handler, the table that all registries share names it, if that
  -- is so at first: it stays so when the registry itself adds an event for a signal, whether or not
  -- the system takes the handler, takes one event or all off, or posts the events for the caught
  -- signals. If the table is so for another registry too, it also stays so when that one adds an
  -- event for any signal, takes all events of one off, or posts events. (Taking one event off is left
  -- out for the other registry.)
  pub signals-IsOwner :
      (bits : ℕ) (fails : Bool) (signo e : ℕ) (s : Signals)
      → IsOwner me s
      → (other : ℕ) → (me == other) ≡ false
      → (t : Signals) → IsOwner other t
      → s.handled_by ≡ t.handled_by
      → IsOwner me (on_signal bits me fails signo e s).1
        × IsOwner me (clear_event bits signo e s).1
        × IsOwner me (clear_signal bits signo s).1
        × IsOwner me (post_sig_events s).1
        × IsOwner me (beside s (on_signal bits other fails signo e t).1)
        × IsOwner me (beside s (clear_signal bits signo t).1)
        × IsOwner me (beside s (post_sig_events t).1)
  signals-IsOwner bits fails signo e s own other apart t theirs shared = (
    (on_signal-Taken bits fails signo e s own).0,
    clear_event-IsOwner me bits signo e s own,
    clear_signal-IsOwner me bits signo s own,
    post_sig_events-IsOwner me s own,
    kept (on_signal bits other fails signo e t).1
        (on_signal-KeepsEntries me other apart bits fails signo e t),
    kept (clear_signal bits signo t).1
        (clear_signal-KeepsEntries me other apart bits signo t theirs),
    kept (post_sig_events t).1 (post_sig_events-KeepsEntries me other apart t theirs),
  )
    where
      kept : (u : Signals) → KeepsEntries me other apart t u → IsOwner me (beside s u)
      kept u k i h = k i (sym (ap (λ (f : ℕ → Option ℕ). f i) shared) ∙ own i h)

  -- If the registries are as above and no error is thrown, the event stands behind the others that
  -- wait for the signal, the handler is registered, and the table names this registry.
  pub on_signal_lem :
      (bits : ℕ) (fails : Bool) (signo e : ℕ) (s : Signals)
      → IsOwner me s
      → let r = on_signal bits me fails signo e s in
        r.0 ≡ done
        → (r.1.handled_by signo ≡ some me)
          × ((data_at signo r.1.hdlrinfo).handler_registered ≡ true)
          × ((data_at signo r.1.hdlrinfo).events ≡ (data_at signo s.hdlrinfo).events ++ (e ∷ []))
  on_signal_lem bits fails signo e s own h = (on_signal-Taken bits fails signo e s own).1 h

-- A registry with room for a signal but with neither a handler nor an event for it takes the signal
-- from the registry that handles it, whichever that is, when it is asked to take an event off.
pub clear_event_steals :
    (bits signo e r : ℕ) (s : Signals)
    → too_large bits signo ≡ false
    → signo < length s.hdlrinfo
    → data_at signo s.hdlrinfo ≡ new_sigdata
    → s.handled_by signo ≡ some r
    → ((clear_event bits signo e s).0 ≡ done)
      × ((clear_event bits signo e s).1.handled_by signo ≡ none)
unfolding clear_event un_handle_signal
clear_event_steals bits signo e r s small h d k =
    rw (small, lt→ltb signo (length s.hdlrinfo) h, d)
      (refl, ap (λ q. if q then none else s.handled_by signo) ((==_iff signo signo).1 refl))
