-- ===== src/Poll/Foreign.antt =====
-- What one registry does to the table of signals that another relies on.
use str_mod.Base.{
  ℕ, zero, suc, Bool, true, false, not, ◌&&◌, ltb, ◌==◌, if◌then◌else◌, Option, none, some, List,
  [], ◌∷◌, ◌++◌, length, ◌≡◌, refl, sym, ap, subst, ◌∙◌, arith, ==_iff,
}
use str_mod.Poll.Signals.{
  SigData, new_sigdata, Signals, update, Status, done, range_error, logic_error, unix_error, grown,
  data_at, with_data, is_empty, is_others, too_large, handle_signal, un_handle_signal, on_signal,
  clear_signal, post_signal, post_signals, post_sig_events,
}
use str_mod.Poll.Handled.{IsOwner}
use str_mod.Poll.Owned.{post_signal-IsOwner}

module _ (me other : ℕ) (apart : (me == other) ≡ false) where
  -- What the table of `t` gives to `me`, that of `u` does.
  abbrev pub KeepsEntries : Signals → Signals → Type 0
  KeepsEntries t u = (i : ℕ) → t.handled_by i ≡ some me → u.handled_by i ≡ some me

  not_mine : some other ≡ some me → ⊥
  not_mine e =
      let k : is_others other (some me) ≡ is_others other (some other) =
        ap (is_others other) (sym e) in
      absurd (ground (arith, k, apart))

  -- A change of the entry at a signal that is not that of `me`.
  changed :
      (signo : ℕ) (a : Option ℕ) (table : ℕ → Option ℕ)
      → (table signo ≡ some me → ⊥)
      → (i : ℕ) → table i ≡ some me
      → update table signo a i ≡ some me
  changed signo a table k i h = go (i == signo) refl
    where
      go : (q : Bool) → (i == signo) ≡ q → (if q then a else table i) ≡ some me
      go true e = absurd (k (subst (λ j. table j ≡ some me) ((==_iff i signo).0 e) h))
      go false e = h

  pub on_signal-KeepsEntries :
      (bits : ℕ) (fails : Bool) (signo e : ℕ) (t : Signals)
      → KeepsEntries t (on_signal bits other fails signo e t).1
  unfolding on_signal handle_signal
  on_signal-KeepsEntries bits fails signo e t =
      go (too_large bits signo) d.handler_registered (is_others other (t.handled_by signo)) refl
        fails
    where
      g : Signals
      g = record t { hdlrinfo = grown signo t.hdlrinfo }

      d : SigData
      d = data_at signo g.hdlrinfo

      entry : SigData
      entry = record { handler_registered = true; events = d.events ++ (e ∷ []) }

      free : is_others other (t.handled_by signo) ≡ false → t.handled_by signo ≡ some me → ⊥
      free k h =
          let m : is_others other (some me) ≡ false = subst (λ a. is_others other a ≡ false) h k in
          absurd (ground (arith, m, apart))

      go :
          (q r o : Bool)
          → is_others other (t.handled_by signo) ≡ o
          → (f : Bool)
          → let (taken, u) = handle_signal other f signo g in
            let x : Status × Signals =
              if q
              then (range_error, t)
              else if r
              then (done, with_data signo entry g)
              else if o
              then (logic_error, g)
              else if taken
              then (done, with_data signo entry u)
              else (unix_error, u) in
            KeepsEntries t x.1
      go true r o k f i h = h
      go false true o k f i h = h
      go false false true k f i h = h
      go false false false k true i h = changed signo (some other) t.handled_by (free k) i h
      go false false false k false i h = changed signo (some other) t.handled_by (free k) i h

  un_handle-KeepsEntries :
      (signo : ℕ) (t : Signals)
      → t.handled_by signo ≡ some other
      → KeepsEntries t (un_handle_signal signo t)
  unfolding un_handle_signal
  un_handle-KeepsEntries signo t k = changed signo none t.handled_by (λ h. not_mine (sym k ∙ h))

  pub clear_signal-KeepsEntries :
      (bits signo : ℕ) (t : Signals)
      → IsOwner other t
      → KeepsEntries t (clear_signal bits signo t).1
  unfolding clear_signal
  clear_signal-KeepsEntries bits signo t own =
      go (too_large bits signo) (ltb signo (length t.hdlrinfo))
        (data_at signo t.hdlrinfo).handler_registered refl
    where
      go :
          (q l r : Bool)
          → (data_at signo t.hdlrinfo).handler_registered ≡ r
          → let x : Status × Signals =
              if q
              then (range_error, t)
              else if l && r
              then (done, with_data signo new_sigdata (un_handle_signal signo t))
              else (done, t) in
            KeepsEntries t x.1
      go true l r k i h = h
      go false true true k i h = un_handle-KeepsEntries signo t (own signo k) i h
      go false true false k i h = h
      go false false r k i h = h

  post_signal-KeepsEntries :
      (n : ℕ) (t : Signals) → IsOwner other t → KeepsEntries t (post_signal n t).1
  unfolding post_signal
  post_signal-KeepsEntries n t own = go d.handler_registered d.events refl
    where
      d : SigData
      d = data_at n t.hdlrinfo

      go :
          (q : Bool) (es : List ℕ)
          → d.handler_registered ≡ q
          → let x : List ℕ × Signals =
              if not q
              then ([], with_data n (record { handler_registered = q; events = [] }) t)
              else if is_empty es
              then (
                [],
                with_data n
                    (record { handler_registered = false; events = es })
                    (un_handle_signal n t),
              )
              else (es, t) in
            KeepsEntries t x.1
      go false es k i h = h
      go true [] k i h = un_handle-KeepsEntries n t (own n k) i h
      go true (x ∷ es) k i h = h

  post_signals-KeepsEntries :
      (n i : ℕ) (caught : ℕ → Bool) (t : Signals)
      → IsOwner other t
      → KeepsEntries t (post_signals n i caught t).1
  unfolding post_signals
  post_signals-KeepsEntries zero i caught t own = λ j h. h
  post_signals-KeepsEntries (suc n) i caught t own =
      go (caught i) (post_signals-KeepsEntries n (suc i) caught)
    where
      go :
          (q : Bool)
          → ((u : Signals) → IsOwner other u → KeepsEntries u (post_signals n (suc i) caught u).1)
          → let u = if q then post_signal i t else ([], t) in
            KeepsEntries t (post_signals n (suc i) caught u.1).1
      go true ih j h =
          ih (post_signal i t).1 (post_signal-IsOwner other i t own) j
            (post_signal-KeepsEntries i t own j h)
      go false ih j h = ih t own j h

  pub post_sig_events-KeepsEntries :
      (t : Signals) → IsOwner other t → KeepsEntries t (post_sig_events t).1
  unfolding post_sig_events
  post_sig_events-KeepsEntries t own = go t.sigoccurred
    where
      go :
          (q : Bool)
          → let x : List ℕ × Signals =
              if q
              then post_signals
                  (length t.hdlrinfo)
                  0
                  t.caught
                  (record t { caught = λ i. false; sigoccurred = false })
              else ([], t) in
            KeepsEntries t x.1
      go true i h =
          post_signals-KeepsEntries (length t.hdlrinfo) 0 t.caught
            (record t { caught = λ i. false; sigoccurred = false }) own i h
      go false i h = h
