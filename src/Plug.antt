-- ===== src/Plug.antt =====
-- StrMod/StreamModule.cxx and StrMod/pubinclude/StrMod/StreamModule.h: plugs, by which modules hand
-- each other chunks. Plugs are numbered, and `other` is the number of the plug that one is plugged
-- into. What a module does when it is read, written or told of something is a parameter, which may
-- change all of a `Net`; `user` is what the modules hold.
mod Linked
mod Pushed
mod Tests
use str_mod.Base.{
  ℕ, zero, suc, ◌==◌, Bool, true, false, not, ◌&&◌, ◌||◌, if◌then◌else◌, Option, none, some,
}

pub record Flags : Type 0 where
  pub isreading : Bool
  pub iswriting : Bool
  pub canread : Bool
  pub canwrite : Bool
  pub notifyonread : Bool
  pub notifyonwrite : Bool

pub record Plug : Type 0 where
  pub flags : Flags
  pub other : Option ℕ

pub record Net (U : Type 0) : Type 0 where
  pub plug : ℕ → Plug
  pub user : U

abbrev pub no_flags : Flags
no_flags = record {
  isreading = false;
  iswriting = false;
  canread = false;
  canwrite = false;
  notifyonread = false;
  notifyonwrite = false;
}

abbrev pub new_plug : Plug
new_plug = record { flags = no_flags; other = none }

abbrev pub is_readable : Plug → Bool
is_readable p = p.flags.canread && not p.flags.isreading

abbrev pub is_writeable : Plug → Bool
is_writeable p = p.flags.canwrite && not p.flags.iswriting

abbrev pub is_plugged : Plug → Bool
is_plugged p = elim p.other [ none ↦ false | some q ↦ true ]

-- `pluggedInto() == other`
abbrev pub plugged_into : Plug → Option ℕ → Bool
plugged_into p o = elim p.other [
  | none ↦ elim o [ none ↦ true | some r ↦ false ]
  | some q ↦ elim o [ none ↦ false | some r ↦ q == r ]
]

abbrev pub with_reading : Bool → Plug → Plug
with_reading b p = record p { flags = record (p.flags) { isreading = b } }

abbrev pub with_writing : Bool → Plug → Plug
with_writing b p = record p { flags = record (p.flags) { iswriting = b } }

-- what `unPlug` and the destructor do to the plug itself
abbrev pub cleared : Plug → Plug
cleared p = record {
  flags = record (p.flags) { notifyonread = false; notifyonwrite = false };
  other = none;
}

abbrev pub same_flag : Bool → Bool → Bool
same_flag a b = if a then b else not b

-- One call after another.
infixl 5 ◌then_do◌
abbrev pub ◌then_do◌ {ℓ} : {A : Type ℓ} → Option A → (A → Option A) → Option A
none then_do step = none
(some a) then_do step = step a

module _ {U : Type 0} where
  -- plug `p` changed by `f`
  abbrev pub on : ℕ → (Plug → Plug) → Net U → Net U
  on p f w = record w { plug = λ q. if q == p then f (w.plug q) else w.plug q }

  -- `if (other != NULL) other->setIsWriting(false)`, and for reading
  abbrev pub stop_writing : Option ℕ → Net U → Net U
  stop_writing none w = w
  stop_writing (some q) w = on q (with_writing false) w

  abbrev pub stop_reading : Option ℕ → Net U → Net U
  stop_reading none w = w
  stop_reading (some q) w = on q (with_reading false) w

  -- `if (other != NULL && other->isWriteable()) other->setIsWriting(true)`, and for reading
  abbrev pub start_writing : Option ℕ → Net U → Net U
  start_writing none w = w
  start_writing (some q) w = if is_writeable (w.plug q) then on q (with_writing true) w else w

  abbrev pub start_reading : Option ℕ → Net U → Net U
  start_reading none w = w
  start_reading (some q) w = if is_readable (w.plug q) then on q (with_reading true) w else w

  -- The first lines of `plugInto`: the two plugs point to each other, and each asks the other what it
  -- needs to be told.
  unfoldable pub link : (needs_read needs_write : ℕ → Bool) → ℕ → ℕ → Net U → Net U
  link needs_read needs_write p q w =
      on q
        (λ x. record x {
          flags = record (x.flags) { notifyonread = needs_read p; notifyonwrite = needs_write p };
          other = some p;
        })
        (on p
          (λ x. record x {
            flags = record (x.flags) { notifyonread = needs_read q; notifyonwrite = needs_write q };
            other = some q;
          })
          w)

  -- The call of the other plug's `unPlug` is the recursion; `none` is fuel that runs out.
  module _ (plug_disconnected : ℕ → Net U → Net U) where
    unfoldable pub unplug : ℕ → ℕ → Net U → Option (Net U)
    unplug zero p w = none
    unplug (suc fuel) p w = elim (w.plug p).other [
      | none ↦ some w
      | some q ↦ elim (unplug fuel q (on p cleared w)) [
        | none ↦ none
        | some v ↦ some (plug_disconnected p v)
      ]
    ]

    -- the destructor
    unfoldable pub destroy : ℕ → ℕ → Net U → Option (Net U)
    unfolding unplug
    destroy fuel p w = elim (w.plug p).other [
      | none ↦ some w
      | some q ↦ unplug fuel q (on p cleared w)
    ]

  -- Behind a transfer: if the plug is in another one now, that takes the part of the old one.
  abbrev pub follow_writing : ℕ → ℕ → Net U → Option ℕ × Net U
  follow_writing p q w =
      if plugged_into (w.plug p) (some q)
      then (some q, w)
      else (let v = on q (with_writing false) w in
          ((v.plug p).other, start_writing (v.plug p).other v))

  module _ {C : Type 0} (i_read : ℕ → Net U → C × Net U) (i_write : ℕ → C → Net U → Net U) where
    -- the loop of `pushLoop`, for the plug that `other` points to
    unfoldable pub push_from : ℕ → ℕ → Option ℕ → Net U → Option (Option ℕ × Net U)
    push_from fuel p none w = some (none, w)
    push_from zero p (some q) w =
        if (w.plug p).flags.canread && (w.plug q).flags.canwrite then none else some (some q, w)
    push_from (suc fuel) p (some q) w =
        let r = i_read p w in
        let f = follow_writing p q (i_write q r.0 r.1) in
        let rest = push_from fuel p f.0 f.1 in
        if (w.plug p).flags.canread && (w.plug q).flags.canwrite then rest else some (some q, w)

    unfoldable pub push_loop : ℕ → ℕ → Net U → Option (Net U)
    unfolding push_from
    push_loop fuel p w =
        if is_readable (w.plug p) && is_plugged (w.plug p)
        then (let other = (w.plug p).other in
            elim (push_from fuel p other (on p (with_reading true) (start_writing other w))) [
              | none ↦ none
              | some r ↦ some (stop_writing r.0 (on p (with_reading false) r.1))
            ])
        else none

    -- Behind a transfer by `pullLoop`.
    abbrev pub follow_reading : ℕ → ℕ → Net U → Option ℕ × Net U
    follow_reading p q w =
        if plugged_into (w.plug p) (some q)
        then (some q, w)
        else (let v = on q (with_reading false) w in
            ((v.plug p).other, start_reading (v.plug p).other v))

    unfoldable pub pull_from : ℕ → ℕ → Option ℕ → Net U → Option (Option ℕ × Net U)
    pull_from fuel p none w = some (none, w)
    pull_from zero p (some q) w =
        if (w.plug p).flags.canwrite && (w.plug q).flags.canread then none else some (some q, w)
    pull_from (suc fuel) p (some q) w =
        let r = i_read q w in
        let f = follow_reading p q (i_write p r.0 r.1) in
        let rest = pull_from fuel p f.0 f.1 in
        if (w.plug p).flags.canwrite && (w.plug q).flags.canread then rest else some (some q, w)

    unfoldable pub pull_loop : ℕ → ℕ → Net U → Option (Net U)
    unfolding pull_from
    pull_loop fuel p w =
        if is_writeable (w.plug p) && is_plugged (w.plug p)
        then (let other = (w.plug p).other in
            let v = on p (with_writing true) w in
            elim (pull_from fuel p other (start_reading other v)) [
              | none ↦ none
              | some r ↦ some (stop_reading r.0 (on p (with_writing false) r.1))
            ])
        else none

    module _ (other_is_readable other_is_writeable : ℕ → Net U → Net U) where
      -- `notifyOtherReadable` and `notifyOtherWriteable`; `none` is an assertion that fails.
      unfoldable pub notify_other_readable : ℕ → Net U → Option (Net U)
      notify_other_readable p w =
          if (w.plug p).flags.notifyonread
          then elim (w.plug p).other [ none ↦ none | some q ↦ some (other_is_readable q w) ]
          else some w

      unfoldable pub notify_other_writeable : ℕ → Net U → Option (Net U)
      notify_other_writeable p w =
          if (w.plug p).flags.notifyonwrite
          then elim (w.plug p).other [ none ↦ none | some q ↦ some (other_is_writeable q w) ]
          else some w

      -- `setReadable` and `setWriteable`
      unfoldable pub set_readable : ℕ → ℕ → Bool → Net U → Option (Net U)
      unfolding push_loop notify_other_readable
      set_readable fuel p val w =
          let oldflag = (w.plug p).flags.canread in
          let v = on p (λ x. record x { flags = record (x.flags) { canread = val } }) w in
          (if is_readable (v.plug p) && is_plugged (v.plug p) then push_loop fuel p v else some v)
          then_do λ u.
              if same_flag (u.plug p).flags.canread oldflag
              then some u
              else notify_other_readable p u

      unfoldable pub set_writeable : ℕ → ℕ → Bool → Net U → Option (Net U)
      unfolding pull_loop notify_other_writeable
      set_writeable fuel p val w =
          let oldflag = (w.plug p).flags.canwrite in
          let v = on p (λ x. record x { flags = record (x.flags) { canwrite = val } }) w in
          (if is_writeable (v.plug p) && is_plugged (v.plug p) then pull_loop fuel p v else some v)
          then_do λ u.
              if same_flag (u.plug p).flags.canwrite oldflag
              then some u
              else notify_other_writeable p u

      -- `if (other_ != NULL) other_->notifyOtherReadable()` behind the plug's own notification, and
      -- for writing
      abbrev pub notify_readable : ℕ → Net U → Option (Net U)
      unfolding notify_other_readable
      notify_readable p w = notify_other_readable p w then_do λ v. elim (v.plug p).other [
        | none ↦ some v
        | some q ↦ notify_other_readable q v
      ]

      abbrev pub notify_writeable : ℕ → Net U → Option (Net U)
      unfolding notify_other_writeable
      notify_writeable p w = notify_other_writeable p w then_do λ v. elim (v.plug p).other [
        | none ↦ some v
        | some q ↦ notify_other_writeable q v
      ]

      -- `plugInto`, with what it returns
      unfoldable pub plug_into :
          (needs_read needs_write : ℕ → Bool) → ℕ → ℕ → ℕ → Net U → Bool × Option (Net U)
      unfolding link notify_readable notify_writeable push_loop pull_loop
      plug_into needs_read needs_write fuel p q w =
          if is_plugged (w.plug p) || is_plugged (w.plug q) then (false, some w) else (
            true,
            notify_readable p (link needs_read needs_write p q w)
                then_do notify_writeable p
                then_do (λ v.
                    if is_readable (v.plug p) && is_plugged (v.plug p)
                    then push_loop fuel p v
                    else some v)
                then_do (λ v.
                    if is_writeable (v.plug p) && is_plugged (v.plug p)
                    then pull_loop fuel p v
                    else some v),
          )
