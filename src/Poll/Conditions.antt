-- ===== src/Poll/Conditions.antt =====
-- Sets of conditions of a file descriptor, and the masks of `poll`.
use str_mod.Base.{Bool, true, false, ◌&&◌, ◌||◌}

-- `FDCondSet`, an `enum_set` of five enumerators, by its bits.
pub record CondSet : Type 0 where
  pub readable : Bool
  pub writeable : Bool
  pub error : Bool
  pub closed : Bool
  pub invalid : Bool

-- A mask of `poll` by its bits; `other` stands for those that are not asked for.
pub record PollMask : Type 0 where
  pub pollin : Bool
  pub pollout : Bool
  pub pollerr : Bool
  pub pollhup : Bool
  pub pollnval : Bool
  pub other : Bool

abbrev pub no_conds : CondSet
no_conds = record {
  readable = false;
  writeable = false;
  error = false;
  closed = false;
  invalid = false;
}

-- `|=`, `&` and the conversion to `bool` of `enum_set`
abbrev pub cond_or : CondSet → CondSet → CondSet
cond_or a b = record {
  readable = a.readable || b.readable;
  writeable = a.writeable || b.writeable;
  error = a.error || b.error;
  closed = a.closed || b.closed;
  invalid = a.invalid || b.invalid;
}

abbrev pub cond_and : CondSet → CondSet → CondSet
cond_and a b = record {
  readable = a.readable && b.readable;
  writeable = a.writeable && b.writeable;
  error = a.error && b.error;
  closed = a.closed && b.closed;
  invalid = a.invalid && b.invalid;
}

abbrev pub cond_any : CondSet → Bool
cond_any a = a.readable || a.writeable || a.error || a.closed || a.invalid

abbrev pub condmask_to_pollmask : CondSet → PollMask
condmask_to_pollmask c = record {
  pollin = c.readable;
  pollout = c.writeable;
  pollerr = c.error;
  pollhup = c.closed;
  pollnval = c.invalid;
  other = false;
}

abbrev pub pollmask_to_condmask : PollMask → CondSet
pollmask_to_condmask m = record {
  readable = m.pollin;
  writeable = m.pollout;
  error = m.pollerr;
  closed = m.pollhup;
  invalid = m.pollnval;
}

-- whether a mask is not 0
abbrev pub mask_any : PollMask → Bool
mask_any m = m.pollin || m.pollout || m.pollerr || m.pollhup || m.pollnval || m.other

abbrev pub badset : CondSet
badset = record {
  readable = false;
  writeable = false;
  error = false;
  closed = true;
  invalid = true;
}
