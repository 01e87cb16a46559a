-- ===== src/Chopper/Held.antt =====
-- The bytes that a chopper holds.
use str_mod.Base.{ℕ, ◌^◌, ◌≤◌, ◌≡◌, Option, none, some, List, [], ◌++◌, length, take}
use str_mod.Chunk.Tree.{Chunk, bytes, IsSound}
use str_mod.Chopper.{CharChopper}

abbrev pub out : Option Chunk → List ℕ
out none = []
out (some c) = bytes c

abbrev pub cur : Option (List ℕ) → ℕ → List ℕ
cur none used = []
cur (some xs) used = take used xs

-- the bytes that a chopper holds, in their order
abbrev pub held : CharChopper → List ℕ
held s = out s.outgoing ++ cur s.curdata s.usedsize

abbrev pub OutSound : Option Chunk → Type 0
OutSound none = Unit
OutSound (some c) = IsSound c

abbrev pub CurFits : Option (List ℕ) → ℕ → Type 0
CurFits none used = Unit
CurFits (some xs) used = used ≤ length xs

abbrev pub IsGood : CharChopper → Type 0
IsGood s = OutSound s.outgoing × CurFits s.curdata s.usedsize

-- No more bytes than this are held.
abbrev pub limit : ℕ
limit = 2 ^ 30

-- `t` holds `bs` behind what `s` holds.
abbrev pub Adds : CharChopper → CharChopper → List ℕ → Type 0
Adds s t bs = IsGood t × (held t ≡ held s ++ bs)

abbrev pub Keeps : CharChopper → CharChopper → Type 0
Keeps s t =
    (t.curdata ≡ s.curdata) × (t.incoming ≡ s.incoming) × (t.outgoing_ready ≡ s.outgoing_ready)
