-- ===== src/Plug/Tests.antt =====
-- Two modules of which one has chunks and the other takes them; plug 1 is in plug 2.
use str_mod.Base.{
  ℕ, ◌==◌, ◌&&◌, ◌≡◌, ◌≤◌, refl, ap, Bool, true, false, if◌then◌else◌, none, some, List, [], ◌∷◌,
  ◌++◌, length, arith,
}
use str_mod.Plug.{Plug, Net, no_flags, new_plug, on, link, push_loop, set_readable}
use str_mod.Plug.Linked.{other_of, IsPaired, link-IsPaired}
use str_mod.Plug.Pushed.{Reads, WritesTo, NotDry, Moved, push_loop-Moved}

abbrev Chunks : Type 0
Chunks = List ℕ × List ℕ

abbrev source : Chunks → List ℕ
source u = u.0

abbrev sink : Chunks → List ℕ
sink u = u.1

abbrev has_some : List ℕ → Bool
has_some [] = false
has_some (c ∷ cs) = true

-- the plug with a flag that says whether there is more to read
abbrev marked : Bool → Plug → Plug
marked b x = record x { flags = record (x.flags) { canread = b } }

abbrev read_list : List ℕ → Net Chunks → ℕ × Net Chunks
read_list [] w = (0, w)
read_list (c ∷ cs) w = (c, record (on 1 (marked (has_some cs)) w) { user = (cs, w.user.1) })

abbrev read_source : ℕ → Net Chunks → ℕ × Net Chunks
read_source p w = read_list w.user.0 w

abbrev write_sink : ℕ → ℕ → Net Chunks → Net Chunks
write_sink q c w = record w { user = (w.user.0, w.user.1 ++ (c ∷ [])) }

abbrev two_plugs : ℕ → Plug
two_plugs p =
    if p == 1
    then record { flags = record no_flags { canread = true }; other = some 2 }
    else if p == 2
    then record { flags = record no_flags { canwrite = true }; other = some 1 }
    else new_plug

abbrev two : Net Chunks
two = record { plug = two_plugs; user = (5 ∷ 6 ∷ [], []) }

abbrev none_plugged : Net Chunks
none_plugged = record { plug = λ p. new_plug; user = ([], []) }

has_some_lem : (xs : List ℕ) → has_some xs ≡ true → 1 ≤ length xs
has_some_lem [] h = absurd (ground (arith, h))
has_some_lem (x ∷ xs) h = omega arith

source-Reads : Reads source sink read_source 1 2
source-Reads w d c = read w.user.0 refl
  where
    read :
        (cs : List ℕ)
        → w.user.0 ≡ cs
        → let r = read_list cs w in
          (cs ≡ r.0 ∷ source r.1.user)
          × (sink r.1.user ≡ sink w.user)
          × ((r.1.plug 2).flags.canwrite ≡ (w.plug 2).flags.canwrite)
          × (other_of 1 r.1 ≡ other_of 1 w)
          × NotDry source sink 1 r.1
    read [] e = absurd (omega (arith, d c, ap length e))
    read (x ∷ xs) e = (refl, refl, refl, refl, has_some_lem xs)

sink-WritesTo : WritesTo source sink write_sink 1 2
sink-WritesTo w c d h = (refl, refl, refl, d)

-- All is moved in two steps, and `setReadable` begins to move it.
run :
    (push_loop read_source write_sink 2 1 two ≡ push_loop read_source write_sink 9 1 two)
    × (elim (set_readable read_source write_sink (λ q w. w) (λ q w. w) 9 1 true two)
          as (λ _. List ℕ) [ none ↦ [] | some w ↦ w.user.1 ]
        ≡ 5 ∷ 6 ∷ [])
unfolding push_loop set_readable
run = (refl, refl)

push_loop-Moved_example :
    (t : Net Chunks) × (push_loop read_source write_sink 2 1 two ≡ some t)
    × Moved source sink read_source write_sink two t
    × (((t.plug 1).flags.canread && (t.plug 2).flags.canwrite) ≡ false)
    × ((t.plug 1).flags.isreading ≡ false)
    × ((t.plug 2).flags.iswriting ≡ false)
push_loop-Moved_example =
    push_loop-Moved source sink read_source write_sink 2 1 2 two source-Reads sink-WritesTo refl
      (λ c. omega arith) refl (omega arith)

abbrev linked : Net Chunks
unfolding link
linked = link (λ p. false) (λ p. false) 3 4 none_plugged

linked-IsPaired : IsPaired linked × (other_of 3 linked ≡ some 4)
unfolding linked
linked-IsPaired =
    link-IsPaired (λ p. false) (λ p. false) 3 4 none_plugged (λ p q e. absurd (ground (arith, e)))
      refl refl
