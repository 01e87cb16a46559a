-- ===== src/Chunker/Built.antt =====
-- The chunks that a builder makes of the parser's calls.
use mathlib.Core.List.{append-nil, append_assoc}
use str_mod.Base.{
  ℕ, ◌-◌, ◌%◌, ◌≤◌, ◌≡◌, refl, sym, ap, ap₂, subst, ◌∙◌, inl, inr, Bool, true, false, ◌&&◌, ◌||◌,
  ltb, leb, ◌==◌, if◌then◌else◌, Option, none, some, List, [], ◌∷◌, ◌++◌, length, arith, Bool-cases,
  u32_mod, sub64,
}
use str_mod.LinearExtent.{extent}
use str_mod.Chunk.Slices.{slice, length-slice, slice_all}
use str_mod.Chunk.Tree.{
  Chunk, single_char, option_negotiation, suboption, chunk_length, str_sub_chunk, bytes, IsSound,
}
use str_mod.Chunk.Sound.{chunk_length-bytes, str_sub_chunk-IsSound}
use str_mod.Telnet.State.{Event, data_block, char_command, negotiation_command, max_pos}
use str_mod.Telnet.State
use str_mod.Telnet.Regions.{Between}
use str_mod.Chunker.{Builder, ◌>>=◌, make_data_ptr, add_data_block, add_suboption, build, build_all}

-- The builder holds `c`, which is not longer than the positions of the parser.
abbrev pub IsCurrent : Chunk → Builder → Type 0
IsCurrent c b =
    (b.curchunk ≡ some c) × IsSound c × (b.curlen ≡ length (bytes c)) × (b.curlen ≤ max_pos)

-- Whether a suboption with no byte is among the calls.
abbrev pub has_empty : List Event → Bool
has_empty [] = false
has_empty (State.suboption o b e xs ∷ es) = leb e b || has_empty es
has_empty (data_block b e ∷ es) = has_empty es
has_empty (char_command c ∷ es) = has_empty es
has_empty (negotiation_command n o ∷ es) = has_empty es

abbrev is_blank : Event → Bool
is_blank (data_block b e) = e == b
is_blank (char_command c) = false
is_blank (negotiation_command n o) = false
is_blank (State.suboption o b e xs) = false

-- `d` is what is to be made of the call in a stream `bs`.
abbrev pub Makes : List ℕ → Event → Chunk → Type 0
Makes bs (data_block b e) d = bytes d ≡ slice b (e - b) bs
Makes bs (char_command c) d = d ≡ single_char c
Makes bs (negotiation_command n o) d = d ≡ option_negotiation n o
Makes bs (State.suboption o b e xs) d =
    (raw : Chunk) × (d ≡ suboption o raw (e - b) xs) × (bytes raw ≡ slice b (e - b) bs)

abbrev pub Front : List ℕ → Event → (List Chunk → Type 0) → List Chunk → Type 0
Front bs e Rest [] = ⊥
Front bs e Rest (d ∷ ds) = IsSound d × Makes bs e d × Rest ds

-- The chunks are those of the calls, in order, but for data without a byte.
abbrev pub Built : List ℕ → List Event → List Chunk → Type 0
Built bs [] ds = ds ≡ []
Built bs (e ∷ es) ds = if is_blank e then Built bs es ds else Front bs e (Built bs es) ds

data_ptr :
    (b e : ℕ) (c : Chunk) (t : Builder)
    → IsCurrent c t
    → b ≤ e
    → e ≤ t.curlen
    → (d : Chunk) × (make_data_ptr b e t ≡ some d)
      × IsSound d
      × (bytes d ≡ slice b (e - b) (bytes c))
unfolding make_data_ptr extent
data_ptr b e c t (cur, s, n, m) h k = choose (b == 0 && e == t.curlen) refl
  where
    whole : (b == 0 && e == t.curlen) ≡ true → (b ≡ 0) × (length (bytes c) ≤ e - b)
    whole q = ground (arith, n)

    choose :
        (q : Bool)
        → (b == 0 && e == t.curlen) ≡ q
        → (d : Chunk) × ((if q
              then t.curchunk
              else t.curchunk >>= λ x.
                  some (str_sub_chunk x (extent (b % u32_mod) (sub64 e b % u32_mod))))
            ≡ some d)
          × IsSound d
          × (bytes d ≡ slice b (e - b) (bytes c))
    choose true q =
        let w = whole q in
        (
          c,
          cur,
          s,
          subst (λ z. bytes c ≡ slice z (e - b) (bytes c)) (sym w.0)
              (sym (slice_all (e - b) (bytes c) w.1)),
        )
    choose false q =
        let be : b % u32_mod ≡ b = omega arith in
        let ee : sub64 e b % u32_mod ≡ e - b = omega arith in
        let r = str_sub_chunk-IsSound c (extent b (e - b)) s (omega arith) in
        (str_sub_chunk c (extent b (e - b)), rw (cur, be, ee), r.0, r.1)

-- The builder with more in its queue.
abbrev pub queued : Builder → List Chunk → Builder
queued b ds = record b { chunks = b.chunks ++ ds }

-- A builder that holds `c` faults exactly at a suboption with no byte, and else has the chunks of
-- the calls behind those that it had.
abbrev pub Outcome : Chunk → Builder → List Event → Option Builder → Type 0
Outcome c b es none = has_empty es ≡ true
Outcome c b es (some t) =
    (has_empty es ≡ false) × (ds : List Chunk) × (t ≡ queued b ds) × Built (bytes c) es ds

module _ (junk : ℕ) where
  add_data_block-Outcome :
      (b e : ℕ) (c : Chunk) (t : Builder)
      → IsCurrent c t
      → b ≤ e
      → e ≤ t.curlen
      → Outcome c t (data_block b e ∷ []) (add_data_block false junk b e t)
  unfolding add_data_block
  add_data_block-Outcome b e c t cur h k = elim (Bool-cases (e == b)) [
    | inl q ↦
        rw q (refl, [], ap (λ cs. record t { chunks = cs }) (sym (append-nil t.chunks)), rw q refl)
    | inr q ↦
        let (d, made, s, f) = data_ptr b e c t cur h k in
        rw (q, made) (refl, d ∷ [], refl, rw q (s, f, refl))
  ]

  add_suboption-Outcome :
      (o b e : ℕ) (xs : List ℕ) (c : Chunk) (t : Builder)
      → IsCurrent c t
      → b ≤ e
      → e ≤ t.curlen
      → Outcome c t (State.suboption o b e xs ∷ []) (add_suboption false junk o b e xs t)
  unfolding add_suboption chunk_length IsSound
  add_suboption-Outcome o b e xs c t cur h k = elim (Bool-cases (ltb b e)) [
    | inl q ↦
        let (d, made, s, f) = data_ptr b e c t cur h k in
        let len = chunk_length-bytes d s in
        let n : chunk_length d ≡ e - b =
          omega (arith, len.0, cur.2, ap length f, length-slice b (e - b) (bytes c)) in
        rw (q, made)
          (
            ground (arith, q),
            suboption o d (chunk_length d) xs ∷ [],
            refl,
            ((s, len.0, omega (arith, n, cur.3)), (d, ap (λ l. suboption o d l xs) n, f), refl),
          )
    | inr q ↦ rw q (ground (arith, q))
  ]

  build-Outcome :
      (e : Event) (lo : ℕ) (c : Chunk) (t : Builder)
      → IsCurrent c t
      → Between lo t.curlen (e ∷ [])
      → Outcome c t (e ∷ []) (build false junk e t)
  unfolding build IsSound
  build-Outcome (data_block b e) lo c t cur h = add_data_block-Outcome b e c t cur h.1 h.2
  build-Outcome (State.suboption o b e xs) lo c t cur h =
      add_suboption-Outcome o b e xs c t cur h.1 h.2
  build-Outcome (char_command d) lo c t cur h = (refl, single_char d ∷ [], refl, (tt, refl, refl))
  build-Outcome (negotiation_command n o) lo c t cur h =
      (refl, option_negotiation n o ∷ [], refl, (tt, refl, refl))

has_empty_cons :
    (e : Event) (es : List Event) → has_empty (e ∷ es) ≡ (has_empty (e ∷ []) || has_empty es)
has_empty_cons (data_block b e) es = refl
has_empty_cons (char_command c) es = refl
has_empty_cons (negotiation_command n o) es = refl
has_empty_cons (State.suboption o b e xs) es = ground arith

Built-cons :
    (bs : List ℕ) (e : Event) (es : List Event) (ds fs : List Chunk)
    → Built bs (e ∷ []) ds
    → Built bs es fs
    → Built bs (e ∷ es) (ds ++ fs)
Built-cons bs e es ds fs h k = go (is_blank e) ds h
  where
    go :
        (q : Bool) (ds : List Chunk)
        → (if q then ds ≡ [] else Front bs e (λ cs. cs ≡ []) ds)
        → (if q then Built bs es (ds ++ fs) else Front bs e (Built bs es) (ds ++ fs))
    go true ds h = subst (λ cs. Built bs es (cs ++ fs)) (sym h) k
    go false [] h = absurd h
    go false (d ∷ ds) h = (h.0, h.1, subst (λ cs. Built bs es (cs ++ fs)) (sym h.2) k)

Between-le : (lo hi : ℕ) (es : List Event) → Between lo hi es → lo ≤ hi
Between-le lo hi [] h = h
Between-le lo hi (data_block b e ∷ es) h = omega (arith, h.0, h.1, Between-le e hi es h.2)
Between-le lo hi (State.suboption o b e xs ∷ es) h = omega (arith, h.0, h.1, Between-le e hi es h.2)
Between-le lo hi (char_command c ∷ es) h = Between-le lo hi es h
Between-le lo hi (negotiation_command n o ∷ es) h = Between-le lo hi es h

Between-cons :
    (lo hi : ℕ) (e : Event) (es : List Event)
    → Between lo hi (e ∷ es)
    → Between lo hi (e ∷ []) × ((mid : ℕ) × Between mid hi es)
Between-cons lo hi (data_block b e) es h = ((h.0, h.1, Between-le e hi es h.2), (e, h.2))
Between-cons lo hi (State.suboption o b e xs) es h = ((h.0, h.1, Between-le e hi es h.2), (e, h.2))
Between-cons lo hi (char_command c) es h = (Between-le lo hi es h, (lo, h))
Between-cons lo hi (negotiation_command n o) es h = (Between-le lo hi es h, (lo, h))

-- Called for regions that lie in order in what it holds, the builder faults exactly if one is a
-- suboption with no byte. Else it queues, behind what was there, a sound chunk for each call but
-- for empty data, in order: the bytes of the region, the command, the negotiation, or the
-- suboption with the raw bytes of its region and the cooked ones.
pub build_all-Outcome :
    (junk lo : ℕ) (es : List Event) (c : Chunk) (t : Builder)
    → IsCurrent c t
    → Between lo t.curlen es
    → Outcome c t es (build_all false junk es t)
unfolding build_all
build_all-Outcome junk lo [] c t cur h =
    (refl, [], ap (λ cs. record t { chunks = cs }) (sym (append-nil t.chunks)), refl)
build_all-Outcome junk lo (e ∷ es) c t cur h =
    let (head, rest) = Between-cons lo t.curlen e es h in
    go (build false junk e t) (build-Outcome junk e lo c t cur head) (λ u k.
      build_all-Outcome junk rest.0 es c u (subst (IsCurrent c) (sym k.1) cur)
        (subst (λ z. Between rest.0 z.curlen es) (sym k.1) rest.1))
  where
    Extended : Builder → Type 0
    Extended u = (ds : List Chunk) × (u ≡ queued t ds)

    last :
        (u : Builder) (ds : List Chunk)
        → has_empty (e ∷ []) ≡ false
        → u ≡ queued t ds
        → Built (bytes c) (e ∷ []) ds
        → (r : Option Builder) → Outcome c u es r
        → Outcome c t (e ∷ es) r
    last u ds f p b none k = has_empty_cons e es ∙ ap₂ ◌||◌ f k
    last u ds f p b (some w) k = (
      has_empty_cons e es ∙ ap₂ ◌||◌ f k.0,
      ds ++ k.1,
      k.2
          ∙ ap (λ z. queued z k.1) p
          ∙ ap (λ cs. record t { chunks = cs }) (append_assoc t.chunks ds k.1),
      Built-cons (bytes c) e es ds k.1 b k.3,
    )

    go :
        (r : Option Builder)
        → Outcome c t (e ∷ []) r
        → ((u : Builder) → Extended u → Outcome c u es (build_all false junk es u))
        → Outcome c t (e ∷ es) (r >>= build_all false junk es)
    go none k f = has_empty_cons e es ∙ ap (λ q. q || has_empty es) k
    go (some u) k f = last u k.1 k.0 k.2 k.3 (build_all false junk es u) (f u (k.1, k.2))

abbrev pub QueueSound : List Chunk → Type 0
QueueSound [] = Unit
QueueSound (d ∷ ds) = IsSound d × QueueSound ds

Built-QueueSound :
    (bs : List ℕ) (es : List Event) (ds : List Chunk) → Built bs es ds → QueueSound ds
Built-QueueSound bs [] ds h = subst QueueSound (sym h) tt
Built-QueueSound bs (e ∷ es) ds h = go (is_blank e) ds h (Built-QueueSound bs es)
  where
    go :
        (q : Bool) (ds : List Chunk)
        → (if q then Built bs es ds else Front bs e (Built bs es) ds)
        → ((fs : List Chunk) → Built bs es fs → QueueSound fs)
        → QueueSound ds
    go true ds h ih = ih ds h
    go false [] h ih = absurd h
    go false (d ∷ ds) h ih = (h.0, ih ds h.2)

-- What is built is sound.
pub queued-QueueSound :
    (bs : List ℕ) (es : List Event) (cs ds : List Chunk)
    → QueueSound cs
    → Built bs es ds
    → QueueSound (cs ++ ds)
queued-QueueSound bs es [] ds s h = Built-QueueSound bs es ds h
queued-QueueSound bs es (c ∷ cs) ds s h = (s.0, queued-QueueSound bs es cs ds s.1 h)
