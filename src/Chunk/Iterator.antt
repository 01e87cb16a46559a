-- ===== src/Chunk/Iterator.antt =====
-- StrMod/ChunkIterator.cxx: an iterator over the bytes of a chunk. A step that an assertion stops,
-- or that reads behind the end of the list of data, gives `none`.
use str_mod.Base.{
  ℕ, ◌==◌, Bool, true, false, ◌||◌, if◌then◌else◌, leb, ltb, Option, none, some, List, [], ◌∷◌,
  length, get_elem?,
}
use str_mod.LinearExtent.{add32, sub32}
use str_mod.Chunk.Slices.{slice}
use str_mod.Chunk.Tree.{Chunk, chunk_length}
use str_mod.LinearExtent.{add32}
use str_mod.Chunk.Visitor.{
  Call, use_visit_str_chunk, use_visit_data_block, new_visitor, start_visit,
}

-- The data that the iterators of one chunk share: where its root is, the bytes of each `rawdata`,
-- and `length_`; `numexts_` is the length of the list.
pub record Shared : Type 0 where
  pub root : ℕ
  pub dataexts : List (List ℕ)
  pub total : ℕ

pub record Iterator : Type 0 where
  pub shared : Option Shared
  pub abspos : ℕ
  pub extpos : ℕ
  pub extlast : ℕ
  pub curext : ℕ
  pub extbase : List ℕ

-- What an `ExtVisitor` keeps of the calls that it gets: the data of those with a length.
unfoldable pub ext_visitor : List Call → List (List ℕ)
ext_visitor [] = []
ext_visitor (use_visit_str_chunk c e ∷ cs) = ext_visitor cs
ext_visitor (use_visit_data_block start len realdata ∷ cs) =
    if leb len 0 then ext_visitor cs else slice start len realdata ∷ ext_visitor cs

-- the shared area of a chunk at address `root`
unfoldable pub make_shared : ℕ → Chunk → Shared
unfolding ext_visitor start_visit chunk_length
make_shared root chunk = record {
  root = root;
  dataexts = ext_visitor (start_visit true chunk new_visitor).calls;
  total = chunk_length chunk;
}

-- 'G'
abbrev pub junk : List ℕ
junk = 71 ∷ []

-- with `shrd` for what `shared_` points to
unfoldable pub move_to_end : Shared → Iterator → Iterator
move_to_end shrd it = record it {
  abspos = shrd.total;
  curext = length shrd.dataexts;
  extpos = 0;
  extbase = junk;
  extlast = 0;
}

unfoldable pub move_to_begin : Shared → Iterator → Option Iterator
move_to_begin shrd it =
    let start = record it { abspos = 0; curext = 0; extpos = 0 } in
    if ltb 0 shrd.total
    then elim (get_elem? shrd.dataexts 0) [
      | none ↦ none
      | some block ↦ some (record start { extbase = block; extlast = sub32 (length block) 1 })
    ]
    else some (record start { extbase = junk; extlast = 0 })

-- to data that the list holds, `assert(extlast_ > 0)` included
abbrev enter : Option (List ℕ) → (ℕ → ℕ) → Iterator → Option Iterator
enter none pos it = none
enter (some block) pos it =
    if length block == 0
    then none
    else (let last = sub32 (length block) 1 in
        some (record it { extbase = block; extlast = last; extpos = pos last }))

-- The test that stands behind the assertion is not reached with other values.
unfoldable pub move_forward_complex : Iterator → Option Iterator
unfolding move_to_end
move_forward_complex it = if ltb it.extpos it.extlast then none else elim it.shared [
  | none ↦ some it
  | some shrd ↦
      if leb shrd.total 0 || leb (sub32 shrd.total 1) it.abspos
      then some (move_to_end shrd it)
      else enter (get_elem? shrd.dataexts (add32 it.curext 1)) (λ last. 0)
          (record it { abspos = add32 it.abspos 1; curext = add32 it.curext 1 })
]

unfoldable pub move_backward_complex : Iterator → Option Iterator
unfolding move_to_begin
move_backward_complex it = if ltb 0 it.extpos then none else elim it.shared [
  | none ↦ some it
  | some shrd ↦
      if leb it.abspos 1
      then move_to_begin shrd it
      else if it.curext == 0
      then none
      else enter (get_elem? shrd.dataexts (sub32 it.curext 1)) (λ last. last)
          (record it { abspos = sub32 it.abspos 1; curext = sub32 it.curext 1 })
]

unfoldable pub move_forward : Iterator → Option Iterator
unfolding move_forward_complex
move_forward it =
    if ltb it.extpos it.extlast
    then some (record it { extpos = add32 it.extpos 1; abspos = add32 it.abspos 1 })
    else move_forward_complex it

unfoldable pub move_backward : Iterator → Option Iterator
unfolding move_backward_complex
move_backward it =
    if ltb 0 it.extpos
    then some (record it { extpos = sub32 it.extpos 1; abspos = sub32 it.abspos 1 })
    else move_backward_complex it

-- `operator *`
unfoldable pub deref : Iterator → Option ℕ
deref it = get_elem? it.extbase it.extpos

-- the members as the constructor of a given shared area lists them
unfoldable pub new_iterator : Shared → Iterator
new_iterator shrd = record {
  shared = some shrd;
  abspos = 0;
  extpos = 0;
  extlast = 0;
  curext = 0;
  extbase = [];
}

-- `begin()` and `end()`
unfoldable pub begin : Shared → Option Iterator
unfolding move_to_begin new_iterator
begin shrd = move_to_begin shrd (new_iterator shrd)

unfoldable pub end : Shared → Option Iterator
unfolding begin move_to_end
end shrd = elim (begin shrd) [ none ↦ none | some it ↦ some (move_to_end shrd it) ]

-- whether both are for the same chunk, or for none
unfoldable pub same_root : Iterator → Iterator → Bool
same_root a b = elim a.shared [
  | none ↦ elim b.shared [ none ↦ true | some t ↦ false ]
  | some s ↦ elim b.shared [ none ↦ false | some t ↦ s.root == t.root ]
]

unfoldable pub is_equal : Iterator → Iterator → Bool
unfolding same_root
is_equal a b = if same_root a b then a.abspos == b.abspos else false

-- The right side of the comparison of addresses reads `shared_` too, so `none` is a null pointer
-- that is read through.
unfoldable pub is_less_than : Iterator → Iterator → Option Bool
is_less_than a b = if ltb a.abspos b.abspos then some true else elim a.shared [
  | none ↦ elim b.shared [ none ↦ some (ltb 0 0) | some t ↦ none ]
  | some s ↦ some (ltb s.root (elim b.shared [ none ↦ 0 | some t ↦ s.root ]))
]

-- the 32 bits of the `int`
unfoldable pub distance : Iterator → Iterator → ℕ
unfolding same_root
distance a b = if same_root a b then sub32 a.abspos b.abspos else 273879123
