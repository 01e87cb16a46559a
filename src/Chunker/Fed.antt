-- ===== src/Chunker/Fed.antt =====
-- The parser fed with an incoming chunk, block by block.
use str_mod.Base.{
  ℕ, ◌+◌, ◌<◌, ◌≡◌, refl, sym, ap, subst, ◌∙◌, true, false, none, some, List, [], ◌∷◌, ◌++◌, length,
  length-append, arith,
}
use str_mod.Chunk.Slices.{slice}
use str_mod.Chunk.Tree.{Chunk, bytes, IsSound}
use str_mod.Chunk.Visitor.{
  Call, use_visit_str_chunk, use_visit_data_block, new_visitor, start_visit,
}
use str_mod.Chunk.Visited.{start_visit-bytes}
use str_mod.Chunk.Calls.{used_data}
use str_mod.Chunk.Apply.{apply}
use str_mod.Telnet.State.{Parser, Step, done, ◌>>=◌, max_pos, add64}
use str_mod.Telnet.Parser.{process_from, process_data, end_of_chunk}
use str_mod.Telnet.Regions.{
  IsValid, Advances, Between-append, process_data-Advances, end_of_chunk-Advances,
}
use str_mod.Telnet.Split.{process_data-append}
use str_mod.Chunker.{feed_calls, parse_incoming}

bind-Advances :
    (p : Parser) (mid end : ℕ) (s : Step) (f : Parser → Step)
    → Advances p mid s
    → ((q : Parser) → IsValid q → q.curpos ≡ mid → Advances q end (f q))
    → Advances p end (s >>= f)
bind-Advances p mid end none f h g = absurd h
bind-Advances p mid end (some (q, es)) f (v, c, a) g = go (f q) (g q v c)
  where
    go :
        (t : Step)
        → Advances q end t
        → Advances p end (elim t as (λ _. Step) [ none ↦ none | some (r, fs) ↦ some (r, es ++ fs) ])
    go none k = absurd k
    go (some (r, fs)) k =
        (k.0, k.1, Between-append p.regionbegin q.regionbegin r.regionbegin es fs a k.2)

module _ (junk : ℕ) where
  nothing : (p : Parser) → p.curpos < max_pos → process_data false junk [] p ≡ done p []
  unfolding process_data process_from
  nothing p h =
      let e : add64 p.curpos 0 ≡ p.curpos = omega arith in
      ap (λ n. done (record p { curpos = n }) []) e

  pub feed_calls-process_data :
      (cs : List Call) (p : Parser)
      → IsValid p
      → p.curpos + length (used_data cs) < max_pos
      → feed_calls false junk cs p ≡ process_data false junk (used_data cs) p
  unfolding feed_calls
  feed_calls-process_data [] p v h = sym (nothing p (omega arith))
  feed_calls-process_data (use_visit_str_chunk c e ∷ cs) p v h = feed_calls-process_data cs p v h
  feed_calls-process_data (use_visit_data_block start len bs ∷ cs) p v h =
      let part = slice start len bs in
      let rest = used_data cs in
      let n = length-append part rest in
      go (process_data false junk part p) (process_data-Advances junk part p v (omega (arith, n))).0
        (λ q w e. feed_calls-process_data cs q w (omega (arith, n, e)))
      ∙ sym (process_data-append junk part rest p (omega (arith, n))).0
    where
      go :
          (t : Step)
          → Advances p (p.curpos + length (slice start len bs)) t
          → ((q : Parser)
              → IsValid q
              → q.curpos ≡ p.curpos + length (slice start len bs)
              → feed_calls false junk cs q ≡ process_data false junk (used_data cs) q)
          → (t >>= feed_calls false junk cs) ≡ (t >>= process_data false junk (used_data cs))
      go none k f = refl
      go (some (q, es)) k f =
          ap (λ t. elim t as (λ _. Step) [ none ↦ none | some (r, fs) ↦ some (r, es ++ fs) ])
            (f q k.0 k.1)

  -- What the blocks of a sound chunk make of a valid parser is what its bytes make of it.
  pub parse_incoming-bytes :
      (c : Chunk) (p : Parser)
      → IsSound c
      → IsValid p
      → p.curpos + length (bytes c) < max_pos
      → parse_incoming false junk c p
        ≡ (process_data false junk (bytes c) p >>= end_of_chunk false junk)
  unfolding parse_incoming apply
  parse_incoming-bytes c p s v h =
      let d = (start_visit-bytes true c new_visitor s).0 in
      ap (λ t. t >>= end_of_chunk false junk)
        (feed_calls-process_data (start_visit true c new_visitor).calls p v
            (omega (arith, h, ap length d))
          ∙ ap (λ bs. process_data false junk bs p) d)

  -- The parser comes to the end of the chunk, with its regions in order.
  pub parse_incoming-Advances :
      (c : Chunk) (p : Parser)
      → IsSound c
      → IsValid p
      → p.curpos + length (bytes c) < max_pos
      → Advances p (p.curpos + length (bytes c)) (parse_incoming false junk c p)
  parse_incoming-Advances c p s v h =
      let end = p.curpos + length (bytes c) in
      subst (Advances p end) (sym (parse_incoming-bytes c p s v h)) (
        bind-Advances p end end (process_data false junk (bytes c) p) (end_of_chunk false junk)
          (process_data-Advances junk (bytes c) p v h).0
          (λ q w e.
            subst (λ n. Advances q n (end_of_chunk false junk q)) e
              (end_of_chunk-Advances false junk q w (omega (arith, e)))))
