-- ===== src/Telnet/State.antt =====
-- The parser's state, the calls that it makes of a `TelnetChunkBuilder`
-- (StrMod/pubinclude/StrMod/TelnetChunkBuilder.h), and steps that may fault.
use mathlib.Core.List.{append_assoc}
unfoldable pub use str_mod.Base.{add64, sub64, resize}
use str_mod.Base.{
  ap, ℕ, ◌^◌, ◌≡◌, refl, if◌then◌else◌, Option, none, some, List, [], ◌++◌, length, ltb, set,
}

pub data ParserState : Type 0 where
  normal escape sub_neg subopt_num subopt subopt_escape : ParserState

-- `cooked` is the buffer that `cooked_` owns and `cookedbuf_` points into, or a null pointer.
pub record Parser : Type 0 where
  pub negtype : ℕ
  pub subopt_type : ℕ
  pub curpos : ℕ
  pub state : ParserState
  pub regionbegin : ℕ
  pub regionend : ℕ
  pub cooked : Option (List ℕ)
  pub cooked_total : ℕ
  pub cooked_used : ℕ

pub data Event : Type 0 where
  data_block : ℕ → ℕ → Event
  char_command : ℕ → Event
  negotiation_command : ℕ → ℕ → Event
  suboption : ℕ → ℕ → ℕ → List ℕ → Event

-- A new parser leaves the members that its constructor does not name as it finds them: 0 here.
abbrev pub new_parser : Parser
new_parser = record {
  negtype = 0;
  subopt_type = 0;
  curpos = 0;
  state = normal;
  regionbegin = 0;
  regionend = 0;
  cooked = none;
  cooked_total = 0;
  cooked_used = 0;
}

-- What a step leaves, with its calls in order; `none` is a fault: an assertion that fails, a null
-- pointer that is read through, or a byte that is stored outside of its buffer.
abbrev pub Step : Type 0
Step = Option (Parser × List Event)

abbrev pub done : Parser → List Event → Step
done p es = some (p, es)

-- The second step is made after the first, and so are its calls.
infixl 5 ◌>>=◌
abbrev pub ◌>>=◌ : Step → (Parser → Step) → Step
none >>= f = none
some (p, es) >>= f = elim (f p) [ none ↦ none | some (q, fs) ↦ some (q, es ++ fs) ]

-- A step with no calls may be left out.
pub done-bind : (p : Parser) (f : Parser → Step) → (done p [] >>= f) ≡ f p
done-bind p f = go (f p)
  where
    go : (s : Step) → elim s [ none ↦ none | some (q, fs) ↦ some (q, [] ++ fs) ] ≡ s
    go none = refl
    go (some (q, fs)) = refl

pub bind_assoc : (s : Step) (f g : Parser → Step) → (s >>= f >>= g) ≡ (s >>= λ p. f p >>= g)
bind_assoc none f g = refl
bind_assoc (some (p, es)) f g = outer (f p)
  where
    inner :
        (fs : List Event) (t : Step)
        → elim t [ none ↦ none | some (r, gs) ↦ some (r, (es ++ fs) ++ gs) ]
          ≡ elim (elim t as (λ _. Step) [ none ↦ none | some (r, gs) ↦ some (r, fs ++ gs) ])
              as (λ _. Step) [ none ↦ none | some (r, gs) ↦ some (r, es ++ gs) ]
    inner fs none = refl
    inner fs (some (r, gs)) = ap (λ z. some (r, z)) (append_assoc es fs gs)

    outer :
        (t : Step)
        → (elim t as (λ _. Step) [ none ↦ none | some (q, fs) ↦ some (q, es ++ fs) ] >>= g)
          ≡ elim (t >>= g) as (λ _. Step) [ none ↦ none | some (r, gs) ↦ some (r, es ++ gs) ]
    outer none = refl
    outer (some (q, fs)) = inner fs (g q)

-- Positions stay below this in the theorems, so that none wraps, nor a size given to `resize`.
abbrev pub max_pos : ℕ
max_pos = 2 ^ 31

-- `cookedbuf_[cooked_used_++] = ch`
unfoldable pub put_cooked : ℕ → Parser → Step
put_cooked ch p = elim p.cooked [
  | none ↦ none
  | some xs ↦
      if ltb p.cooked_used (length xs)
      then done
          (record p {
            cooked = some (set xs p.cooked_used ch);
            cooked_used = add64 p.cooked_used 1;
          })
          []
      else none
]
