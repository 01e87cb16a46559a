-- ===== src/Xml/Tests.antt =====
-- Runs of the lexer, and the theorems at concrete texts.
use Prim.Native.Char.{code}
use Prim.Native.String.{String}
use str_mod.Base.{ℕ, ◌≡◌, ◌≢◌, ◌⊎◌, refl, true, false, none, List, [], ◌∷◌, ◌++◌, arith, replicate}
use str_mod.Xml.Builder.{
  Position, start_element_tag, add_attribute, end_element_tag, close_element_tag,
}
use str_mod.Xml.Chars.{is_white, is_name_start, is_name_body}
use str_mod.Xml.State.{bad, Lexer, new_lexer, get_non_ws_in_elements, set_non_ws_in_elements}
use str_mod.Xml.Lex.{lex, returned, thrown}
use str_mod.Xml.Invariant.{IsValid}
use str_mod.Xml.Answer.{lex-IsValid}
use str_mod.Xml.Protocol.{outside, Speaks, talk, lex-Speaks}
use str_mod.Xml.Names.{IsReading, lex-AllNamed}
use str_mod.Xml.Spelling.{AllNamed}
use str_mod.Xml.Split.{Agree, lex-append}

-- code points; every literal below is ASCII
abbrev codes : String → List ℕ
codes String.[] = []
codes (String.◌∷◌ c s) = code c ∷ codes s

abbrev fresh : Lexer
fresh = new_lexer (replicate 256 0)

abbrev at : ℕ → ℕ → Position
at h i = record { bufhdl = h; bufoffset = i }

lex_tag :
    let x = lex fresh (codes "<p a='b'/><!-- > --></q>") 7 [] in
    (x.events
      ≡ start_element_tag (at 7 0) (codes "p")
        ∷ add_attribute (at 7 3) (at 7 8) (at 7 6) (at 7 7) (codes "a")
        ∷ end_element_tag (at 7 10) true
        ∷ close_element_tag (at 7 20) (at 7 24) (codes "q")
        ∷ [])
    × (x.reply ≡ returned false)
unfolding lex is_name_body is_name_start is_white
lex_tag = (refl, refl)

lex_pending :
    let x = lex fresh (codes " <p") 7 [] in
    (x.reply ≡ returned true) × (x.lexer.localstate.state ≢ bad) × (x.lastbuf ≡ 7)
unfolding lex is_name_body is_name_start is_white
lex_pending = (refl, (λ e. cc), refl)

flag : get_non_ws_in_elements (set_non_ws_in_elements fresh true) ≡ true
unfolding get_non_ws_in_elements set_non_ws_in_elements
flag = refl

fresh-IsValid : IsValid fresh
fresh-IsValid = ((refl, omega arith), (refl, refl, refl))

lex-IsValid_example : IsValid (lex fresh (codes "<p a='b'/>") 7 []).lexer
lex-IsValid_example = lex-IsValid fresh (codes "<p a='b'/>") 7 [] fresh-IsValid

lex-Speaks_example :
    let x = lex fresh (codes "<p a='b'/>") 7 [] in
    (talk outside x.events ≢ none)
    × ((x.reply ≡ thrown) ⊎ Speaks outside x.lexer.localstate.state x.events)
lex-Speaks_example = lex-Speaks outside fresh (codes "<p a='b'/>") 7 [] refl

lex-AllNamed_example :
    let x = lex fresh (codes "<p a='b'/>") 7 [] in
    AllNamed x.events × ((x.reply ≡ thrown) ⊎ IsReading x.lexer)
lex-AllNamed_example = lex-AllNamed fresh (codes "<p a='b'/>") 7 [] (fresh-IsValid, tt) tt

lex-append_example :
    let x = lex fresh (codes " <p") 7 [] in
    Agree
      (lex x.lexer (codes " a='b'/>") 8 x.events)
      (lex fresh (codes " <p" ++ codes " a='b'/>") 9 [])
lex-append_example =
    lex-append fresh (codes " <p") (codes " a='b'/>") 7 8 9 [] (λ e. cc (lex_pending.0, e))
