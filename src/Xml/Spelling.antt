-- ===== src/Xml/Spelling.antt =====
-- What a name of xml/utf8_Lexer.cpp is, and how the name buffer comes to hold one.
use mathlib.Core.Path.{subst}
use native.Mathlib.Numerals.{add-one}
use str_mod.Base.{
  ℕ, ◌+◌, ◌<◌, zero, suc, ◌≡◌, refl, sym, ap, ◌⊎◌, true, List, [], ◌∷◌, ◌++◌, arith, take, set,
  take-set, length, length-take,
}
use str_mod.Xml.Builder.{
  Event, start_element_tag, add_attribute, end_element_tag, close_element_tag,
}
use str_mod.Xml.Chars.{is_name_start, is_name_body}
use str_mod.Xml.State.{
  XState, open_element, close_element, in_close_element, attr, attr_after_eq, attr_sq, attr_dq,
  XSubState, sub_start_name, name_size,
}

abbrev AllBody : List ℕ → Type 0
AllBody [] = Unit
AllBody (c ∷ cs) = (is_name_body c ≡ true) × AllBody cs

-- A name start, then name bytes, 256 at most in all.
abbrev IsName : List ℕ → Type 0
IsName [] = ⊥
IsName (c ∷ cs) = (is_name_start c ≡ true) × AllBody cs × (length cs < name_size)

abbrev IsNamed : Event → Type 0
IsNamed (start_element_tag _ n) = IsName n
IsNamed (add_attribute _ _ _ _ n) = IsName n
IsNamed (end_element_tag _ _) = Unit
IsNamed (close_element_tag _ _ n) = IsName n

abbrev pub AllNamed : List Event → Type 0
AllNamed [] = Unit
AllNamed (e ∷ es) = IsNamed e × AllNamed es

pub AllNamed-append :
    (es : List Event) (e : Event) → AllNamed es → IsNamed e → AllNamed (es ++ (e ∷ []))
AllNamed-append [] e h k = (k, tt)
AllNamed-append (d ∷ es) e h k = (h.0, AllNamed-append es e h.1 k)

AllBody-append : (n : List ℕ) (c : ℕ) → AllBody n → is_name_body c ≡ true → AllBody (n ++ (c ∷ []))
AllBody-append [] c h k = (k, tt)
AllBody-append (d ∷ n) c h k = (h.0, AllBody-append n c h.1 k)

length-snoc : (n : List ℕ) (c : ℕ) → length (n ++ (c ∷ [])) ≡ suc (length n)
length-snoc [] c = refl
length-snoc (d ∷ n) c = ap suc (length-snoc n c)

IsName-append :
    (n : List ℕ) (c : ℕ)
    → IsName n
    → is_name_body c ≡ true
    → length n < name_size
    → IsName (n ++ (c ∷ []))
IsName-append [] c h k l = absurd h
IsName-append (d ∷ n) c h k l = (h.0, AllBody-append n c h.1 k, omega (arith, length-snoc n c))

-- In a state in which a name was begun, the name buffer holds one.
abbrev pub Reads : XState → XSubState → List ℕ → Type 0
Reads open_element sub n = IsName n
Reads close_element sub n = (sub ≡ sub_start_name) ⊎ IsName n
Reads in_close_element sub n = IsName n
Reads attr sub n = IsName n
Reads attr_after_eq sub n = IsName n
Reads attr_sq sub n = IsName n
Reads attr_dq sub n = IsName n
Reads _ sub n = Unit

-- A name is put in only after another byte of it, or first.
pub IsName-put :
    (name : List ℕ) (i c : ℕ)
    → i < length name
    → IsName (take i name)
    → is_name_body c ≡ true
    → length name ≡ name_size
    → IsName (take (i + 1) (set name i c))
IsName-put name i c l h k e = rw add-one (
    subst IsName (sym (take-set name i c l))
      (IsName-append (take i name) c h k (omega (arith, length-take i name))))

pub IsName-first :
    (name : List ℕ) (i c : ℕ)
    → i ≡ 0
    → length name ≡ name_size
    → is_name_start c ≡ true
    → IsName (take (i + 1) (set name i c))
IsName-first [] i c z e k = absurd (omega arith)
IsName-first (d ∷ name) zero c z e k = (k, tt, omega arith)
IsName-first (d ∷ name) (suc i) c z e k = absurd (omega arith)
