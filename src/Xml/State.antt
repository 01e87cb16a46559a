-- ===== src/Xml/State.antt =====
-- The state of the lexer: xml/xml/utf8/Lexer.h.
use str_mod.Base.{ℕ, Bool, false, List}
use str_mod.Xml.Builder.{Position, Event}

pub data XState : Type 0 where
  bad start less comment_excl comment_excl_dash in_comment dash_in_comment : XState
  dash_dash_in_comment open_element in_open_element empty_element_end close_element : XState
  in_close_element attr attr_after_eq attr_sq attr_dq : XState

pub data XSubState : Type 0 where
  sub_none sub_bad sub_start_name sub_in_name sub_entity sub_named_entity : XSubState
  sub_char_entity sub_dec_entity sub_hex_entity_start sub_hex_entity sub_end_entity : XSubState

pub record LocalState : Type 0 where
  pub state : XState
  pub substate : XSubState
  pub namepos : ℕ
  pub used_elbegin : Bool
  pub used_attr : Bool
  pub elbegin : Position
  pub attrbegin : Position
  pub attrvalbegin : Position

-- `sizeof(name_)`
abbrev pub name_size : ℕ
name_size = 256

pub record Lexer : Type 0 where
  pub name : List ℕ
  pub nonwsok : Bool
  pub localstate : LocalState

abbrev pub origin : Position
origin = record { bufhdl = 0; bufoffset = 0 }

abbrev pub initial_state : LocalState
initial_state = record {
  state = start;
  substate = sub_none;
  namepos = 0;
  used_elbegin = false;
  used_attr = false;
  elbegin = origin;
  attrbegin = origin;
  attrvalbegin = origin;
}

-- The constructor leaves `name_` as it finds it, so the bytes are an argument.
abbrev pub new_lexer : List ℕ → Lexer
new_lexer bytes = record { name = bytes; nonwsok = false; localstate = initial_state }

unfoldable pub get_non_ws_in_elements : Lexer → Bool
get_non_ws_in_elements l = l.nonwsok

unfoldable pub set_non_ws_in_elements : Lexer → Bool → Lexer
set_non_ws_in_elements l nonwsok = record l { nonwsok = nonwsok }

-- What a call of `lex` works on: the name buffer, the state on the stack, and the builder's calls.
pub record Machine : Type 0 where
  pub name : List ℕ
  pub ss : LocalState
  pub events : List Event

-- `out_of_range` carries what is there when the exception leaves `advanceState`.
pub data Result : Type 0 where
  ok : Machine → Result
  out_of_range : Machine → Result

infixl 5 ◌>>=◌
abbrev pub ◌>>=◌ : Result → (Machine → Result) → Result
ok m >>= f = f m
out_of_range m >>= f = out_of_range m
