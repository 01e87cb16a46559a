-- ===== src/Xml/Builder.antt =====
-- xml/xml/utf8/Builder.h: positions, and the calls that the lexer makes of the interface. What a
-- builder does with a call is the client's; the model records the calls in order.
use str_mod.Base.{ℕ, Bool, List}

-- The handle is `BufHandle::ulval_`.
pub record Position : Type 0 where
  pub bufhdl : ℕ
  pub bufoffset : ℕ

pub data Event : Type 0 where
  start_element_tag : Position → List ℕ → Event
  add_attribute : Position → Position → Position → Position → List ℕ → Event
  end_element_tag : Position → Bool → Event
  close_element_tag : Position → Position → List ℕ → Event
