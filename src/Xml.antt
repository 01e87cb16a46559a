-- ===== src/Xml.antt =====
-- xml/utf8_Lexer.cpp, xml/utf8_LexerSane.cpp, xml/xml/utf8/Lexer.h and xml/xml/utf8/Builder.h: the
-- lexer that reports the tags and attributes of an XML text to a builder. `Builder` has what the
-- lexer calls, `Chars` the character classes, `State` the lexer's state, `Step` the two switches
-- of `advanceState`, and `Lex` the loop.
pub mod Builder
pub mod Chars
pub mod State
pub mod Step
pub mod Lex
pub mod Invariant
pub mod Answer
pub mod Names
pub mod Spelling
pub mod Protocol
pub mod Split
mod Tests
