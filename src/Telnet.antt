-- ===== src/Telnet.antt =====
-- StrMod/TelnetParser.cxx, StrMod/pubinclude/StrMod/TelnetParser.h and TelnetChars.h: the parser
-- that cuts a byte stream into data, commands, negotiations and suboptions. `Chars` has the telnet
-- bytes, `State` the parser's state and what it calls of its builder, and `Parser` the operations.
pub mod Chars
pub mod State
pub mod Parser
pub mod Buffer
pub mod Asserted
pub mod Regions
pub mod Split
pub mod Suboption
pub mod Assertion
mod Tests
