-- ===== src/Telnet/Assertion.antt =====
-- The assertion of `stateSuboptNum` that reads `curpos_`.
use str_mod.Base.{ℕ, ◌+◌, ◌≤◌, ◌<◌, ◌≡◌, true, none, List, ◌∷◌, arith, length}
use str_mod.Telnet.Chars.{iac, sb, nop}
use str_mod.Telnet.State.{normal, Parser, max_pos}
use str_mod.Telnet.Parser.{process_data}

-- With the assertions compiled in, a parser in its starting state fails an assertion on every
-- buffer that begins with IAC NOP IAC SB and an option: `curpos_` still stands at the beginning of
-- the buffer, while the region begins behind the first command.
pub process_data_asserts :
    (junk option : ℕ) (rest : List ℕ) (p : Parser)
    → p.state ≡ normal
    → p.regionbegin ≤ p.curpos
    → p.curpos + 5 + length rest < max_pos
    → process_data true junk (iac ∷ nop ∷ iac ∷ sb ∷ option ∷ rest) p ≡ none
unfolding process_data
process_data_asserts junk option rest p s r h = ground arith
