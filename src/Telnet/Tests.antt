-- ===== src/Telnet/Tests.antt =====
-- Runs of the parser, and the theorems at concrete streams.
use str_mod.Base.{
  ◌⊎◌, Bool, ℕ, ◌+◌, ◌≡◌, refl, true, false, none, some, List, [], ◌∷◌, ◌++◌, arith, length,
}
use str_mod.Telnet.Chars.{iac, sb, se, nop, will}
use str_mod.Telnet.State.{
  normal, Parser, new_parser, Event, data_block, char_command, negotiation_command, Step, done,
  ◌>>=◌,
}
use str_mod.Telnet.Parser.{process_data, end_of_chunk, drop_bytes}
use str_mod.Telnet.Asserted.{FailsOr}
use str_mod.Telnet.Regions.{IsValid, Advances, process_data-Advances}
use str_mod.Telnet.Split.{process_data-append}
use str_mod.Telnet.Suboption.{escaped, calls, process_data-escaped}
use str_mod.Telnet.Assertion.{process_data_asserts}

abbrev stream : List ℕ
stream = 65 ∷ iac ∷ iac ∷ 66 ∷ iac ∷ nop ∷ iac ∷ will ∷ 1 ∷ 67 ∷ []

abbrev calls_of : Step → List Event
calls_of none = []
calls_of (some (q, es)) = es

process_stream :
    calls_of (process_data true 0 stream new_parser >>= end_of_chunk true 0)
    ≡ data_block 0 2
      ∷ data_block 3 4
      ∷ char_command nop
      ∷ negotiation_command will 1
      ∷ data_block 9 10
      ∷ []
unfolding process_data end_of_chunk
process_stream = refl

drop :
    drop_bytes 2 (record new_parser { curpos = 5; regionbegin = 3 })
    ≡ record new_parser { curpos = 3; regionbegin = 1 }
unfolding drop_bytes
drop = refl

new-IsValid : IsValid new_parser
new-IsValid = (refl, omega arith, refl)

process_data-Advances_example :
    Advances new_parser (0 + 10) (process_data false 0 stream new_parser)
    × FailsOr (process_data true 0 stream new_parser) (process_data false 0 stream new_parser)
process_data-Advances_example = process_data-Advances 0 stream new_parser new-IsValid (omega arith)

process_data-append_example :
    let whole = λ (asserts : Bool). process_data asserts 0 (stream ++ stream) new_parser in
    let in_turn = λ (asserts : Bool).
      process_data asserts 0 stream new_parser >>= process_data asserts 0 stream in
    (whole false ≡ in_turn false)
    × ((whole true ≡ none) ⊎ (in_turn true ≡ none) ⊎ (whole true ≡ in_turn true))
process_data-append_example = process_data-append 0 stream stream new_parser (omega arith)

process_data-escaped_example :
    (q : Parser) × (process_data false 0
        (iac ∷ sb ∷ 24 ∷ (escaped (1 ∷ iac ∷ 2 ∷ []) ++ (iac ∷ se ∷ [])))
        new_parser
      ≡ done q (calls 0 0 24 (1 ∷ iac ∷ 2 ∷ [])))
    × (q.state ≡ normal)
    × (q.cooked ≡ none)
    × (q.curpos ≡ 0 + length (escaped (1 ∷ iac ∷ 2 ∷ [])) + 5)
    × (q.regionbegin ≡ q.curpos)
process_data-escaped_example =
    process_data-escaped 0 24 (1 ∷ iac ∷ 2 ∷ []) new_parser refl (omega arith) refl (omega arith)

process_data_asserts_example :
    process_data true 0 (iac ∷ nop ∷ iac ∷ sb ∷ 24 ∷ stream) new_parser ≡ none
process_data_asserts_example =
    process_data_asserts 0 24 stream new_parser refl (omega arith) (omega arith)
