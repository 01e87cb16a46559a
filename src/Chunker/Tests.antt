-- ===== src/Chunker/Tests.antt =====
-- Runs of the chunker, and the theorems about it at concrete inputs.
use str_mod.Base.{◌≡◌, refl, true, false, ◌==◌, ◌||◌, if◌then◌else◌, none, some, [], ◌∷◌, arith}
use str_mod.Chunk.Tree.{Chunk, buffer, suboption, chunk_length, bytes, IsSound}
use str_mod.Telnet.State.{new_parser, data_block, char_command}
use str_mod.Chunker.{
  Builder, Chunker, has_data, add_incoming, parse_incoming, run_step, build_all, deliver, trim,
  process_incoming,
}
use str_mod.Chunker.Built.{Outcome, build_all-Outcome}
use str_mod.Chunker.Cooked.{new_suboption}
use str_mod.Chunker.Idle.{no_builder}
use str_mod.Chunker.Sent.{new_suboption-process_incoming, process_incoming_faults}
use str_mod.Chunker.Processed.{calls_of, Processed, process_incoming-IsDelivered}

abbrev new_chunker : Chunker
new_chunker = record {
  parser = new_parser;
  builder = no_builder;
  incoming = none;
  outgoing = none;
  outgoing_ready = false;
}

abbrev greeting : Chunk
greeting = buffer (104 ∷ 105 ∷ 255 ∷ 241 ∷ 33 ∷ [])

abbrev holding_greeting : Builder
holding_greeting = record { chunks = []; curchunk = some greeting; curlen = 5 }

-- Data, the command NOP and more data.
build_all-Outcome_example :
    Outcome greeting holding_greeting
      (data_block 0 2 ∷ char_command 241 ∷ data_block 4 5 ∷ [])
      (build_all false 0 (data_block 0 2 ∷ char_command 241 ∷ data_block 4 5 ∷ []) holding_greeting)
unfolding IsSound bytes
build_all-Outcome_example =
    build_all-Outcome 0 0 (data_block 0 2 ∷ char_command 241 ∷ data_block 4 5 ∷ []) greeting
      holding_greeting (refl, omega arith, refl, omega arith)
      (omega arith, omega arith, (omega arith, omega arith, omega arith))

process_incoming-IsDelivered_example :
    Processed
      (if has_data new_chunker.builder || chunk_length greeting == 0
        then []
        else calls_of (parse_incoming false 0 greeting new_parser))
      (process_incoming false 0 true greeting new_chunker)
unfolding IsSound bytes
process_incoming-IsDelivered_example =
    process_incoming-IsDelivered 0 true greeting new_chunker
      ((refl, omega arith, refl), refl, (tt, refl), tt, omega arith) (omega arith) (omega arith)

new_suboption-process_incoming_example :
    (d : Chunk) × (u : Chunker) × (raw : Chunk) × (new_suboption true 0 24 (7 ∷ 255 ∷ []) ≡ some d)
    × (process_incoming false 0 false d new_chunker ≡ some u)
    × (u.outgoing ≡ some (suboption 24 raw 3 (7 ∷ 255 ∷ [])))
    × (bytes raw ≡ 7 ∷ 255 ∷ 255 ∷ [])
    × (u.outgoing_ready ≡ true)
    × (u.incoming ≡ none)
    × (has_data u.builder ≡ false)
new_suboption-process_incoming_example =
    new_suboption-process_incoming 0 true false 24 (7 ∷ 255 ∷ []) new_chunker
      (refl, refl, refl, refl, refl) refl (omega arith) (omega arith)

process_incoming_faults_example :
    process_incoming false 0 true (buffer (255 ∷ 250 ∷ 24 ∷ 255 ∷ 240 ∷ [])) new_chunker ≡ none
unfolding IsSound bytes
process_incoming_faults_example =
    process_incoming_faults 0 true 24 new_chunker (buffer (255 ∷ 250 ∷ 24 ∷ 255 ∷ 240 ∷ []))
      (refl, refl, refl, refl, refl) (omega arith) refl refl

-- With the assertions compiled in, a lone IAC fails the last one: there is nothing to send on yet.
lone_iac : process_incoming true 0 true (buffer (255 ∷ [])) new_chunker ≡ none
unfolding process_incoming chunk_length add_incoming run_step parse_incoming trim deliver
lone_iac = refl
