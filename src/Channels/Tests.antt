-- ===== src/Channels/Tests.antt =====
-- Examples of messages of the channels.
use aabox.Common.{◌≡◌, some, ascii, arith}
use aabox.Channels.{NavInstruction, encode_instruction}
use aabox.Channels.Navigation.{decode_instruction, decode_instruction-encode_instruction}

abbrev turn_left : NavInstruction
turn_left = record { status_text = ascii "Turn left"; turn_id = 4; distance_m = 70000 }

decode_instruction-encode_instruction_example :
    decode_instruction (encode_instruction turn_left) ≡ some turn_left
decode_instruction-encode_instruction_example =
    decode_instruction-encode_instruction turn_left (omega arith) (omega arith) (omega arith)
