-- ===== src/Channels/Navigation.antt =====
-- Reading a guidance step back from its three messages.
use aabox.Common.{
  true, ℕ, ◌%◌, ◌^◌, ◌<◌, ◌≡◌, refl, Option, none, some, List, [], ◌∷◌, length, Bytes, from_be16,
  from_be32, ◌==◌, ◌&&◌, if◌then◌else◌, arith,
}
use aabox.Encrypted.{OutboundMessage}
use aabox.Channels.{NavInstruction, encode_instruction}
use aabox.Framing.RoundTrip.{from_be16-be16, from_be32-be32}

-- The text behind an action byte and a length.
text_of : Bytes → Option Bytes
text_of (action ∷ hi ∷ lo ∷ rest) = if length rest == from_be16 hi lo then some rest else none
text_of _ = none

number_of : Bytes → Option ℕ
number_of (a ∷ b ∷ c ∷ d ∷ []) = some (from_be32 a b c d)
number_of _ = none

step_of : Option Bytes → Option ℕ → Option ℕ → Option NavInstruction
step_of (some text) (some turn) (some distance) =
    some (record { status_text = text; turn_id = turn; distance_m = distance })
step_of _ _ _ = none

-- A step from a status, a turn event and a distance event, in this order.
unfoldable pub decode_instruction : List OutboundMessage → Option NavInstruction
unfolding text_of number_of step_of
decode_instruction (status ∷ turn ∷ distance ∷ []) =
    if status.message_id == 0x8001 && (turn.message_id == 0x8002 && distance.message_id == 0x8003)
    then step_of (text_of status.payload) (number_of turn.payload) (number_of distance.payload)
    else none
decode_instruction _ = none

-- A guidance step with a text of less than 2 ^ 16 bytes and two numbers below 2 ^ 32 is read back
-- from the status, the turn event and the distance event that carry it.
pub decode_instruction-encode_instruction :
    (instr : NavInstruction)
    → length instr.status_text < 2 ^ 16
    → instr.turn_id < 2 ^ 32
    → instr.distance_m < 2 ^ 32
    → decode_instruction (encode_instruction instr) ≡ some instr
unfolding decode_instruction encode_instruction text_of number_of step_of
decode_instruction-encode_instruction instr h t d =
    let n = length instr.status_text in
    let kept : n % 2 ^ 16 ≡ n = omega arith in
    let same : (n == n) ≡ true = ground arith in
    rw
      (
        kept,
        from_be16-be16 n h,
        same,
        from_be32-be32 instr.turn_id t,
        from_be32-be32 instr.distance_m d,
      )
      refl
