-- ===== src/Framing/Bits.antt =====
-- The flag byte, bit by bit.
use aabox.Common.{
  ℕ, bit_and, bit_or, Bool, true, false, not, ◌≡◌, refl, ◌==◌, if◌then◌else◌, ◌<◌, arith,
}
use aabox.Framing.{
  FrameType, middle, first, last, bulk, Frame, from_flags, flags_of, bits, flag_control,
  flag_encrypted,
}

abbrev flag_byte : FrameType → Bool → Bool → ℕ
flag_byte t c e =
    bit_or (bit_or (bits t) (if c then flag_control else 0)) (if e then flag_encrypted else 0)

FlagFacts : FrameType → Bool → Bool → Type 0
FlagFacts t c e =
    (from_flags (flag_byte t c e) ≡ t)
    × (not (bit_and (flag_byte t c e) flag_control == 0) ≡ c)
    × (not (bit_and (flag_byte t c e) flag_encrypted == 0) ≡ e)
    × (flag_byte t c e < 16)

flag_facts : (t : FrameType) (c e : Bool) → FlagFacts t c e
unfolding FlagFacts bits from_flags
flag_facts middle false false = (refl, refl, refl, omega arith)
flag_facts middle false true = (refl, refl, refl, omega arith)
flag_facts middle true false = (refl, refl, refl, omega arith)
flag_facts middle true true = (refl, refl, refl, omega arith)
flag_facts first false false = (refl, refl, refl, omega arith)
flag_facts first false true = (refl, refl, refl, omega arith)
flag_facts first true false = (refl, refl, refl, omega arith)
flag_facts first true true = (refl, refl, refl, omega arith)
flag_facts last false false = (refl, refl, refl, omega arith)
flag_facts last false true = (refl, refl, refl, omega arith)
flag_facts last true false = (refl, refl, refl, omega arith)
flag_facts last true true = (refl, refl, refl, omega arith)
flag_facts bulk false false = (refl, refl, refl, omega arith)
flag_facts bulk false true = (refl, refl, refl, omega arith)
flag_facts bulk true false = (refl, refl, refl, omega arith)
flag_facts bulk true true = (refl, refl, refl, omega arith)

-- The flag byte holds the type and the two bits of the frame, and fits a byte.
module _ (f : Frame) where
  pub from_flags-flags_of : from_flags (flags_of f) ≡ f.frame_type
  unfolding flags_of FlagFacts
  from_flags-flags_of = (flag_facts f.frame_type f.control f.encrypted).0

  pub flags_of_control : not (bit_and (flags_of f) flag_control == 0) ≡ f.control
  unfolding flags_of FlagFacts
  flags_of_control = (flag_facts f.frame_type f.control f.encrypted).1

  pub flags_of_encrypted : not (bit_and (flags_of f) flag_encrypted == 0) ≡ f.encrypted
  unfolding flags_of FlagFacts
  flags_of_encrypted = (flag_facts f.frame_type f.control f.encrypted).2

  pub flags_of-lt : flags_of f < 16
  unfolding flags_of FlagFacts
  flags_of-lt = (flag_facts f.frame_type f.control f.encrypted).3
