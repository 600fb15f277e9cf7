-- ===== src/Common/Wire.antt =====
-- Byte strings, and the big- and little-endian integers that the formats hold.
use Prim.Native.Nat.{ℕ, ◌+◌, ◌*◌, ◌/◌, ◌%◌, ◌<◌}
use mathlib.Core.List.{List, [], ◌∷◌, ◌++◌}

abbrev pub Bytes : Type 0
Bytes = List ℕ

abbrev pub IsByte : ℕ → Type 0
IsByte b = b < 256

-- `to_be_bytes` and `put_u16`, `put_u32`, `put_u64`.
abbrev pub be16 : ℕ → Bytes
be16 n = (n / 256 % 256) ∷ (n % 256) ∷ []

abbrev pub be32 : ℕ → Bytes
be32 n = be16 (n / 65536) ++ be16 n

abbrev pub be64 : ℕ → Bytes
be64 n = be32 (n / 4294967296) ++ be32 n

-- `to_le_bytes`.
abbrev pub le16 : ℕ → Bytes
le16 n = (n % 256) ∷ (n / 256 % 256) ∷ []

abbrev pub le32 : ℕ → Bytes
le32 n = le16 n ++ le16 (n / 65536)

abbrev pub le64 : ℕ → Bytes
le64 n = le32 n ++ le32 (n / 4294967296)

-- `from_be_bytes` and `from_le_bytes`.
abbrev pub from_be16 : ℕ → ℕ → ℕ
from_be16 a b = a * 256 + b

abbrev pub from_be32 : ℕ → ℕ → ℕ → ℕ → ℕ
from_be32 a b c d = ((a * 256 + b) * 256 + c) * 256 + d

abbrev pub from_le16 : ℕ → ℕ → ℕ
from_le16 a b = b * 256 + a

abbrev pub from_le32 : ℕ → ℕ → ℕ → ℕ → ℕ
from_le32 a b c d = ((d * 256 + c) * 256 + b) * 256 + a
