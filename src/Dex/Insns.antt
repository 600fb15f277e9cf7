-- ===== src/Dex/Insns.antt =====
-- The instruction stream, `rewrite_sget_in_insns`. The list holds what stands from `i` on.
use aabox.Dex.Opcodes.{units_of}
use aabox.Common.{
  ℕ, zero, suc, ◌+◌, ◌*◌, ◌/◌, Option, none, some, [], ◌∷◌, ◌++◌, Bool, ◌&&◌, ltb, leb, ◌==◌,
  if◌then◌else◌, length, get_or, take, drop, Bytes, from_le16, from_le32,
}

-- `CLAMPED_SDK_INT`
abbrev pub clamped_sdk_int : ℕ
clamped_sdk_int = 35

pub record DexPatchResult : Type 0 where
  pub patches : ℕ
  pub bytes_rewritten : ℕ

-- What one round of the loop does: leave it, go on behind some bytes, or rewrite an `sget`.
pub data Action : Type 0 where
  stop : Action
  skip : ℕ → Action
  patch : Action

-- The pseudo-instructions under opcode 0 and their code units; `none` is a cut header.
unfoldable pub payload_units : ℕ → ℕ → ℕ → ℕ → ℕ → ℕ → ℕ → ℕ → Option ℕ
payload_units len ident b2 b3 b4 b5 b6 b7 =
    let size = from_le16 b2 b3 in
    if ident == 0x00
    then some 1
    else if ident == 0x01
    then if ltb len 4 then none else some (4 + size * 2)
    else if ident == 0x02
    then if ltb len 4 then none else some (2 + size * 4)
    else if ident == 0x03
    then if ltb len 8 then none else some (4 + (from_le32 b4 b5 b6 b7 * size + 1) / 2)
    else some 1

abbrev skip_units : Option ℕ → Action
skip_units none = stop
skip_units (some units) = skip (units * 2)

abbrev is_sget : ℕ → ℕ → ℕ → ℕ → ℕ → Bool
is_sget target opcode units b2 b3 =
    (leb 0x60 opcode && leb opcode 0x66) && units * 2 == 4 && from_le16 b2 b3 == target

-- One round, on the bytes at the position; `len` bytes are left.
unfoldable pub action_at : ℕ → ℕ → ℕ → ℕ → ℕ → ℕ → ℕ → ℕ → ℕ → ℕ → Action
unfolding payload_units
action_at target len b0 b1 b2 b3 b4 b5 b6 b7 =
    let units = units_of b0 in
    if ltb len 2
    then stop
    else if b0 == 0x00
    then skip_units (payload_units len b1 b2 b3 b4 b5 b6 b7)
    else if units == 0
    then skip 2
    else if ltb len (units * 2)
    then stop
    else if is_sget target b0 units b2 b3
    then patch
    else skip (units * 2)

unfoldable pub action : ℕ → Bytes → Action
unfolding action_at
action target insns =
    action_at target (length insns) (get_or insns 0 0) (get_or insns 1 0) (get_or insns 2 0)
      (get_or insns 3 0) (get_or insns 4 0) (get_or insns 5 0) (get_or insns 6 0) (get_or insns 7 0)

-- `const/16 vAA, #+0x23` in place of the `sget`, whose register is kept.
unfoldable pub const_16 : ℕ → Bytes
const_16 v_aa = 0x13 ∷ v_aa ∷ clamped_sdk_int ∷ 0 ∷ []

abbrev pub count_patch : DexPatchResult → DexPatchResult
count_patch out = record { patches = out.patches + 1; bytes_rewritten = out.bytes_rewritten + 4 }

abbrev prepend : Bytes → Option (Bytes × DexPatchResult) → Option (Bytes × DexPatchResult)
prepend front none = none
prepend front (some (insns, out)) = some (front ++ insns, out)

-- The loop on fuel; `none` is fuel that ran out.
unfoldable pub rewrite_loop : ℕ → ℕ → Bytes → DexPatchResult → Option (Bytes × DexPatchResult)
rewrite_loop zero target insns out = none
rewrite_loop (suc fuel) target insns out = elim (action target insns) [
  | stop ↦ some (insns, out)
  | skip n ↦ prepend (take n insns) (rewrite_loop fuel target (drop n insns) out)
  | patch ↦
      prepend (const_16 (get_or insns 1 0))
        (rewrite_loop fuel target (drop 4 insns) (count_patch out))
]

-- Each round takes two bytes at least.
unfoldable pub rewrite_sget_in_insns : Bytes → ℕ → DexPatchResult → Option (Bytes × DexPatchResult)
unfolding rewrite_loop
rewrite_sget_in_insns insns target out = rewrite_loop (suc (length insns)) target insns out
