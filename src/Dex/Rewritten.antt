-- ===== src/Dex/Rewritten.antt =====
-- What the rewriting of an instruction stream does, in the words of the DEX format.
use aabox.Common.{ℕ, suc, ◌∷◌, ◌++◌, get_or, take, drop, Bytes}
use aabox.Dex.Format.{IsRead, Takes, Ends}

-- The stream behind the rewriting, with the number of patches: every `sget` of the field that is
-- reached becomes `const/16 reg, 35`, and all else is copied.
pub data Rewritten (target : ℕ) : Bytes → Bytes → ℕ → Type 0 where
  ended : {insns : Bytes} → Ends insns → Rewritten target insns insns 0
  read :
      {insns rest : Bytes} {k : ℕ}
      → IsRead target insns
      → Rewritten target (drop 4 insns) rest k
      → Rewritten target insns (0x13 ∷ get_or insns 1 0 ∷ 35 ∷ 0 ∷ rest) (suc k)
  other :
      {insns rest : Bytes} {k : ℕ} (n : ℕ)
      → Takes insns n
      → (IsRead target insns → ⊥)
      → Rewritten target (drop n insns) rest k
      → Rewritten target insns (take n insns ++ rest) k
