-- ===== src/Dex/Format.antt =====
-- Instructions and tables of the DEX format, as bytes.
use aabox.Common.{
  List, replicate, ℕ, ◌+◌, ◌*◌, ◌/◌, ◌<◌, ◌≤◌, ◌≡◌, ◌≢◌, ◌⊎◌, refl, ap, [], ◌∷◌, ◌++◌, length,
  get_or, Bytes, from_le32,
}
use aabox.Dex.Opcodes.{units_of, opcode_length_code_units}

-- The opcodes in order: how many in a row take how many code units, 0 where they are unused.
abbrev runs : List (ℕ × ℕ)
runs =
    (2, 1)
    ∷ (1, 2)
    ∷ (1, 3)
    ∷ (1, 1)
    ∷ (1, 2)
    ∷ (1, 3)
    ∷ (1, 1)
    ∷ (1, 2)
    ∷ (1, 3)
    ∷ (9, 1)
    ∷ (1, 2)
    ∷ (1, 3)
    ∷ (2, 2)
    ∷ (1, 3)
    ∷ (1, 5)
    ∷ (2, 2)
    ∷ (1, 3)
    ∷ (1, 2)
    ∷ (2, 1)
    ∷ (2, 2)
    ∷ (1, 1)
    ∷ (2, 2)
    ∷ (3, 3)
    ∷ (2, 1)
    ∷ (1, 2)
    ∷ (3, 3)
    ∷ (17, 2)
    ∷ (6, 0)
    ∷ (42, 2)
    ∷ (5, 3)
    ∷ (1, 0)
    ∷ (5, 3)
    ∷ (2, 0)
    ∷ (21, 1)
    ∷ (32, 2)
    ∷ (32, 1)
    ∷ (28, 2)
    ∷ (1, 1)
    ∷ (1, 2)
    ∷ (3, 3)
    ∷ (1, 1)
    ∷ (1, 2)
    ∷ (7, 0)
    ∷ (2, 4)
    ∷ (2, 3)
    ∷ (2, 2)
    ∷ []

abbrev spread : List (ℕ × ℕ) → List ℕ
spread [] = []
spread ((count, units) ∷ more) = replicate count units ++ spread more

-- The code units that an opcode takes.
unfoldable pub format_units : ℕ → ℕ
format_units opcode = get_or (spread runs) opcode 0

spread-runs : opcode_length_code_units ≡ spread runs
unfolding opcode_length_code_units
spread-runs = refl

pub units_of-format_units : (opcode : ℕ) → units_of opcode ≡ format_units opcode
unfolding units_of format_units
units_of-format_units opcode = ap (λ table. get_or table opcode 0) spread-runs

-- An `sget` of the field: the bytes `op reg lo hi`, with one of the seven opcodes of the family.
pub record IsRead (target : ℕ) (insns : Bytes) : Type 0 where
  pub whole : 4 ≤ length insns
  pub from_sget : 0x60 ≤ get_or insns 0 0
  pub to_sget_short : get_or insns 0 0 ≤ 0x66
  pub of_field : get_or insns 2 0 + 256 * get_or insns 3 0 ≡ target

-- The bytes that the instruction or the table at the head of the stream takes. A `nop` takes a code
-- unit, and the tables of opcode 0 take what their sizes say; an unused opcode is stepped over by one
-- code unit, and every other instruction has the length of its opcode and is there as a whole.
pub data Takes (insns : Bytes) : ℕ → Type 0 where
  nop :
      get_or insns 0 0 ≡ 0
      → get_or insns 1 0 ≢ 1
      → get_or insns 1 0 ≢ 2
      → get_or insns 1 0 ≢ 3
      → Takes insns 2
  packed_switch :
      get_or insns 0 0 ≡ 0
      → get_or insns 1 0 ≡ 1
      → 4 ≤ length insns
      → Takes insns (8 + 4 * (get_or insns 2 0 + 256 * get_or insns 3 0))
  sparse_switch :
      get_or insns 0 0 ≡ 0
      → get_or insns 1 0 ≡ 2
      → 4 ≤ length insns
      → Takes insns (4 + 8 * (get_or insns 2 0 + 256 * get_or insns 3 0))
  fill_array :
      (n : ℕ)
      → get_or insns 0 0 ≡ 0
      → get_or insns 1 0 ≡ 3
      → 8 ≤ length insns
      → n
        ≡ from_le32 (get_or insns 4 0) (get_or insns 5 0) (get_or insns 6 0) (get_or insns 7 0)
          * (get_or insns 2 0 + 256 * get_or insns 3 0)
      → Takes insns (8 + (n + 1) / 2 * 2)
  unused : get_or insns 0 0 ≢ 0 → format_units (get_or insns 0 0) ≡ 0 → Takes insns 2
  plain :
      get_or insns 0 0 ≢ 0
      → 0 < format_units (get_or insns 0 0)
      → 2 * format_units (get_or insns 0 0) ≤ length insns
      → Takes insns (2 * format_units (get_or insns 0 0))

-- The stream ends, or is cut inside of an instruction or of the head of a table.
pub data Ends (insns : Bytes) : Type 0 where
  at_end : length insns < 2 → Ends insns
  cut_instruction :
      get_or insns 0 0 ≢ 0 → length insns < 2 * format_units (get_or insns 0 0) → Ends insns
  cut_switch :
      get_or insns 0 0 ≡ 0
      → (get_or insns 1 0 ≡ 1) ⊎ (get_or insns 1 0 ≡ 2)
      → length insns < 4
      → Ends insns
  cut_array : get_or insns 0 0 ≡ 0 → get_or insns 1 0 ≡ 3 → length insns < 8 → Ends insns
