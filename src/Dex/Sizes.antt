-- ===== src/Dex/Sizes.antt =====
-- What a patch of a whole file keeps.
use aabox.Common.{
  ℕ, zero, suc, ◌+◌, ◌-◌, ◌*◌, ◌≤◌, ◌≡◌, inl, inr, refl, ap, ◌∙◌, Bool-cases, none, some,
  Result-cases, ◌++◌, ◌==◌, length, take, drop, length-append, length-take, length-drop,
  take-append-drop, drop-drop, take-append-drop-length, Bytes, arith,
}
use aabox.Dex.{u32, read_u32}
use aabox.Dex.Walks.{Walk, halt, over, hit, Walk-length}
use aabox.Dex.Rewrite.{rewrite_sget_in_insns-Walk}
use aabox.Dex.Tables.{DexHeader}
use aabox.Dex.Patch.{
  Work, copy_at, on_insns, read_method, walk_methods, read_class, walk_one_class_data, walk_classes,
  walk_code_items,
}

-- What every step of the walk keeps: the length of the file, four bytes for each patch, and every
-- byte where no patch is counted.
pub record Progress (w w' : Work) : Type 0 where
  pub same_length : length w'.0 ≡ length w.0
  pub grows : w.1.patches ≤ w'.1.patches
  pub four_each : w'.1.bytes_rewritten + 4 * w.1.patches ≡ w.1.bytes_rewritten + 4 * w'.1.patches
  pub unpatched : w'.1.patches ≡ w.1.patches → w'.0 ≡ w.0

pub Progress-refl : (w : Work) → Progress w w
Progress-refl w = record {
  same_length = refl;
  grows = omega arith;
  four_each = refl;
  unpatched = λ e. refl;
}

Progress-trans : {u v w : Work} → Progress u v → Progress v w → Progress u w
Progress-trans p q = record {
  same_length = q.same_length ∙ p.same_length;
  grows = omega arith;
  four_each = omega arith;
  unpatched = λ e. q.unpatched (omega arith) ∙ p.unpatched (omega arith);
}

-- A walk that counts nothing copies the stream.
Walk-zero : (target : ℕ) {xs ys : Bytes} {k : ℕ} → Walk target xs ys k → k ≡ 0 → ys ≡ xs
Walk-zero target (halt e) h = refl
Walk-zero target (over {insns} n e w) h =
    ap (λ t. take n insns ++ t) (Walk-zero target w h) ∙ take-append-drop n insns
Walk-zero target (hit e w) h = absurd (omega arith)

-- Bytes that are copied back to where they stood.
copy_back : (start size : ℕ) (dex : Bytes) → copy_at start (take size (drop start dex)) dex ≡ dex
unfolding copy_at
copy_back start size dex = rw (drop-drop start (length (take size (drop start dex))) dex) (
    ap (λ t. take start dex ++ t) (take-append-drop-length size (drop start dex))
    ∙ take-append-drop start dex)

pub length-copy_at :
    (off : ℕ) (bytes dex : Bytes)
    → length bytes ≤ length dex - off
    → length (copy_at off bytes dex) ≡ length dex
unfolding copy_at
length-copy_at off bytes dex h = omega (
  arith,
  length-append (take off dex) (bytes ++ drop (off + length bytes) dex),
  length-append bytes (drop (off + length bytes) dex),
  length-take off dex,
  length-drop (off + length bytes) dex,
)

on_insns-Progress : (target start size : ℕ) (w : Work) → Progress w (on_insns target start size w)
unfolding on_insns
on_insns-Progress target start size (dex, out) =
    let insns = take size (drop start dex) in
    let (insns', k, ran, walk) = rewrite_sget_in_insns-Walk target insns out in
    rw ran (record {
      same_length = length-copy_at start insns' dex (
          omega (
            arith,
            Walk-length target walk,
            length-take size (drop start dex),
            length-drop start dex,
          ));
      grows = omega arith;
      four_each = omega arith;
      unpatched = λ e.
          ap (λ z. copy_at start z dex) (Walk-zero target walk (omega arith))
          ∙ copy_back start size dex;
    })

walk_methods-Progress :
    (n target p walked : ℕ) (w : Work) → Progress w (walk_methods n target p walked w).1
unfolding walk_methods
walk_methods-Progress zero target p walked w = Progress-refl w
walk_methods-Progress (suc n) target p walked w = elim (Result-cases (read_method w.0 p)) [
  | inr (e, h) ↦ rw (h, walk_methods) (Progress-refl w)
  | inl ((q, none), h) ↦ rw (h, walk_methods) (walk_methods-Progress n target q walked w)
  | inl ((q, some (start, size)), h) ↦
      rw (h, walk_methods)
        (Progress-trans (on_insns-Progress target start size w)
          (walk_methods-Progress n target q (walked + 1) (on_insns target start size w)))
]

walk_one_class_data-Progress :
    (target off : ℕ) (w : Work) → Progress w (walk_one_class_data target off w).1
unfolding walk_one_class_data
walk_one_class_data-Progress target off w = elim (Result-cases (read_class w.0 off)) [
  | inr (e, h) ↦ rw (h, walk_one_class_data) (Progress-refl w)
  | inl ((p, total), h) ↦ rw (h, walk_one_class_data) (walk_methods-Progress total target p 0 w)
]

walk_classes-Progress :
    (n i : ℕ) (h : DexHeader) (target : ℕ) (w : Work) → Progress w (walk_classes n i h target w)
unfolding walk_classes
walk_classes-Progress zero i h target w = Progress-refl w
walk_classes-Progress (suc n) i h target w =
    elim (Result-cases (read_u32 w.0 (u32 (h.class_defs_off + u32 (i * 32)) + 24))) [
      | inr (e, r) ↦ rw (r, walk_classes) (walk_classes-Progress n (i + 1) h target w)
      | inl (off, r) ↦ elim (Bool-cases (off == 0)) [
        | inl z ↦
            rw (r, walk_classes) (rw (z, walk_classes) (walk_classes-Progress n (i + 1) h target w))
        | inr z ↦
            rw (r, walk_classes)
              (rw (z, walk_classes)
                (Progress-trans (walk_one_class_data-Progress target off w)
                  (walk_classes-Progress n (i + 1) h target (walk_one_class_data target off w).1)))
      ]
    ]

-- The walk over the code items, from any state of the file and the counts, keeps the length of the
-- file, never lowers the number of patches, adds four bytes for each, and leaves every byte as it
-- is when it counts no patch.
pub walk_code_items-Progress :
    (h : DexHeader) (target : ℕ) (w : Work) → Progress w (walk_code_items h target w)
unfolding walk_code_items
walk_code_items-Progress h target w = walk_classes-Progress h.class_defs_size 0 h target w
