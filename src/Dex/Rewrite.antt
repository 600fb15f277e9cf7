-- ===== src/Dex/Rewrite.antt =====
-- The rewriting of the instruction stream against a description of it as a relation.
use aabox.Common.{
  ℕ, zero, suc, ◌+◌, ◌*◌, ◌<◌, ◌≡◌, ◌⊎◌, inl, inr, refl, sym, ap, subst, ◌∙◌, some, [], ◌∷◌, ◌++◌,
  length, get_or, take, drop, length-drop, Bytes, arith,
}
use aabox.Dex.Insns.{
  DexPatchResult, Action, stop, skip, patch, action, const_16, count_patch, rewrite_loop,
  rewrite_sget_in_insns,
}
use aabox.Dex.Walks.{
  action_nil, action-skip, action-patch, Walk-length, Walk-again, Walk, halt, over, hit,
}

abbrev pub counted : DexPatchResult → ℕ → DexPatchResult
counted out k = record { patches = out.patches + k; bytes_rewritten = out.bytes_rewritten + 4 * k }

counted_zero : (out : DexPatchResult) → counted out 0 ≡ out
counted_zero out = ground arith

counted-suc : (out : DexPatchResult) (k : ℕ) → counted (count_patch out) k ≡ counted out (suc k)
counted-suc out k = ground arith

Action-cases : (a : Action) → (a ≡ stop) ⊎ ((n : ℕ) × (a ≡ skip n)) ⊎ (a ≡ patch)
Action-cases stop = inl refl
Action-cases (skip n) = inr (inl (n, refl))
Action-cases patch = inr (inr refl)

module _ (target : ℕ) where
  loop_stop :
      (fuel : ℕ) (insns : Bytes) (out : DexPatchResult)
      → action target insns ≡ stop
      → rewrite_loop (suc fuel) target insns out ≡ some (insns, out)
  unfolding rewrite_loop
  loop_stop fuel insns out e = rw (e, rewrite_loop)

  loop_skip :
      (fuel n : ℕ) (insns rest : Bytes) (out out' : DexPatchResult)
      → action target insns ≡ skip n
      → rewrite_loop fuel target (drop n insns) out ≡ some (rest, out')
      → rewrite_loop (suc fuel) target insns out ≡ some (take n insns ++ rest, out')
  unfolding rewrite_loop
  loop_skip fuel n insns rest out out' e h = rw (e, rewrite_loop) (rw h)

  loop_patch :
      (fuel : ℕ) (insns rest : Bytes) (out out' : DexPatchResult)
      → action target insns ≡ patch
      → rewrite_loop fuel target (drop 4 insns) (count_patch out) ≡ some (rest, out')
      → rewrite_loop (suc fuel) target insns out ≡ some (const_16 (get_or insns 1 0) ++ rest, out')
  unfolding rewrite_loop
  loop_patch fuel insns rest out out' e h = rw (e, rewrite_loop) (rw h)

  -- With more fuel than bytes the loop ends, and it has made the walk.
  rewrite_loop-Walk :
      (fuel : ℕ) (insns : Bytes) (out : DexPatchResult)
      → length insns < fuel
      → (insns' : Bytes) × (k : ℕ) × (rewrite_loop fuel target insns out
          ≡ some (insns', counted out k))
        × Walk target insns insns' k
  rewrite_loop-Walk zero insns out h = absurd (omega arith)
  rewrite_loop-Walk (suc fuel) [] out h = (
    [],
    0,
    rw (counted_zero out) (loop_stop fuel [] out (action_nil target)),
    halt (action_nil target),
  )
  rewrite_loop-Walk (suc fuel) (x ∷ xs) out h = elim (Action-cases (action target (x ∷ xs))) [
    | inl e ↦ (x ∷ xs, 0, rw (counted_zero out) (loop_stop fuel (x ∷ xs) out e), halt e)
    | inr (inl (n, e)) ↦
        let (rest, k, ran, w) =
          rewrite_loop-Walk fuel (drop n (x ∷ xs)) out
            (omega (arith, length-drop n (x ∷ xs), action-skip target (x ∷ xs) e)) in
        (take n (x ∷ xs) ++ rest, k, loop_skip fuel n (x ∷ xs) rest out _ e ran, over n e w)
    | inr (inr e) ↦
        let (rest, k, ran, w) =
          rewrite_loop-Walk fuel (drop 4 (x ∷ xs)) (count_patch out)
            (omega (arith, length-drop 4 (x ∷ xs), action-patch target (x ∷ xs) e)) in
        (
          const_16 (get_or (x ∷ xs) 1 0) ++ rest,
          suc k,
          loop_patch fuel (x ∷ xs) rest out _ e ran
              ∙ ap (λ o. some (const_16 (get_or (x ∷ xs) 1 0) ++ rest, o)) (counted-suc out k),
          hit e w,
        )
  ]

  -- The rewriting of an instruction stream always comes to an end, and it makes the walk: from
  -- instruction to instruction, every `sget` of the field that the walk meets becomes a `const/16`
  -- of the same register, all else is copied, and each patch is counted with four bytes.
  pub rewrite_sget_in_insns-Walk :
      (insns : Bytes) (out : DexPatchResult)
      → (insns' : Bytes) × (k : ℕ) × (rewrite_sget_in_insns insns target out
          ≡ some (insns', counted out k))
        × Walk target insns insns' k
  unfolding rewrite_sget_in_insns
  rewrite_sget_in_insns-Walk insns out =
      rewrite_loop-Walk (suc (length insns)) insns out (omega arith)

  -- The walk is determined by the stream.
  Walk-unique :
      {insns xs ys : Bytes} {k n : ℕ}
      → Walk target insns xs k
      → Walk target insns ys n
      → (xs ≡ ys) × (k ≡ n)
  Walk-unique (halt e) (halt f) = (refl, refl)
  Walk-unique (halt e) (over n f v) = absurd (cc (e, f))
  Walk-unique (halt e) (hit f v) = absurd (cc (e, f))
  Walk-unique (over m e w) (halt f) = absurd (cc (e, f))
  Walk-unique (over {insns} m e w) (over {rest = rest'} {k = k'} n f v) =
      let same : n ≡ m = cc (e, f) in
      let (a, b) = Walk-unique w (subst (λ z. Walk target (drop z insns) rest' k') same v) in
      (ap (λ z. take m insns ++ z) a ∙ ap (λ z. take z insns ++ rest') (sym same), b)
  Walk-unique (over m e w) (hit f v) = absurd (cc (e, f))
  Walk-unique (hit e w) (halt f) = absurd (cc (e, f))
  Walk-unique (hit e w) (over n f v) = absurd (cc (e, f))
  Walk-unique (hit e w) (hit f v) = let (a, b) = Walk-unique w v in (rw a, ap suc b)

  made :
      (insns : Bytes) {insns' : Bytes} (out : DexPatchResult) {out' : DexPatchResult}
      → rewrite_sget_in_insns insns target out ≡ some (insns', out')
      → (k : ℕ) × Walk target insns insns' k × (out' ≡ counted out k)
  made insns out h =
      let (found, k, ran, w) = rewrite_sget_in_insns-Walk insns out in
      (k, subst (λ z. Walk target insns z k) (cc (h, ran)) w, cc (h, ran))

  -- When an instruction stream is rewritten, it keeps its length, and the bytes rewritten grow by
  -- four for each patch that is counted.
  pub rewrite_sget_in_insns_counts :
      (insns insns' : Bytes) (out out' : DexPatchResult)
      → rewrite_sget_in_insns insns target out ≡ some (insns', out')
      → (length insns' ≡ length insns)
        × (out'.bytes_rewritten + 4 * out.patches ≡ out.bytes_rewritten + 4 * out'.patches)
  rewrite_sget_in_insns_counts insns insns' out out' h =
      let (k, w, e) = made insns out h in (Walk-length target w, ground (arith, e))

  -- When an instruction stream has been rewritten for a field, rewriting the result for that field
  -- changes no byte and counts no patch.
  pub rewrite_sget_in_insns_again :
      (insns insns' : Bytes) (out out' again : DexPatchResult)
      → rewrite_sget_in_insns insns target out ≡ some (insns', out')
      → rewrite_sget_in_insns insns' target again ≡ some (insns', again)
  rewrite_sget_in_insns_again insns insns' out out' again h =
      let (k, w, e) = made insns out h in
      let (found, n, ran, v) = rewrite_sget_in_insns-Walk insns' again in
      let (a, b) = Walk-unique v (Walk-again target w) in ran ∙ rw (a, b, counted_zero)
