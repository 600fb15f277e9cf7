-- ===== src/Dex/Walks.antt =====
-- The walk over an instruction stream as a relation, and its properties.
use aabox.Common.{
  ℕ, zero, suc, ◌≤◌, ◌<◌, ◌≡◌, refl, sym, ap, subst, ◌∙◌, [], ◌∷◌, ◌++◌, length, get_or, take, drop,
  length-append, length-take, length-drop, Bytes, arith,
}
use aabox.Dex.Opcodes.{units_of-const_16}
use aabox.Dex.Insns.{stop, skip, patch, action_at, action, const_16}

-- The walk that the code means to make: from instruction to instruction, and every `sget` of the
-- field becomes a `const/16` with the same register. The number counts those.
pub data Walk (target : ℕ) : Bytes → Bytes → ℕ → Type 0 where
  halt : {insns : Bytes} → action target insns ≡ stop → Walk target insns insns 0
  over :
      {insns rest : Bytes} {k : ℕ} (n : ℕ)
      → action target insns ≡ skip n
      → Walk target (drop n insns) rest k
      → Walk target insns (take n insns ++ rest) k
  hit :
      {insns rest : Bytes} {k : ℕ}
      → action target insns ≡ patch
      → Walk target (drop 4 insns) rest k
      → Walk target insns (const_16 (get_or insns 1 0) ++ rest) (suc k)

module _ (target : ℕ) where
  action_at-skip :
      (len b0 b1 b2 b3 b4 b5 b6 b7 : ℕ) {n : ℕ}
      → action_at target len b0 b1 b2 b3 b4 b5 b6 b7 ≡ skip n
      → 2 ≤ n
  unfolding action_at
  action_at-skip len b0 b1 b2 b3 b4 b5 b6 b7 h = ground arith

  action_at-patch :
      (len b0 b1 b2 b3 b4 b5 b6 b7 : ℕ)
      → action_at target len b0 b1 b2 b3 b4 b5 b6 b7 ≡ patch
      → 4 ≤ len
  unfolding action_at
  action_at-patch len b0 b1 b2 b3 b4 b5 b6 b7 h = ground arith

  -- A round that skips `n` bytes depends on these alone and on how many there are.
  action_at-agree :
      (len b0 b1 b2 b3 b4 b5 b6 b7 c2 c3 c4 c5 c6 c7 n : ℕ)
      → (2 < n → c2 ≡ b2)
      → (3 < n → c3 ≡ b3)
      → (4 < n → c4 ≡ b4)
      → (5 < n → c5 ≡ b5)
      → (6 < n → c6 ≡ b6)
      → (7 < n → c7 ≡ b7)
      → action_at target len b0 b1 b2 b3 b4 b5 b6 b7 ≡ skip n
      → action_at target len b0 b1 c2 c3 c4 c5 c6 c7 ≡ skip n
  unfolding action_at
  action_at-agree len b0 b1 b2 b3 b4 b5 b6 b7 c2 c3 c4 c5 c6 c7 n h2 h3 h4 h5 h6 h7 h = ground arith

  pub action-skip : (insns : Bytes) {n : ℕ} → action target insns ≡ skip n → 2 ≤ n
  unfolding action
  action-skip insns h =
      action_at-skip (length insns) (get_or insns 0 0) (get_or insns 1 0) (get_or insns 2 0)
        (get_or insns 3 0) (get_or insns 4 0) (get_or insns 5 0) (get_or insns 6 0)
        (get_or insns 7 0) h

  pub action-patch : (insns : Bytes) → action target insns ≡ patch → 4 ≤ length insns
  unfolding action
  action-patch insns h =
      action_at-patch (length insns) (get_or insns 0 0) (get_or insns 1 0) (get_or insns 2 0)
        (get_or insns 3 0) (get_or insns 4 0) (get_or insns 5 0) (get_or insns 6 0)
        (get_or insns 7 0) h

  pub action_nil : action target [] ≡ stop
  unfolding action
  action_nil = refl

length-nil : (xs : Bytes) → length xs ≡ 0 → xs ≡ []
length-nil [] h = refl
length-nil (x ∷ xs) h = absurd (omega arith)

-- Behind a skip: the front is whole, or nothing follows it.
front_kept :
    (n : ℕ) (insns rest : Bytes)
    → length rest ≡ length (drop n insns)
    → (take n (take n insns ++ rest) ≡ take n insns) × (drop n (take n insns ++ rest) ≡ rest)
front_kept zero insns rest h = (refl, refl)
front_kept (suc n) [] rest h = rw (length-nil rest h) (refl, refl)
front_kept (suc n) (x ∷ xs) rest h = let (a, b) = front_kept n xs rest h in (ap (λ t. x ∷ t) a, b)

get_or-take : (m n : ℕ) (xs : Bytes) → m < n → get_or (take n xs) m 0 ≡ get_or xs m 0
get_or-take m zero xs h = absurd (omega arith)
get_or-take m (suc n) [] h = refl
get_or-take zero (suc n) (x ∷ xs) h = refl
get_or-take (suc m) (suc n) (x ∷ xs) h = get_or-take m n xs (omega arith)

get_or-agree :
    (m n : ℕ) (xs ys : Bytes) → take n ys ≡ take n xs → m < n → get_or ys m 0 ≡ get_or xs m 0
get_or-agree m n xs ys e h =
    sym (get_or-take m n ys h) ∙ ap (λ zs. get_or zs m 0) e ∙ get_or-take m n xs h

module _ (target : ℕ) where
  action-agree :
      (xs ys : Bytes) (n : ℕ)
      → length ys ≡ length xs
      → take n ys ≡ take n xs
      → action target xs ≡ skip n
      → action target ys ≡ skip n
  unfolding action
  action-agree xs ys n l e h =
      let long =
        action_at-skip target (length xs) (get_or xs 0 0) (get_or xs 1 0) (get_or xs 2 0)
          (get_or xs 3 0) (get_or xs 4 0) (get_or xs 5 0) (get_or xs 6 0) (get_or xs 7 0) h in
      rw (l, get_or-agree 0 n xs ys e (omega arith), get_or-agree 1 n xs ys e (omega arith))
        (action_at-agree target (length xs) (get_or xs 0 0) (get_or xs 1 0) (get_or xs 2 0)
          (get_or xs 3 0) (get_or xs 4 0) (get_or xs 5 0) (get_or xs 6 0) (get_or xs 7 0) _ _ _ _ _
          _ n (get_or-agree 2 n xs ys e) (get_or-agree 3 n xs ys e) (get_or-agree 4 n xs ys e)
          (get_or-agree 5 n xs ys e) (get_or-agree 6 n xs ys e) (get_or-agree 7 n xs ys e) h)

  -- The rewriting keeps the length of the stream.
  pub Walk-length :
      {insns out : Bytes} {k : ℕ} → Walk target insns out k → length out ≡ length insns
  unfolding const_16
  Walk-length (halt h) = refl
  Walk-length (over {insns} {rest} n h w) = omega (
    arith,
    length-append (take n insns) rest,
    length-take n insns,
    length-drop n insns,
    Walk-length w,
  )
  Walk-length (hit {insns} {rest} h w) =
      omega (arith, length-drop 4 insns, action-patch target insns h, Walk-length w)

  const_16_skips : (v : ℕ) (rest : Bytes) → action target (const_16 v ++ rest) ≡ skip 4
  unfolding action const_16
  const_16_skips v rest = rw units_of-const_16 (ground arith)

  -- After the rewriting, the walk over the result meets no `sget` of the field and changes nothing.
  pub Walk-again : {insns out : Bytes} {k : ℕ} → Walk target insns out k → Walk target out out 0
  unfolding const_16
  Walk-again (halt h) = halt h
  Walk-again (over {insns} {rest} n h w) =
      let out = take n insns ++ rest in
      let (same, after) = front_kept n insns rest (Walk-length w) in
      let here = action-agree insns out n (Walk-length (over n h w)) same h in
      let onwards = subst (λ z. Walk target z rest 0) (sym after) (Walk-again w) in
      subst (λ z. Walk target out (z ++ rest) 0) same (over n here onwards)
  Walk-again (hit {insns} {rest} h w) =
      over {insns = const_16 (get_or insns 1 0) ++ rest} 4 (const_16_skips (get_or insns 1 0) rest)
        (Walk-again w)
