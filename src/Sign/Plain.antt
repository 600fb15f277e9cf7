-- ===== src/Sign/Plain.antt =====
-- An end-of-directory record without a comment, and what `with_cd_offset` keeps of it.
use aabox.Common.{
  ℕ, zero, suc, ◌+◌, ◌%◌, ◌^◌, ◌<◌, ◌≡◌, [], ◌∷◌, ◌++◌, ==_iff, ◌&&◌, length, length-append,
  length-take, length-drop, get_or, take, drop, drop_left, take-append-drop, Bool, take-append_le,
  Bytes, le32, bytes_eq, arith, refl, sym, ap, ◌∙◌, true, false,
}
use aabox.Sign.{is_eocd, u16_le_at}
use aabox.Sign.Apk.{with_cd_offset}

pub get_or-drop : (n i : ℕ) (xs : Bytes) → get_or xs (n + i) 0 ≡ get_or (drop n xs) i 0
get_or-drop zero i xs = ap (λ k. get_or xs k 0) (omega arith)
get_or-drop (suc n) i [] = refl
get_or-drop (suc n) i (x ∷ xs) =
    let next : suc n + i ≡ suc (n + i) = omega arith in
    ap (λ k. get_or (x ∷ xs) k 0) next ∙ get_or-drop n i xs

get_or-append_lt : (xs ys : Bytes) (i : ℕ) → i < length xs → get_or (xs ++ ys) i 0 ≡ get_or xs i 0
get_or-append_lt [] ys i h = absurd (omega arith)
get_or-append_lt (x ∷ xs) ys zero h = refl
get_or-append_lt (x ∷ xs) ys (suc i) h = get_or-append_lt xs ys i (omega arith)

pub get_or-append_right :
    (xs ys : Bytes) (i : ℕ) → get_or (xs ++ ys) (length xs + i) 0 ≡ get_or ys i 0
get_or-append_right xs ys i =
    get_or-drop (length xs) i (xs ++ ys) ∙ ap (λ b. get_or b i 0) (drop_left xs ys)

-- An end-of-directory record without a comment.
pub record IsPlain (e : Bytes) : Type 0 where
  pub size : length e ≡ 22
  pub signature : bytes_eq (take 4 e) (0x50 ∷ 0x4b ∷ 0x05 ∷ 0x06 ∷ []) ≡ true
  pub no_comment : (get_or e 20 0 ≡ 0) × (get_or e 21 0 ≡ 0)

and_true : {a b : Bool} → (a && b) ≡ true → (a ≡ true) × (b ≡ true)
and_true {a = true} {b = b} h = (refl, h)
and_true {a = false} {b = b} h = absurd (cc h)

pub is_eocd-IsPlain :
    (apk : Bytes) (off : ℕ)
    → is_eocd apk off ≡ true
    → off + 22 ≡ length apk
    → IsPlain (drop off apk)
unfolding is_eocd
is_eocd-IsPlain apk off h ends =
    let both = and_true h in
    let sum : off + 22 + u16_le_at apk (off + 20) ≡ length apk =
      (==_iff (off + 22 + u16_le_at apk (off + 20)) (length apk)).0 both.1 in
    let low : get_or apk (off + 20) 0 ≡ 0 = omega arith in
    let high : get_or apk (off + 20 + 1) 0 ≡ 0 = omega arith in
    let shifted : off + 21 ≡ off + 20 + 1 = omega arith in
    record {
      size = omega (arith, length-drop off apk);
      signature = both.0;
      no_comment = (
        sym (get_or-drop off 20 apk) ∙ low,
        sym (get_or-drop off 21 apk) ∙ (ap (λ k. get_or apk k 0) shifted ∙ high),
      );
    }

pub IsPlain-is_eocd : (front e : Bytes) → IsPlain e → is_eocd (front ++ e) (length front) ≡ true
unfolding is_eocd
IsPlain-is_eocd front e p =
    let apk = front ++ e in
    let n = length front in
    let low : get_or apk (n + 20) 0 ≡ 0 = get_or-append_right front e 20 ∙ p.no_comment.0 in
    let shifted : n + 20 + 1 ≡ n + 21 = omega arith in
    let high : get_or apk (n + 20 + 1) 0 ≡ 0 =
      ap (λ k. get_or apk k 0) shifted ∙ (get_or-append_right front e 21 ∙ p.no_comment.1) in
    let sum : n + 22 + u16_le_at apk (n + 20) ≡ length apk =
      omega (arith, length-append front e, p.size) in
    rw (drop_left front e, p.signature)
      ((==_iff (n + 22 + u16_le_at apk (n + 20)) (length apk)).1 sum)

module _ (o : ℕ) (e : Bytes) (p : IsPlain e) where
  head_length : length (take 16 e) ≡ 16
  head_length = omega (arith, length-take 16 e, p.size)

  tail_of : drop 16 (with_cd_offset o e) ≡ le32 (o % 2 ^ 32) ++ drop 20 e
  unfolding with_cd_offset
  tail_of =
      ap (λ n. drop n (with_cd_offset o e)) (sym head_length)
      ∙ drop_left (take 16 e) (le32 (o % 2 ^ 32) ++ drop 20 e)

  pub with_cd_offset_head : (i : ℕ) → i < 16 → get_or (with_cd_offset o e) i 0 ≡ get_or e i 0
  unfolding with_cd_offset
  with_cd_offset_head i h =
      get_or-append_lt (take 16 e) (le32 (o % 2 ^ 32) ++ drop 20 e) i (omega (arith, head_length))
      ∙ (sym (get_or-append_lt (take 16 e) (drop 16 e) i (omega (arith, head_length)))
          ∙ ap (λ b. get_or b i 0) (take-append-drop 16 e))

  pub with_cd_offset_at :
      (i : ℕ) → get_or (with_cd_offset o e) (16 + i) 0 ≡ get_or (le32 (o % 2 ^ 32) ++ drop 20 e) i 0
  with_cd_offset_at i = get_or-drop 16 i (with_cd_offset o e) ∙ ap (λ b. get_or b i 0) tail_of

  pub length-with_cd_offset : length (with_cd_offset o e) ≡ 22
  unfolding with_cd_offset
  length-with_cd_offset = omega (
    arith,
    length-append (take 16 e) (le32 (o % 2 ^ 32) ++ drop 20 e),
    head_length,
    length-drop 20 e,
    p.size,
  )

  take-with_cd_offset : take 4 (with_cd_offset o e) ≡ take 4 e
  unfolding with_cd_offset
  take-with_cd_offset =
      take-append_le 4 (take 16 e) (le32 (o % 2 ^ 32) ++ drop 20 e) (omega (arith, head_length))
      ∙ (sym (take-append_le 4 (take 16 e) (drop 16 e) (omega (arith, head_length)))
          ∙ ap (take 4) (take-append-drop 16 e))

  pub with_cd_offset-IsPlain : IsPlain (with_cd_offset o e)
  with_cd_offset-IsPlain = record {
    size = length-with_cd_offset;
    signature = rw take-with_cd_offset p.signature;
    no_comment = (
      with_cd_offset_at 4 ∙ (sym (get_or-drop 20 0 e) ∙ p.no_comment.0),
      with_cd_offset_at 5 ∙ (sym (get_or-drop 20 1 e) ∙ p.no_comment.1),
    );
  }
