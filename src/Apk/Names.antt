-- ===== src/Apk/Names.antt =====
-- Which names are those of DEX files and of signatures.
use aabox.Common.{
  ℕ, ◌+◌, ◌-◌, ◌≤◌, ◌≡◌, refl, sym, ap, subst, ◌∙◌, Bool, true, false, not, ◌&&◌, ◌||◌, List, [],
  ◌∷◌, ◌++◌, All, length, length-append, take, drop, take_left, drop_left, take-append-drop,
  drop-drop, get_or, map, leb, ◌==◌, if◌then◌else◌, Bytes, ascii, bytes_eq, bytes_eq→eq,
  bytes_eq_refl, arith,
}
use aabox.Apk.{
  starts_with, ends_with, all_digits, is_classes_dex, upper_byte, slashes, is_signing_artefact,
}

abbrev pub IsDigit : ℕ → Type 0
IsDigit c = (b'0' ≤ c) × (c ≤ b'9')

-- `classes`, digits, and `.dex`.
pub record IsDexName (name : Bytes) : Type 0 where
  pub digits : Bytes
  pub are_digits : All IsDigit digits
  pub spelled : name ≡ ascii "classes" ++ (digits ++ ascii ".dex")

all_digits-All : (cs : Bytes) → all_digits cs ≡ true → All IsDigit cs
all_digits-All [] h = tt
all_digits-All (c ∷ cs) h = (ground arith, all_digits-All cs (ground arith))

All-all_digits : (cs : Bytes) → All IsDigit cs → all_digits cs ≡ true
All-all_digits [] h = refl
All-all_digits (c ∷ cs) (h, hs) = ground (arith, All-all_digits cs hs)

ends_with-append : (front suffix : Bytes) → ends_with suffix (front ++ suffix) ≡ true
ends_with-append front suffix =
    let size : length (front ++ suffix) - length suffix ≡ length front =
      omega (arith, length-append front suffix) in
    let long : leb (length suffix) (length (front ++ suffix)) ≡ true =
      ground (arith, length-append front suffix) in
    rw (long, size, drop_left front suffix) (bytes_eq_refl suffix)

-- A name that is `classes` and a rest that ends in `.dex` has no overlap of the two.
no_overlap :
    (rest : Bytes)
    → drop (3 + length rest) (ascii "classes" ++ rest) ≡ ascii ".dex"
    → 4 ≤ length rest
no_overlap [] h = let first : ◌≡◌ {A = ℕ} 115 46 = ap (λ t. get_or t 0 0) h in absurd (omega arith)
no_overlap (a ∷ []) h =
    let first : ◌≡◌ {A = ℕ} 115 46 = ap (λ t. get_or t 0 0) h in absurd (omega arith)
no_overlap (a ∷ b ∷ []) h =
    let first : ◌≡◌ {A = ℕ} 101 46 = ap (λ t. get_or t 0 0) h in absurd (omega arith)
no_overlap (a ∷ b ∷ c ∷ []) h =
    let first : ◌≡◌ {A = ℕ} 115 46 = ap (λ t. get_or t 0 0) h in absurd (omega arith)
no_overlap (a ∷ b ∷ c ∷ d ∷ rest) h = omega arith

pub IsDexName-is_classes_dex : (name : Bytes) → IsDexName name → is_classes_dex name ≡ true
unfolding is_classes_dex
IsDexName-is_classes_dex name d =
    let tail = d.digits ++ ascii ".dex" in
    let starts : starts_with (ascii "classes") name ≡ true = rw d.spelled refl in
    let ends : ends_with (ascii ".dex") name ≡ true =
      subst (λ n. ends_with (ascii ".dex") n ≡ true) (sym d.spelled)
        (ends_with-append (ascii "classes" ++ d.digits) (ascii ".dex")) in
    let long : length name ≡ 7 + length tail =
      ap length d.spelled ∙ length-append (ascii "classes") tail in
    let size : length name - 4 - 7 ≡ length d.digits =
      omega (arith, length-append d.digits (ascii ".dex")) in
    let tested : all_digits (take (length name - 4 - 7) (drop 7 name)) ≡ true =
      rw (size, ap (drop 7) d.spelled, take_left d.digits (ascii ".dex"))
        (All-all_digits d.digits d.are_digits) in
    rw (starts, ends) tested

pub is_classes_dex-IsDexName : (name : Bytes) → is_classes_dex name ≡ true → IsDexName name
unfolding is_classes_dex
is_classes_dex-IsDexName name h =
    let starts : starts_with (ascii "classes") name ≡ true = ground (arith, h) in
    let ends : ends_with (ascii ".dex") name ≡ true = ground (arith, h) in
    let tested : all_digits (take (length name - 4 - 7) (drop 7 name)) ≡ true = ground (arith, h) in
    let prefix : take 7 name ≡ ascii "classes" =
      bytes_eq→eq (take 7 name) (ascii "classes") starts in
    let rest = drop 7 name in
    let whole : ascii "classes" ++ rest ≡ name =
      ap (λ p. p ++ rest) (sym prefix) ∙ take-append-drop 7 name in
    let long : 7 + length rest ≡ length name =
      sym (length-append (ascii "classes") rest) ∙ ap length whole in
    let suffix : drop (length name - 4) name ≡ ascii ".dex" =
      bytes_eq→eq (drop (length name - 4) name) (ascii ".dex") (ground (arith, ends)) in
    let back : length name - 4 ≡ 3 + length rest = ground (arith, ends) in
    let over : 4 ≤ length rest =
      no_overlap rest
        (ap (drop (3 + length rest)) whole ∙ sym (ap (λ k. drop k name) back) ∙ suffix) in
    let split : 7 + (length rest - 4) ≡ length name - 4 = omega (arith, long, over) in
    let last : drop (length rest - 4) rest ≡ ascii ".dex" =
      sym (drop-drop 7 (length rest - 4) name) ∙ ap (λ k. drop k name) split ∙ suffix in
    let middle : length name - 4 - 7 ≡ length rest - 4 = omega (arith, long, over) in
    record {
      digits = take (length rest - 4) rest;
      are_digits =
          all_digits-All (take (length rest - 4) rest)
            (subst (λ k. all_digits (take k rest) ≡ true) middle tested);
      spelled =
          sym whole
          ∙ ap (λ r. ascii "classes" ++ r)
              (sym (take-append-drop (length rest - 4) rest)
                ∙ ap (λ s. take (length rest - 4) rest ++ s) last);
    }

-- A file of a signature: below META-INF, in any case of the letters, a manifest or a file of the
-- name CERT, or any signature that stands directly there.
unfoldable pub of_signature : Bytes → Bool
of_signature name =
    let upper = map upper_byte name in
    starts_with (ascii "META-INF/") upper
    && (any_ending standard_names upper || (slashes upper == 1 && any_ending signature_types upper))
  where
    standard_names : List Bytes
    standard_names =
        ascii "/MANIFEST.MF"
        ∷ ascii "/CERT.SF"
        ∷ ascii "/CERT.RSA"
        ∷ ascii "/CERT.DSA"
        ∷ ascii "/CERT.EC"
        ∷ []

    signature_types : List Bytes
    signature_types = ascii ".SF" ∷ ascii ".RSA" ∷ ascii ".DSA" ∷ ascii ".EC" ∷ []

    any_ending : List Bytes → Bytes → Bool
    any_ending [] upper = false
    any_ending (suffix ∷ more) upper = ends_with suffix upper || any_ending more upper

-- The manifest that is named in full has an ending that is tested before.
manifest_name :
    (upper : Bytes)
    → bytes_eq upper (ascii "META-INF/MANIFEST.MF") ≡ true
    → ends_with (ascii "/MANIFEST.MF") upper ≡ true
manifest_name upper h =
    subst (λ u. ends_with (ascii "/MANIFEST.MF") u ≡ true)
      (sym (bytes_eq→eq upper (ascii "META-INF/MANIFEST.MF") h)) refl

same_test :
    (a b c d e f g h i j k l : Bool)
    → (l ≡ true → b ≡ true)
    → (if not a then false else (b || c || d || e || f || (g && (h || i || j || k || l)))) ≡ (
        a && ((b || (c || (d || (e || (f || false))))) || (g && (h || (i || (j || (k || false)))))))
same_test a b c d e f g h i j k l imp = ground arith

pub is_signing_artefact-of_signature : (name : Bytes) → is_signing_artefact name ≡ of_signature name
unfolding is_signing_artefact of_signature
is_signing_artefact-of_signature name =
    let upper = map upper_byte name in
    same_test (starts_with (ascii "META-INF/") upper) (ends_with (ascii "/MANIFEST.MF") upper)
      (ends_with (ascii "/CERT.SF") upper) (ends_with (ascii "/CERT.RSA") upper)
      (ends_with (ascii "/CERT.DSA") upper) (ends_with (ascii "/CERT.EC") upper)
      (slashes upper == 1) (ends_with (ascii ".SF") upper) (ends_with (ascii ".RSA") upper)
      (ends_with (ascii ".DSA") upper) (ends_with (ascii ".EC") upper)
      (bytes_eq upper (ascii "META-INF/MANIFEST.MF")) (manifest_name upper)
