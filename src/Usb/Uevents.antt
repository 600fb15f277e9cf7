-- ===== src/Usb/Uevents.antt =====
-- Which packets are start events.
use aabox.Common.{
  ℕ, Bool, true, false, ◌&&◌, ◌||◌, Bool-cases, inl, inr, Option, none, some, List, [], ◌∷◌, ◌++◌,
  All, Bytes, ascii, bytes_eq, bytes_eq→eq, ◌≡◌, refl, ap, ◌∙◌, ◌==◌, if◌then◌else◌, arith,
}
use aabox.Usb.{records, with_key, key_and_value, noted, record_loop, is_accessory_start}

-- Records with a zero between them.
abbrev pub joined : List Bytes → Bytes
joined [] = []
joined (r ∷ []) = r
joined (r ∷ (r' ∷ rs)) = r ++ (0 ∷ joined (r' ∷ rs))

abbrev pub NoZero : Bytes → Type 0
NoZero = All (λ b. (b == 0) ≡ false)

abbrev pub contains : Bytes → List Bytes → Bool
contains r [] = false
contains r (x ∷ xs) = bytes_eq x r || contains r xs

abbrev pub devname_record : Bytes
devname_record = ascii "DEVNAME=usb_accessory"

abbrev pub start_record : Bytes
start_record = ascii "ACCESSORY=START"

last_record : (r : Bytes) → NoZero r → records r ≡ r ∷ []
unfolding records
last_record [] h = refl
last_record (b ∷ bs) (h, hs) = rw (h, last_record bs hs) refl

first_record : (r more : Bytes) → NoZero r → records (r ++ (0 ∷ more)) ≡ r ∷ records more
unfolding records
first_record [] more h = refl
first_record (b ∷ bs) more (h, hs) = rw (h, first_record bs more hs) refl

records-joined :
    (r : Bytes) (rs : List Bytes) → NoZero r → All NoZero rs → records (joined (r ∷ rs)) ≡ r ∷ rs
records-joined r [] h hs = last_record r h
records-joined r (r' ∷ rs) h (h', hs) =
    first_record r (joined (r' ∷ rs)) h ∙ ap (λ t. r ∷ t) (records-joined r' rs h' hs)

abbrev NoEquals : Bytes → Type 0
NoEquals = All (λ b. (b == b'=') ≡ false)

abbrev is_pair : Bytes → Bytes → Option (Bytes × Bytes) → Bool
is_pair k v none = false
is_pair k v (some (key, val)) = bytes_eq key k && bytes_eq val v

pair_below :
    (b c : ℕ) (k v : Bytes) (o : Option (Bytes × Bytes))
    → is_pair (c ∷ k) v (with_key b o) ≡ (b == c && is_pair k v o)
pair_below b c k v none = ground arith
pair_below b c k v (some (key, val)) = ground arith

no_pair : (b : ℕ) (v : Bytes) (o : Option (Bytes × Bytes)) → is_pair [] v (with_key b o) ≡ false
no_pair b v none = refl
no_pair b v (some (key, val)) = refl

pair_iff :
    (r k v : Bytes) → NoEquals k → is_pair k v (key_and_value r) ≡ bytes_eq r (k ++ (b'=' ∷ v))
unfolding key_and_value
pair_iff [] [] v h = refl
pair_iff [] (c ∷ k) v h = refl
pair_iff (b ∷ bs) [] v h = elim (Bool-cases (b == b'=')) [
  | inl e ↦ rw e refl
  | inr e ↦ rw e (no_pair b v (key_and_value bs))
]
pair_iff (b ∷ bs) (c ∷ k) v (h, hs) = elim (Bool-cases (b == b'=')) [
  | inl e ↦ let other : (b == c) ≡ false = ground (arith, e, h) in rw (e, other) refl
  | inr e ↦
      rw e (pair_below b c k v (key_and_value bs) ∙ ap (λ t. b == c && t) (pair_iff bs k v hs))
]

one_of_two :
    (x y a b : Bool)
    → (x && y) ≡ false
    → ◌≡◌ {A = Bool × Bool}
        (if x then (true, b) else if y then (a, true) else (a, b))
        (a || x, b || y)
one_of_two true true a b h = cc h
one_of_two true false true true h = refl
one_of_two true false true false h = refl
one_of_two true false false true h = refl
one_of_two true false false false h = refl
one_of_two false true true true h = refl
one_of_two false true true false h = refl
one_of_two false true false true h = refl
one_of_two false true false false h = refl
one_of_two false false true true h = refl
one_of_two false false true false h = refl
one_of_two false false false true h = refl
one_of_two false false false false h = refl

not_both :
    (key : Bytes) (x y : Bool)
    → ((bytes_eq key (ascii "DEVNAME") && x) && (bytes_eq key (ascii "ACCESSORY") && y)) ≡ false
not_both key x y = elim (Bool-cases (bytes_eq key (ascii "DEVNAME"))) [
  | inl e ↦
      let other : bytes_eq key (ascii "ACCESSORY") ≡ false =
        rw (bytes_eq→eq key (ascii "DEVNAME") e) refl in
      ground (arith, other)
  | inr e ↦ rw e refl
]

noted_pair :
    (o : Option (Bytes × Bytes)) (a b : Bool)
    → noted o (a, b) ≡ (
      a || is_pair (ascii "DEVNAME") (ascii "usb_accessory") o,
      b || is_pair (ascii "ACCESSORY") (ascii "START") o,
    )
noted_pair none a b = ground arith
noted_pair (some (key, val)) a b =
    one_of_two _ _ a b
      (not_both key (bytes_eq val (ascii "usb_accessory")) (bytes_eq val (ascii "START")))

noted_lem :
    (r : Bytes) (a b : Bool)
    → noted (key_and_value r) (a, b)
      ≡ (a || bytes_eq r devname_record, b || bytes_eq r start_record)
noted_lem r a b =
    let devname =
      pair_iff r (ascii "DEVNAME") (ascii "usb_accessory")
        (refl, (refl, (refl, (refl, (refl, (refl, (refl, tt))))))) in
    let start =
      pair_iff r (ascii "ACCESSORY") (ascii "START")
        (refl, (refl, (refl, (refl, (refl, (refl, (refl, (refl, (refl, tt))))))))) in
    noted_pair (key_and_value r) a b ∙ rw (devname, start) refl

record_loop_lem :
    (rs : List Bytes) (a b : Bool)
    → record_loop rs (a, b) ≡ (a || contains devname_record rs, b || contains start_record rs)
unfolding record_loop
record_loop_lem [] a b = ground arith
record_loop_lem (r ∷ rs) a b = rw (noted_lem r a b) (
    record_loop_lem rs (a || bytes_eq r devname_record) (b || bytes_eq r start_record)
    ∙ ground arith)

-- An event of a header and records without zero bytes, with a zero byte between each two (an empty
-- last record leaves one behind the others), is taken for the start of the accessory exactly when
-- `DEVNAME=usb_accessory` and `ACCESSORY=START` are among them.
pub is_accessory_start-joined :
    (header : Bytes) (rs : List Bytes)
    → NoZero header
    → All NoZero rs
    → is_accessory_start (joined (header ∷ rs))
      ≡ (contains devname_record (header ∷ rs) && contains start_record (header ∷ rs))
unfolding is_accessory_start
is_accessory_start-joined header rs h hs =
    rw (records-joined header rs h hs, record_loop_lem (header ∷ rs) false false) refl
