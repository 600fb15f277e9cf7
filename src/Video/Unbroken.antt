-- ===== src/Video/Unbroken.antt =====
-- The screen capture loses no byte.
use aabox.Common.{
  ℕ, ◌<◌, false, Bool-cases, inl, inr, Option, none, some, List, [], ◌∷◌, ◌++◌, append-nil,
  append_assoc, concat, length, take, drop, length-take, take-append-drop, ◌==◌, ==_iff, Bytes, ◌≡◌,
  refl, sym, ap, ◌∙◌, subst, arith,
}
use aabox.Nal.{group_access_units}
use aabox.Nal.Lossless.{concat-group_access_units}
use aabox.Video.Capture.{
  au_has_slice, find_last_start_code, ScreenRecordVideoSource, non_empty, without_trailing, regroup,
  absorb, spawn, taken, take_queued, VideoFrame,
}
use aabox.Video.StartCodes.{
  Code, drop-Begins, take-Begins, Last, no_code, code_at, find_last_start_code-Last, Code-offset,
  OffsetFirst,
}
use aabox.Video.UnitCodes.{append-Code, group_access_units-Begun}
use aabox.Common.{All}

units_whole : (b : Bytes) → Code b 0 → concat (group_access_units b) ≡ b
unfolding OffsetFirst
units_whole b c = let (n, codes, e) = Code-offset b c in (concat-group_access_units b 0 n codes e).1

concat-non_empty : (aus : List Bytes) → concat (non_empty aus) ≡ concat aus
concat-non_empty [] = refl
concat-non_empty ([] ∷ aus) = concat-non_empty aus
concat-non_empty ((x ∷ au) ∷ aus) =
    let some_byte : (length (x ∷ au) == 0) ≡ false = ground arith in
    rw some_byte (ap (λ t. (x ∷ au) ++ t) (concat-non_empty aus))

concat-without_trailing :
    (aus : List Bytes) → concat (without_trailing aus).0 ++ (without_trailing aus).1 ≡ concat aus
unfolding without_trailing
concat-without_trailing [] = refl
concat-without_trailing (au ∷ []) = elim (Bool-cases (au_has_slice au)) [
  | inl e ↦ rw e (append-nil (au ++ []))
  | inr e ↦ rw e (sym (append-nil au))
]
concat-without_trailing (au ∷ (au' ∷ aus)) =
    append_assoc au (concat (without_trailing (au' ∷ aus)).0) (without_trailing (au' ∷ aus)).1
    ∙ ap (λ t. au ++ t) (concat-without_trailing (au' ∷ aus))

concat-append : (xs ys : List Bytes) → concat (xs ++ ys) ≡ concat xs ++ concat ys
concat-append [] ys = refl
concat-append (x ∷ xs) ys =
    ap (λ t. x ++ t) (concat-append xs ys) ∙ sym (append_assoc x (concat xs) (concat ys))

-- Everything that was read and not yet given out.
unfoldable pub held : ScreenRecordVideoSource → Bytes
held s = concat s.queued ++ s.leftover

trailing-append :
    (aus : List Bytes) (rest : Bytes)
    → All (λ u. Code u 0) aus
    → Code rest 0
    → Code ((without_trailing aus).1 ++ rest) 0
unfolding without_trailing
trailing-append [] rest h d = d
trailing-append (au ∷ []) rest (c, h) d = elim (Bool-cases (au_has_slice au)) [
  | inl e ↦ rw e d
  | inr e ↦ rw e (append-Code au rest c)
]
trailing-append (au ∷ (au' ∷ aus)) rest (c, h) d = trailing-append (au' ∷ aus) rest h d

no_elements : (xs : Bytes) → length xs ≡ 0 → xs ≡ []
no_elements [] h = refl
no_elements (x ∷ xs) h = absurd (omega (arith, h))

-- Nothing is lost, and what is kept begins with a start code.
record Kept (before : Bytes) (s : ScreenRecordVideoSource) : Type 0 where
  all_held : held s ≡ before
  leftover_begins : Code s.leftover 0

regroup-Kept :
    (o : Option ℕ) (buf : Bytes) (s : ScreenRecordVideoSource)
    → Last buf o
    → Code buf 0
    → Kept (concat s.queued ++ buf) (regroup o buf s)
unfolding regroup held
regroup-Kept none buf s no_code c = record { all_held = refl; leftover_begins = c }
regroup-Kept (some i) buf s (code_at i' d) c = elim (Bool-cases (length (take i buf) == 0)) [
  | inl e ↦
      let same : drop i buf ≡ buf =
        ap (λ t. t ++ drop i buf)
          (sym (no_elements (take i buf) ((==_iff (length (take i buf)) 0).0 e)))
        ∙ take-append-drop i buf in
      rw e (record {
        all_held = ap (λ t. concat s.queued ++ t) same;
        leftover_begins = drop-Begins buf i d;
      })
  | inr e ↦
      let above : 0 < i = ground (arith, e, length-take {0} i buf) in
      let units = group_access_units (take i buf) in
      let split = without_trailing units in
      let whole : concat units ≡ take i buf =
        units_whole (take i buf) (take-Begins buf i c d above) in
      let queue : concat (s.queued ++ non_empty split.0) ≡ concat s.queued ++ concat split.0 =
        concat-append s.queued (non_empty split.0)
        ∙ ap (λ t. concat s.queued ++ t) (concat-non_empty split.0) in
      let behind : concat split.0 ++ (split.1 ++ drop i buf) ≡ buf =
        sym (append_assoc (concat split.0) split.1 (drop i buf))
        ∙ ap (λ t. t ++ drop i buf) (concat-without_trailing units ∙ whole)
        ∙ take-append-drop i buf in
      rw e (record {
        all_held =
            ap (λ t. t ++ (split.1 ++ drop i buf)) queue
            ∙ append_assoc (concat s.queued) (concat split.0) (split.1 ++ drop i buf)
            ∙ ap (λ t. concat s.queued ++ t) behind;
        leftover_begins =
            trailing-append units (drop i buf) (group_access_units-Begun (take i buf))
              (drop-Begins buf i d);
      })
]

absorb-Kept :
    (chunk : Bytes) (s : ScreenRecordVideoSource)
    → Code (s.leftover ++ chunk) 0
    → Kept (held s ++ chunk) (absorb chunk s)
unfolding absorb held
absorb-Kept chunk s c =
    let buf = s.leftover ++ chunk in
    let kept : Kept (concat s.queued ++ buf) (regroup (find_last_start_code buf) buf s) =
      regroup-Kept (find_last_start_code buf) buf s (find_last_start_code-Last buf) c in
    subst (λ b. Kept b (regroup (find_last_start_code buf) buf s))
      (sym (append_assoc (concat s.queued) s.leftover chunk)) kept

-- What happens to the source: a read of the process, or a frame that is given out.
pub data Act : Type 0 where
  reads : Bytes → Act
  gives : Act

-- The units given out, and the source, where there is one to give.
abbrev pub given :
    List Bytes × ScreenRecordVideoSource
    → Option (VideoFrame × ScreenRecordVideoSource)
    → List Bytes × ScreenRecordVideoSource
given w none = w
given w (some (f, s)) = (w.0 ++ (f.annex_b ∷ []), s)

-- The units given out, and the source, after the first chunk and further acts, the last one first.
unfoldable pub captured_after : ℕ → Bytes → List Act → List Bytes × ScreenRecordVideoSource
captured_after fps chunk [] = ([], absorb chunk (spawn fps))
captured_after fps chunk (reads more ∷ earlier) =
    let w = captured_after fps chunk earlier in (w.0, absorb more w.1)
captured_after fps chunk (gives ∷ earlier) =
    let w = captured_after fps chunk earlier in given w (take_queued w.1)

unfoldable pub bytes_read : Bytes → List Act → Bytes
bytes_read chunk [] = chunk
bytes_read chunk (reads more ∷ earlier) = bytes_read chunk earlier ++ more
bytes_read chunk (gives ∷ earlier) = bytes_read chunk earlier

record Whole (all : Bytes) (w : List Bytes × ScreenRecordVideoSource) : Type 0 where
  all_there : concat w.0 ++ held w.1 ≡ all
  begins : Code w.1.leftover 0

given-Whole :
    (all : Bytes) (w : List Bytes × ScreenRecordVideoSource) (q : List Bytes)
    → w.1.queued ≡ q
    → Whole all w
    → Whole all (given w (taken q w.1))
unfolding held
given-Whole all w [] e h = h
given-Whole all (outs, s) (au ∷ aus) e h = record {
  all_there =
      ap (λ t. t ++ (concat aus ++ s.leftover))
        (concat-append outs (au ∷ []) ∙ ap (λ t. concat outs ++ t) (append-nil au))
      ∙ append_assoc (concat outs) au (concat aus ++ s.leftover)
      ∙ ap (λ t. concat outs ++ t) (sym (append_assoc au (concat aus) s.leftover))
      ∙ ap (λ (q : List Bytes). concat outs ++ (concat q ++ s.leftover)) (sym e)
      ∙ h.all_there;
  begins = h.begins;
}

captured_after-Whole :
    (fps : ℕ) (chunk : Bytes) (acts : List Act)
    → Code chunk 0
    → Whole (bytes_read chunk acts) (captured_after fps chunk acts)
unfolding captured_after bytes_read spawn held
captured_after-Whole fps chunk [] c =
    let kept = absorb-Kept chunk (spawn fps) c in
    record { all_there = kept.all_held; begins = kept.leftover_begins }
captured_after-Whole fps chunk (reads more ∷ earlier) c =
    let w = captured_after fps chunk earlier in
    let before = captured_after-Whole fps chunk earlier c in
    let kept = absorb-Kept more w.1 (append-Code w.1.leftover more before.begins) in
    record {
      all_there =
          ap (λ t. concat w.0 ++ t) kept.all_held
          ∙ sym (append_assoc (concat w.0) (held w.1) more)
          ∙ ap (λ t. t ++ more) before.all_there;
      begins = kept.leftover_begins;
    }
captured_after-Whole fps chunk (gives ∷ earlier) c =
    let w = captured_after fps chunk earlier in
    given-Whole (bytes_read chunk earlier) w w.1.queued refl
      (captured_after-Whole fps chunk earlier c)

-- When the first bytes that the screen capture reads start with a start code, then after any reads
-- and any frames given out, the frames given out, the queued ones and the bytes left over are, put
-- together, all the bytes that were read.
pub concat-captured_after :
    (fps : ℕ) (chunk : Bytes) (acts : List Act)
    → Code chunk 0
    → concat (captured_after fps chunk acts).0 ++ held (captured_after fps chunk acts).1
      ≡ bytes_read chunk acts
concat-captured_after fps chunk acts c = (captured_after-Whole fps chunk acts c).all_there
