-- ===== src/Rfc6455/Loops.antt =====
-- The three loops of `_decode` of src/protocols_rfc6455.c in a row.
use quick_io.Common.{
  ℕ, zero, suc, ◌+◌, ◌-◌, ◌*◌, ◌/◌, ◌%◌, ◌≤◌, ◌≡◌, refl, sym, ap, ◌∙◌, [], ◌∷◌, ◌++◌, Bytes, length,
  take, drop, get_or, length-append, append_assoc, arith,
}
use mathlib.Core.Path.{subst}
use quick_io.Buffer.Laws.{length-drop, length-take, drop-add, take-append-drop}
use quick_io.Rfc6455.Unmask.{
  unmask, unmask-append, length-unmask, four, xor_loop-unmask, xor_bytes-repeat,
}
use quick_io.Rfc6455.{xor_bytes, repeat, xor_loop, unmask_in_place}

take-word :
    (a b c d i : ℕ) (s : Bytes)
    → i % 4 ≡ 0
    → length s ≡ 8
    → xor_bytes s (take 8 (repeat 4 (four a b c d))) ≡ unmask i (four a b c d) s
unfolding repeat
take-word a b c d i s h l = xor_bytes-repeat a b c d 2 i s h l

one_byte :
    (a b c d i : ℕ) (s : Bytes)
    → Unit {0}
    → length s ≡ 1
    → xor_bytes s (get_or (four a b c d) (i % 4) 0 ∷ []) ≡ unmask i (four a b c d) s
unfolding xor_bytes unmask
one_byte a b c d i [] h l = absurd (omega arith)
one_byte a b c d i (x ∷ []) h l = refl
one_byte a b c d i (x ∷ y ∷ s) h l = absurd (omega arith)

take-add : (i k : ℕ) (s : Bytes) → take (i + k) s ≡ take i s ++ take k (drop i s)
take-add zero k s = let e : zero + k ≡ k = omega arith in rw e
take-add (suc i) zero [] = let e : suc i + 0 ≡ suc i = omega arith in rw e
take-add (suc i) (suc k) [] = let e : suc i + suc k ≡ suc (i + suc k) = omega arith in rw e
take-add (suc i) k (c ∷ s) = let e : suc i + k ≡ suc (i + k) = omega arith in rw (e, take-add i k s)

take-all : (s : Bytes) → take (length s) s ≡ s
take-all [] = refl
take-all (c ∷ s) = ap (◌∷◌ c) (take-all s)

drop-all : (s : Bytes) → drop (length s) s ≡ []
drop-all [] = refl
drop-all (c ∷ s) = drop-all s

-- The first `i` bytes of `s` stand unmasked behind `front`, the others are where they were.
record Reached (mask front s back : Bytes) (h i : ℕ) (buf : Bytes) : Type 0 where
  fits : i ≤ length s
  gap : Bytes
  stands : buf ≡ front ++ (unmask 0 mask (take i s) ++ (gap ++ (drop i s ++ back)))
  gap_length : length gap ≡ h

Reached-at :
    {mask front s back : Bytes} {h i j : ℕ} {buf : Bytes}
    → i ≡ j
    → Reached mask front s back h i buf
    → Reached mask front s back h j buf
Reached-at {mask} {front} {s} {back} {h} {i} {j} {buf} e r =
    subst (λ (k : ℕ). Reached mask front s back h k buf) e r

module _ (mask front s back : Bytes) (h : ℕ) where
  unmask-take-add :
      (i k : ℕ)
      → i ≤ length s
      → unmask 0 mask (take (i + k) s)
        ≡ unmask 0 mask (take i s) ++ unmask i mask (take k (drop i s))
  unmask-take-add i k le =
      ap (unmask 0 mask) (take-add i k s)
      ∙ unmask-append 0 mask (take i s) (take k (drop i s))
      ∙ ap (λ (n : ℕ). unmask 0 mask (take i s) ++ unmask n mask (take k (drop i s)))
          (omega (arith, length-take i s le))

  Reached-0 :
      (gap : Bytes) → length gap ≡ h → Reached mask front s back h 0 (front ++ (gap ++ (s ++ back)))
  unfolding unmask
  Reached-0 gap l = record { fits = omega arith; gap = gap; stands = refl; gap_length = l }

  -- One of the loops, on the `n` words that follow.
  module _ (mask_at : ℕ → Bytes) (w : ℕ) (Aligned : ℕ → Type 0)
      (step : (i : ℕ) → Aligned i → Aligned (i + w))
      (word : (i : ℕ) (t : Bytes)
        → Aligned i
        → length t ≡ w
        → xor_bytes t (mask_at i) ≡ unmask i mask t) where
    xor_loop-Reached :
        (n i : ℕ) (buf : Bytes)
        → Reached mask front s back h i buf
        → i + n * w ≤ length s
        → Aligned i
        → Reached mask front s back h
            (i + n * w)
            (xor_loop mask_at w n i (length front) (length front + h) buf)
    xor_loop-Reached n i buf r le al =
        let k = n * w in
        let rest = drop i s in
        let done = unmask 0 mask (take i s) in
        let next = take k rest in
        let more = drop k rest ++ back in
        let lr : length rest ≡ length s - i = length-drop i s in
        let ld : length (front ++ done) ≡ length front + i = omega (
          arith,
          length-append front done,
          length-unmask 0 mask (take i s),
          length-take i s r.fits,
        ) in
        let (gap, e, l) =
          xor_loop-unmask mask_at mask w Aligned step word n i (length front) (length front + h)
            (front ++ done) r.gap next more ld (omega (arith, r.gap_length))
            (length-take k rest (omega arith)) al in
        let split : rest ++ back ≡ next ++ more =
          ap (λ (b : Bytes). b ++ back) (sym (take-append-drop k rest))
          ∙ append_assoc next (drop k rest) back in
        let before : buf ≡ (front ++ done) ++ (r.gap ++ (next ++ more)) =
          r.stands
          ∙ sym (append_assoc front done (r.gap ++ (rest ++ back)))
          ∙ ap (λ (b : Bytes). (front ++ done) ++ (r.gap ++ b)) split in
        let after : (front ++ done) ++ (unmask i mask next ++ (gap ++ more))
            ≡ front ++ (unmask 0 mask (take (i + k) s) ++ (gap ++ (drop (i + k) s ++ back))) =
          rw (
            unmask-take-add i k r.fits,
            drop-add i k s,
            append_assoc front done (unmask i mask next ++ (gap ++ more)),
            append_assoc done (unmask i mask next) (gap ++ more),
          ) in
        record {
          fits = le;
          gap = gap;
          stands = ap (xor_loop mask_at w n i (length front) (length front + h)) before ∙ e ∙ after;
          gap_length = l ∙ r.gap_length;
        }

Reached-all :
    (mask front s back : Bytes) (h : ℕ) (buf : Bytes)
    → Reached mask front s back h (length s) buf
    → (gap : Bytes) × (buf ≡ front ++ (unmask 0 mask s ++ (gap ++ back))) × (length gap ≡ h)
Reached-all mask front s back h buf r =
    (r.gap, r.stands ∙ rw (take-all s, drop-all s), r.gap_length)

-- The three loops together unmask every byte by the rule, although they write over the bytes
-- they have read.
pub unmask_in_place-unmask :
    (a b c d : ℕ) (front junk s back : Bytes)
    → (junk' : Bytes) × (unmask_in_place
          (four a b c d)
          (length s)
          (length front)
          (length front + length junk)
          (front ++ (junk ++ (s ++ back)))
        ≡ front ++ (unmask 0 (four a b c d) s ++ (junk' ++ back)))
      × (length junk' ≡ length junk)
unfolding unmask_in_place
unmask_in_place-unmask a b c d front junk s back =
    let mask = four a b c d in
    let n = length s in
    let h = length junk in
    let p = n / 16 * 16 in
    let j = n - n % 8 in
    let q = (j - p) / 8 in
    let start = Reached-0 mask front s back h junk refl in
    let by_16 =
      xor_loop-Reached mask front s back h (λ i. repeat 4 mask) 16 (λ i. i % 4 ≡ 0)
        (λ i e. omega arith) (λ i t e l. xor_bytes-repeat a b c d 4 i t e l) (n / 16) 0
        (front ++ (junk ++ (s ++ back))) start (omega arith) refl in
    let by_8 =
      xor_loop-Reached mask front s back h (λ k. take 8 (repeat 4 mask)) 8 (λ i. i % 4 ≡ 0)
        (λ i e. omega arith) (λ i t e l. take-word a b c d i t e l) q p _
        (Reached-at (omega arith) by_16) (omega arith) (omega arith) in
    let by_1 =
      xor_loop-Reached mask front s back h (λ k. get_or mask (k % 4) 0 ∷ []) 1 (λ i. Unit {0})
        (λ i e. tt) (λ i t e l. one_byte a b c d i t e l) (n - j) j _
        (Reached-at (omega arith) by_8) (omega arith) tt in
    Reached-all mask front s back h _ (Reached-at (omega arith) by_1)
