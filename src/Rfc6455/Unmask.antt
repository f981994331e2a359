-- ===== src/Rfc6455/Unmask.antt =====
-- The loops of `_decode` of src/protocols_rfc6455.c against the rule of the RFC, byte by byte.
use native.Mathlib.Nat.{pow-suc}
use quick_io.Common.{
  ℕ, zero, suc, ◌+◌, ◌*◌, ◌/◌, ◌%◌, ◌^◌, ◌<◌, ◌≤◌, ◌≡◌, refl, sym, ap, ◌∙◌, [], ◌∷◌, ◌++◌, Bytes,
  All, length, take, drop, get_or, length-append, append_assoc, arith,
}
use quick_io.Buffer.{read, write}
use quick_io.Buffer.Laws.{length-drop, length-take, take-append-drop}
use quick_io.Raw.Moves.{leftover, length-leftover, read_behind, write_over}
use quick_io.Rfc6455.{xor, xor_bytes, repeat, xor_loop}

-- Each byte with the byte of the mask for its index.
unfoldable pub unmask : ℕ → Bytes → Bytes → Bytes
unmask i mask [] = []
unmask i mask (c ∷ cs) = xor 8 c (get_or mask (i % 4) 0) ∷ unmask (suc i) mask cs

xor_twice : (n a m : ℕ) → a < 2 ^ n → xor n (xor n a m) m ≡ a
unfolding xor
xor_twice zero a m h = omega arith
xor_twice (suc n) a m h =
    let p : 2 ^ suc n ≡ 2 ^ n * 2 = pow-suc 2 n in
    let x = xor n (a / 2) (m / 2) in
    let low = (a % 2 + m % 2) % 2 in
    let half : (low + 2 * x) / 2 ≡ x = omega arith in
    let odd : (low + 2 * x) % 2 ≡ low = omega arith in
    rw (half, odd, xor_twice n (a / 2) (m / 2) (omega arith)) (omega arith)

pub unmask_twice :
    (i : ℕ) (mask s : Bytes) → All (λ c. c < 256) s → unmask i mask (unmask i mask s) ≡ s
unfolding unmask
unmask_twice i mask [] h = refl
unmask_twice i mask (c ∷ cs) h =
    rw (xor_twice 8 c (get_or mask (i % 4) 0) h.0, unmask_twice (suc i) mask cs h.1)

pub length-unmask : (i : ℕ) (mask s : Bytes) → length (unmask i mask s) ≡ length s
unfolding unmask
length-unmask i mask [] = refl
length-unmask i mask (c ∷ cs) = omega (arith, length-unmask (suc i) mask cs)

pub unmask-append :
    (i : ℕ) (mask s t : Bytes)
    → unmask i mask (s ++ t) ≡ unmask i mask s ++ unmask (i + length s) mask t
unfolding unmask
unmask-append i mask [] t = let e : i + 0 ≡ i = omega arith in rw e
unmask-append i mask (c ∷ cs) t =
    let e : i + suc (length cs) ≡ suc i + length cs = omega arith in
    rw (e, unmask-append (suc i) mask cs t)

unmask-take :
    (w i : ℕ) (mask s : Bytes)
    → w ≤ length s
    → unmask i mask (take w s) ++ unmask (i + w) mask (drop w s) ≡ unmask i mask s
unmask-take w i mask s h =
    ap (λ (k : ℕ). unmask i mask (take w s) ++ unmask (i + k) mask (drop w s))
      (sym (length-take w s h))
    ∙ sym (unmask-append i mask (take w s) (drop w s))
    ∙ ap (unmask i mask) (take-append-drop w s)

abbrev pub four : ℕ → ℕ → ℕ → ℕ → Bytes
four a b c d = a ∷ b ∷ c ∷ d ∷ []

-- A word with the repeated mask, at an index that the mask's length divides.
pub xor_bytes-repeat :
    (a b c d k i : ℕ) (s : Bytes)
    → i % 4 ≡ 0
    → length s ≡ 4 * k
    → xor_bytes s (repeat k (four a b c d)) ≡ unmask i (four a b c d) s
unfolding xor_bytes repeat unmask
xor_bytes-repeat a b c d zero i [] h l = refl
xor_bytes-repeat a b c d zero i (x ∷ s) h l = absurd (omega arith)
xor_bytes-repeat a b c d (suc k) i [] h l = absurd (omega arith)
xor_bytes-repeat a b c d (suc k) i (x ∷ []) h l = absurd (omega arith)
xor_bytes-repeat a b c d (suc k) i (x ∷ y ∷ []) h l = absurd (omega arith)
xor_bytes-repeat a b c d (suc k) i (x ∷ y ∷ z ∷ []) h l = absurd (omega arith)
xor_bytes-repeat a b c d (suc k) i (x ∷ y ∷ z ∷ w ∷ s) h l =
    let e1 : suc i % 4 ≡ 1 = omega arith in
    let e2 : suc (suc i) % 4 ≡ 2 = omega arith in
    let e3 : suc (suc (suc i)) % 4 ≡ 3 = omega arith in
    rw (
      h,
      e1,
      e2,
      e3,
      xor_bytes-repeat a b c d k (suc (suc (suc (suc i)))) s (omega arith) (omega arith),
    )

module _ (mask_at : ℕ → Bytes) (mask : Bytes) (w : ℕ) (Aligned : ℕ → Type 0)
    (step : (i : ℕ) → Aligned i → Aligned (i + w))
    (word : (i : ℕ) (s : Bytes)
      → Aligned i
      → length s ≡ w
      → xor_bytes s (mask_at i) ≡ unmask i mask s) where
  one_round :
      (i msg str : ℕ) (front junk s back : Bytes)
      → length front ≡ msg + i
      → str ≡ msg + length junk
      → length s ≡ w
      → Aligned i
      → write
          (msg + i)
          (xor_bytes (read (str + i) w (front ++ (junk ++ (s ++ back)))) (mask_at i))
          (front ++ (junk ++ (s ++ back)))
        ≡ front ++ (unmask i mask s ++ (leftover junk s ++ back))
  one_round i msg str front junk s back f g l al =
      let at : msg + i ≡ length front = sym f in
      let behind : str + i ≡ length front + length junk = omega arith in
      rw (at, behind, ← l, read_behind front junk s back, word i s al l)
        (write_over front junk s (unmask i mask s) back (length-unmask i mask s))

  -- `n` rounds on `n * w` bytes, where each word is unmasked by the rule.
  pub xor_loop-unmask :
      (n i msg str : ℕ) (front junk s back : Bytes)
      → length front ≡ msg + i
      → str ≡ msg + length junk
      → length s ≡ n * w
      → Aligned i
      → (junk' : Bytes) × (xor_loop mask_at w n i msg str (front ++ (junk ++ (s ++ back)))
          ≡ front ++ (unmask i mask s ++ (junk' ++ back)))
        × (length junk' ≡ length junk)
  unfolding xor_loop
  xor_loop-unmask zero i msg str front junk [] back f g l al = unfold unmask in (junk, refl, refl)
  xor_loop-unmask zero i msg str front junk (x ∷ s) back f g l al = absurd (omega arith)
  xor_loop-unmask (suc n) i msg str front junk s back f g l al =
      let t = take w s in
      let u = drop w s in
      let m : suc n * w ≡ w + n * w = omega arith in
      let lt : length t ≡ w = length-take w s (omega arith) in
      let lu : length u ≡ n * w = omega (arith, length-drop w s) in
      let front' = front ++ unmask i mask t in
      let junk' = leftover junk t in
      let lj = length-leftover junk t in
      let (out, e, le) =
        xor_loop-unmask n (i + w) msg str front' junk' u back
          (omega (arith, length-append front (unmask i mask t), length-unmask i mask t))
          (omega arith) lu (step i al) in
      let parts : s ++ back ≡ t ++ (u ++ back) =
        ap (λ (l : Bytes). l ++ back) (sym (take-append-drop w s)) ∙ append_assoc t u back in
      let first : write (msg + i)
            (xor_bytes (read (str + i) w (front ++ (junk ++ (s ++ back)))) (mask_at i))
            (front ++ (junk ++ (s ++ back)))
          ≡ front' ++ (junk' ++ (u ++ back)) =
        rw (parts, append_assoc front (unmask i mask t) (junk' ++ (u ++ back)))
          (one_round i msg str front junk t (u ++ back) f g lt al) in
      let whole : front' ++ (unmask (i + w) mask u ++ (out ++ back))
          ≡ front ++ (unmask i mask s ++ (out ++ back)) =
        append_assoc front (unmask i mask t) (unmask (i + w) mask u ++ (out ++ back))
        ∙ ap (λ (l : Bytes). front ++ l)
            (sym (append_assoc (unmask i mask t) (unmask (i + w) mask u) (out ++ back))
              ∙ ap (λ (l : Bytes). l ++ (out ++ back)) (unmask-take w i mask s (omega arith))) in
      (out, ap (xor_loop mask_at w n (i + w) msg str) first ∙ e ∙ whole, le ∙ lj)
