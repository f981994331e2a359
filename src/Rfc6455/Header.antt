-- ===== src/Rfc6455/Header.antt =====
-- The header of a WebSocket frame, as `_decode` of src/protocols_rfc6455.c reads it.
use quick_io.Common.{
  ℕ, ◌+◌, ◌-◌, ◌/◌, ◌%◌, ◌^◌, ◌<◌, ◌≤◌, ◌≡◌, true, false, ◌==◌, ltb, leb, [], ◌∷◌, ◌++◌, Bytes,
  length, length-append, if◌then◌else◌, Bool-cases, inl, inr, arith,
}
use quick_io.Buffer.{from_be, to_be}
use quick_io.Buffer.Laws.{from_be-to_be, drop_front}
use quick_io.Wire.{Platform}
use quick_io.Rfc6455.Unmask.{unmask, four}
use quick_io.Rfc6455.{decode, decode_length, decode_sized}

-- The second byte of a masked frame, and the longer forms of the length (RFC 6455, 5.2).
abbrev pub length_code : ℕ → Bytes
length_code n =
    if leb n 125 then (128 + n) ∷ [] else if ltb n 65_536 then 254 ∷ to_be 2 n else 255 ∷ to_be 8 n

abbrev pub header : ℕ → Bytes → Bytes
header n mask = 129 ∷ (length_code n ++ mask)

-- A text frame of a client: the header, the mask, the masked text.
abbrev pub masked : Bytes → Bytes → Bytes
masked mask event = header (length event) mask ++ unmask 0 mask event

pub length-header :
    (n a b c d : ℕ)
    → (0 < length (header n (four a b c d))) × (length (header n (four a b c d)) ≤ 14)
unfolding to_be
length-header n a b c d = elim (Bool-cases (leb n 125)) [
  | inl short ↦ rw short (omega arith, omega arith)
  | inr more ↦ elim (Bool-cases (ltb n 65_536)) [
    | inl medium ↦ rw (more, medium) (omega arith, omega arith)
    | inr long ↦ rw (more, long) (omega arith, omega arith)
  ]
]

module _ (pf : Platform) where
  decode_short :
      (front : Bytes) (a b c d n : ℕ) (rest : Bytes)
      → leb n 125 ≡ true
      → decode pf (front ++ (129 ∷ (128 + n) ∷ a ∷ b ∷ c ∷ d ∷ rest)) (length front)
        ≡ decode_sized pf
            (length front)
            6
            n
            (four a b c d)
            (pf.safe_uadd 6 n)
            (front ++ (129 ∷ (128 + n) ∷ a ∷ b ∷ c ∷ d ∷ rest))
  unfolding decode decode_length from_be
  decode_short front a b c d n rest e =
      let l = length-append front (129 ∷ (128 + n) ∷ a ∷ b ∷ c ∷ d ∷ rest) in
      let six : ltb (length (front ++ (129 ∷ (128 + n) ∷ a ∷ b ∷ c ∷ d ∷ rest)) - length front) 6
          ≡ false =
        ground (arith, l) in
      let bit : ((128 + n) / 128 % 2 == 0) ≡ false = ground arith in
      let low : (128 + n) % 128 ≡ n = ground arith in
      rw (drop_front front (129 ∷ (128 + n) ∷ a ∷ b ∷ c ∷ d ∷ rest), six, bit, low, e)

  decode_medium :
      (front : Bytes) (x y a b c d n : ℕ) (rest : Bytes)
      → from_be 0 (x ∷ y ∷ []) ≡ n
      → decode pf (front ++ (129 ∷ 254 ∷ x ∷ y ∷ a ∷ b ∷ c ∷ d ∷ rest)) (length front)
        ≡ decode_sized pf
            (length front)
            8
            n
            (four a b c d)
            (pf.safe_uadd 8 n)
            (front ++ (129 ∷ 254 ∷ x ∷ y ∷ a ∷ b ∷ c ∷ d ∷ rest))
  unfolding decode decode_length from_be
  decode_medium front x y a b c d n rest e =
      let l = length-append front (129 ∷ 254 ∷ x ∷ y ∷ a ∷ b ∷ c ∷ d ∷ rest) in
      let six : ltb (length (front ++ (129 ∷ 254 ∷ x ∷ y ∷ a ∷ b ∷ c ∷ d ∷ rest)) - length front) 6
          ≡ false =
        ground (arith, l) in
      let eight : ltb (length (front ++ (129 ∷ 254 ∷ x ∷ y ∷ a ∷ b ∷ c ∷ d ∷ rest)) - length front)
            8
          ≡ false =
        ground (arith, l) in
      rw (drop_front front (129 ∷ 254 ∷ x ∷ y ∷ a ∷ b ∷ c ∷ d ∷ rest), six, eight, ← e)

  decode_long :
      (front : Bytes) (x y z w x' y' z' w' a b c d n : ℕ) (rest : Bytes)
      → from_be 0 (x ∷ y ∷ z ∷ w ∷ x' ∷ y' ∷ z' ∷ w' ∷ []) ≡ n
      → decode pf
          (front ++ (129 ∷ 255 ∷ x ∷ y ∷ z ∷ w ∷ x' ∷ y' ∷ z' ∷ w' ∷ a ∷ b ∷ c ∷ d ∷ rest))
          (length front)
        ≡ decode_sized pf
            (length front)
            14
            n
            (four a b c d)
            (pf.safe_uadd 14 n)
            (front ++ (129 ∷ 255 ∷ x ∷ y ∷ z ∷ w ∷ x' ∷ y' ∷ z' ∷ w' ∷ a ∷ b ∷ c ∷ d ∷ rest))
  unfolding decode decode_length from_be
  decode_long front x y z w x' y' z' w' a b c d n rest e =
      let l =
        length-append front
          (129 ∷ 255 ∷ x ∷ y ∷ z ∷ w ∷ x' ∷ y' ∷ z' ∷ w' ∷ a ∷ b ∷ c ∷ d ∷ rest) in
      let six : ltb
            (length
                (front ++ (129 ∷ 255 ∷ x ∷ y ∷ z ∷ w ∷ x' ∷ y' ∷ z' ∷ w' ∷ a ∷ b ∷ c ∷ d ∷ rest))
              - length front)
            6
          ≡ false =
        ground (arith, l) in
      let enough : ltb
            (length
                (front ++ (129 ∷ 255 ∷ x ∷ y ∷ z ∷ w ∷ x' ∷ y' ∷ z' ∷ w' ∷ a ∷ b ∷ c ∷ d ∷ rest))
              - length front)
            14
          ≡ false =
        ground (arith, l) in
      rw (
        drop_front front (129 ∷ 255 ∷ x ∷ y ∷ z ∷ w ∷ x' ∷ y' ∷ z' ∷ w' ∷ a ∷ b ∷ c ∷ d ∷ rest),
        six,
        enough,
        ← e,
      )

  pub decode-header :
      (front : Bytes) (a b c d n : ℕ) (rest : Bytes)
      → n < 2 ^ 64
      → decode pf (front ++ (header n (four a b c d) ++ rest)) (length front)
        ≡ decode_sized pf
            (length front)
            (length (header n (four a b c d)))
            n
            (four a b c d)
            (pf.safe_uadd (length (header n (four a b c d))) n)
            (front ++ (header n (four a b c d) ++ rest))
  unfolding to_be
  decode-header front a b c d n rest lt = elim (Bool-cases (leb n 125)) [
    | inl short ↦ rw short (decode_short front a b c d n rest short)
    | inr more ↦ elim (Bool-cases (ltb n 65_536)) [
      | inl medium ↦
          rw (more, medium)
            (decode_medium front (n / 256 % 256) (n % 256) a b c d n rest
              (from_be-to_be 2 n (ground arith)))
      | inr long ↦
          rw (more, long) (decode_long front _ _ _ _ _ _ _ _ a b c d n rest (from_be-to_be 8 n lt))
    ]
  ]
