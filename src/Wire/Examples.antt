-- ===== src/Wire/Examples.antt =====
-- A platform that meets what the protocols rely on: numbers printed in base 10, and read back.
use native.Mathlib.Nat.{pow-suc}
use quick_io.Common.{
  ℕ, zero, suc, ◌+◌, ◌-◌, ◌*◌, ◌/◌, ◌%◌, ◌^◌, ◌≤◌, ◌<◌, ◌≡◌, refl, ap, ◌∙◌, inl, inr, Bool, true,
  false, ◌&&◌, ltb, leb, if◌then◌else◌, [], ◌∷◌, ◌++◌, none, some, Bytes, append_assoc, Bool-cases,
  arith,
}
use quick_io.Buffer.Laws.{IsText}
use quick_io.Wire.{Parsed, Platform, Lawful}

-- At most as many digits as there is fuel.
unfoldable pub digits : ℕ → ℕ → Bytes
digits zero n = []
digits (suc f) n =
    let more = digits f (n / 10) in
    if ltb n 10 then (b'0' + n) ∷ [] else more ++ (b'0' + n % 10) ∷ []

is_digit : ℕ → Bool
is_digit c = leb b'0' c && leb c b'9'

unfoldable pub read_digits : ℕ → Bool → Bytes → Parsed
unfolding is_digit
read_digits value moved [] = record { value = value; rest = []; moved = moved; erange = false }
read_digits value moved (c ∷ cs) =
    let more = read_digits (value * 10 + (c - b'0')) true cs in
    if is_digit c
    then more
    else record { value = value; rest = c ∷ cs; moved = moved; erange = false }

fuel_left : (f n : ℕ) → 10 ≤ n → n < 10 ^ f * 10 → 0 < f
fuel_left zero n h l = absurd (omega arith)
fuel_left (suc f) n h l = omega arith

read_last :
    (v d : ℕ) (rest : Bytes)
    → d < 10
    → read_digits v true ((b'0' + d) ∷ rest) ≡ read_digits (v * 10 + d) true rest
unfolding read_digits
read_last v d rest h = let e : b'0' + d - b'0' ≡ d = omega arith in rw e (ground arith)

IsText-append : (xs ys : Bytes) → IsText xs → IsText ys → IsText (xs ++ ys)
IsText-append [] ys hx hy = hy
IsText-append (x ∷ xs) ys hx hy = (hx.0, IsText-append xs ys hx.1 hy)

read_digits-digits :
    (f n : ℕ) (rest : Bytes)
    → 0 < f
    → n < 10 ^ f
    → read_digits 0 false (digits f n ++ rest) ≡ read_digits n true rest
unfolding digits read_digits
read_digits-digits zero n rest p h = absurd (omega arith)
read_digits-digits (suc f) n rest p h = elim (Bool-cases (ltb n 10)) [
  | inl small ↦ rw small (ground arith)
  | inr big ↦
      let e : 10 ^ suc f ≡ 10 ^ f * 10 = pow-suc 10 f in
      let d = b'0' + n % 10 in
      rw big (
        ap (read_digits 0 false) (append_assoc (digits f (n / 10)) (d ∷ []) rest)
        ∙ read_digits-digits f (n / 10) (d ∷ rest) (fuel_left f n (ground arith) (omega arith))
            (omega arith)
        ∙ read_last (n / 10) (n % 10) rest (omega arith)
        ∙ ap (λ (k : ℕ). read_digits k true rest) (omega arith))
]

digits-IsText : (f n : ℕ) → IsText (digits f n)
unfolding digits
digits-IsText zero n = tt
digits-IsText (suc f) n = elim (Bool-cases (ltb n 10)) [
  | inl small ↦ rw small ((λ e. omega arith), tt)
  | inr big ↦ rw big (
      IsText-append (digits f (n / 10)) ((b'0' + n % 10) ∷ []) (digits-IsText f (n / 10))
        ((λ e. omega arith), tt))
]

-- `uint64_t` numbers have at most 20 digits.
abbrev pub decimal : Platform
decimal = record {
  show_uint = digits 20;
  strtoull = read_digits 0 false;
  safe_uadd = λ a b. if ltb (a + b) (2 ^ 64) then some (a + b) else none;
  utf8_validate = λ s. true;
}

read_equals :
    (n : ℕ) (rest : Bytes)
    → read_digits n true (b'=' ∷ rest)
      ≡ record { value = n; rest = b'=' ∷ rest; moved = true; erange = false }
unfolding read_digits
read_equals n rest = refl

pub decimal-Lawful : Lawful decimal
decimal-Lawful = record {
  shown_text = λ n. digits-IsText 20 n;
  read_shown = λ n rest h.
      read_digits-digits 20 n (b'=' ∷ rest) (omega arith) (omega arith) ∙ read_equals n rest;
  checked_add = λ a b. refl;
}
