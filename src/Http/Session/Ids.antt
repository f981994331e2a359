-- ===== src/Http/Session/Ids.antt =====
-- The ids of sessions as src/protocols_http.c reads them.
use native.Mathlib.Nat.{pow-suc}
use quick_io.Common.{
  ℕ, zero, suc, ◌+◌, ◌-◌, ◌*◌, ◌/◌, ◌%◌, ◌^◌, ◌<◌, ◌≡◌, refl, ◌∙◌, ap, false, if◌then◌else◌, ltb,
  [], ◌∷◌, ◌++◌, some, Bytes, codes, arith,
}
use quick_io.Http.Text.{strstr}
use quick_io.Http.Session.{xdigit_value, read_sid, is_separator, token, cut_token, sid_of, url_sid}

abbrev pub hex_digit : ℕ → ℕ
hex_digit v = if ltb v 10 then b'0' + v else b'a' + v - 10

-- A number of `n` digits in base 16, the lowest first.
abbrev pub hex_digits : ℕ → ℕ → Bytes
hex_digits zero x = []
hex_digits (suc n) x = hex_digit (x % 16) ∷ hex_digits n (x / 16)

xdigit_value-hex_digit : (v : ℕ) → v < 16 → xdigit_value (hex_digit v) ≡ some v
xdigit_value-hex_digit v h = ground arith

pow_of_digits : (n : ℕ) → 2 ^ (suc n * 4) ≡ 2 ^ (n * 4) * 16
pow_of_digits n =
    let k = n * 4 in
    let e : suc n * 4 ≡ suc (suc (suc (suc k))) = omega arith in
    omega (
      arith,
      ap (λ (e : ℕ). 2 ^ e) e,
      pow-suc 2 k,
      pow-suc 2 (suc k),
      pow-suc 2 (suc (suc k)),
      pow-suc 2 (suc (suc (suc k))),
    )

-- One digit, and the digits above it.
scaled :
    (i uuid x : ℕ)
    → uuid + x % 16 * 2 ^ (i * 4) + x / 16 * 2 ^ ((i + 1) * 4) ≡ uuid + x * 2 ^ (i * 4)
scaled i uuid x =
    let e : i + 1 ≡ suc i = omega arith in
    let whole : x ≡ 16 * (x / 16) + x % 16 = omega arith in
    omega (
      arith,
      ap (λ (y : ℕ). y * 2 ^ (i * 4)) whole,
      ap (λ (y : ℕ). x / 16 * y) (ap (λ (e : ℕ). 2 ^ (e * 4)) e ∙ pow_of_digits i),
    )

read_sid-hex_digits :
    (n i uuid x : ℕ) (s : Bytes)
    → x < 2 ^ (n * 4)
    → read_sid n i uuid (hex_digits n x ++ s) ≡ some (uuid + x * 2 ^ (i * 4))
unfolding read_sid
read_sid-hex_digits zero i uuid x s h = ap some (rw (zero_of x h) (omega arith))
  where
    zero_of : (x : ℕ) → x < 2 ^ (0 * 4) → x ≡ 0
    zero_of x h = omega arith
read_sid-hex_digits (suc n) i uuid x s h = rw (xdigit_value-hex_digit (x % 16) (omega arith)) (
    read_sid-hex_digits n (i + 1) (uuid + x % 16 * 2 ^ (i * 4)) (x / 16) s
      (omega (arith, pow_of_digits n))
    ∙ ap some (scaled i uuid x))

-- The digits are no separators, so `strtok` leaves them.
hex_digit_low : (v : ℕ) → v < 16 → is_separator (hex_digit v) ≡ false
hex_digit_low v h = ground arith

token-hex_digits : (n x : ℕ) (s : Bytes) → token (hex_digits n x ++ s) ≡ hex_digits n x ++ token s
token-hex_digits zero x s = refl
token-hex_digits (suc n) x s =
    rw (hex_digit_low (x % 16) (omega arith))
      (ap (λ (t : Bytes). hex_digit (x % 16) ∷ t) (token-hex_digits n (x / 16) s))

cut_token-hex_digits :
    (n x : ℕ) (s : Bytes) → cut_token (hex_digits (suc n) x ++ s) ≡ hex_digits (suc n) x ++ token s
unfolding cut_token
cut_token-hex_digits n x s =
    rw (hex_digit_low (x % 16) (omega arith))
      (ap (λ (t : Bytes). hex_digit (x % 16) ∷ t) (token-hex_digits n (x / 16) s))

-- An id of 128 bits, written as 32 hexadecimal digits from the lowest up, is what is read from a
-- URL in which it follows the first `sid=`, whatever stands behind it.
pub url_sid-hex_digits :
    (url s : Bytes) (sid : ℕ)
    → strstr url (codes "sid=") ≡ some (codes "sid=" ++ (hex_digits 32 sid ++ s))
    → sid < 2 ^ 128
    → url_sid url ≡ some sid
unfolding url_sid sid_of
url_sid-hex_digits url s sid e h = rw e (
    ap (read_sid 32 0 0) (cut_token-hex_digits 31 sid s)
    ∙ read_sid-hex_digits 32 0 0 sid (token s) h
    ∙ ap some (omega arith))
