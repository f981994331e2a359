-- ===== src/Buffer/Laws.antt =====
-- Laws of reads and writes, C strings and big-endian integers.
use native.Mathlib.Nat.{pow-suc}
use quick_io.Common.{
  ℕ, zero, suc, ◌+◌, ◌-◌, ◌*◌, ◌/◌, ◌%◌, ◌^◌, ◌≤◌, ◌<◌, ◌≡◌, ◌≢◌, refl, sym, ap, ◌∙◌, List, [], ◌∷◌,
  ◌++◌, Bytes, All, length, take, drop, length-append, arith,
}
use quick_io.Buffer.{read, write, c_string, from_be, to_be}

module _ {ℓ} {A : Type ℓ} where
  pub take_front : (xs ys : List A) → take (length xs) (xs ++ ys) ≡ xs
  take_front [] ys = refl
  take_front (x ∷ xs) ys = ap (◌∷◌ x) (take_front xs ys)

  pub drop_front : (xs ys : List A) → drop (length xs) (xs ++ ys) ≡ ys
  drop_front [] ys = refl
  drop_front (x ∷ xs) ys = drop_front xs ys

  drop_nil : (n : ℕ) → drop {A = A} n [] ≡ []
  drop_nil zero = refl
  drop_nil (suc n) = refl

  pub drop-add : (n m : ℕ) (xs : List A) → drop (n + m) xs ≡ drop m (drop n xs)
  drop-add zero m xs = let e : zero + m ≡ m = omega arith in rw e
  drop-add (suc n) m [] = drop_nil (suc n + m) ∙ sym (drop_nil m)
  drop-add (suc n) m (x ∷ xs) =
      let e : suc n + m ≡ suc (n + m) = omega arith in rw e (drop-add n m xs)

  pub length-drop : (n : ℕ) (xs : List A) → length (drop n xs) ≡ length xs - n
  length-drop zero xs = omega arith
  length-drop (suc n) [] = omega arith
  length-drop (suc n) (x ∷ xs) = omega (arith, length-drop n xs)

  pub length-take : (n : ℕ) (xs : List A) → n ≤ length xs → length (take n xs) ≡ n
  length-take zero xs h = refl
  length-take (suc n) [] h = absurd (omega arith)
  length-take (suc n) (x ∷ xs) h = omega (arith, length-take n xs)

  pub take-append-drop : (n : ℕ) (xs : List A) → take n xs ++ drop n xs ≡ xs
  take-append-drop zero xs = refl
  take-append-drop (suc n) [] = refl
  take-append-drop (suc n) (x ∷ xs) = ap (◌∷◌ x) (take-append-drop n xs)

-- No byte is NUL.
abbrev pub IsText : Bytes → Type 0
IsText = All (λ c. c ≢ 0)

pub c_string_text : (s : Bytes) → IsText s → c_string s ≡ s
unfolding c_string
c_string_text [] h = refl
c_string_text (c ∷ cs) h = ground (arith, c_string_text cs h.1, h.0)

-- A NUL that is written behind a text ends it, whatever stands there.
pub c_string_ends : (s rest : Bytes) → IsText s → c_string (s ++ 0 ∷ rest) ≡ s
unfolding c_string
c_string_ends [] rest h = refl
c_string_ends (c ∷ cs) rest h = ground (arith, c_string_ends cs rest h.1, h.0)

pub from_be-append :
    (acc b : ℕ) (bs : Bytes) → from_be acc (bs ++ b ∷ []) ≡ from_be acc bs * 256 + b
unfolding from_be
from_be-append acc b [] = refl
from_be-append acc b (c ∷ bs) = from_be-append (acc * 256 + c) b bs

pub length-to_be : (n x : ℕ) → length (to_be n x) ≡ n
unfolding to_be
length-to_be zero x = refl
length-to_be (suc n) x =
    omega (arith, length-append (to_be n (x / 256)) ((x % 256) ∷ []), length-to_be n (x / 256))

-- A number of `n` bytes is read back from its bytes.
pub from_be-to_be : (n x : ℕ) → x < 256 ^ n → from_be 0 (to_be n x) ≡ x
unfolding from_be to_be
from_be-to_be zero x h = omega arith
from_be-to_be (suc n) x h =
    let p : 256 ^ suc n ≡ 256 ^ n * 256 = pow-suc 256 n in
    from_be-append 0 (x % 256) (to_be n (x / 256))
    ∙ omega (arith, from_be-to_be n (x / 256) (omega arith))

-- Reading and overwriting the middle part of a buffer.
pub read_middle :
    (front mid back : Bytes) → read (length front) (length mid) (front ++ (mid ++ back)) ≡ mid
read_middle front mid back = rw (drop_front front (mid ++ back)) (take_front mid back)

pub write_middle :
    (front old new back : Bytes)
    → length old ≡ length new
    → write (length front) new (front ++ (old ++ back)) ≡ front ++ (new ++ back)
write_middle front old new back h = rw (
  take_front front (old ++ back),
  ← h,
  drop-add (length front) (length old) (front ++ (old ++ back)),
  drop_front front (old ++ back),
  drop_front old back,
)
