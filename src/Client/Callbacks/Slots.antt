-- ===== src/Client/Callbacks/Slots.antt =====
-- The four slots for callbacks of a client (src/client.c): reading, writing and searching them.
use quick_io.Common.{
  ℕ, zero, suc, ◌+◌, ◌<◌, ◌≤◌, ◌≡◌, ◌≢◌, refl, List, [], ◌∷◌, Option, none, some, length, arith,
}
use quick_io.Client.Callbacks.{ClientCb, slot, set_slot, free_slot}

-- How many slots are taken.
abbrev pub taken : List (Option ClientCb) → ℕ
taken [] = 0
taken (none ∷ xs) = taken xs
taken (some cb ∷ xs) = suc (taken xs)

pub free_slot-le : (xs : List (Option ClientCb)) → free_slot xs ≤ length xs
unfolding free_slot
free_slot-le [] = omega arith
free_slot-le (none ∷ xs) = omega arith
free_slot-le (some cb ∷ xs) = omega (arith, free_slot-le xs)

pub slot-set_slot :
    (xs : List (Option ClientCb)) (i : ℕ) (v : Option ClientCb)
    → i < length xs
    → slot (set_slot xs i v) i ≡ v
slot-set_slot [] i v h = absurd (omega arith)
slot-set_slot (x ∷ xs) zero v h = refl
slot-set_slot (x ∷ xs) (suc i) v h = slot-set_slot xs i v (omega arith)

pub slot-set_slot_ne :
    (xs : List (Option ClientCb)) (i j : ℕ) (v : Option ClientCb)
    → i ≢ j
    → slot (set_slot xs i v) j ≡ slot xs j
slot-set_slot_ne [] i j v h = refl
slot-set_slot_ne (x ∷ xs) zero zero v h = absurd (h refl)
slot-set_slot_ne (x ∷ xs) zero (suc j) v h = refl
slot-set_slot_ne (x ∷ xs) (suc i) zero v h = refl
slot-set_slot_ne (x ∷ xs) (suc i) (suc j) v h = slot-set_slot_ne xs i j v (λ e. h (omega arith))

pub length-set_slot :
    (xs : List (Option ClientCb)) (i : ℕ) (v : Option ClientCb)
    → length (set_slot xs i v) ≡ length xs
length-set_slot [] i v = refl
length-set_slot (x ∷ xs) zero v = refl
length-set_slot (x ∷ xs) (suc i) v = omega (arith, length-set_slot xs i v)

abbrev one_if_taken : Option ClientCb → ℕ
one_if_taken none = 0
one_if_taken (some cb) = 1

pub taken-set_slot :
    (xs : List (Option ClientCb)) (i : ℕ) (v : Option ClientCb)
    → i < length xs
    → taken (set_slot xs i v) + one_if_taken (slot xs i) ≡ taken xs + one_if_taken v
taken-set_slot [] i v h = absurd (omega arith)
taken-set_slot (none ∷ xs) zero v h = ground arith
taken-set_slot (some cb ∷ xs) zero v h = ground arith
taken-set_slot (none ∷ xs) (suc i) v h = omega (arith, taken-set_slot xs i v)
taken-set_slot (some cb ∷ xs) (suc i) v h = omega (arith, taken-set_slot xs i v)

pub slot-free_slot : (xs : List (Option ClientCb)) → slot xs (free_slot xs) ≡ none
unfolding free_slot
slot-free_slot [] = refl
slot-free_slot (none ∷ xs) = refl
slot-free_slot (some cb ∷ xs) = slot-free_slot xs

pub slot-lt_free_slot :
    (xs : List (Option ClientCb)) (i : ℕ)
    → i < free_slot xs
    → (cb : ClientCb) × (slot xs i ≡ some cb)
unfolding free_slot
slot-lt_free_slot [] i h = absurd (omega arith)
slot-lt_free_slot (none ∷ xs) i h = absurd (omega arith)
slot-lt_free_slot (some cb ∷ xs) zero h = (cb, refl)
slot-lt_free_slot (some cb ∷ xs) (suc i) h = slot-lt_free_slot xs i (omega arith)
