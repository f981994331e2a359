-- ===== src/Client/Callbacks/Sweep.antt =====
-- `client_cb_prune` and the callbacks' part of `client_free_all` (src/client.c): which callbacks
-- they free, and that the others stay.
use native.Mathlib.Decide.{ℕ_discrete}
use quick_io.Common.{
  ℕ, zero, suc, ◌+◌, ◌<◌, ◌≤◌, ◌≡◌, inl, inr, refl, ap, ◌∙◌, ◌&&◌, ◌==◌, ltb, leb, if◌then◌else◌,
  List, [], ◌∷◌, Option, none, some, length, Bool-cases, arith,
}
use quick_io.Common.Int.{ℤ, ltb_ℤ}
use quick_io.Client.Callbacks.Fire.{IsValid}
use quick_io.Client.Callbacks.Slots.{length-set_slot, slot-set_slot, slot-set_slot_ne}
use quick_io.Client.Callbacks.Owned.{owed, cb_free-owed}
use quick_io.Client.Callbacks.{
  ClientCb, Callbacks, slot, cb_free, cb_remove, cbs_len, prune_slot, prune_from, client_cb_prune,
  free_slot_at, free_from, client_free_cbs,
}

-- What is left of a slot after pruning.
abbrev pub fresh : ℤ → Option ClientCb → Option ClientCb
fresh before none = none
fresh before (some cb) = if ltb_ℤ cb.created before then none else some cb

cb_free-slot :
    (c : Callbacks) (i j : ℕ)
    → i < length c.cbs
    → slot (cb_free c i).cbs j ≡ (if i == j then none else slot c.cbs j)
unfolding cb_free cb_remove
cb_free-slot c i j h = ground (arith, slot-set_slot c.cbs i none, slot-set_slot_ne c.cbs i j none)

length-cb_free : (c : Callbacks) (i : ℕ) → length (cb_free c i).cbs ≡ length c.cbs
unfolding cb_free cb_remove
length-cb_free c i = length-set_slot c.cbs i none

prune_slot_lem :
    (c : Callbacks) (o : Option ClientCb) (i : ℕ) (before : ℤ)
    → i < length c.cbs
    → slot c.cbs i ≡ o
    → (length (prune_slot c o i before).cbs ≡ length c.cbs)
      × ((p : ℕ × ℕ) → owed p (prune_slot c o i before) ≡ owed p c)
      × ((j : ℕ)
          → slot (prune_slot c o i before).cbs j
            ≡ (if i == j then fresh before o else slot c.cbs j))
unfolding prune_slot
prune_slot_lem c none i before h e = (refl, (λ p. refl), λ j. ground arith)
prune_slot_lem c (some cb) i before h e = elim (Bool-cases (ltb_ℤ cb.created before)) [
  | inl old ↦ rw old (length-cb_free c i, (λ p. cb_free-owed p c i h), λ j. cb_free-slot c i j h)
  | inr new ↦ rw new (refl, (λ p. refl), λ j. ground arith)
]

-- One round of a sweep, and the rounds from the next slot on.
sweep_range :
    (f : Option ClientCb → Option ClientCb) (xs ys : List (Option ClientCb)) (i n j : ℕ)
    → slot ys j ≡ (if i == j then f (slot xs i) else slot xs j)
    → (if leb (suc i) j && ltb j (suc i + n) then f (slot ys j) else slot ys j)
      ≡ (if leb i j && ltb j (i + suc n) then f (slot xs j) else slot xs j)
sweep_range f xs ys i n j h = elim (ℕ_discrete i j) [
  | yes e ↦ ground (arith, ap (slot xs) e)
  | no ne ↦ ground arith
]

prune_from_lem :
    (n : ℕ) (c : Callbacks) (i : ℕ) (before : ℤ)
    → i + n ≤ length c.cbs
    → ((p : ℕ × ℕ) → owed p (prune_from n c i before) ≡ owed p c)
      × ((j : ℕ)
          → slot (prune_from n c i before).cbs j
            ≡ (if leb i j && ltb j (i + n) then fresh before (slot c.cbs j) else slot c.cbs j))
unfolding prune_from
prune_from_lem zero c i before h = ((λ p. refl), λ j. ground arith)
prune_from_lem (suc n) c i before h =
    let c' = prune_slot c (slot c.cbs i) i before in
    let (l, o, s) = prune_slot_lem c (slot c.cbs i) i before (omega arith) refl in
    let (o', s') = prune_from_lem n c' (suc i) before (omega arith) in
    ((λ p. o' p ∙ o p), λ j. s' j ∙ sweep_range (fresh before) c.cbs c'.cbs i n j (s j))

slot_past : (xs : List (Option ClientCb)) (j : ℕ) → length xs ≤ j → slot xs j ≡ none
slot_past [] j h = refl
slot_past (x ∷ xs) zero h = absurd (omega arith)
slot_past (x ∷ xs) (suc j) h = slot_past xs j (omega arith)

-- Pruning empties exactly the slots whose callback was created before the given time, leaves
-- the others as they are, and loses no call of a `free_fn`.
pub client_cb_prune-slot :
    (c : Callbacks) (before : ℤ) (j : ℕ)
    → IsValid c
    → (slot (client_cb_prune c before).cbs j ≡ fresh before (slot c.cbs j))
      × ((p : ℕ × ℕ) → owed p (client_cb_prune c before) ≡ owed p c)
unfolding client_cb_prune
client_cb_prune-slot c before j v =
    let slots = v.slots in
    let (o, s) = prune_from_lem cbs_len c 0 before (omega arith) in
    (
      s j ∙ elim (Bool-cases (ltb j 4)) [
        | inl lt ↦ ground (arith, lt)
        | inr ge ↦
            let past : slot c.cbs j ≡ none = slot_past c.cbs j (ground arith) in
            ground (arith, past, ge)
      ],
      o,
    )

free_slot_at_lem :
    (c : Callbacks) (o : Option ClientCb) (i : ℕ)
    → i < length c.cbs
    → slot c.cbs i ≡ o
    → (length (free_slot_at c o i).cbs ≡ length c.cbs)
      × ((p : ℕ × ℕ) → owed p (free_slot_at c o i) ≡ owed p c)
      × ((j : ℕ) → slot (free_slot_at c o i).cbs j ≡ (if i == j then none else slot c.cbs j))
unfolding free_slot_at
free_slot_at_lem c none i h e = (refl, (λ p. refl), λ j. ground arith)
free_slot_at_lem c (some cb) i h e =
    (length-cb_free c i, (λ p. cb_free-owed p c i h), λ j. cb_free-slot c i j h)

free_from_lem :
    (n : ℕ) (c : Callbacks) (i : ℕ)
    → i + n ≤ length c.cbs
    → ((p : ℕ × ℕ) → owed p (free_from n c i) ≡ owed p c)
      × ((j : ℕ)
          → slot (free_from n c i).cbs j
            ≡ (if leb i j && ltb j (i + n) then none else slot c.cbs j))
unfolding free_from
free_from_lem zero c i h = ((λ p. refl), λ j. ground arith)
free_from_lem (suc n) c i h =
    let c' = free_slot_at c (slot c.cbs i) i in
    let (l, o, s) = free_slot_at_lem c (slot c.cbs i) i (omega arith) refl in
    let (o', s') = free_from_lem n c' (suc i) (omega arith) in
    ((λ p. o' p ∙ o p), λ j. s' j ∙ sweep_range (λ x. none) c.cbs c'.cbs i n j (s j))

-- When a client is freed, every slot ends empty, and no call of a `free_fn` is lost or made
-- twice.
pub client_free_cbs-slot :
    (c : Callbacks) (j : ℕ)
    → IsValid c
    → (slot (client_free_cbs c).cbs j ≡ none)
      × ((p : ℕ × ℕ) → owed p (client_free_cbs c) ≡ owed p c)
unfolding client_free_cbs
client_free_cbs-slot c j v =
    let slots = v.slots in
    let (o, s) = free_from_lem cbs_len c 0 (omega arith) in
    (
      s j ∙ elim (Bool-cases (ltb j 4)) [
        | inl lt ↦ ground (arith, lt)
        | inr ge ↦
            let past : slot c.cbs j ≡ none = slot_past c.cbs j (ground arith) in
            ground (arith, past, ge)
      ],
      o,
    )
