-- ===== src/Client/Callbacks/Owned.antt =====
-- The data that callbacks carry (src/client.c): `free_fn` is called once for each registration,
-- whether the callback was never made, fired, evicted, pruned or freed with its client.
use quick_io.Common.{
  ℕ, zero, suc, ◌+◌, ◌<◌, ◌≡◌, inl, inr, refl, ap, ◌∙◌, ◌&&◌, ◌==◌, leb, if◌then◌else◌, List, [],
  ◌∷◌, Option, none, some, length, Bool-cases, arith,
}
use quick_io.Common.Int.{ℤ}
use quick_io.Client.Callbacks.Fire.{IsValid, stored, client_cb_new-install, make_room-Room, Room}
use quick_io.Client.Callbacks.{
  ClientCb, Callbacks, EvsStatus, cb_data_free, free_held, slot, set_slot, free_slot, make_room,
  install, client_cb_new, take_cb, finish_fire, client_cb_fire, cb_free, cb_remove, cbs_len, has_id,
  key_slot, key_id,
}

-- How many calls of `f` on `d` are still owed for a callback with this data.
abbrev pub due : Option ℕ → Option ℕ → ℕ × ℕ → ℕ
due (some d) (some f) (g, e) = if f == g && d == e then 1 else 0
due (some d) none p = 0
due none free_fn p = 0

abbrev pub due_in : Option ClientCb → ℕ × ℕ → ℕ
due_in none p = 0
due_in (some cb) p = due cb.cb_data cb.free_fn p

abbrev pub count : ℕ × ℕ → List (ℕ × ℕ) → ℕ
count p [] = 0
count (g, e) ((f, d) ∷ xs) = (if f == g && d == e then 1 else 0) + count (g, e) xs

abbrev pub held : ℕ × ℕ → List (Option ClientCb) → ℕ
held p [] = 0
held p (x ∷ xs) = due_in x p + held p xs

-- The calls of `f` on `d` that were made and those that are owed.
abbrev pub owed : ℕ × ℕ → Callbacks → ℕ
owed p c = count p c.freed + held p c.cbs

pub count-cb_data_free :
    (p : ℕ × ℕ) (d f : Option ℕ) (freed : List (ℕ × ℕ))
    → count p (cb_data_free d f freed) ≡ due d f p + count p freed
count-cb_data_free p none f freed = omega arith
count-cb_data_free p (some d) none freed = omega arith
count-cb_data_free (g, e) (some d) (some f) freed = refl

count-free_held :
    (p : ℕ × ℕ) (x : Option ClientCb) (freed : List (ℕ × ℕ))
    → count p (free_held x freed) ≡ due_in x p + count p freed
count-free_held p none freed = omega arith
count-free_held p (some cb) freed = count-cb_data_free p cb.cb_data cb.free_fn freed

held-set_slot :
    (p : ℕ × ℕ) (xs : List (Option ClientCb)) (i : ℕ) (v : Option ClientCb)
    → i < length xs
    → held p (set_slot xs i v) + due_in (slot xs i) p ≡ held p xs + due_in v p
held-set_slot p [] i v h = absurd (omega arith)
held-set_slot p (x ∷ xs) zero v h = omega arith
held-set_slot p (x ∷ xs) (suc i) v h = omega (arith, held-set_slot p xs i v)

pub cb_free-owed :
    (p : ℕ × ℕ) (c : Callbacks) (i : ℕ) → i < length c.cbs → owed p (cb_free c i) ≡ owed p c
unfolding cb_free cb_remove
cb_free-owed p c i h =
    omega (arith, held-set_slot p c.cbs i none h, count-free_held p (slot c.cbs i) c.freed)

make_room-owed :
    (p : ℕ × ℕ) (c : Callbacks) (random : ℕ)
    → random < length c.cbs
    → owed p (make_room c random).0 ≡ owed p c
unfolding make_room
make_room-owed p c random h = elim (Bool-cases (free_slot c.cbs == cbs_len)) [
  | inl full ↦ rw full (cb_free-owed p c random h)
  | inr free ↦ rw free
]

install-owed :
    (p : ℕ × ℕ) (c : Callbacks) (i f : ℕ) (cb_data free_fn : Option ℕ) (now : ℤ)
    → Room (c, i)
    → owed p (install (c, i) f cb_data free_fn now).0 ≡ owed p c + due cb_data free_fn p
unfolding install
install-owed p c i f cb_data free_fn now r =
    let v : Option ClientCb = some (stored c.cbs_id f cb_data free_fn now) in
    let lt = r.in_range in
    let slots = r.valid.slots in
    omega (
      arith,
      held-set_slot p c.cbs i v (omega arith),
      ap (λ (o : Option ClientCb). due_in o p) r.vacant,
    )

-- In a valid state, a registration adds one call of its `free_fn` on its data to what is made or owed, also where
-- it evicts another callback or registers none.
pub client_cb_new-owed :
    (p : ℕ × ℕ) (c : Callbacks) (cb_fn cb_data free_fn : Option ℕ) (random : ℕ) (now : ℤ)
    → IsValid c
    → random < 4
    → owed p (client_cb_new c cb_fn cb_data free_fn random now).0 ≡ owed p c + due cb_data free_fn p
client_cb_new-owed p c none cb_data free_fn random now v h =
    unfold client_cb_new in omega (arith, count-cb_data_free p cb_data free_fn c.freed)
client_cb_new-owed p c (some f) cb_data free_fn random now v h =
    let r = make_room c random in
    let slots = v.slots in
    rw client_cb_new-install (
      install-owed p r.0 r.1 f cb_data free_fn now (make_room-Room c random v h)
      ∙ ap (λ (n : ℕ). n + due cb_data free_fn p) (make_room-owed p c random (omega arith)))

-- What `client_cb_fire` does with the slot it takes from: the data leaves the slot, and is freed
-- when the application's function has returned.
finish_fire-owed :
    (call : ClientCb → Callbacks → EvsStatus × Callbacks) (p : ℕ × ℕ) (c : Callbacks)
    (o : Option ClientCb)
    → ((cb : ClientCb) (d : Callbacks) → owed p (call cb d).1 ≡ owed p d)
    → owed p (finish_fire call (c, o)).client ≡ owed p c + due_in o p
unfolding finish_fire
finish_fire-owed call p c none h = omega arith
finish_fire-owed call p c (some cb) h =
    omega (arith, h cb c, count-cb_data_free p cb.cb_data cb.free_fn (call cb c).1.freed)

pub take_cb-owed :
    (p : ℕ × ℕ) (c : Callbacks) (key : ℕ)
    → length c.cbs ≡ 4
    → owed p (take_cb c key).0 + due_in (take_cb c key).1 p ≡ owed p c
unfolding take_cb cb_remove
take_cb-owed p c key l = elim (Bool-cases (leb cbs_len (key_slot key))) [
  | inl big ↦ rw big (omega arith)
  | inr small ↦ elim (Bool-cases (has_id (slot c.cbs (key_slot key)) (key_id key))) [
    | inl hit ↦
        let lt : key_slot key < length c.cbs = ground arith in
        rw (small, hit) (omega (arith, held-set_slot p c.cbs (key_slot key) none lt))
    | inr miss ↦ rw (small, miss) (omega arith)
  ]
]

client_cb_fire_lem :
    (call : ClientCb → Callbacks → EvsStatus × Callbacks) (c : Callbacks) (key : ℕ)
    → client_cb_fire call c key ≡ finish_fire call ((take_cb c key).0, (take_cb c key).1)
unfolding client_cb_fire
client_cb_fire_lem call c key = refl

-- In a valid state, firing a key, live or not, changes nothing in what is made or owed, if the function that is
-- called keeps it.
client_cb_fire-owed :
    (call : ClientCb → Callbacks → EvsStatus × Callbacks) (p : ℕ × ℕ) (c : Callbacks) (key : ℕ)
    → IsValid c
    → ((cb : ClientCb) (d : Callbacks) → owed p (call cb d).1 ≡ owed p d)
    → owed p (client_cb_fire call c key).client ≡ owed p c
client_cb_fire-owed call p c key v h =
    rw client_cb_fire_lem
      (finish_fire-owed call p (take_cb c key).0 (take_cb c key).1 h ∙ take_cb-owed p c key v.slots)
