-- ===== src/Client/Callbacks/Fire.antt =====
-- `client_cb_new` and `client_cb_fire` of src/client.c together.
use mathlib.Core.Path.{subst₂}
use quick_io.Common.{
  ℕ, ◌^◌, ◌<◌, ◌≡◌, inl, inr, refl, sym, ap, ◌==◌, Option, none, some, length, Bool-cases, arith,
}
use quick_io.Common.Int.{ℤ}
use quick_io.Client.Callbacks.Slots.{
  taken, free_slot-le, slot-set_slot, length-set_slot, taken-set_slot, slot-free_slot,
  slot-lt_free_slot,
}
use quick_io.Client.Callbacks.{
  ClientCb, Callbacks, slot, free_slot, make_room, next_id, install, client_cb_new, take_cb, cb_key,
  key_slot, key_id, cb_free, cb_remove, free_held, cbs_len, has_id, evs_no_callback,
}

-- There are four slots, the counter has 16 bits, and `total` counts the taken slots.
pub record IsValid (c : Callbacks) : Type 0 where
  pub slots : length c.cbs ≡ 4
  pub id_fits : c.cbs_id < 2 ^ 16
  pub counted : c.total ≡ taken c.cbs

next_id_bounds : (id : ℕ) → (0 < next_id id) × (next_id id < 2 ^ 16)
unfolding next_id
next_id_bounds id = ground arith

-- Taking a callback out of a slot that holds one.
pub cb_remove-IsValid :
    (c : Callbacks) (i : ℕ) (cb : ClientCb)
    → IsValid c
    → i < 4
    → slot c.cbs i ≡ some cb
    → IsValid (cb_remove c i) × (slot (cb_remove c i).cbs i ≡ none)
unfolding cb_remove
cb_remove-IsValid c i cb v h e = (
  record {
    slots = omega (arith, length-set_slot c.cbs i none, v.slots);
    id_fits = v.id_fits;
    counted = ground (arith, taken-set_slot c.cbs i none);
  },
  slot-set_slot c.cbs i none (omega (arith, v.slots)),
)

pub cb_free-IsValid :
    (c : Callbacks) (i : ℕ) (cb : ClientCb)
    → IsValid c
    → i < 4
    → slot c.cbs i ≡ some cb
    → IsValid (cb_free c i) × (slot (cb_free c i).cbs i ≡ none)
unfolding cb_free
cb_free-IsValid c i cb v h e =
    cb_remove-IsValid (record c { freed = free_held (slot c.cbs i) c.freed }) i cb
      (record { slots = v.slots; id_fits = v.id_fits; counted = v.counted }) h e

-- A slot that is ready to be filled.
pub record Room (r : Callbacks × ℕ) : Type 0 where
  pub in_range : r.1 < 4
  pub vacant : slot r.0.cbs r.1 ≡ none
  pub valid : IsValid r.0

pub make_room-Room :
    (c : Callbacks) (random : ℕ) → IsValid c → random < 4 → Room (make_room c random)
unfolding make_room
make_room-Room c random v h = elim (Bool-cases (free_slot c.cbs == cbs_len)) [
  | inl full ↦
      let (cb, e) = slot-lt_free_slot c.cbs random (ground arith) in
      let (v', gone) = cb_free-IsValid c random cb v h e in
      rw full (record { in_range = h; vacant = gone; valid = v' })
  | inr free ↦ rw free (record {
    in_range = ground (arith, free_slot-le c.cbs);
    vacant = slot-free_slot c.cbs;
    valid = v;
  })
]

-- What a call of `client_cb_new` with a function stores, after the id `cbs_id`.
abbrev pub stored : ℕ → ℕ → Option ℕ → Option ℕ → ℤ → ClientCb
stored cbs_id cb_fn cb_data free_fn now = record {
  id = next_id cbs_id;
  cb_fn = cb_fn;
  cb_data = cb_data;
  free_fn = free_fn;
  created = now;
}

key_slot-cb_key : (i id : ℕ) → i < 4 → id < 2 ^ 16 → key_slot (cb_key i id) ≡ i
key_slot-cb_key i id h k = omega arith

key_id-cb_key : (i id : ℕ) → id < 2 ^ 16 → key_id (cb_key i id) ≡ id
key_id-cb_key i id k = omega arith

take_cb-hit :
    (c : Callbacks) (i : ℕ) (cb : ClientCb)
    → i < 4
    → cb.id < 2 ^ 16
    → slot c.cbs i ≡ some cb
    → take_cb c (cb_key i cb.id) ≡ (cb_remove c i, some cb)
unfolding take_cb has_id
take_cb-hit c i cb h k e =
    rw (key_slot-cb_key i cb.id h k, key_id-cb_key i cb.id k, e) (ground arith)

take_cb_vacant :
    (c : Callbacks) (i id : ℕ)
    → i < 4
    → id < 2 ^ 16
    → slot c.cbs i ≡ none
    → take_cb c (cb_key i id) ≡ (c, none)
unfolding take_cb has_id
take_cb_vacant c i id h k e = rw (key_slot-cb_key i id h k, key_id-cb_key i id k, e) (ground arith)

install-IsValid :
    (c : Callbacks) (i cb_fn : ℕ) (cb_data free_fn : Option ℕ) (now : ℤ)
    → Room (c, i)
    → let r = install (c, i) cb_fn cb_data free_fn now in
      IsValid r.0 × (slot r.0.cbs i ≡ some (stored c.cbs_id cb_fn cb_data free_fn now))
unfolding install
install-IsValid c i cb_fn cb_data free_fn now r =
    let v : Option ClientCb = some (stored c.cbs_id cb_fn cb_data free_fn now) in
    let small = r.in_range in
    let slots = r.valid.slots in
    (
      record {
        slots = omega (arith, length-set_slot c.cbs i v);
        id_fits = omega (arith, next_id_bounds c.cbs_id);
        counted = ground (arith, taken-set_slot c.cbs i v, r.valid, r.vacant);
      },
      slot-set_slot c.cbs i v (omega arith),
    )

pub client_cb_new-IsValid :
    (c : Callbacks) (cb_fn cb_data free_fn : Option ℕ) (random : ℕ) (now : ℤ)
    → IsValid c
    → random < 4
    → IsValid (client_cb_new c cb_fn cb_data free_fn random now).0
unfolding client_cb_new
client_cb_new-IsValid c none cb_data free_fn random now v h = record {
  slots = v.slots;
  id_fits = v.id_fits;
  counted = v.counted;
}
client_cb_new-IsValid c (some f) cb_data free_fn random now v h =
    let r = make_room c random in
    (install-IsValid r.0 r.1 f cb_data free_fn now (make_room-Room c random v h)).0

make_room-cbs_id : (c : Callbacks) (random : ℕ) → (make_room c random).0.cbs_id ≡ c.cbs_id
unfolding make_room cb_free cb_remove
make_room-cbs_id c random = elim (Bool-cases (free_slot c.cbs == cbs_len)) [
  | inl full ↦ rw full
  | inr free ↦ rw free
]

-- The key names what was stored; once taken, the slot is empty.
abbrev pub TakesOnce : Callbacks × ℕ → ClientCb → Type 0
TakesOnce made cb =
    (evs_no_callback < made.1)
    × (c' : Callbacks) × (take_cb made.0 made.1 ≡ (c', some cb))
    × IsValid c'
    × (take_cb c' made.1 ≡ (c', none))

install-TakesOnce :
    (c : Callbacks) (i cb_fn : ℕ) (cb_data free_fn : Option ℕ) (now : ℤ)
    → Room (c, i)
    → TakesOnce
        (install (c, i) cb_fn cb_data free_fn now)
        (stored c.cbs_id cb_fn cb_data free_fn now)
install-TakesOnce c i cb_fn cb_data free_fn now r =
    let cb = stored c.cbs_id cb_fn cb_data free_fn now in
    let bounds = next_id_bounds c.cbs_id in
    let c' = (install (c, i) cb_fn cb_data free_fn now).0 in
    let (v, e) = install-IsValid c i cb_fn cb_data free_fn now r in
    let (v', gone) = cb_remove-IsValid c' i cb v r.in_range e in
    unfold install in
    (
      omega (arith, bounds.0),
      cb_remove c' i,
      take_cb-hit c' i cb r.in_range bounds.1 e,
      v',
      take_cb_vacant (cb_remove c' i) i (next_id c.cbs_id) r.in_range bounds.1 gone,
    )

pub client_cb_new-install :
    (c : Callbacks) (cb_fn : ℕ) (cb_data free_fn : Option ℕ) (random : ℕ) (now : ℤ)
    → client_cb_new c (some cb_fn) cb_data free_fn random now
      ≡ install (make_room c random) cb_fn cb_data free_fn now
unfolding client_cb_new
client_cb_new-install c cb_fn cb_data free_fn random now = refl

-- From a valid state, a key that `client_cb_new` hands out for a function is not 0. Fired, it names exactly the function and the
-- data that were registered, and takes them out, so that a second firing finds nothing.
pub take_cb-client_cb_new :
    (c : Callbacks) (cb_fn : ℕ) (cb_data free_fn : Option ℕ) (random : ℕ) (now : ℤ)
    → IsValid c
    → random < 4
    → TakesOnce
        (client_cb_new c (some cb_fn) cb_data free_fn random now)
        (stored c.cbs_id cb_fn cb_data free_fn now)
take_cb-client_cb_new c cb_fn cb_data free_fn random now v h =
    let r = make_room c random in
    subst₂ TakesOnce (sym (client_cb_new-install c cb_fn cb_data free_fn random now))
      (ap (λ (k : ℕ). stored k cb_fn cb_data free_fn now) (make_room-cbs_id c random))
      (install-TakesOnce r.0 r.1 cb_fn cb_data free_fn now (make_room-Room c random v h))
