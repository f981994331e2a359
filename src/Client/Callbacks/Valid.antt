-- ===== src/Client/Callbacks/Valid.antt =====
-- `client_cb_prune` and the first half of `client_cb_fire` (src/client.c) keep a valid state.
use quick_io.Common.{
  ℕ, zero, suc, ◌+◌, ◌<◌, ◌≤◌, ◌≡◌, refl, leb, ◌==◌, if◌then◌else◌, Bool-cases, inl, inr, Option,
  none, some, arith,
}
use quick_io.Common.Int.{ℤ, ltb_ℤ}
use quick_io.Client.Callbacks.Fire.{IsValid, cb_free-IsValid, cb_remove-IsValid}
use quick_io.Client.Callbacks.{
  ClientCb, Callbacks, slot, cbs_len, key_slot, key_id, has_id, cb_remove, take_cb, prune_slot,
  prune_from, client_cb_prune,
}

remove_hit-IsValid :
    (c : Callbacks) (key : ℕ) (o : Option ClientCb)
    → slot c.cbs (key_slot key) ≡ o
    → key_slot key < 4
    → IsValid c
    → let r : Callbacks × Option ClientCb =
        if has_id o (key_id key) then (cb_remove c (key_slot key), o) else (c, none) in
      IsValid r.0
unfolding has_id
remove_hit-IsValid c key none e h v = v
remove_hit-IsValid c key (some cb) e h v = elim (Bool-cases (cb.id == key_id key)) [
  | inl hit ↦ rw hit (cb_remove-IsValid c (key_slot key) cb v h e).0
  | inr miss ↦ rw miss v
]

pub take_cb-IsValid : (c : Callbacks) (key : ℕ) → IsValid c → IsValid (take_cb c key).0
unfolding take_cb
take_cb-IsValid c key v = elim (Bool-cases (leb cbs_len (key_slot key))) [
  | inl big ↦ rw big v
  | inr small ↦
      rw small (remove_hit-IsValid c key (slot c.cbs (key_slot key)) refl (ground arith) v)
]

prune_slot-IsValid :
    (c : Callbacks) (o : Option ClientCb) (i : ℕ) (before : ℤ)
    → slot c.cbs i ≡ o
    → i < 4
    → IsValid c
    → IsValid (prune_slot c o i before)
unfolding prune_slot
prune_slot-IsValid c none i before e h v = v
prune_slot-IsValid c (some cb) i before e h v = elim (Bool-cases (ltb_ℤ cb.created before)) [
  | inl old ↦ rw old (cb_free-IsValid c i cb v h e).0
  | inr young ↦ rw young v
]

prune_from-IsValid :
    (n : ℕ) (c : Callbacks) (i : ℕ) (before : ℤ)
    → i + n ≤ 4
    → IsValid c
    → IsValid (prune_from n c i before)
unfolding prune_from
prune_from-IsValid zero c i before h v = v
prune_from-IsValid (suc n) c i before h v =
    prune_from-IsValid n (prune_slot c (slot c.cbs i) i before) (suc i) before (omega arith)
      (prune_slot-IsValid c (slot c.cbs i) i before refl (omega arith) v)

pub client_cb_prune-IsValid :
    (c : Callbacks) (before : ℤ) → IsValid c → IsValid (client_cb_prune c before)
unfolding client_cb_prune
client_cb_prune-IsValid c before v = prune_from-IsValid cbs_len c 0 before (omega arith) v
