-- ===== src/Client/Callbacks.antt =====
-- The callbacks of a client: `cbs` and `cbs_id` of `struct client`, and `client_cb_*` of src/client.c.
pub mod Slots
pub mod Fire
pub mod Owned
pub mod Sweep
pub mod Valid
pub mod Examples
use quick_io.Common.{
  ℕ, zero, suc, ◌+◌, ◌-◌, ◌*◌, ◌/◌, ◌%◌, ◌^◌, Bool, true, false, ◌&&◌, ◌==◌, ltb, leb,
  if◌then◌else◌, List, [], ◌∷◌, Option, none, some,
}
use quick_io.Common.Int.{ℤ, ltb_ℤ, ◌-ℤ◌, pos}

-- `struct client_cb`. Functions and data are pointers, so numbers, with `none` for NULL.
pub record ClientCb : Type 0 where
  pub id : ℕ
  pub cb_fn : ℕ
  pub cb_data : Option ℕ
  pub free_fn : Option ℕ
  pub created : ℤ

-- The slots, and beside them the calls `free_fn(cb_data)` made so far, newest first, and this
-- client's part of the counter `callbacks.total`.
pub record Callbacks : Type 0 where
  pub cbs : List (Option ClientCb)
  pub cbs_id : ℕ
  pub freed : List (ℕ × ℕ)
  pub total : ℕ

-- `G_N_ELEMENTS(client->cbs)`
abbrev pub cbs_len : ℕ
cbs_len = 4

unfoldable pub no_callbacks : Callbacks
no_callbacks = record { cbs = none ∷ none ∷ none ∷ none ∷ []; cbs_id = 0; freed = []; total = 0 }

-- `_cb_data_free`
abbrev pub cb_data_free : Option ℕ → Option ℕ → List (ℕ × ℕ) → List (ℕ × ℕ)
cb_data_free (some d) (some f) freed = (f, d) ∷ freed
cb_data_free (some d) none freed = freed
cb_data_free none free_fn freed = freed

abbrev pub slot : List (Option ClientCb) → ℕ → Option ClientCb
slot [] i = none
slot (x ∷ xs) zero = x
slot (x ∷ xs) (suc i) = slot xs i

abbrev pub set_slot : List (Option ClientCb) → ℕ → Option ClientCb → List (Option ClientCb)
set_slot [] i v = []
set_slot (x ∷ xs) zero v = v ∷ xs
set_slot (x ∷ xs) (suc i) v = x ∷ set_slot xs i v

-- `_cb_remove`
pub cb_remove : Callbacks → ℕ → Callbacks
cb_remove c i = record c { cbs = set_slot c.cbs i none; total = c.total - 1 }

abbrev pub free_held : Option ClientCb → List (ℕ × ℕ) → List (ℕ × ℕ)
free_held none freed = freed
free_held (some cb) freed = cb_data_free cb.cb_data cb.free_fn freed

-- `_cb_free`, called where the slot is not NULL.
pub cb_free : Callbacks → ℕ → Callbacks
unfolding cb_remove
cb_free c i = cb_remove (record c { freed = free_held (slot c.cbs i) c.freed }) i

-- The first `for` loop of `client_cb_new`: the first free slot, or how many slots there are.
pub free_slot : List (Option ClientCb) → ℕ
free_slot [] = 0
free_slot (none ∷ xs) = 0
free_slot (some cb ∷ xs) = suc (free_slot xs)

-- The slot to fill; if all are taken, the one that `g_random_int_range` gave is freed.
pub make_room : Callbacks → ℕ → Callbacks × ℕ
unfolding free_slot cb_free
make_room c random =
    if free_slot c.cbs == cbs_len then (cb_free c random, random) else (c, free_slot c.cbs)

-- `cbs_id++` on a `guint16`, then `MAX(1, cbs_id)`.
pub next_id : ℕ → ℕ
next_id id = if (id + 1) % 2 ^ 16 == 0 then 1 else (id + 1) % 2 ^ 16

abbrev pub evs_no_callback : ℕ
evs_no_callback = 0

-- `(i << 16) | cb.id`; the id has 16 bits, so the sum has the same bits.
abbrev pub cb_key : ℕ → ℕ → ℕ
cb_key i id = i * 2 ^ 16 + id

pub install : Callbacks × ℕ → ℕ → Option ℕ → Option ℕ → ℤ → Callbacks × ℕ
unfolding next_id
install (c, i) cb_fn cb_data free_fn now = (
  record c {
    cbs = set_slot c.cbs i (
        some (record {
          id = next_id c.cbs_id;
          cb_fn = cb_fn;
          cb_data = cb_data;
          free_fn = free_fn;
          created = now;
        }));
    cbs_id = next_id c.cbs_id;
    total = c.total + 1;
  },
  cb_key i (next_id c.cbs_id),
)

-- `random` is what `g_random_int_range(0, 4)` would return, `now` is `qev_monotonic`.
unfoldable pub client_cb_new : Callbacks → Option ℕ → Option ℕ → Option ℕ → ℕ → ℤ → Callbacks × ℕ
unfolding make_room install
client_cb_new c none cb_data free_fn random now =
    (record c { freed = cb_data_free cb_data free_fn c.freed }, evs_no_callback)
client_cb_new c (some cb_fn) cb_data free_fn random now =
    install (make_room c random) cb_fn cb_data free_fn now

-- `guint16 slot = server_cb >> 16` and `guint16 id = server_cb & 0xffff`.
abbrev pub key_slot : ℕ → ℕ
key_slot server_cb = server_cb / 2 ^ 16 % 2 ^ 16

abbrev pub key_id : ℕ → ℕ
key_id server_cb = server_cb % 2 ^ 16

has_id : Option ClientCb → ℕ → Bool
has_id none id = false
has_id (some cb) id = cb.id == id

-- The part of `client_cb_fire` under the lock: the callback that the key names is taken out.
unfoldable pub take_cb : Callbacks → ℕ → Callbacks × Option ClientCb
unfolding has_id cb_remove
take_cb c server_cb =
    if leb cbs_len (key_slot server_cb)
    then (c, none)
    else if has_id (slot c.cbs (key_slot server_cb)) (key_id server_cb)
    then (cb_remove c (key_slot server_cb), slot c.cbs (key_slot server_cb))
    else (c, none)

-- `enum evs_status`
pub data EvsStatus : Type 0 where
  evs_status_ok evs_status_err evs_status_handled : EvsStatus

-- What `client_cb_fire` returns, and whether it sent `CODE_NOT_FOUND` back.
pub record Fired : Type 0 where
  pub client : Callbacks
  pub status : EvsStatus
  pub not_found : Bool

finish_fire : (ClientCb → Callbacks → EvsStatus × Callbacks) → Callbacks × Option ClientCb → Fired
finish_fire call (c, none) = record { client = c; status = evs_status_handled; not_found = true }
finish_fire call (c, some cb) =
    let (status, c') = call cb c in
    record {
      client = record c' { freed = cb_data_free cb.cb_data cb.free_fn c'.freed };
      status = status;
      not_found = false;
    }

-- `call` is the application's function; it may make callbacks of its own on the client.
unfoldable pub client_cb_fire :
    (ClientCb → Callbacks → EvsStatus × Callbacks) → Callbacks → ℕ → Fired
unfolding take_cb finish_fire
client_cb_fire call c server_cb = finish_fire call (take_cb c server_cb)

prune_slot : Callbacks → Option ClientCb → ℕ → ℤ → Callbacks
unfolding cb_free
prune_slot c none i before = c
prune_slot c (some cb) i before = if ltb_ℤ cb.created before then cb_free c i else c

-- A `for` loop over the slots that frees those which `choose` picks; `n` rounds are left.
prune_from : ℕ → Callbacks → ℕ → ℤ → Callbacks
unfolding prune_slot
prune_from zero c i before = c
prune_from (suc n) c i before = prune_from n (prune_slot c (slot c.cbs i) i before) (suc i) before

unfoldable pub client_cb_prune : Callbacks → ℤ → Callbacks
unfolding prune_from
client_cb_prune c before = prune_from cbs_len c 0 before

-- `qev_monotonic - QEV_SEC_TO_USEC(cfg_clients_cb_max_age)`
unfoldable pub client_cb_prune_get_before : ℤ → ℕ → ℤ
client_cb_prune_get_before monotonic max_age = monotonic -ℤ pos (max_age * 1_000_000)

free_slot_at : Callbacks → Option ClientCb → ℕ → Callbacks
unfolding cb_free
free_slot_at c none i = c
free_slot_at c (some cb) i = cb_free c i

free_from : ℕ → Callbacks → ℕ → Callbacks
unfolding free_slot_at
free_from zero c i = c
free_from (suc n) c i = free_from n (free_slot_at c (slot c.cbs i) i) (suc i)

-- The callbacks' part of `client_free_all`.
unfoldable pub client_free_cbs : Callbacks → Callbacks
unfolding free_from
client_free_cbs c = free_from cbs_len c 0
