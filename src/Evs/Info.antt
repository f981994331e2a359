-- ===== src/Evs/Info.antt =====
-- `evs_on_info_copy`, `evs_on_info_free` and `evs_client_off` of src/evs.c: what an application
-- may keep of a subscription that it answers later, and what it hears of its end.
pub mod Held
pub mod Examples
use quick_io.Common.{ℕ, ◌+◌, ◌-◌, ◌==◌, Bool, if◌then◌else◌, Option, none, some, Bytes}
use quick_io.Query.{Event}
use quick_io.Sub.{Sub, Store, sub_ref, sub_unref, ◌>>=◌}

-- `struct evs_on_info`, with the addresses of the subscription and the client.
pub record OnInfo : Type 0 where
  pub ev_extra : Option Bytes
  pub json : Option Bytes
  pub sub : ℕ
  pub client : ℕ
  pub client_cb : ℕ

-- The references to the clients, which quick-event counts, and the subscriptions.
pub record Memory : Type 0 where
  pub clients : ℕ → ℕ
  pub store : Store

abbrev pub change_refs : (ℕ → ℕ) → ℕ → (ℕ → ℕ) → ℕ → ℕ
change_refs refs p f q = if q == p then f (refs q) else refs q

-- A string is copied only where the caller asks for it.
abbrev pub only_with : Bool → Option Bytes → Option Bytes
only_with b s = if b then s else none

-- `none` is an access to a subscription that was freed.
unfoldable pub evs_on_info_copy : Memory → OnInfo → Bool → Bool → Option (Memory × OnInfo)
unfolding sub_ref
evs_on_info_copy m info with_ev_extra with_json = do
  store ← sub_ref m.store info.sub
  some (
    record { clients = change_refs m.clients info.client (λ n. n + 1); store = store },
    record info {
      ev_extra = only_with with_ev_extra info.ev_extra;
      json = only_with with_json info.json;
    },
  )

unfoldable pub evs_on_info_free : Memory → OnInfo → Option Memory
unfolding sub_unref
evs_on_info_free m info = do
  store ← sub_unref m.store info.sub
  some (record { clients = change_refs m.clients info.client (λ n. n - 1); store = store })

-- `off_fn` is what the function of the event does to the application's state.
unfoldable pub evs_client_off {ℓ} : {S : Type ℓ} → (ℕ → S → ℕ → Bytes → S) → S → ℕ → Event → Sub → S
evs_client_off off_fn state client ev sub = elim ev.off_fn [
  | none ↦ state
  | some f ↦ off_fn f state client sub.ev_extra
]
