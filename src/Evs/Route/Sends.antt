-- ===== src/Evs/Route/Sends.antt =====
-- `evs_send_full` of src/evs.c, from the event and its extra to what the client is sent.
use quick_io.Common.{
  ℕ, ◌<◌, ◌≡◌, refl, Bool, true, false, not, ◌&&◌, ◌||◌, ◌⊎◌, inl, inr, Bool-cases, [], ◌∷◌, ◌++◌,
  Option, none, some, Bytes, ◌+◌, arith,
}
use quick_io.Common.Int.{ℤ}
use quick_io.Query.{Event}
use quick_io.Client.Callbacks.{Callbacks, client_cb_new}
use quick_io.Client.Callbacks.Fire.{IsValid, TakesOnce, stored, take_cb-client_cb_new}
use quick_io.Client.Callbacks.Owned.{owed, due, client_cb_new-owed}
use quick_io.Client.Subs.{client_sub_active}
use quick_io.Evs.{Reply, json_or_null, evs_send_sub_full, new_reply}
use quick_io.Evs.Route.{EventClient, has_extra, or_none, send_found, evs_send_full}

-- What `client_sub_active` says of the subscription that `sub_get` found.
abbrev pub active_of : EventClient → Option ℕ → Option Bool
unfolding client_sub_active
active_of x none = none
active_of x (some sub) = some (client_sub_active x.subs sub)

-- Whether the event goes to the client: there is such a subscription, the client has it, and an
-- extra is for events that handle children.
abbrev pub reaches : EventClient → Event → Option Bytes → Option ℕ → Bool
unfolding client_sub_active
reaches x ev ev_extra none = false
reaches x ev ev_extra (some sub) =
    (ev.handle_children || not (has_extra ev_extra)) && client_sub_active x.subs sub

-- The number sent along leads back, once, to the function and its data; it is 0 where there is none.
abbrev pub LeadsBack : ℕ → Option ℕ → Option ℕ → Option ℕ → ℤ → Callbacks × ℕ → Type 0
LeadsBack last none cb_data free_fn now r = r.1 ≡ 0
LeadsBack last (some f) cb_data free_fn now r = TakesOnce r (stored last f cb_data free_fn now)

-- One message more, with a number that leads back to the callback, whose data are taken over.
pub record Sends (x y : EventClient) (ev : Event) (ev_extra json : Option Bytes) (reply : Reply)
    (now : ℤ) : Type 0 where
  pub server_cb : ℕ
  pub says :
      y.sent
      ≡ x.sent
        ++ record {
          ev_path = ev.ev_path;
          ev_extra = or_none ev_extra;
          server_cb = server_cb;
          json = json_or_null json;
        }
          ∷ []
  pub leads_back :
      LeadsBack x.callbacks.cbs_id reply.cb_fn reply.cb_data reply.free_fn now
        (y.callbacks, server_cb)
  pub owes :
      (p : ℕ × ℕ) → owed p y.callbacks ≡ owed p x.callbacks + due reply.cb_data reply.free_fn p
  pub same_subs : y.subs ≡ x.subs

client_cb_new-LeadsBack :
    (c : Callbacks) (cb_fn cb_data free_fn : Option ℕ) (random : ℕ) (now : ℤ)
    → IsValid c
    → random < 4
    → LeadsBack c.cbs_id cb_fn cb_data free_fn now
        (client_cb_new c cb_fn cb_data free_fn random now)
client_cb_new-LeadsBack c none cb_data free_fn random now v lt = (unfold client_cb_new in refl)
client_cb_new-LeadsBack c (some f) cb_data free_fn random now v lt =
    take_cb-client_cb_new c f cb_data free_fn random now v lt

send_found-Sends :
    (x : EventClient) (ev : Event) (ev_extra json : Option Bytes) (reply : Reply) (random : ℕ)
    (now : ℤ)
    → IsValid x.callbacks
    → random < 4
    → Sends x
        (send_found x ev (or_none ev_extra) (some true) json reply random now)
        ev
        ev_extra
        json
        reply
        now
unfolding send_found evs_send_sub_full
send_found-Sends x ev ev_extra json reply random now v lt = record {
  server_cb = (new_reply x.callbacks reply random now).1;
  says = refl;
  leads_back =
      (unfold new_reply in
        client_cb_new-LeadsBack x.callbacks reply.cb_fn reply.cb_data reply.free_fn random now v
          lt);
  owes = λ p.
      (unfold new_reply in
        client_cb_new-owed p x.callbacks reply.cb_fn reply.cb_data reply.free_fn random now v lt);
  same_subs = refl;
}

-- An event goes to a client, in a valid state, exactly where there is a subscription to it, the client
-- has it and it is active, and the extra is empty or the event handles children. Then the client is
-- sent one message, with the path, the extra and the JSON, whose callback number leads back, once,
-- to the application's function and data, and is 0 where there is no function; and the data are
-- taken over: one call of `free_fn` is made or owed. Else nothing is sent and nothing of the client
-- changes, so the data are neither kept nor freed.
pub evs_send_full-Sends :
    (x : EventClient) (ev : Event) (ev_extra json : Option Bytes) (sub : Option ℕ) (reply : Reply)
    (random : ℕ) (now : ℤ)
    → IsValid x.callbacks
    → random < 4
    → let y = evs_send_full x ev ev_extra (active_of x sub) json reply random now in
      ((reaches x ev ev_extra sub ≡ true) × Sends x y ev ev_extra json reply now)
      ⊎ ((reaches x ev ev_extra sub ≡ false) × (y ≡ x))
unfolding evs_send_full reaches
evs_send_full-Sends x ev ev_extra json none reply random now v lt = inr (
  refl,
  elim (Bool-cases (not ev.handle_children && has_extra ev_extra)) [
    | inl refused ↦ rw refused refl
    | inr fits ↦ rw fits (unfold send_found in refl)
  ],
)
evs_send_full-Sends x ev ev_extra json (some sub) reply random now v lt =
    elim (Bool-cases (not ev.handle_children && has_extra ev_extra)) [
      | inl refused ↦ inr (ground (arith, refused), rw refused refl)
      | inr fits ↦ elim (Bool-cases (client_sub_active x.subs sub)) [
        | inl active ↦ inl (
          ground (arith, fits, active),
          rw (fits, active) (send_found-Sends x ev ev_extra json reply random now v lt),
        )
        | inr idle ↦ inr (
          ground (arith, fits, idle),
          rw (fits, idle) (unfold send_found evs_send_sub_full in refl),
        )
      ]
    ]
