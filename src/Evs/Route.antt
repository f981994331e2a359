-- ===== src/Evs/Route.antt =====
-- `evs_route`, `evs_on` and `evs_off` of src/evs.c: an event that a client sends, up to its answer.
pub mod Answers
pub mod Subscribes
pub mod Sends
pub mod Examples
use quick_io.Common.{
  ℕ, ◌+◌, Bool, true, false, not, ◌&&◌, ◌==◌, if◌then◌else◌, List, [], ◌∷◌, ◌++◌, Option, none,
  some, Bytes, codes,
}
use quick_io.Common.Int.{ℤ}
use quick_io.Path.{evs_clean_path}
use quick_io.Query.{Event, Ptrie, Checked, ok, out_of_bounds, Handler, evs_query, ◌>>=◌}
use quick_io.Wire.{Platform}
use quick_io.Client.Callbacks.{
  Callbacks, EvsStatus, evs_status_ok, evs_status_err, evs_status_handled,
}
use quick_io.Client.Subs.{
  Client, ClientSubState, sub_pending, sub_tombstoned, sub_created, sub_active, sub_null,
  client_sub_add, client_sub_remove,
}
use quick_io.Evs.{
  Sent, Reply, EvsCode, code_ok, code_accepted, code_bad, code_not_found, code_enhance_calm,
  code_unknown, evs_cb, evs_err_cb, evs_send_sub_full,
}
use quick_io.Evs.Subscribe.{evs_on_cb}

-- What events do to a client: its callbacks, its subscriptions, and what it was sent.
pub record EventClient : Type 0 where
  pub callbacks : Callbacks
  pub subs : Client
  pub sent : List Sent

-- `protocols_send`, where there is something to send.
abbrev pub one_more : List Sent → Option Sent → List Sent
one_more sent none = sent
one_more sent (some message) = sent ++ message ∷ []

abbrev pub send_out : EventClient → Callbacks × Option Sent → EventClient
send_out x (c, message) = record x { callbacks = c; sent = one_more x.sent message }

-- `random` and `now` are those of a new callback; the answers here make none.
module _ (pf : Platform) (json_string : Option Bytes → Bytes) (random : ℕ) (now : ℤ) where
  unfoldable pub tell : EventClient → ℕ → EvsCode → Option Bytes → EventClient
  unfolding evs_err_cb
  tell x client_cb code err_msg =
      send_out x (evs_err_cb pf json_string x.callbacks client_cb code err_msg none random now)

  unfoldable pub tell_ok : EventClient → ℕ → EventClient
  unfolding evs_cb
  tell_ok x client_cb = send_out x (evs_cb pf json_string x.callbacks client_cb none random now)

  -- The `switch` at the end of `evs_route`.
  pub answer_status : ℕ → EvsCode → EventClient × EvsStatus → EventClient
  unfolding tell tell_ok
  answer_status client_cb code (x, evs_status_ok) = tell_ok x client_cb
  answer_status client_cb code (x, evs_status_err) = tell x client_cb code none
  answer_status client_cb code (x, evs_status_handled) = x

  -- `handler` calls the function with the given address: the client, `ev_extra`, the client's
  -- callback and the JSON.
  unfoldable pub call_handler :
      (ℕ → EventClient → Bytes → ℕ → Bytes → EventClient × EvsStatus)
      → Option ℕ
      → EventClient
      → Bytes
      → ℕ
      → Bytes
      → EventClient × EvsStatus
  call_handler handler none x extra client_cb json = (x, evs_status_err)
  call_handler handler (some f) x extra client_cb json = handler f x extra client_cb json

  unfoldable pub route_found :
      (ℕ → EventClient → Bytes → ℕ → Bytes → EventClient × EvsStatus)
      → Handler
      → EventClient
      → ℕ
      → Bytes
      → EventClient
  unfolding call_handler answer_status
  route_found handler none x client_cb json =
      answer_status client_cb code_not_found (x, evs_status_err)
  route_found handler (some (ev, extra)) x client_cb json =
      answer_status client_cb code_unknown
        (call_handler handler ev.handler_fn x extra client_cb json)

  unfoldable pub evs_route :
      (ℕ → EventClient → Bytes → ℕ → Bytes → EventClient × EvsStatus)
      → Ptrie
      → EventClient
      → Bytes
      → ℕ
      → Bytes
      → Checked EventClient
  unfolding route_found evs_query evs_clean_path
  evs_route handler root x ev_path client_cb json = do
    found ← evs_query root (evs_clean_path ev_path)
    ok (route_found handler found x client_cb json)

  -- `on_fn`, where it is not NULL; it may call functions of this client.
  call_on : Option (EventClient → EventClient × EvsStatus) → EventClient → EventClient × EvsStatus
  call_on none x = (x, evs_status_ok)
  call_on (some on_fn) x = on_fn x

  -- `evs_on_cb` with its answer; `added` is what `qev_list_add` answers.
  pub answer_on : EventClient → ℕ → ℕ → Bool → Bool → Bool → EventClient
  unfolding evs_on_cb tell
  answer_on x p client_cb success handle_children added =
      let (subs, code) = evs_on_cb x.subs p success handle_children added in
      tell (record x { subs = subs }) client_cb code none

  finish_on : ℕ → ℕ → Bool → Bool → EventClient × EvsStatus → EventClient
  unfolding answer_on
  finish_on p client_cb handle_children added (x, evs_status_ok) =
      answer_on x p client_cb true handle_children added
  finish_on p client_cb handle_children added (x, evs_status_err) =
      answer_on x p client_cb false handle_children added
  finish_on p client_cb handle_children added (x, evs_status_handled) = x

  -- The `switch` on what `client_sub_add` returns.
  pub on_state :
      Option (EventClient → EventClient × EvsStatus)
      → Bool
      → Bool
      → EventClient
      → ℕ
      → ℕ
      → ClientSubState
      → EventClient
  unfolding call_on finish_on tell tell_ok
  on_state on_fn handle_children added x p client_cb sub_pending =
      tell x client_cb code_accepted (some (codes "subscription pending"))
  on_state on_fn handle_children added x p client_cb sub_tombstoned =
      tell x client_cb code_enhance_calm none
  on_state on_fn handle_children added x p client_cb sub_null =
      tell x client_cb code_enhance_calm none
  on_state on_fn handle_children added x p client_cb sub_active = tell_ok x client_cb
  on_state on_fn handle_children added x p client_cb sub_created =
      finish_on p client_cb handle_children added (call_on on_fn x)

  -- `evs_on` between `sub_get`, which gave the subscription `p`, and `sub_unref`.
  unfoldable pub evs_on :
      Option (EventClient → EventClient × EvsStatus)
      → Bool
      → (ℕ → Bool)
      → Bool
      → EventClient
      → ℕ
      → ℕ
      → EventClient
  unfolding on_state client_sub_add
  evs_on on_fn handle_children fair_use added x p client_cb =
      let (subs, state) = client_sub_add fair_use x.subs p in
      on_state on_fn handle_children added (record x { subs = subs }) p client_cb state

-- `evs_off`; `sub` is what `sub_get` found, if anything, and released behind it.
unfoldable pub evs_off : EventClient → Option ℕ → EventClient
unfolding client_sub_remove
evs_off x none = x
evs_off x (some p) = record x { subs = (client_sub_remove x.subs p).0 }

-- Whether `evs_send_full` refuses: an event that does not handle children, with an extra.
abbrev pub has_extra : Option Bytes → Bool
has_extra none = false
has_extra (some []) = false
has_extra (some (c ∷ cs)) = true

-- What it does with the subscription that `sub_get` found, and whether the client has it.
send_found : EventClient → Event → Bytes → Option Bool → Option Bytes → Reply → ℕ → ℤ → EventClient
unfolding evs_send_sub_full
send_found x ev ev_extra none json reply random now = x
send_found x ev ev_extra (some active) json reply random now =
    send_out x (evs_send_sub_full x.callbacks active ev.ev_path ev_extra json reply random now)

abbrev pub or_none : Option Bytes → Bytes
or_none none = []
or_none (some s) = s

unfoldable pub evs_send_full :
    EventClient → Event → Option Bytes → Option Bool → Option Bytes → Reply → ℕ → ℤ → EventClient
unfolding send_found
evs_send_full x ev ev_extra active json reply random now =
    if not ev.handle_children && has_extra ev_extra
    then x
    else send_found x ev (or_none ev_extra) active json reply random now
