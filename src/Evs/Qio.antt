-- ===== src/Evs/Qio.antt =====
-- src/evs_qio.c: the events below /qio that the server handles itself.
pub mod Fires
use quick_io.Common.{
  ℕ, Bool, true, false, ◌==◌, if◌then◌else◌, [], ◌∷◌, ◌++◌, Option, none, some, Bytes, codes,
}
use quick_io.Common.Int.{ℤ}
use quick_io.Path.{evs_clean_path}
use quick_io.Query.{
  Event, Ptrie, Checked, ok, out_of_bounds, Handler, evs_query, evs_add_handler, ◌>>=◌,
}
use quick_io.Wire.{Platform}
use quick_io.Client.Callbacks.{
  Callbacks, ClientCb, Fired, client_cb_fire, EvsStatus, evs_status_ok, evs_status_handled,
}
use quick_io.Evs.{code_bad, code_not_found, evs_cb}
use quick_io.Evs.Route.{EventClient, send_out, tell, evs_on, evs_off}

-- The addresses of the handlers, and of `evs_no_on`.
abbrev pub callback_handler : ℕ
callback_handler = 1

abbrev pub hostname_handler : ℕ
hostname_handler = 2

abbrev pub off_handler : ℕ
off_handler = 3

abbrev pub on_handler : ℕ
on_handler = 4

abbrev pub ping_handler : ℕ
ping_handler = 5

abbrev pub evs_no_on_fn : ℕ
evs_no_on_fn = 6

abbrev pub qio_event : ℕ → Bool → Event
qio_event handler_fn handle_children = record {
  ev_path = [];
  handler_fn = some handler_fn;
  on_fn = some evs_no_on_fn;
  off_fn = none;
  handle_children = handle_children;
}

abbrev pub add_qio : Ptrie → Bytes → ℕ → Bool → Checked Ptrie
unfolding evs_add_handler
add_qio root ev_path handler_fn handle_children = do
  r ←
      evs_add_handler root (some (codes "/qio")) (some ev_path)
        (qio_event handler_fn handle_children)
  ok r.0

-- `evs_qio_init`
unfoldable pub evs_qio_init : Ptrie → Checked Ptrie
unfolding evs_add_handler
evs_qio_init root = do
  a ← add_qio root (codes "/callback") callback_handler true
  b ← add_qio a (codes "/hostname") hostname_handler false
  c ← add_qio b (codes "/off") off_handler false
  d ← add_qio c (codes "/on") on_handler false
  add_qio d (codes "/ping") ping_handler false

module _ (pf : Platform) (json_string : Option Bytes → Bytes) (random : ℕ) (now : ℤ) where
  -- The callback's number behind the slash, up to the first byte that is no digit.
  abbrev pub server_cb_of : Bytes → ℕ
  server_cb_of [] = 0
  server_cb_of (c ∷ cs) = if c == b'/' then (pf.strtoull cs).value else 0

  -- What is left of the client when the callback has run; one that does not exist is told so.
  pub after_fire : EventClient → ℕ → Fired → EventClient × EvsStatus
  unfolding tell
  after_fire x client_cb fired =
      let y = record x { callbacks = fired.client } in
      (
        if fired.not_found
            then tell pf json_string random now y client_cb code_not_found
                (some (codes "callback doesn't exist"))
            else y,
        fired.status,
      )

  -- `_callback`; `call` is the application's function.
  unfoldable pub qio_callback :
      (ClientCb → Callbacks → EvsStatus × Callbacks)
      → EventClient
      → Bytes
      → ℕ
      → Bytes
      → EventClient × EvsStatus
  unfolding after_fire client_cb_fire tell
  qio_callback call x ev_extra client_cb json =
      let server_cb = server_cb_of ev_extra in
      if server_cb == 0
      then (
        tell pf json_string random now x client_cb code_bad
            (some (codes "invalid server callback id")),
        evs_status_handled,
      )
      else after_fire x client_cb (client_cb_fire call x.callbacks server_cb)

  -- `_hostname`
  unfoldable pub qio_hostname : Bytes → EventClient → ℕ → EventClient × EvsStatus
  unfolding evs_cb
  qio_hostname json_hostname x client_cb = (
    send_out x (evs_cb pf json_string x.callbacks client_cb (some json_hostname) random now),
    evs_status_handled,
  )

  -- `_ping`
  unfoldable pub qio_ping : EventClient → EventClient × EvsStatus
  qio_ping x = (x, evs_status_ok)

  bad_json : EventClient → ℕ → Checked (EventClient × EvsStatus)
  unfolding tell
  bad_json x client_cb = ok (
    tell pf json_string random now x client_cb code_bad (some (codes "invalid json ev_path")),
    evs_status_handled,
  )

  -- `find` is `sub_get` of an event and an extra; `fair_use` and `added` are quick-event's answers.
  on_found :
      (Event → Bytes → ℕ)
      → (Option ℕ → Option (EventClient → EventClient × EvsStatus))
      → (ℕ → Bool)
      → Bool
      → EventClient
      → ℕ
      → Handler
      → EventClient
  unfolding evs_on tell
  on_found find on_fn fair_use added x client_cb none =
      tell pf json_string random now x client_cb code_not_found none
  on_found find on_fn fair_use added x client_cb (some (ev, ev_extra)) =
      evs_on pf json_string random now (on_fn ev.on_fn) ev.handle_children fair_use added x
        (find ev ev_extra) client_cb

  -- The path in the JSON: a string's text, or the first of what `qev_json_unpack` finds in an
  -- array.
  abbrev pub on_path : (Bytes → Option Bytes) → Bytes → Option Bytes
  on_path json_unpack [] = none
  on_path json_unpack (c ∷ cs) =
      if c == b'"' then some cs else if c == b'[' then json_unpack (c ∷ cs) else none

  on_given :
      (Event → Bytes → ℕ)
      → (Option ℕ → Option (EventClient → EventClient × EvsStatus))
      → (ℕ → Bool)
      → Bool
      → Ptrie
      → EventClient
      → ℕ
      → Option Bytes
      → Checked (EventClient × EvsStatus)
  unfolding on_found bad_json evs_query evs_clean_path
  on_given find on_fn fair_use added root x client_cb none = bad_json x client_cb
  on_given find on_fn fair_use added root x client_cb (some ev_path) = do
    found ← evs_query root (evs_clean_path ev_path)
    ok (on_found find on_fn fair_use added x client_cb found, evs_status_handled)

  -- `_on`
  unfoldable pub qio_on :
      (Bytes → Option Bytes)
      → (Event → Bytes → ℕ)
      → (Option ℕ → Option (EventClient → EventClient × EvsStatus))
      → (ℕ → Bool)
      → Bool
      → Ptrie
      → EventClient
      → ℕ
      → Bytes
      → Checked (EventClient × EvsStatus)
  unfolding on_given
  qio_on json_unpack find on_fn fair_use added root x client_cb json =
      on_given find on_fn fair_use added root x client_cb (on_path json_unpack json)

  off_found : (Event → Bytes → Option ℕ) → EventClient → ℕ → Handler → EventClient × EvsStatus
  unfolding evs_off tell
  off_found find x client_cb none =
      (tell pf json_string random now x client_cb code_not_found none, evs_status_handled)
  off_found find x client_cb (some (ev, ev_extra)) = (evs_off x (find ev ev_extra), evs_status_ok)

  off_given :
      (Event → Bytes → Option ℕ)
      → Ptrie
      → EventClient
      → ℕ
      → Bytes
      → Checked (EventClient × EvsStatus)
  unfolding off_found evs_query evs_clean_path
  off_given find root x client_cb ev_path = do
    found ← evs_query root (evs_clean_path ev_path)
    ok (off_found find x client_cb found)

  -- `_off`
  unfoldable pub qio_off :
      (Event → Bytes → Option ℕ)
      → Ptrie
      → EventClient
      → ℕ
      → Bytes
      → Checked (EventClient × EvsStatus)
  unfolding off_given bad_json
  qio_off find root x client_cb [] = bad_json x client_cb
  qio_off find root x client_cb (c ∷ cs) =
      if c == b'"' then off_given find root x client_cb cs else bad_json x client_cb
