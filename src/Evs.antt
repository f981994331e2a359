-- ===== src/Evs.antt =====
-- src/evs.c: events and callbacks that the server sends to one client.
pub mod Owned
pub mod Subscribe
pub mod Info
pub mod Route
pub mod Qio
pub mod Broadcast
pub mod Shared
pub mod Examples
use quick_io.Common.{
  ℕ, ◌+◌, Bool, true, false, ◌&&◌, not, ◌==◌, if◌then◌else◌, List, [], ◌∷◌, ◌++◌, Option, none,
  some, Bytes, codes,
}
use quick_io.Common.Int.{ℤ}
use quick_io.Path.{evs_make_path}
use quick_io.Wire.{Platform}
use quick_io.Client.Callbacks.{Callbacks, client_cb_new, evs_no_callback}

-- `enum evs_code`
pub data EvsCode : Type 0 where
  code_ok code_accepted code_bad code_unauth code_not_found code_enhance_calm code_unknown : EvsCode

abbrev pub code_number : EvsCode → ℕ
code_number code_ok = 200
code_number code_accepted = 202
code_number code_bad = 400
code_number code_unauth = 401
code_number code_not_found = 404
code_number code_enhance_calm = 420
code_number code_unknown = 500

-- What `protocols_send` is given: the path, the extra, the callback and the JSON.
pub record Sent : Type 0 where
  pub ev_path : Bytes
  pub ev_extra : Bytes
  pub server_cb : ℕ
  pub json : Bytes

-- What the application gives with a send: its function for the callback, the data and their
-- `free_fn`.
pub record Reply : Type 0 where
  pub cb_fn : Option ℕ
  pub cb_data : Option ℕ
  pub free_fn : Option ℕ

abbrev pub no_reply : Reply
no_reply = record { cb_fn = none; cb_data = none; free_fn = none }

-- `JSON_OR_NULL`
abbrev pub json_or_null : Option Bytes → Bytes
json_or_null none = codes "null"
json_or_null (some []) = codes "null"
json_or_null (some (c ∷ cs)) = c ∷ cs

-- `client_cb_new(NULL, NULL, cb_data, free_fn)` only frees the data; the call is written down with
-- the others of this client.
free_reply : Callbacks → Reply → Callbacks
unfolding client_cb_new
free_reply c reply = (client_cb_new c none reply.cb_data reply.free_fn 0 (ℤ.pos 0)).0

abbrev is_ok : EvsCode → Bool
is_ok code_ok = true
is_ok code = false

-- `random` and `now` are those of `client_cb_new`.
new_reply : Callbacks → Reply → ℕ → ℤ → Callbacks × ℕ
unfolding client_cb_new
new_reply c reply random now = client_cb_new c reply.cb_fn reply.cb_data reply.free_fn random now

-- The callback of an answer: a new one, or none where the answer is an error.
answer_cb : Callbacks → EvsCode → Reply → ℕ → ℤ → Callbacks × ℕ
unfolding new_reply free_reply
answer_cb c code reply random now =
    if is_ok code then new_reply c reply random now else (free_reply c reply, evs_no_callback)

module _ (pf : Platform) (json_string : Option Bytes → Bytes) where
  -- `qev_json_pack(jbuff, "%s", err_msg)` is `json_string`.
  err_part : EvsCode → Option Bytes → Bytes
  err_part code err_msg = if is_ok code then [] else codes ",\"err_msg\":" ++ json_string err_msg

  answer : ℕ → EvsCode → Option Bytes → Option Bytes → ℕ → Sent
  unfolding err_part
  answer client_cb code err_msg json server_cb = record {
    ev_path = codes "/qio/callback/" ++ pf.show_uint client_cb;
    ev_extra = [];
    server_cb = server_cb;
    json =
        codes "{\"code\":"
        ++ (pf.show_uint (code_number code)
            ++ (codes ",\"data\":" ++ (json_or_null json ++ (err_part code err_msg ++ codes "}"))));
  }

  unfoldable pub evs_cb_full :
      Callbacks
      → ℕ
      → EvsCode
      → Option Bytes
      → Option Bytes
      → Reply
      → ℕ
      → ℤ
      → Callbacks × Option Sent
  unfolding free_reply answer_cb answer
  evs_cb_full c client_cb code err_msg json reply random now =
      if client_cb == 0
      then (free_reply c reply, none)
      else let (c', server_cb) = answer_cb c code reply random now in
        (c', some (answer client_cb code err_msg json server_cb))

  unfoldable pub evs_cb : Callbacks → ℕ → Option Bytes → ℕ → ℤ → Callbacks × Option Sent
  unfolding evs_cb_full
  evs_cb c client_cb json random now = evs_cb_full c client_cb code_ok none json no_reply random now

  unfoldable pub evs_cb_with_cb :
      Callbacks → ℕ → Option Bytes → Reply → ℕ → ℤ → Callbacks × Option Sent
  unfolding evs_cb_full
  evs_cb_with_cb c client_cb json reply random now =
      evs_cb_full c client_cb code_ok none json reply random now

  unfoldable pub evs_err_cb :
      Callbacks → ℕ → EvsCode → Option Bytes → Option Bytes → ℕ → ℤ → Callbacks × Option Sent
  unfolding evs_cb_full
  evs_err_cb c client_cb code err_msg json random now =
      evs_cb_full c client_cb code err_msg json no_reply random now

-- `active` is what `client_sub_active` says of the client and the subscription.
unfoldable pub evs_send_sub_full :
    Callbacks → Bool → Bytes → Bytes → Option Bytes → Reply → ℕ → ℤ → Callbacks × Option Sent
unfolding new_reply
evs_send_sub_full c active ev_path ev_extra json reply random now =
    let (c', server_cb) = new_reply c reply random now in
    if active
    then (
      c',
      some (record {
        ev_path = ev_path;
        ev_extra = ev_extra;
        server_cb = server_cb;
        json = json_or_null json;
      }),
    )
    else (c, none)

unfoldable pub evs_send_bruteforce :
    Callbacks
    → Option Bytes
    → Option Bytes
    → Option Bytes
    → Option Bytes
    → Reply
    → ℕ
    → ℤ
    → Callbacks × Sent
unfolding new_reply evs_make_path
evs_send_bruteforce c ev_prefix ev_path ev_extra json reply random now =
    let (c', server_cb) = new_reply c reply random now in
    (
      c',
      record {
        ev_path = evs_make_path ev_prefix ev_path ev_extra;
        ev_extra = [];
        server_cb = server_cb;
        json = json_or_null json;
      },
    )
