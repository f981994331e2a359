-- ===== src/Evs/Route/Answers.antt =====
-- That src/evs.c routes an event to the handler it was registered with, and answers it.
use quick_io.Common.{ℕ, ◌≡◌, refl, true, Option, none, some, Bytes, []}
use quick_io.Common.Int.{ℤ}
use quick_io.Path.{evs_clean_path, evs_make_path}
use quick_io.Query.{Event, Ptrie, ok, evs_add_handler}
use quick_io.Query.Handlers.{evs_query-evs_add_handler, evs_query-evs_clean_path}
use quick_io.Wire.{Platform}
use quick_io.Client.Callbacks.{EvsStatus}
use quick_io.Evs.{code_unknown}
use quick_io.Evs.Route.{EventClient, answer_status, route_found, call_handler, evs_route}

module _ (pf : Platform) (json_string : Option Bytes → Bytes) (random : ℕ) (now : ℤ)
    (handler : ℕ → EventClient → Bytes → ℕ → Bytes → EventClient × EvsStatus) where
  -- An event that was registered with a handler is what the client gets that sends its path, in any
  -- spelling that `evs_clean_path` makes the same: the handler is called once, with nothing left
  -- of the path, and its status decides the answer.
  pub evs_route-evs_add_handler :
      (root root' : Ptrie) (ev_prefix ev_path : Option Bytes) (ev : Event) (f : ℕ) (x : EventClient)
      (spelling : Bytes) (client_cb : ℕ) (json : Bytes)
      → evs_add_handler root ev_prefix ev_path ev ≡ ok (root', true)
      → ev.handler_fn ≡ some f
      → evs_clean_path spelling ≡ evs_make_path ev_prefix ev_path none
      → evs_route pf json_string random now handler root' x spelling client_cb json
        ≡ ok (
            answer_status pf json_string random now client_cb code_unknown
              (handler f x [] client_cb json))
  unfolding evs_route route_found call_handler
  evs_route-evs_add_handler root root' ev_prefix ev_path ev f x spelling client_cb json added has
        same =
      rw (same, evs_query-evs_add_handler root root' ev_prefix ev_path ev added, has) refl

  -- Whatever path a client sends, routing it stays within the array of children and returns.
  pub evs_route_total :
      (root : Ptrie) (x : EventClient) (ev_path : Bytes) (client_cb : ℕ) (json : Bytes)
      → (y : EventClient) × (evs_route pf json_string random now handler root x ev_path client_cb
            json
          ≡ ok y)
  unfolding evs_route
  evs_route_total root x ev_path client_cb json =
      let (found, e) = evs_query-evs_clean_path root ev_path in
      (route_found pf json_string random now handler found x client_cb json, rw e refl)
