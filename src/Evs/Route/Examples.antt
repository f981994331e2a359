-- ===== src/Evs/Route/Examples.antt =====
-- A client without callbacks and subscriptions, an event /news, and the server's own events.
use quick_io.Common.{
  ℕ, ◌==◌, ◌≡◌, refl, true, false, if◌then◌else◌, [], ◌∷◌, ◌++◌, ◌⊎◌, Option, none, some, Bytes,
  codes, arith,
}
use quick_io.Common.Int.{pos}
use quick_io.Path.{evs_clean_path, evs_make_path}
use quick_io.Query.{
  Event, Ptrie, Checked, ok, no_events, evs_query_insert, evs_add_handler, insert_from, ◌>>=◌,
}
use quick_io.Wire.Examples.{decimal, digits, read_digits}
use quick_io.Client.Callbacks.{
  Callbacks, ClientCb, no_callbacks, client_cb_new, take_cb, EvsStatus, evs_status_ok,
  evs_status_handled,
}
use quick_io.Client.Callbacks.Fire.{IsValid, stored}
use quick_io.Client.Subs.Table.{lookup}
use quick_io.Client.Subs.{Client, sub_get}
use quick_io.Evs.{Reply, code_unknown}
use quick_io.Evs.Route.{EventClient, answer_status, evs_route, evs_on, evs_send_full}
use quick_io.Evs.Route.Sends.{Sends, active_of, reaches, evs_send_full-Sends}
use quick_io.Evs.Route.Answers.{evs_route-evs_add_handler, evs_route_total}
use quick_io.Evs.Route.Subscribes.{Told, evs_on-Told}
use quick_io.Evs.Qio.{callback_handler, evs_qio_init, qio_callback}
use quick_io.Evs.Qio.Fires.{ran, evs_route-client_cb_new}

abbrev null_json : Option Bytes → Bytes
null_json err_msg = codes "null"

abbrev no_subs : Client
no_subs = record { closing = false; subs = none; refs = λ p. 0; fair_used = 0; offs = [] }

fresh : EventClient
fresh = record { callbacks = no_callbacks; subs = no_subs; sent = [] }

abbrev news : Event
news = record {
  ev_path = [];
  handler_fn = some 7;
  on_fn = none;
  off_fn = none;
  handle_children = false;
}

abbrev accepts_all : ℕ → EventClient → Bytes → ℕ → Bytes → EventClient × EvsStatus
accepts_all f x extra client_cb json = (x, evs_status_ok)

news_root : Ptrie
unfolding evs_add_handler
news_root = elim (evs_add_handler no_events none (some (codes "news")) news) [
  | ok r ↦ r.0
  | Checked.out_of_bounds ↦ no_events
]

evs_route-evs_add_handler_example :
    evs_route decimal null_json 0
      (pos 1)
      accepts_all
      news_root
      fresh
      (codes "//ne.ws/")
      3
      (codes "null")
    ≡ ok (answer_status decimal null_json 0 (pos 1) 3 code_unknown (fresh, evs_status_ok))
unfolding news_root evs_add_handler evs_query_insert insert_from no_events evs_make_path
    evs_clean_path
evs_route-evs_add_handler_example =
    evs_route-evs_add_handler decimal null_json 0 (pos 1) accepts_all no_events news_root none
      (some (codes "news")) news 7 fresh (codes "//ne.ws/") 3 (codes "null") refl refl refl

evs_route_total_example :
    (y : EventClient) × (evs_route decimal null_json 0
        (pos 1)
        accepts_all
        news_root
        fresh
        (codes "/news/~{")
        3
        (codes "null")
      ≡ ok y)
evs_route_total_example =
    evs_route_total decimal null_json 0 (pos 1) accepts_all news_root fresh (codes "/news/~{") 3
      (codes "null")

evs_on-Told_example : Told decimal null_json 0 (pos 1) evs_status_handled fresh 5 3 (
    evs_on decimal null_json 0
      (pos 1)
      (some (λ y. (y, evs_status_handled)))
      false
      (λ n. true)
      true
      fresh
      5
      3)
unfolding sub_get lookup fresh
evs_on-Told_example =
    evs_on-Told decimal null_json 0 (pos 1) evs_status_handled false (λ n. true) true fresh 5 3 refl
      tt

abbrev quiet_call : ClientCb → Callbacks → EvsStatus × Callbacks
quiet_call cb c = (evs_status_ok, c)

fresh-IsValid : IsValid fresh.callbacks
unfolding fresh no_callbacks
fresh-IsValid = record { slots = refl; id_fits = omega arith; counted = refl }

evs_route-client_cb_new_example :
    let made = client_cb_new fresh.callbacks (some 11) (some 70) (some 12) 0 (pos 1) in
    let path = codes "/qio/callback/" ++ decimal.show_uint made.1 in
    let handler : ℕ → EventClient → Bytes → ℕ → Bytes → EventClient × EvsStatus = λ f.
      if f == callback_handler
      then qio_callback decimal null_json 0 (pos 1) quiet_call
      else accepts_all f in
    let cb = stored fresh.callbacks.cbs_id 11 (some 70) (some 12) (pos 1) in
    (d : Callbacks) × IsValid d
    × (take_cb made.0 made.1 ≡ (d, some cb))
    × (take_cb d made.1 ≡ (d, none))
    × ((evs_qio_init no_events >>= λ root.
          evs_route decimal null_json 0
            (pos 1)
            handler
            root
            (record fresh { callbacks = made.0 })
            path
            3
            (codes "null"))
        ≡ ok (
            answer_status decimal null_json 0
              (pos 1)
              3
              code_unknown
              (record fresh { callbacks = (ran quiet_call cb d).0 }, (ran quiet_call cb d).1)))
unfolding digits read_digits client_cb_new fresh no_callbacks evs_clean_path
evs_route-client_cb_new_example =
    evs_route-client_cb_new decimal null_json 0 (pos 1) quiet_call accepts_all fresh 11 (some 70)
      (some 12) 0 3 (codes "null") fresh-IsValid (omega arith) refl refl

-- The subscription 9 is active, and the function 11 is to be called with 70, which 12 frees.
abbrev subscribed : EventClient
subscribed = record {
  callbacks = record { cbs = none ∷ none ∷ none ∷ none ∷ []; cbs_id = 0; freed = []; total = 0 };
  subs = record {
    closing = false;
    subs = some ((9, record { idx = true; pending = false; tombstone = false }) ∷ []);
    refs = λ p. if p == 9 then 1 else 0;
    fair_used = 1;
    offs = [];
  };
  sent = [];
}

abbrev call_11 : Reply
call_11 = record { cb_fn = some 11; cb_data = some 70; free_fn = some 12 }

evs_send_full-Sends_example :
    let y =
      evs_send_full subscribed news
        (some [])
        (active_of subscribed (some 9))
        none
        call_11
        0
        (pos 1) in
    ((reaches subscribed news (some []) (some 9) ≡ true)
      × Sends subscribed y news (some []) none call_11 (pos 1))
    ⊎ ((reaches subscribed news (some []) (some 9) ≡ false) × (y ≡ subscribed))
evs_send_full-Sends_example =
    evs_send_full-Sends subscribed news (some []) none (some 9) call_11 0 (pos 1)
      (record { slots = refl; id_fits = omega arith; counted = refl }) (omega arith)
