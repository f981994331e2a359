-- ===== src/Evs/Qio/Fires.antt =====
-- From a callback that the server makes on a client (src/client.c) to the event with which the
-- client fires it (src/evs.c, src/evs_qio.c).
use quick_io.Common.{
  ℕ, ◌<◌, ◌≡◌, refl, ap, ◌∙◌, ◌⊎◌, true, false, ◌==◌, ==_iff, if◌then◌else◌, ◌∷◌, ◌++◌, Option,
  none, some, Bytes, Bool-cases, inl, inr, codes, arith,
}
use quick_io.Common.Int.{ℤ}
use quick_io.Path.{evs_clean_path, evs_make_path}
use quick_io.Query.{
  Event, Checked, ok, no_events, evs_query, evs_query_insert, evs_add_handler, insert_from, ◌>>=◌,
}
use quick_io.Wire.{Platform}
use quick_io.Client.Callbacks.{
  Callbacks, ClientCb, cb_data_free, client_cb_new, client_cb_fire, take_cb, EvsStatus,
}
use quick_io.Client.Callbacks.Fire.{IsValid, stored, take_cb-client_cb_new}
use quick_io.Evs.{code_unknown}
use quick_io.Evs.Route.{EventClient, answer_status, call_handler, route_found, evs_route}
use quick_io.Evs.Qio.{callback_handler, evs_qio_init, after_fire, qio_callback, qio_event}

callback_event : Event
callback_event = record (qio_event callback_handler true) { ev_path = codes "/qio/callback" }

-- The server's own events, as `evs_qio_init` files them among no others: the path of a callback
-- leads to `_callback`, with the number as the extra.
query_callback :
    (s : Bytes)
    → (evs_qio_init no_events >>= λ root. evs_query root (codes "/qio/callback/" ++ s))
      ≡ ok (some (callback_event, b'/' ∷ s))
unfolding callback_event evs_qio_init evs_add_handler evs_query_insert insert_from evs_query
    no_events evs_make_path
query_callback s = refl

-- The application runs, then the data are freed.
pub ran :
    (ClientCb → Callbacks → EvsStatus × Callbacks) → ClientCb → Callbacks → Callbacks × EvsStatus
ran call cb d =
    let (status, e) = call cb d in
    (record e { freed = cb_data_free cb.cb_data cb.free_fn e.freed }, status)

fire_taken :
    (call : ClientCb → Callbacks → EvsStatus × Callbacks) (c d : Callbacks) (key : ℕ)
    (cb : ClientCb)
    → take_cb c key ≡ (d, some cb)
    → client_cb_fire call c key
      ≡ record { client = (ran call cb d).0; status = (ran call cb d).1; not_found = false }
unfolding client_cb_fire ran
fire_taken call c d key cb e = rw e refl

bind_assoc :
    {A B C : Type 0} (m : Checked A) (f : A → Checked B) (g : B → Checked C)
    → (m >>= λ a. f a >>= g) ≡ (m >>= f >>= g)
bind_assoc (ok a) f g = refl
bind_assoc Checked.out_of_bounds f g = refl

module _ (pf : Platform) (json_string : Option Bytes → Bytes) (random : ℕ) (now : ℤ) where
  fires :
      (call : ClientCb → Callbacks → EvsStatus × Callbacks) (x : EventClient) (c d : Callbacks)
      (s : Bytes) (key : ℕ) (cb : ClientCb) (client_cb : ℕ) (json : Bytes)
      → (pf.strtoull s).value ≡ key
      → 0 < key
      → take_cb c key ≡ (d, some cb)
      → qio_callback pf json_string random now call
          (record x { callbacks = c })
          (b'/' ∷ s)
          client_cb
          json
        ≡ (record x { callbacks = (ran call cb d).0 }, (ran call cb d).1)
  unfolding qio_callback after_fire
  fires call x c d s key cb client_cb json e pos' taken =
      rw (e, not_zero (Bool-cases (key == 0)), fire_taken call c d key cb taken) refl
    where
      not_zero : ((key == 0) ≡ true) ⊎ ((key == 0) ≡ false) → (key == 0) ≡ false
      not_zero (inl zero') = absurd (omega (arith, (==_iff key 0).0 zero'))
      not_zero (inr other) = other

  -- The path of a callback, among the server's own events.
  routed :
      (s : Bytes) (x : EventClient) (client_cb : ℕ) (json : Bytes)
      (handler : ℕ → EventClient → Bytes → ℕ → Bytes → EventClient × EvsStatus)
      → evs_clean_path (codes "/qio/callback/" ++ s) ≡ codes "/qio/callback/" ++ s
      → (evs_qio_init no_events >>= λ root.
          evs_route pf json_string random now handler root x
            (codes "/qio/callback/" ++ s)
            client_cb
            json)
        ≡ ok (
            answer_status pf json_string random now client_cb code_unknown
              (handler callback_handler x (b'/' ∷ s) client_cb json))
  unfolding evs_route route_found call_handler callback_event
  routed s x client_cb json handler clean = rw clean (
      bind_assoc (evs_qio_init no_events) (λ root. evs_query root (codes "/qio/callback/" ++ s))
        (λ found. ok (route_found pf json_string random now handler found x client_cb json))
      ∙ rw (query_callback s) refl)

  -- A callback that the server makes on a client is fired by the event that names its number, among the
  -- server's own events: the function that was registered runs once with its data, on the client
  -- without the callback, its data are freed behind it, and its status decides the answer. The
  -- number must be read back as it is printed, and be a clean path.
  pub evs_route-client_cb_new :
      (call : ClientCb → Callbacks → EvsStatus × Callbacks)
      (others : ℕ → EventClient → Bytes → ℕ → Bytes → EventClient × EvsStatus) (x : EventClient)
      (cb_fn : ℕ) (cb_data free_fn : Option ℕ) (rand : ℕ) (client_cb : ℕ) (json : Bytes)
      → IsValid x.callbacks
      → rand < 4
      → let made = client_cb_new x.callbacks (some cb_fn) cb_data free_fn rand now in
        let path = codes "/qio/callback/" ++ pf.show_uint made.1 in
        let handler : ℕ → EventClient → Bytes → ℕ → Bytes → EventClient × EvsStatus = λ f.
          if f == callback_handler then qio_callback pf json_string random now call else others f in
        let cb = stored x.callbacks.cbs_id cb_fn cb_data free_fn now in
        (pf.strtoull (pf.show_uint made.1)).value ≡ made.1
        → evs_clean_path path ≡ path
        → (d : Callbacks) × IsValid d
          × (take_cb made.0 made.1 ≡ (d, some cb))
          × (take_cb d made.1 ≡ (d, none))
          × ((evs_qio_init no_events >>= λ root.
                evs_route pf json_string random now handler root
                  (record x { callbacks = made.0 })
                  path
                  client_cb
                  json)
              ≡ ok (
                  answer_status pf json_string random now client_cb code_unknown
                    (record x { callbacks = (ran call cb d).0 }, (ran call cb d).1)))
  evs_route-client_cb_new call others x cb_fn cb_data free_fn rand client_cb json v lt e clean =
      let (pos', d, taken, valid, gone) =
        take_cb-client_cb_new x.callbacks cb_fn cb_data free_fn rand now v lt in
      let made = client_cb_new x.callbacks (some cb_fn) cb_data free_fn rand now in
      (
        d,
        valid,
        taken,
        gone,
        routed (pf.show_uint made.1) (record x { callbacks = made.0 }) client_cb json _ clean
            ∙ ap
                (λ (r : EventClient × EvsStatus).
                  ok (answer_status pf json_string random now client_cb code_unknown r))
                (fires call x made.0 d (pf.show_uint made.1) made.1
                  (stored x.callbacks.cbs_id cb_fn cb_data free_fn now) client_cb json e pos'
                  taken),
      )
