-- ===== src/Http/Route/Request/Headers.antt =====
-- The references between clients when src/protocols_http.c handles headers.
use quick_io.Common.{
  ℕ, ◌<◌, refl, Bool, true, false, ◌||◌, not, ◌&&◌, inl, inr, Bool-cases, Option, none, some, Bytes,
  codes, equal,
}
use quick_io.Common.Int.{ℤ}
use quick_io.Wire.{
  ProtocolStatus, prot_ok, prot_again, prot_fatal, http_bad_request, http_length_required, Effect,
  Platform,
}
use quick_io.Http.Text.{is_some}
use quick_io.Http.Poll.{Peers, Status, status_200, status_400, status_426, change, send_error}
use quick_io.Http.Poll.Clear.{Clear, change-Clear, send_error-Clear}
use quick_io.Http.Poll.Sound.{Sound, change-Sound, send_error-Sound}
use quick_io.Http.Session.{World}
use quick_io.Http.Route.Request.Refs.{Kept, Serves, same-Serves, close-Serves, with_length-Serves}
use quick_io.Http.Route.Request.{
  HttpRequest, has_caseless, is_text, by_length, by_key, started, stays_alive, set_peers,
  do_headers_websocket, given_length, do_headers_http, close_fatal, do_headers, new_request,
}

-- What the upgrade to WebSocket does to the clients.
abbrev pub Upgrades : (Peers → ℕ → Bytes → Peers) → Type 0
Upgrades upgrade =
    (base : ℕ → ℕ) (s : Peers) (p : ℕ) (key : Bytes) → Sound base s → Sound base (upgrade s p key)

module _ (now : ℤ) (pf : Platform) (status_response : Status → Bytes)
    (run : Peers → ℕ → Effect → Peers) where
  by_length-Serves :
      (strtoull : Bytes → Option ℕ) (base : ℕ → ℕ) (w : World) (p : ℕ) (headers : HttpRequest)
      (opens is_post : Bool) (o : Option Bytes)
      → 0 < base p
      → Clear p w.peers
      → Kept base w
      → let r = by_length now pf status_response run strtoull w p headers opens is_post o in
        Serves base r.0
  unfolding by_length given_length
  by_length-Serves strtoull base w p headers opens is_post (some text) hp clear k =
      given (strtoull text)
    where
      given :
          (o : Option ℕ)
          → let r = given_length now pf status_response run w p headers opens is_post o in
            Serves base r.0
      given none = same-Serves base w k
      given (some n) =
          with_length-Serves now pf status_response run base w p headers opens is_post n hp clear k
  by_length-Serves strtoull base w p headers opens true none hp clear k =
      close-Serves base w p http_length_required (same-Serves base w k)
  by_length-Serves strtoull base w p headers opens false none hp clear k =
      with_length-Serves now pf status_response run base w p headers opens false 0 hp clear k

  refused-Serves :
      (base : ℕ → ℕ) (w : World) (p : ℕ) (status : Status)
      → Kept base w
      → Serves base (set_peers w (send_error now status_response w.peers (some p) status).0)
  refused-Serves base w p status k =
      same-Serves base (set_peers w (send_error now status_response w.peers (some p) status).0)
        (record {
          sound = send_error-Sound now status_response base w.peers (some p) status k.sound;
          live = k.live;
        })

  do_headers_websocket-Serves :
      (upgrade : Peers → ℕ → Bytes → Peers) (base : ℕ → ℕ) (w : World) (p : ℕ)
      (headers : HttpRequest) (connection : Option Bytes) (key : Bytes)
      → Upgrades upgrade
      → Kept base w
      → let r =
          do_headers_websocket now pf status_response run upgrade w.peers p headers connection
            key in
        Serves base (set_peers w r.0)
  unfolding do_headers_websocket
  do_headers_websocket-Serves upgrade base w p headers connection key up k =
      elim (Bool-cases (
        not (is_some (headers.header (codes "Upgrade")))
        || not (elim connection [ none ↦ false | some c ↦ has_caseless c (codes "upgrade") ]))) [
          | inl missing ↦ rw missing (refused-Serves base w p status_426 k)
          | inr there ↦
              rw there
                (elim (Bool-cases (
                  not (is_text (headers.header (codes "Sec-WebSocket-Protocol")) (codes "quickio"))
                  || not (is_text (headers.header (codes "Sec-WebSocket-Version")) (codes "13")))) [
                    | inl bad ↦ rw bad (refused-Serves base w p status_400 k)
                    | inr good ↦ rw good (
                        same-Serves base (set_peers w (upgrade w.peers p key))
                          (record { sound = up base w.peers p key k.sound; live = k.live }))
                  ])
        ]

  module _ (strtoull : Bytes → Option ℕ) (upgrade : Peers → ℕ → Bytes → Peers)
      (up : Upgrades upgrade) where
    do_headers-Serves :
        (base : ℕ → ℕ) (w : World) (p : ℕ) (headers : HttpRequest) (opens : Bool) (rbuff : Bytes)
        (used : ℕ)
        → 0 < base p
        → Clear p w.peers
        → Kept base w
        → let r =
            do_headers now pf status_response run strtoull upgrade w p headers opens rbuff used in
          Serves base r.world
    unfolding do_headers by_key do_headers_http
    do_headers-Serves base w p headers opens rbuff used hp clear k =
        elim (Bool-cases headers.parsed) [
          | inl parsed ↦ rw parsed (keyed (headers.header (codes "Sec-WebSocket-Key")))
          | inr wrong ↦ rw wrong (same-Serves base w k)
        ]
      where
        keyed :
            (o : Option Bytes)
            → let r =
                by_key now pf status_response run strtoull upgrade w p headers opens rbuff used o in
              Serves base r.world
        keyed (some key) =
            do_headers_websocket-Serves upgrade base w p headers
              (headers.header (codes "Connection")) key up k
        keyed none =
            by_length-Serves strtoull base w p headers opens (equal headers.method (codes "POST"))
              (headers.header (codes "Content-Length")) hp clear k

    close_fatal-Serves :
        (base : ℕ → ℕ) (p : ℕ) (status : ProtocolStatus) (w : World)
        → Serves base w
        → Serves base (close_fatal now pf status_response run p status w)
    unfolding close_fatal
    close_fatal-Serves base p prot_fatal w h = close-Serves base w p http_bad_request h
    close_fatal-Serves base p prot_ok w h = h
    close_fatal-Serves base p prot_again w h = h

    pub new_request-Serves :
        (base : ℕ → ℕ) (w : World) (p : ℕ) (headers : HttpRequest) (opens : Bool) (rbuff : Bytes)
        (used : ℕ)
        → 0 < base p
        → Kept base w
        → let r =
            new_request now pf status_response run strtoull upgrade w p headers opens rbuff used in
          Serves base r.world
    unfolding new_request
    new_request-Serves base w p headers opens rbuff used hp k =
        let s = (send_error now status_response w.peers (some p) status_200).0 in
        let alive = stays_alive headers.version (headers.header (codes "Connection")) in
        let w' = set_peers w (change s p (started alive)) in
        let r =
          do_headers now pf status_response run strtoull upgrade w' p headers opens rbuff used in
        elim (Bool-cases (not headers.parsed && headers.headers_incomplete)) [
          | inl more ↦ rw more (same-Serves base w k)
          | inr whole ↦ rw whole (
              close_fatal-Serves base p r.status r.world (
                do_headers-Serves base w' p headers opens rbuff used hp
                  (change-Clear s p p (started alive) (λ x e. e)
                    (send_error-Clear now status_response w.peers p status_200))
                  (record {
                    sound =
                        change-Sound base s p (started alive) (λ x. (refl, refl))
                          (send_error-Sound now status_response base w.peers (some p) status_200
                            k.sound);
                    live = k.live;
                  })))
        ]
