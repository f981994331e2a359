-- ===== src/Http/Route/Request/Serves.antt =====
-- The references between clients when src/protocols_http.c handles a whole request.
use quick_io.Common.{
  ℕ, ◌<◌, refl, Bool, ◌==◌, ltb, inl, inr, Bool-cases, Option, none, some, Bytes, length, take,
  drop,
}
use quick_io.Common.Int.{ℤ}
use quick_io.Buffer.{c_string}
use quick_io.Wire.{ProtocolStatus, prot_ok, prot_again, prot_fatal, Effect, Platform}
use quick_io.Http.Poll.{Peers, Status, peer, change, touch}
use quick_io.Http.Poll.Sound.{Sound, change-Sound}
use quick_io.Http.Session.{World}
use quick_io.Http.Route.Request.Refs.{Kept, Serves, Extends-lt, change-Kept, same-Serves}
use quick_io.Http.Route.Request.Headers.{Upgrades, new_request-Serves}
use quick_io.Http.Route.{do_body}
use quick_io.Http.Route.Body.{do_body-Sound}
use quick_io.Http.Route.Request.{
  HttpRequest, HttpRoute, if_whole, set_peers, new_request, whole_body, take_body,
  protocol_http_route,
}

module _ (now : ℤ) (pf : Platform) (status_response : Status → Bytes)
    (run : Peers → ℕ → Effect → Peers) where
  module _ (strtoull : Bytes → Option ℕ) (upgrade : Peers → ℕ → Bytes → Peers)
      (up : Upgrades upgrade) where
    module _
        (kept : (base : ℕ → ℕ) (s : Peers) (q : ℕ) (e : Effect)
          → Sound base s
          → Sound base (run s q e)) where
      whole_body-Serves :
          (iframe_source : Option Bytes) (base : ℕ → ℕ) (p : ℕ) (rbuff : Bytes) (r : HttpRoute)
          → 0 < base p
          → Serves base r.world
          → Serves base (whole_body now pf status_response run iframe_source p rbuff r).world
      unfolding whole_body
      whole_body-Serves iframe_source base p rbuff r hp h =
          let body = c_string (take (peer r.world.peers p).body_len (drop r.used rbuff)) in
          let s = do_body now pf status_response run iframe_source r.world.peers p body in
          record {
            base' = h.base';
            extends = h.extends;
            kept = record {
              sound =
                  change-Sound h.base' s p (λ x. record x { body_len = 0 }) (λ x. (refl, refl))
                    (do_body-Sound now pf status_response run h.base' (kept h.base') iframe_source
                      r.world.peers p body (Extends-lt base h.base' p h.extends hp) h.kept.sound);
              live = h.kept.live;
            };
          }

      take_body-Serves :
          (iframe_source : Option Bytes) (base : ℕ → ℕ) (p : ℕ) (rbuff : Bytes) (r : HttpRoute)
          (status : ProtocolStatus)
          → 0 < base p
          → Serves base r.world
          → Serves base (take_body now pf status_response run iframe_source p rbuff r status).world
      unfolding take_body if_whole
      take_body-Serves iframe_source base p rbuff r prot_again hp h = h
      take_body-Serves iframe_source base p rbuff r prot_fatal hp h = h
      take_body-Serves iframe_source base p rbuff r prot_ok hp h =
          sized (pf.safe_uadd (peer r.world.peers p).body_len r.used)
        where
          sized :
              (o : Option ℕ)
              → Serves base (if_whole now pf status_response run iframe_source p rbuff r o).world
          sized none = h
          sized (some len) = elim (Bool-cases (ltb (length rbuff) len)) [
            | inl short ↦ rw short h
            | inr whole ↦ rw whole (whole_body-Serves iframe_source base p rbuff r hp h)
          ]

      -- All branches of `protocol_http_route` keep the references and the pointers in order: headers
      -- that are incomplete, wrong, of an upgrade or of a request, a body that is late, refused or
      -- routed.
      pub protocol_http_route-Serves :
          (parse : Bytes → HttpRequest) (iframe_source : Option Bytes) (opens : Bool) (base : ℕ → ℕ)
          (w : World) (p : ℕ) (rbuff : Bytes) (used : ℕ)
          → 0 < base p
          → Kept base w
          → Serves base
              (protocol_http_route now pf status_response run parse strtoull upgrade iframe_source
                opens w p rbuff used).world
      unfolding protocol_http_route
      protocol_http_route-Serves parse iframe_source opens base w p rbuff used hp k =
          elim (Bool-cases ((peer w.peers p).body_len == 0)) [
            | inl headers ↦ rw headers (
                let r =
                  new_request now pf status_response run strtoull upgrade w' p
                    (parse (drop used rbuff)) opens rbuff used in
                take_body-Serves iframe_source base p rbuff r r.status hp (
                  new_request-Serves now pf status_response run strtoull upgrade up base w' p
                    (parse (drop used rbuff)) opens rbuff used hp touched))
            | inr body ↦ rw body (
                let r : HttpRoute = record { status = prot_ok; used = used; world = w' } in
                take_body-Serves iframe_source base p rbuff r prot_ok hp
                  (same-Serves base w' touched))
          ]
        where
          w' : World
          w' = set_peers w (change w.peers p (touch now))

          touched : Kept base w'
          touched = change-Kept base p w (touch now) (λ x. (refl, refl)) k
