-- ===== src/Protocols/Dispatch/Examples.antt =====
-- A raw client from its first bytes on, and one that falls silent.
use quick_io.Common.{
  ℕ, ◌+◌, ◌*◌, ◌≤◌, ◌≡◌, refl, true, false, [], ◌∷◌, ◌++◌, none, some, Bytes, codes, arith,
}
use mathlib.Core.Option
use quick_io.Common.Int.{pos}
use quick_io.Wire.{writes}
use quick_io.Wire.Examples.{decimal, decimal-Lawful, digits}
use quick_io.Raw.{handshake, protocol_raw_format}
use quick_io.Http.Text.{protocol_http_handles}
use quick_io.Client.Callbacks.{no_callbacks}
use quick_io.Protocols.Stream.{stream, all_effects}
use quick_io.Protocols.Events.{Message, MaskedMessage, raw_frame, web_frame, web_routed, routed}
use quick_io.Protocols.Dispatch.{
  Link, Protocol, protocols_route, protocols_send, protocols_new_surrogate, made,
  periodic_interval_usec, sec,
}
use quick_io.Protocols.Dispatch.Table.{protocols}
use quick_io.Protocols.Dispatch.Session.{connected, shaken_hands, receives, protocols_route-raw}
use quick_io.Rfc6455.Unmask.{four}
use quick_io.Rfc6455.Header.{masked}
use quick_io.Rfc6455.Frames.{qio_handshake}
use quick_io.Protocols.Dispatch.Upgrade.{
  http_101, hash_key, protocol_rfc6455_upgrade, socket, protocols_route-web,
}
use quick_io.Protocols.Dispatch.Beats.{
  silent, beats, periodic_run, is_closed, beats-is_closed, periodic_run-sends,
}

abbrev http : Protocol
http = record {
  handles = protocol_http_handles;
  handshake = none;
  route = none;
  heartbeat = none;
  frame = none;
  send = none;
  close = none;
}

abbrev ping : Message
ping = record { path = codes "/qio/ping"; extra = []; cb = 1; json = codes "null" }

protocols_route-raw_example :
    (protocols_route (protocols decimal http) (pos 5) connected ≡ some (shaken_hands (pos 5)))
    × (protocols_route
          (protocols decimal http)
          (pos 8)
          (receives (shaken_hands (pos 5)) (stream (raw_frame decimal) (ping ∷ ping ∷ [])))
        ≡ some (record (shaken_hands (pos 5)) {
          conn = record {
            rbuff = [];
            last_recv = pos 8;
            timeout = false;
            effects = writes handshake ∷ all_effects routed (ping ∷ ping ∷ []);
          };
        }))
unfolding protocol_raw_format digits
protocols_route-raw_example =
    protocols_route-raw decimal http refl decimal-Lawful (pos 5) (pos 8) ping (ping ∷ [])
      (omega arith)

abbrev every_ten_seconds : ℕ → ℕ
every_ten_seconds k = 7 + k * periodic_interval_usec

beats-is_closed_example :
    is_closed
      (beats decimal http 5_000 60 every_ten_seconds
        (λ k. 0)
        98
        (silent [] 7 (pos 7) [], no_callbacks)).0.conn.effects
    ≡ true
beats-is_closed_example =
    beats-is_closed decimal http 5_000 60 every_ten_seconds (λ k. 0) [] 7 (pos 7) [] no_callbacks
      (omega arith) (λ i. omega arith)

periodic_run-sends_example :
    let x =
      periodic_run
        (protocols decimal http)
        (pos 70_000_000)
        0
        5_000
        60
        (silent [] 7 (pos 7) [], no_callbacks) in
    (m : ℕ) × (x.0.last_send ≡ pos m)
    × (70_000_000 ≤ m + sec 51)
    × (is_closed x.0.conn.effects ≡ false)
periodic_run-sends_example =
    periodic_run-sends decimal http 5_000 60 70_000_000 7 7 0 [] no_callbacks (omega arith)

abbrev web_ping : MaskedMessage
web_ping = ((1, 2, 3, 4), ping)

abbrev same_bytes : Bytes → Bytes
same_bytes s = s

abbrev asked : Link
asked = socket true (pos 2) (record { rbuff = []; last_recv = pos 2; timeout = true; effects = [] })

protocols_route-web_example :
    let up = protocol_rfc6455_upgrade same_bytes same_bytes asked (codes "key") in
    let accept = same_bytes (same_bytes (codes "key" ++ hash_key)) ++ codes "\r\n\r\n" in
    let said =
      (asked.conn.effects ++ writes (http_101 ++ accept) ∷ []) ++ writes qio_handshake ∷ [] in
    let met =
      socket true
        (pos 5)
        (record { rbuff = []; last_recv = pos 5; timeout = false; effects = said }) in
    (protocols_route
        (protocols decimal http)
        (pos 5)
        (receives up (masked (four 9 8 7 6) handshake))
      ≡ some met)
    × (protocols_route
          (protocols decimal http)
          (pos 8)
          (receives met (stream (web_frame decimal) (web_ping ∷ web_ping ∷ [])))
        ≡ some (
            socket true (pos 5) (record {
              rbuff = [];
              last_recv = pos 8;
              timeout = false;
              effects = said ++ all_effects web_routed (web_ping ∷ web_ping ∷ []);
            })))
unfolding protocol_raw_format digits
protocols_route-web_example =
    protocols_route-web decimal decimal-Lawful http same_bytes same_bytes (codes "key") asked
      (pos 5) (pos 8) 9 8 7 6 web_ping (web_ping ∷ []) refl refl
      (
        (omega arith, omega arith, refl, omega arith),
        ((omega arith, omega arith, refl, omega arith), tt),
      )

-- A surrogate may be sent to before it has read anything.
surrogate_writes :
    Option.map
      (λ l. protocols_send (protocols decimal http) (pos 7) l (codes "/test") none 0 (codes "null"))
      (protocols_new_surrogate (pos 5) 2 (some connected))
    ≡ some (
        made
          (writes (
              raw_frame decimal
                (record { path = codes "/test"; extra = []; cb = 0; json = codes "null" }))
            ∷ [])
          (record connected {
            prot = some 2;
            handshaked = true;
            last_send = pos 7;
            conn = record connected.conn { timeout = false };
          }))
unfolding protocols_new_surrogate protocols_send
surrogate_writes = refl
