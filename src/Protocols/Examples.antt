-- ===== src/Protocols/Examples.antt =====
-- A raw and a WebSocket client, each with two events in the buffer.
use quick_io.Common.{◌≡◌, refl, true, false, [], ◌∷◌, ◌++◌, some, codes, arith}
use quick_io.Common.Int.{pos}
use quick_io.Wire.Examples.{decimal, decimal-Lawful, digits}
use quick_io.Raw.{protocol_raw_handles, protocol_raw_route, protocol_raw_format}
use quick_io.Rfc6455.{protocol_rfc6455_route}
use quick_io.Rfc6455.Frames.{protocol_rfc6455_handles}
use quick_io.Protocols.Stream.{stream, all_effects}
use quick_io.Protocols.Events.{
  Message, routed, raw_frame, web_frame, web_routed, route_all-raw, route_all-web,
}
use quick_io.Protocols.{Conn, find_handler, route_all}

abbrev ping_message : Message
ping_message = record { path = codes "/qio/ping"; extra = []; cb = 1; json = codes "null" }

abbrev on_message : Message
on_message = record { path = codes "/qio"; extra = codes "/on"; cb = 2; json = codes "null" }

abbrev raw_conn : Conn
raw_conn = record {
  rbuff = stream (raw_frame decimal) (ping_message ∷ on_message ∷ []);
  last_recv = pos 5;
  timeout = true;
  effects = [];
}

abbrev web_conn : Conn
web_conn = record {
  rbuff =
      stream (web_frame decimal) (((1, 2, 3, 4), ping_message) ∷ ((250, 0, 7, 9), on_message) ∷ []);
  last_recv = pos 5;
  timeout = true;
  effects = [];
}

raw_client :
    find_handler (protocol_rfc6455_handles ∷ protocol_raw_handles ∷ []) (codes "/qio/ohai")
    ≡ (some 1, [])
unfolding find_handler protocol_rfc6455_handles protocol_raw_handles
raw_client = refl

route_all-raw_example :
    route_all (protocol_raw_route decimal) (pos 9) raw_conn
    ≡ some (record {
      rbuff = [];
      last_recv = pos 9;
      timeout = false;
      effects = [] ++ all_effects routed (ping_message ∷ on_message ∷ []);
    })
unfolding protocol_raw_format digits
route_all-raw_example =
    route_all-raw decimal decimal-Lawful (pos 9) raw_conn ping_message (on_message ∷ []) refl
      (omega arith)

route_all-web_example :
    route_all (protocol_rfc6455_route decimal) (pos 9) web_conn
    ≡ some (record {
      rbuff = [];
      last_recv = pos 9;
      timeout = false;
      effects =
          []
          ++ all_effects web_routed
              (((1, 2, 3, 4), ping_message) ∷ ((250, 0, 7, 9), on_message) ∷ []);
    })
unfolding protocol_raw_format digits
route_all-web_example =
    route_all-web decimal decimal-Lawful (pos 9) web_conn ((1, 2, 3, 4), ping_message)
      (((250, 0, 7, 9), on_message) ∷ []) refl
      (
        (omega arith, omega arith, refl, omega arith),
        ((omega arith, omega arith, refl, omega arith), tt),
      )
