-- ===== src/Protocols/Dispatch/Upgrade.antt =====
-- From an HTTP request to a WebSocket: `protocol_rfc6455_upgrade` of src/protocols_rfc6455.c, and what the
-- dispatcher of src/protocols.c makes of the client's frames behind it.
use mathlib.Core.Path.{subst}
use quick_io.Common.{
  ℕ, ◌≡◌, refl, sym, ap, ◌∙◌, Bool, true, false, List, [], ◌∷◌, ◌++◌, append-nil, some, Bytes, All,
  equal, codes, arith,
}
use quick_io.Common.Int.{ℤ}
use quick_io.Wire.{writes, Platform, Lawful}
use quick_io.Raw.{handshake}
use quick_io.Rfc6455.Unmask.{four}
use quick_io.Rfc6455.Header.{masked}
use quick_io.Rfc6455.Frames.{Shaken, qio_handshake, protocol_rfc6455_handshake}
use quick_io.Rfc6455.Handshake.{protocol_rfc6455_handshake-masked}
use quick_io.Protocols.Stream.{stream, all_effects}
use quick_io.Protocols.Events.{MaskedMessage, FitsWeb, web_frame, web_routed, route_all-web}
use quick_io.Protocols.{Conn}
use quick_io.Protocols.Dispatch.{
  Protocol, Link, made, protocols_switch, protocols_route, handshake_answered, route_with,
  with_conn, route_known,
}
use quick_io.Protocols.Dispatch.Table.{protocols, shaken}
use quick_io.Protocols.Dispatch.Session.{receives}

-- `HTTP_101`, `HTTP_NOCACHE` and `HASH_KEY`.
abbrev pub http_nocache : Bytes
http_nocache = codes "Cache-Control: private, max-age=0\r\nExpires: -1\r\n"

abbrev pub http_101 : Bytes
http_101 =
    codes "HTTP/1.1 101 Switching Protocols\r\nUpgrade: websocket\r\nConnection: Upgrade\r\n"
    ++ (codes "Access-Control-Allow-Origin: *\r\nSec-WebSocket-Protocol: quickio\r\n"
        ++ (http_nocache ++ codes "Sec-WebSocket-Accept: "))

abbrev pub hash_key : Bytes
hash_key = codes "258EAFA5-E914-47DA-95CA-C5AB0DC85B11"

-- `sha1` and `base64` are SHA1 and GLib's encoder; the new protocol is the fourth of the table.
unfoldable pub protocol_rfc6455_upgrade : (Bytes → Bytes) → (Bytes → Bytes) → Link → Bytes → Link
unfolding protocols_switch
protocol_rfc6455_upgrade sha1 base64 l key =
    protocols_switch
      (made (writes (http_101 ++ (base64 (sha1 (key ++ hash_key)) ++ codes "\r\n\r\n")) ∷ []) l) 3

-- The client with that protocol, its handshake made or not.
abbrev pub socket : Bool → ℤ → Conn → Link
socket handshaked last_send conn = record {
  prot = some 3;
  handshaked = handshaked;
  last_send = last_send;
  conn = conn;
}

abbrev pub shaken_conn : ℤ → Conn → Bytes → Conn
shaken_conn now c rbuff = record {
  rbuff = rbuff;
  last_recv = now;
  timeout = false;
  effects = c.effects ++ writes qio_handshake ∷ [];
}

module _ (pf : Platform) (ok : Lawful pf) (http : Protocol) where
  -- A frame with the handshake, where the dispatcher knows the protocol and waits for it.
  shakes :
      (now last_send : ℤ) (c : Conn) (a b d e : ℕ)
      → pf.utf8_validate handshake ≡ true
      → protocols_route
          (protocols pf http)
          now
          (socket false last_send (record c { rbuff = masked (four a b d e) handshake }))
        ≡ some (socket true now (shaken_conn now c []))
  unfolding protocols_route route_known handshake_answered equal
  shakes now last_send c a b d e u =
      let frame = masked (four a b d e) handshake in
      subst
        (λ (s : Shaken).
          some (
            handshake_answered now
              (socket false last_send (record c { rbuff = frame; last_recv = now })) (shaken s))
          ≡ some (socket true now (shaken_conn now c [])))
        (sym (
          ap (protocol_rfc6455_handshake pf) (sym (append-nil frame))
          ∙ protocol_rfc6455_handshake-masked pf ok a b d e handshake [] (omega arith) (omega arith)
              u (omega arith)))
        refl

  -- A client with no bytes left that is upgraded to a WebSocket, sends the handshake in a masked
  -- frame, and then any masked frames of valid text: the handshake is answered behind the 101 with the
  -- hash of its key, and each event is routed to its path, with its callback and its JSON, in
  -- the order it was sent.
  pub protocols_route-web :
      (sha1 base64 : Bytes → Bytes) (key : Bytes) (l : Link) (t t' : ℤ) (a b d e : ℕ)
      (m : MaskedMessage) (ms : List MaskedMessage)
      → l.conn.rbuff ≡ []
      → pf.utf8_validate handshake ≡ true
      → All (FitsWeb pf) (m ∷ ms)
      → let up = protocol_rfc6455_upgrade sha1 base64 l key in
        let accept = base64 (sha1 (key ++ hash_key)) ++ codes "\r\n\r\n" in
        let said =
          (l.conn.effects ++ writes (http_101 ++ accept) ∷ []) ++ writes qio_handshake ∷ [] in
        let met =
          socket true t (record { rbuff = []; last_recv = t; timeout = false; effects = said }) in
        (protocols_route (protocols pf http) t (receives up (masked (four a b d e) handshake))
          ≡ some met)
        × (protocols_route (protocols pf http) t' (receives met (stream (web_frame pf) (m ∷ ms)))
            ≡ some (
                socket true t (record {
                  rbuff = [];
                  last_recv = t';
                  timeout = false;
                  effects = said ++ all_effects web_routed (m ∷ ms);
                })))
  unfolding protocol_rfc6455_upgrade protocols_switch protocols_route route_with route_known
  protocols_route-web sha1 base64 key l t t' a b d e m ms empty u fits =
      let up = protocol_rfc6455_upgrade sha1 base64 l key in
      let said = up.conn.effects ++ writes qio_handshake ∷ [] in
      (
        ap
              (λ (s : Bytes). protocols_route (protocols pf http) t (
                socket false up.last_send
                  (record up.conn { rbuff = s ++ masked (four a b d e) handshake })))
              empty
            ∙ shakes t up.last_send up.conn a b d e u,
        ap
            (with_conn (
              socket true t (record {
                rbuff = stream (web_frame pf) (m ∷ ms);
                last_recv = t';
                timeout = false;
                effects = said;
              })))
            (route_all-web pf ok t'
              (record {
                rbuff = stream (web_frame pf) (m ∷ ms);
                last_recv = t';
                timeout = false;
                effects = said;
              })
              m ms refl fits),
      )
