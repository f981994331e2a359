-- ===== src/Protocols/Dispatch/Session.antt =====
-- Sends and broadcasts of src/protocols.c, and a client of the raw protocol from its first bytes on.
use mathlib.Core.Path.{subst}
use quick_io.Common.{
  ℕ, zero, suc, ◌≡◌, refl, sym, ap, Bool, true, false, if◌then◌else◌, List, [], ◌∷◌, ◌++◌, Option,
  none, some, Bytes, All, equal,
}
use quick_io.Common.Int.{ℤ, pos}
use quick_io.Buffer.{c_string}
use quick_io.Wire.{Effect, writes, ProtocolHandles, Platform, Lawful}
use quick_io.Raw.{handshake, protocol_raw_handles, protocol_raw_handshake}
use quick_io.Http.Text.{protocol_http_handles, strstr}
use quick_io.Protocols.Stream.{stream, all_effects}
use quick_io.Protocols.Events.{Message, FitsRaw, raw_frame, routed, route_all-raw}
use quick_io.Protocols.{find_handler, find_from}
use quick_io.Protocols.Dispatch.{
  Protocol, Link, Frames, protocol_at, known, frames_of, frames_at, protocols_bcast,
  protocols_bcast_write, protocols_send, protocols_route, write_at, write_known, send_known,
  send_frames, with_conn, route_with,
}
use quick_io.Protocols.Dispatch.Table.{protocols, protocol_flash_handles}

frames_at-bcast :
    (ps : List Protocol) (i : ℕ) (p : Protocol) (ev_path json : Bytes)
    → protocol_at ps i ≡ some p
    → frames_at (protocols_bcast ps ev_path json) i ≡ frames_of p.frame ev_path [] 0 json
unfolding protocols_bcast
frames_at-bcast [] i p ev_path json e = cc
frames_at-bcast (q ∷ ps) zero p ev_path json e = cc
frames_at-bcast (q ∷ ps) (suc i) p ev_path json e = frames_at-bcast ps i p ev_path json e

-- A protocol of the table.
abbrev pub Known : List Protocol → Option ℕ → Type 0
Known ps prot = (p : Protocol) × (known ps prot ≡ some p)

write_known-send_known :
    (ps : List Protocol) (now : ℤ) (l : Link) (o : Option ℕ) (ev_path json : Bytes)
    → Known ps o
    → write_known now l o ps (protocols_bcast ps ev_path json)
      ≡ some (if l.handshaked then send_known now l (known ps o) ev_path [] 0 json else l)
unfolding write_known write_at send_known
write_known-send_known ps now l none ev_path json (p, e) = cc
write_known-send_known ps now l (some i) ev_path json (p, e) = by_shaken l.handshaked
  where
    by_shaken :
        (b : Bool)
        → (if b
            then write_at now l (protocol_at ps i) (frames_at (protocols_bcast ps ev_path json) i)
            else some l)
          ≡ some (if b then send_known now l (protocol_at ps i) ev_path [] 0 json else l)
    by_shaken false = refl
    by_shaken true = rw e (
        ap (λ (f : Frames). some (send_frames now l p.send f))
          (frames_at-bcast ps i p ev_path json e))

-- A broadcast, whose frames are made once for all protocols, leaves a client that has a protocol
-- exactly as a send of the same event to it does: the same frame of its own protocol, written the
-- same way.
pub protocols_bcast_write-protocols_send :
    (ps : List Protocol) (now : ℤ) (l : Link) (ev_path json : Bytes)
    → Known ps l.prot
    → protocols_bcast_write ps now l (protocols_bcast ps ev_path json)
      ≡ some (protocols_send ps now l ev_path none 0 json)
unfolding protocols_bcast_write protocols_send
protocols_bcast_write-protocols_send ps now l ev_path json k =
    write_known-send_known ps now l l.prot ev_path json k

prot-send_known :
    (now : ℤ) (l : Link) (o : Option Protocol) (ev_path ev_extra : Bytes) (server_cb : ℕ)
    (json : Bytes)
    → (send_known now l o ev_path ev_extra server_cb json).prot ≡ l.prot
unfolding send_known
prot-send_known now l none ev_path ev_extra server_cb json = refl
prot-send_known now l (some p) ev_path ev_extra server_cb json = by_send p.send
  where
    by_send :
        (o : Option (Frames → List Effect))
        → (send_frames now l o (frames_of p.frame ev_path ev_extra server_cb json)).prot ≡ l.prot
    by_send none = (unfold send_frames in refl)
    by_send (some send) = (unfold send_frames in refl)

-- A send does not change the protocol.
pub prot-protocols_send :
    (ps : List Protocol) (now : ℤ) (l : Link) (ev_path : Bytes) (ev_extra : Option Bytes)
    (server_cb : ℕ) (json : Bytes)
    → (protocols_send ps now l ev_path ev_extra server_cb json).prot ≡ l.prot
unfolding protocols_send
prot-protocols_send ps now l ev_path ev_extra server_cb json = by_shaken l.handshaked
  where
    extra : Bytes
    extra = elim ev_extra [ none ↦ [] | some e ↦ e ]

    by_shaken :
        (b : Bool)
        → (if b then send_known now l (known ps l.prot) ev_path extra server_cb json else l).prot
          ≡ l.prot
    by_shaken false = refl
    by_shaken true = prot-send_known now l (known ps l.prot) ev_path extra server_cb json

-- A client that has only connected, and has sent the handshake of the raw protocol.
abbrev pub connected : Link
connected = record {
  prot = none;
  handshaked = false;
  last_send = pos 0;
  conn = record { rbuff = handshake; last_recv = pos 0; timeout = true; effects = [] };
}

abbrev pub shaken_hands : ℤ → Link
shaken_hands now = record {
  prot = some 2;
  handshaked = true;
  last_send = now;
  conn = record { rbuff = []; last_recv = now; timeout = false; effects = writes handshake ∷ [] };
}

-- What is read is put behind the buffer.
abbrev pub receives : Link → Bytes → Link
receives l s = record l { conn = record l.conn { rbuff = l.conn.rbuff ++ s } }

module _ (pf : Platform) (http : Protocol) (is_http : http.handles ≡ protocol_http_handles) where
  connected-raw :
      (now : ℤ) → protocols_route (protocols pf http) now connected ≡ some (shaken_hands now)
  unfolding protocols_route find_handler find_from protocol_raw_handles protocol_flash_handles
      protocol_http_handles protocol_raw_handshake strstr equal c_string
  connected-raw now =
      subst
        (λ (h : Bytes → ProtocolHandles).
          protocols_route (protocols pf (record http { handles = h })) now connected
          ≡ some (shaken_hands now))
        (sym is_http) refl

  -- A client whose first bytes are the handshake of the raw protocol is given that protocol by the
  -- table, whatever else the HTTP protocol does, and the handshake is answered. What it then sends
  -- as whole frames of text is routed: each event to its path, with its callback and its JSON, in
  -- the order it was sent, and the buffer is empty again.
  pub protocols_route-raw :
      Lawful pf
      → (t t' : ℤ) (m : Message) (ms : List Message) → All (FitsRaw pf) (m ∷ ms)
      → (protocols_route (protocols pf http) t connected ≡ some (shaken_hands t))
        × (protocols_route
              (protocols pf http)
              t'
              (receives (shaken_hands t) (stream (raw_frame pf) (m ∷ ms)))
            ≡ some (record (shaken_hands t) {
              conn = record {
                rbuff = [];
                last_recv = t';
                timeout = false;
                effects = writes handshake ∷ all_effects routed (m ∷ ms);
              };
            }))
  unfolding protocols_route route_with
  protocols_route-raw ok t t' m ms fits = (
    connected-raw t,
    ap (with_conn (shaken_hands t)) (
        route_all-raw pf ok t'
          (record {
            rbuff = stream (raw_frame pf) (m ∷ ms);
            last_recv = t';
            timeout = false;
            effects = writes handshake ∷ [];
          })
          m ms refl fits),
  )
