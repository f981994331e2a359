-- ===== src/Protocols/Dispatch.antt =====
-- src/protocols.c: what a client's protocol is asked for, from the first bytes to the last.
pub mod Table
pub mod Session
pub mod Upgrade
pub mod Beats
pub mod Examples
use quick_io.Common.{
  ℕ, zero, suc, ◌+◌, ◌*◌, Bool, true, false, ◌==◌, if◌then◌else◌, List, [], ◌∷◌, ◌++◌, map, Option,
  none, some, Bytes, length,
}
use quick_io.Common.Int.{ℤ, pos, ◌+ℤ◌, ◌-ℤ◌}
use quick_io.Wire.{
  ProtocolHandles, ProtocolStatus, prot_ok, prot_again, prot_fatal, CloseReason,
  qio_close_not_supported, qio_close_unknown_error, Effect, writes, closes, ProtocolHeartbeat,
  Route, Platform,
}
use quick_io.Protocols.{Conn, find_handler, route_all}

-- `struct protocol_frames`
pub record Frames : Type 0 where
  pub def : Option Bytes
  pub raw : Option Bytes

abbrev pub no_frames : Frames
no_frames = record { def = none; raw = none }

-- `struct protocol`, with `none` for a function that is NULL. `heartbeat` is given the times of
-- the last receipt and the last send, and gives the latter back.
pub record Protocol : Type 0 where
  pub handles : Bytes → ProtocolHandles
  pub handshake : Option (Bytes → Route)
  pub route : Option (Bytes → ℕ → Route)
  pub heartbeat : Option (ℤ → ℤ → ProtocolHeartbeat → ℤ → ℤ × List Effect)
  pub frame : Option (Bytes → Bytes → ℕ → Bytes → Frames)
  pub send : Option (Frames → List Effect)
  pub close : Option (CloseReason → List Effect)

-- `protocol` and `last_send` of `struct client`, with what the routing uses.
pub record Link : Type 0 where
  pub prot : Option ℕ
  pub handshaked : Bool
  pub last_send : ℤ
  pub conn : Conn

abbrev pub handles_of : Protocol → Bytes → ProtocolHandles
handles_of p = p.handles

-- `_protocols + i`
abbrev pub protocol_at : List Protocol → ℕ → Option Protocol
protocol_at [] i = none
protocol_at (p ∷ ps) zero = some p
protocol_at (p ∷ ps) (suc i) = protocol_at ps i

abbrev pub made : List Effect → Link → Link
made effects l = record l { conn = record l.conn { effects = l.conn.effects ++ effects } }

-- `_set_handshaked`
abbrev pub set_handshaked : ℤ → Link → Link
set_handshaked now l = record l {
  last_send = now;
  handshaked = true;
  conn = record l.conn { timeout = false };
}

-- The surrogate is what `qev_surrogate_new` gives, `none` where it is NULL.
unfoldable pub protocols_new_surrogate : ℤ → ℕ → Option Link → Option Link
protocols_new_surrogate now prot none = none
protocols_new_surrogate now prot (some l) =
    some (set_handshaked now (record l { prot = some prot }))

-- `_handshake`, with the protocol's answer.
pub handshake_answered : ℤ → Link → Route → Link
handshake_answered now l r =
    let l' = record l {
      conn = record l.conn { rbuff = r.rbuff; effects = l.conn.effects ++ r.effects };
    } in
    elim r.status [
      | prot_ok ↦ set_handshaked now l'
      | prot_again ↦ l'
      | prot_fatal ↦ made (closes qio_close_not_supported ∷ []) l'
    ]

abbrev pub with_conn : Link → Option Conn → Option Link
with_conn l none = none
with_conn l (some conn) = some (record l { conn = conn })

-- `_route`; a protocol that has no `route` is fatal.
pub route_with : ℤ → Link → Option (Bytes → ℕ → Route) → Option Link
unfolding route_all
route_with now l none = some (made (closes qio_close_unknown_error ∷ []) l)
route_with now l (some route) = with_conn l (route_all route now l.conn)

first_handshake : ℤ → Link → Protocol → Option (Bytes → Route) → Option Link
unfolding route_with handshake_answered
first_handshake now l p none = route_with now (set_handshaked now l) p.route
first_handshake now l p (some handshake) = some (handshake_answered now l (handshake l.conn.rbuff))

-- `protocols_route` for a client with the protocol `p`.
route_known : ℤ → Link → Option Protocol → Option Link
unfolding first_handshake route_with
route_known now l none = none
route_known now l (some p) =
    if l.handshaked then route_with now l p.route else first_handshake now l p p.handshake

-- `_find_handler`, then the same.
route_to : List Protocol → ℤ → Link → Option ℕ × List Effect → Option Link
unfolding route_known
route_to ps now l (none, effects) = some (made effects l)
route_to ps now l (some i, effects) =
    route_known now (made effects (record l { prot = some i })) (protocol_at ps i)

route_prot : List Protocol → ℤ → Link → Option ℕ → Option Link
unfolding route_to route_known find_handler
route_prot ps now l none = route_to ps now l (find_handler (map handles_of ps) l.conn.rbuff)
route_prot ps now l (some i) = route_known now l (protocol_at ps i)

-- `none` is a protocol that is none of the table, or a loop of `_route` with too few rounds.
unfoldable pub protocols_route : List Protocol → ℤ → Link → Option Link
unfolding route_prot
protocols_route ps now l =
    route_prot ps now (record l { conn = record l.conn { last_recv = now } }) l.prot

abbrev pub write_def : Option Bytes → List Effect
write_def none = []
write_def (some def) = writes def ∷ []

-- `_send`
pub send_frames : ℤ → Link → Option (Frames → List Effect) → Frames → Link
send_frames now l none frames = made (write_def frames.def) (record l { last_send = now })
send_frames now l (some send) frames = made (send frames) (record l { last_send = now })

-- The frames of one protocol; `frame` that is NULL gives none.
pub frames_of : Option (Bytes → Bytes → ℕ → Bytes → Frames) → Bytes → Bytes → ℕ → Bytes → Frames
frames_of none ev_path ev_extra server_cb json = no_frames
frames_of (some frame) ev_path ev_extra server_cb json = frame ev_path ev_extra server_cb json

abbrev pub known : List Protocol → Option ℕ → Option Protocol
known ps none = none
known ps (some i) = protocol_at ps i

pub send_known : ℤ → Link → Option Protocol → Bytes → Bytes → ℕ → Bytes → Link
unfolding send_frames frames_of
send_known now l none ev_path ev_extra server_cb json = l
send_known now l (some p) ev_path ev_extra server_cb json =
    send_frames now l p.send (frames_of p.frame ev_path ev_extra server_cb json)

-- A client that has handshaked has a protocol of the table with a `frame`.
unfoldable pub protocols_send : List Protocol → ℤ → Link → Bytes → Option Bytes → ℕ → Bytes → Link
unfolding send_known
protocols_send ps now l ev_path ev_extra server_cb json =
    if l.handshaked
    then send_known now l (known ps l.prot) ev_path (elim ev_extra [ none ↦ [] | some e ↦ e ])
        server_cb json
    else l

-- `protocols_bcast`: the frames of every protocol, by its `id`.
unfoldable pub protocols_bcast : List Protocol → Bytes → Bytes → List Frames
unfolding frames_of
protocols_bcast [] ev_path json = []
protocols_bcast (p ∷ ps) ev_path json =
    frames_of p.frame ev_path [] 0 json ∷ protocols_bcast ps ev_path json

abbrev pub frames_at : List Frames → ℕ → Frames
frames_at [] i = no_frames
frames_at (f ∷ fs) zero = f
frames_at (f ∷ fs) (suc i) = frames_at fs i

pub write_at : ℤ → Link → Option Protocol → Frames → Option Link
unfolding send_frames
write_at now l none frames = none
write_at now l (some p) frames = some (send_frames now l p.send frames)

-- The `id` of the protocol is read before anything is tested.
pub write_known : ℤ → Link → Option ℕ → List Protocol → List Frames → Option Link
unfolding write_at
write_known now l none ps frames = none
write_known now l (some i) ps frames =
    if l.handshaked then write_at now l (protocol_at ps i) (frames_at frames i) else some l

-- `none` is a read through the protocol of a client that has none, or none of the table.
unfoldable pub protocols_bcast_write : List Protocol → ℤ → Link → List Frames → Option Link
unfolding write_known
protocols_bcast_write ps now l frames = write_known now l l.prot ps frames

closed_by : Link → Option Protocol → CloseReason → Link
closed_by l none reason = l
closed_by l (some p) reason = elim p.close [ none ↦ l | some close ↦ made (close reason) l ]

-- `protocols_closed`; the flags of a protocol are no part of the state.
unfoldable pub protocols_closed : List Protocol → Link → CloseReason → Link
unfolding closed_by
protocols_closed ps l reason = closed_by l (known ps l.prot) reason

beat_with :
    ℤ → Link → Option (ℤ → ℤ → ProtocolHeartbeat → ℤ → ℤ × List Effect) → ProtocolHeartbeat → Link
beat_with now l none hb = l
beat_with now l (some heartbeat) hb =
    let (last_send, effects) = heartbeat l.conn.last_recv l.last_send hb now in
    made effects (record l { last_send = last_send })

beat_known : ℤ → Link → Option Protocol → ProtocolHeartbeat → Link
unfolding beat_with
beat_known now l none hb = l
beat_known now l (some p) hb = beat_with now l p.heartbeat hb

unfoldable pub protocols_heartbeat : List Protocol → ℤ → Link → ProtocolHeartbeat → Link
unfolding beat_known
protocols_heartbeat ps now l hb = if l.handshaked then beat_known now l (known ps l.prot) hb else l

-- `protocols_switch`
unfoldable pub protocols_switch : Link → ℕ → Link
protocols_switch l i = record l { prot = some i; handshaked = false }

-- `QEV_SEC_TO_USEC`
abbrev pub sec : ℕ → ℕ
sec n = n * 1_000_000

abbrev pub periodic_interval_usec : ℕ
periodic_interval_usec = sec 10

-- `timeout_ms` is `qev_cfg_get_timeout()`.
unfoldable pub protocols_heartbeat_get_intervals : ℤ → ℕ → ProtocolHeartbeat
protocols_heartbeat_get_intervals now timeout_ms = record {
  timeout = now -ℤ pos (timeout_ms * 1_000);
  poll = now -ℤ pos (sec 55) +ℤ pos periodic_interval_usec;
  heartbeat = now -ℤ pos (sec 61) +ℤ pos periodic_interval_usec;
  challenge = now -ℤ pos (sec (60 * 15));
  dead = now -ℤ pos (sec (60 * 15) + sec 60);
}
