-- ===== src/Raw.antt =====
-- src/protocols_raw.c: events as text behind a length of 8 bytes.
pub mod Moves
pub mod Stream
pub mod Examples
use quick_io.Common.{
  ℕ, ◌+◌, ◌-◌, ◌^◌, Bool, true, false, not, ◌&&◌, ◌||◌, ◌==◌, ltb, if◌then◌else◌, List, [], ◌∷◌,
  ◌++◌, Option, none, some, Bytes, length, take, drop, equal, codes,
}
use quick_io.Common.Int.{ℤ, ltb_ℤ}
use quick_io.Buffer.{read, write, c_string, from_be, to_be}
use quick_io.Wire.{
  ProtocolHandles, prot_yes, prot_maybe, prot_no, ProtocolStatus, prot_ok, prot_again, prot_fatal,
  raw_invalid_event_format, raw_heartattack, Effect, writes, closes, routes, challenges,
  ProtocolHeartbeat, Route, Parsed, Platform,
}

-- `HANDSHAKE`
abbrev pub handshake : Bytes
handshake = codes "/qio/ohai"

-- `g_str_has_prefix(s, front)`
abbrev pub has_prefix : Bytes → Bytes → Bool
has_prefix s [] = true
has_prefix [] (c ∷ front) = false
has_prefix (d ∷ s) (c ∷ front) = d == c && has_prefix s front

-- The buffer as the C string that the tests read.
unfoldable pub protocol_raw_handles : Bytes → ProtocolHandles
unfolding equal c_string
protocol_raw_handles rbuff =
    if equal (c_string rbuff) handshake
    then prot_yes
    else if has_prefix handshake (c_string rbuff)
    then prot_maybe
    else prot_no

-- The answer is written, and the buffer is emptied.
unfoldable pub protocol_raw_handshake : Bytes → Route
protocol_raw_handshake rbuff = record {
  status = prot_ok;
  used = 0;
  rbuff = [];
  effects = writes handshake ∷ [];
}

-- Whether the buffer held the handshake, and the buffer after.
unfoldable pub protocol_raw_check_handshake : Bytes → Bool × Bytes
unfolding equal c_string
protocol_raw_check_handshake rbuff = (equal (c_string rbuff) handshake, [])

abbrev front_byte : ℕ → Option (Bytes × Bytes) → Option (Bytes × Bytes)
front_byte c none = none
front_byte c (some (front, back)) = some (c ∷ front, back)

-- `strchr(event, ':')`: what stands before and behind it.
pub split_colon : Bytes → Option (Bytes × Bytes)
split_colon [] = none
split_colon (c ∷ cs) =
    let rest = front_byte c (split_colon cs) in if c == b':' then some ([], cs) else rest

starts_with_equals : Bytes → Bool
starts_with_equals [] = false
starts_with_equals (c ∷ cs) = c == b'='

-- `json = end + 1`, where `*end` is '='.
abbrev after_end : Bytes → Bytes
after_end [] = []
after_end (c ∷ cs) = cs

-- `G_MAXUINT64`
abbrev max_uint64 : ℕ
max_uint64 = 2 ^ 64 - 1

module _ (pf : Platform) where
  open pf use {show_uint, strtoull, safe_uadd}

  -- The tests on what `g_ascii_strtoull` left, then `evs_route`.
  handle_parsed : Bytes → Parsed → ProtocolStatus × List Effect
  unfolding starts_with_equals
  handle_parsed ev_path p =
      if not (starts_with_equals p.rest) || not p.moved || p.value == max_uint64 && p.erange
      then (prot_fatal, closes raw_invalid_event_format ∷ [])
      else (prot_ok, routes ev_path p.value (after_end p.rest) ∷ [])

  handle_split : Option (Bytes × Bytes) → ProtocolStatus × List Effect
  unfolding handle_parsed
  handle_split none = (prot_fatal, closes raw_invalid_event_format ∷ [])
  handle_split (some (ev_path, curr)) = handle_parsed ev_path (strtoull curr)

  unfoldable pub protocol_raw_handle : Bytes → ProtocolStatus × List Effect
  unfolding handle_split split_colon
  protocol_raw_handle event = handle_split (split_colon event)

  -- `memmove`, the NUL behind the event, and `protocol_raw_handle` on the string at `start`.
  route_event : ℕ → ℕ → ℕ → Bytes → Route
  unfolding protocol_raw_handle c_string
  route_event used len total_len rbuff =
      let moved = write used (read (used + 8) len rbuff) rbuff in
      let ended = write (used + len) (0 ∷ []) moved in
      let (status, effects) = protocol_raw_handle (c_string (drop used ended)) in
      record { status = status; used = used + total_len; rbuff = ended; effects = effects }

  route_sized : ℕ → ℕ → Option ℕ → Bytes → Route
  unfolding route_event
  route_sized used len none rbuff = record {
    status = prot_fatal;
    used = used;
    rbuff = rbuff;
    effects = [];
  }
  route_sized used len (some total_len) rbuff =
      if ltb (length rbuff - used) total_len
      then record { status = prot_again; used = used; rbuff = rbuff; effects = [] }
      else route_event used len total_len rbuff

  unfoldable pub protocol_raw_route : Bytes → ℕ → Route
  unfolding route_sized from_be
  protocol_raw_route rbuff used =
      if ltb (length rbuff - used) 8
      then record { status = prot_again; used = used; rbuff = rbuff; effects = [] }
      else let len = from_be 0 (read used 8 rbuff) in route_sized used len (safe_uadd len 8) rbuff

  unfoldable pub protocol_raw_format : Bytes → Bytes → ℕ → Bytes → Bytes
  protocol_raw_format ev_path ev_extra server_cb json =
      ev_path ++ (ev_extra ++ (b':' ∷ (show_uint server_cb ++ (b'=' ∷ json))))

  -- The `def` frame; there is no other.
  unfoldable pub protocol_raw_frame : Bytes → Bytes → ℕ → Bytes → Bytes
  unfolding protocol_raw_format to_be
  protocol_raw_frame ev_path ev_extra server_cb json =
      let buff = protocol_raw_format ev_path ev_extra server_cb json in
      to_be 8 (length buff) ++ buff

-- `protocol_raw_do_heartbeat`: the new `last_send`, and the calls made; `now` is `qev_monotonic`.
-- `challenges` is the call of `evs_send_bruteforce`, which sends, so `last_send` is now.
unfoldable pub protocol_raw_do_heartbeat : ℤ → ℤ → ProtocolHeartbeat → Bytes → ℤ → ℤ × List Effect
protocol_raw_do_heartbeat last_recv last_send hb heartbeat now =
    if ltb_ℤ last_recv hb.dead
    then (last_send, closes raw_heartattack ∷ [])
    else if ltb_ℤ last_recv hb.challenge
    then (now, challenges ∷ [])
    else if ltb_ℤ last_send hb.heartbeat
    then (now, writes heartbeat ∷ [])
    else (last_send, [])

-- `PROTOCOLS_HEARTBEAT`, and `HEARTBEAT` of the raw protocol.
abbrev pub protocols_heartbeat_text : Bytes
protocols_heartbeat_text = codes "/qio/heartbeat:0=null"

abbrev pub raw_heartbeat_frame : Bytes
raw_heartbeat_frame = 0 ∷ 0 ∷ 0 ∷ 0 ∷ 0 ∷ 0 ∷ 0 ∷ 0x15 ∷ protocols_heartbeat_text

unfoldable pub protocol_raw_heartbeat : ℤ → ℤ → ProtocolHeartbeat → ℤ → ℤ × List Effect
unfolding protocol_raw_do_heartbeat
protocol_raw_heartbeat last_recv last_send hb now =
    protocol_raw_do_heartbeat last_recv last_send hb raw_heartbeat_frame now
