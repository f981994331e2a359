-- ===== src/Rfc6455/Frames.antt =====
-- What src/protocols_rfc6455.c writes: frames, close frames and heartbeats; and the handshake.
use quick_io.Common.{
  ℕ, ◌%◌, ◌^◌, ◌<◌, ◌≡◌, refl, Bool, true, false, ◌==◌, ltb, leb, List, [], ◌∷◌, ◌++◌, some, none,
  Option, Bytes, length, drop, take, if◌then◌else◌, Bool-cases, inl, inr, codes, arith,
}
use quick_io.Common.Int.{ℤ}
use quick_io.Buffer.{from_be, to_be}
use quick_io.Buffer.Laws.{from_be-to_be, take_front, drop_front}
use quick_io.Raw.{
  protocol_raw_format, protocol_raw_do_heartbeat, protocols_heartbeat_text,
  protocol_raw_check_handshake, handshake,
}
use quick_io.Wire.{
  ProtocolHandles, prot_no, ProtocolStatus, prot_ok, prot_again, prot_fatal, CloseReason,
  qev_close_hup, qio_close_not_supported, qio_close_unknown_error, qio_close_done, raw_heartattack,
  rfc6455_missing_upgrade, http_done, http_no_surrogate, http_bad_request, http_length_required,
  other, ProtocolHeartbeat, qev_close_exiting, qev_close_timeout, qev_close_out_of_mem,
  qio_close_invalid_handshake, raw_invalid_event_format, rfc6455_no_mask,
  rfc6455_unsupported_opcode, rfc6455_not_utf8, Effect, writes, closes, Platform,
}
use quick_io.Rfc6455.{decode, Decoded}

-- Another protocol hands its clients over; no first bytes are answered.
unfoldable pub protocol_rfc6455_handles : Bytes → ProtocolHandles
protocol_rfc6455_handles rbuff = prot_no

-- `QIO_HANDSHAKE`
abbrev pub qio_handshake : Bytes
qio_handshake = 0x81 ∷ 0x09 ∷ handshake

-- What a handshake leaves: its status, the buffer and the calls made.
abbrev pub Shaken : Type 0
Shaken = ProtocolStatus × Bytes × List Effect

unfoldable pub answer_handshake : Bool × Bytes → Shaken
answer_handshake (true, rbuff) = (prot_ok, rbuff, writes qio_handshake ∷ [])
answer_handshake (false, rbuff) = (prot_fatal, rbuff, closes qio_close_invalid_handshake ∷ [])

unfoldable pub shake_decoded : Decoded → Shaken
unfolding answer_handshake protocol_raw_check_handshake
shake_decoded d = elim d.status [
  | prot_ok ↦ answer_handshake (protocol_raw_check_handshake d.rbuff)
  | prot_again ↦ (prot_again, d.rbuff, d.effects)
  | prot_fatal ↦ (prot_fatal, d.rbuff, d.effects)
]

unfoldable pub protocol_rfc6455_handshake : Platform → Bytes → Shaken
unfolding shake_decoded decode
protocol_rfc6455_handshake pf rbuff = shake_decoded (decode pf rbuff 0)

-- `HEARTBEAT`
abbrev pub rfc6455_heartbeat_frame : Bytes
rfc6455_heartbeat_frame = 0x81 ∷ 0x15 ∷ protocols_heartbeat_text

unfoldable pub protocol_rfc6455_heartbeat : ℤ → ℤ → ProtocolHeartbeat → ℤ → ℤ × List Effect
unfolding protocol_raw_do_heartbeat
protocol_rfc6455_heartbeat last_recv last_send hb now =
    protocol_raw_do_heartbeat last_recv last_send hb rfc6455_heartbeat_frame now

-- The opcode, the length and the text; the only frame is `def`.
framed_text : Bytes → Bytes
unfolding to_be
framed_text raw =
    let len = length raw in
    if leb len 125
    then 0x81 ∷ len % 256 ∷ raw
    else if leb len 0xffff
    then 0x81 ∷ 126 ∷ to_be 2 len ++ raw
    else 0x81 ∷ 127 ∷ to_be 8 len ++ raw

unfoldable pub protocol_rfc6455_frame : Platform → Bytes → Bytes → ℕ → Bytes → Bytes
unfolding framed_text protocol_raw_format
protocol_rfc6455_frame pf ev_path ev_extra server_cb json =
    framed_text (protocol_raw_format pf ev_path ev_extra server_cb json)

-- The bytes that `protocol_rfc6455_close` writes.
unfoldable pub protocol_rfc6455_close : CloseReason → Bytes
protocol_rfc6455_close qev_close_exiting = 0x88 ∷ 0x02 ∷ 0x03 ∷ 0xe9 ∷ []
protocol_rfc6455_close qio_close_invalid_handshake =
    0x88 ∷ 0x13 ∷ 0x03 ∷ 0xea ∷ codes "invalid handshake"
protocol_rfc6455_close raw_invalid_event_format =
    0x88 ∷ 0x16 ∷ 0x03 ∷ 0xea ∷ codes "invalid event format"
protocol_rfc6455_close rfc6455_no_mask = 0x88 ∷ 0x17 ∷ 0x03 ∷ 0xea ∷ codes "client must mask data"
protocol_rfc6455_close rfc6455_unsupported_opcode = 0x88 ∷ 0x02 ∷ 0x03 ∷ 0xeb ∷ []
protocol_rfc6455_close rfc6455_not_utf8 = 0x88 ∷ 0x02 ∷ 0x03 ∷ 0xef ∷ []
protocol_rfc6455_close qev_close_timeout = 0x88 ∷ 0x10 ∷ 0x03 ∷ 0xf0 ∷ codes "client timeout"
protocol_rfc6455_close qev_close_out_of_mem = 0x88 ∷ 0x02 ∷ 0x03 ∷ 0xf1 ∷ []
protocol_rfc6455_close reason = 0x88 ∷ 0x00 ∷ []

-- A client's reading of a frame that is not masked (RFC 6455, 5.2): its first byte, its text, and
-- what follows it.
abbrev split_at : ℕ → ℕ → Bytes → ℕ × Bytes × Bytes
split_at first n s = (first, take n s, drop n s)

unfoldable pub peer_read : Bytes → Option (ℕ × Bytes × Bytes)
unfolding from_be
peer_read (first ∷ n ∷ s) =
    if ltb n 126
    then some (split_at first n s)
    else if n == 126
    then some (split_at first (from_be 0 (take 2 s)) (drop 2 s))
    else if n == 127
    then some (split_at first (from_be 0 (take 8 s)) (drop 8 s))
    else none
peer_read (first ∷ []) = none
peer_read [] = none

framed_text-peer_read :
    (raw back : Bytes)
    → length raw < 2 ^ 64
    → peer_read (framed_text raw ++ back) ≡ some (0x81, raw, back)
unfolding framed_text peer_read to_be
framed_text-peer_read raw back lt = elim (Bool-cases (leb (length raw) 125)) [
  | inl short ↦
      let byte : length raw % 256 ≡ length raw = ground arith in
      let low : ltb (length raw) 126 ≡ true = ground arith in
      rw (short, byte, low, take_front raw back, drop_front raw back)
  | inr more ↦ elim (Bool-cases (leb (length raw) 0xffff)) [
    | inl medium ↦
        let n = from_be-to_be 2 (length raw) (ground arith) in
        rw (more, medium, n, take_front raw back, drop_front raw back)
    | inr long ↦
        let n = from_be-to_be 8 (length raw) lt in
        rw (more, long, n, take_front raw back, drop_front raw back)
  ]
]

-- Every event that is sent reads back, at the client's end of a stream, as the text that the raw
-- protocol prints for it, with nothing of the bytes behind it used.
pub peer_read-frame :
    (pf : Platform) (ev_path ev_extra : Bytes) (server_cb : ℕ) (json back : Bytes)
    → length (protocol_raw_format pf ev_path ev_extra server_cb json) < 2 ^ 64
    → peer_read (protocol_rfc6455_frame pf ev_path ev_extra server_cb json ++ back)
      ≡ some (0x81, protocol_raw_format pf ev_path ev_extra server_cb json, back)
unfolding protocol_rfc6455_frame
peer_read-frame pf ev_path ev_extra server_cb json back lt =
    framed_text-peer_read (protocol_raw_format pf ev_path ev_extra server_cb json) back lt

-- Whatever the reason, what is written on closing is one whole close frame, whose body is empty
-- or starts with a status code from 1000 to 1015.
pub peer_read-close :
    (reason : CloseReason)
    → (body : Bytes) × (peer_read (protocol_rfc6455_close reason) ≡ some (0x88, body, []))
      × (leb 1000 (from_be 0 (take 2 body)) ≡ leb 1 (length body))
      × (from_be 0 (take 2 body) < 1016)
unfolding peer_read protocol_rfc6455_close
peer_read-close qev_close_hup =
    (drop 2 (protocol_rfc6455_close qev_close_hup), refl, refl, omega arith)
peer_read-close qev_close_exiting =
    (drop 2 (protocol_rfc6455_close qev_close_exiting), refl, refl, omega arith)
peer_read-close qev_close_timeout =
    (drop 2 (protocol_rfc6455_close qev_close_timeout), refl, refl, omega arith)
peer_read-close qev_close_out_of_mem =
    (drop 2 (protocol_rfc6455_close qev_close_out_of_mem), refl, refl, omega arith)
peer_read-close qio_close_invalid_handshake =
    (drop 2 (protocol_rfc6455_close qio_close_invalid_handshake), refl, refl, omega arith)
peer_read-close qio_close_not_supported =
    (drop 2 (protocol_rfc6455_close qio_close_not_supported), refl, refl, omega arith)
peer_read-close qio_close_unknown_error =
    (drop 2 (protocol_rfc6455_close qio_close_unknown_error), refl, refl, omega arith)
peer_read-close qio_close_done =
    (drop 2 (protocol_rfc6455_close qio_close_done), refl, refl, omega arith)
peer_read-close raw_invalid_event_format =
    (drop 2 (protocol_rfc6455_close raw_invalid_event_format), refl, refl, omega arith)
peer_read-close raw_heartattack =
    (drop 2 (protocol_rfc6455_close raw_heartattack), refl, refl, omega arith)
peer_read-close rfc6455_missing_upgrade =
    (drop 2 (protocol_rfc6455_close rfc6455_missing_upgrade), refl, refl, omega arith)
peer_read-close rfc6455_no_mask =
    (drop 2 (protocol_rfc6455_close rfc6455_no_mask), refl, refl, omega arith)
peer_read-close rfc6455_unsupported_opcode =
    (drop 2 (protocol_rfc6455_close rfc6455_unsupported_opcode), refl, refl, omega arith)
peer_read-close rfc6455_not_utf8 =
    (drop 2 (protocol_rfc6455_close rfc6455_not_utf8), refl, refl, omega arith)
peer_read-close http_done = (drop 2 (protocol_rfc6455_close http_done), refl, refl, omega arith)
peer_read-close http_no_surrogate =
    (drop 2 (protocol_rfc6455_close http_no_surrogate), refl, refl, omega arith)
peer_read-close http_bad_request =
    (drop 2 (protocol_rfc6455_close http_bad_request), refl, refl, omega arith)
peer_read-close http_length_required =
    (drop 2 (protocol_rfc6455_close http_length_required), refl, refl, omega arith)
peer_read-close other = (drop 2 (protocol_rfc6455_close other), refl, refl, omega arith)
