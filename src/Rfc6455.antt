-- ===== src/Rfc6455.antt =====
-- src/protocols_rfc6455.c: events in WebSocket frames.
pub mod Unmask
pub mod Loops
pub mod Header
pub mod Stream
pub mod Frames
pub mod Handshake
pub mod Examples
use quick_io.Common.{
  ℕ, zero, suc, ◌+◌, ◌-◌, ◌*◌, ◌/◌, ◌%◌, Bool, true, false, ◌==◌, ltb, leb, if◌then◌else◌, List, [],
  ◌∷◌, ◌++◌, Option, none, some, Bytes, length, take, drop, get_or, codes,
}
use quick_io.Common.Int.{ℤ}
use quick_io.Buffer.{read, write, c_string, from_be, to_be}
use quick_io.Wire.{
  ProtocolHandles, prot_no, ProtocolStatus, prot_ok, prot_again, prot_fatal, CloseReason,
  qev_close_hup, qev_close_exiting, qev_close_timeout, qev_close_out_of_mem,
  qio_close_invalid_handshake, raw_invalid_event_format, rfc6455_no_mask,
  rfc6455_unsupported_opcode, rfc6455_not_utf8, Effect, writes, closes, ProtocolHeartbeat, Route,
  Platform,
}
use quick_io.Raw.{
  protocol_raw_check_handshake, protocol_raw_handle, protocol_raw_format, protocol_raw_do_heartbeat,
  protocols_heartbeat_text,
}

-- `^` on numbers of `bits` bits.
unfoldable pub xor : ℕ → ℕ → ℕ → ℕ
xor zero a b = 0
xor (suc bits) a b = (a % 2 + b % 2) % 2 + 2 * xor bits (a / 2) (b / 2)

-- `^` on words, as the bytes that they have in memory.
unfoldable pub xor_bytes : Bytes → Bytes → Bytes
unfolding xor
xor_bytes [] mask = []
xor_bytes (c ∷ cs) [] = []
xor_bytes (c ∷ cs) (m ∷ ms) = xor 8 c m ∷ xor_bytes cs ms

-- `mask128`: the mask four times over.
unfoldable pub repeat : ℕ → Bytes → Bytes
repeat zero mask = []
repeat (suc n) mask = mask ++ repeat n mask

-- A loop that reads words of `w` bytes behind `str`, and writes them behind `msg` with the mask
-- for the index `i`; `n` rounds are left.
unfoldable pub xor_loop : (ℕ → Bytes) → ℕ → ℕ → ℕ → ℕ → ℕ → Bytes → Bytes
unfolding xor_bytes
xor_loop mask_at w zero i msg str buf = buf
xor_loop mask_at w (suc n) i msg str buf =
    xor_loop mask_at w n (i + w) msg str
      (write (msg + i) (xor_bytes (read (str + i) w buf) (mask_at i)) buf)

-- The three loops of `_decode`: words of 128 and of 64 bits, then bytes.
unfoldable pub unmask_in_place : Bytes → ℕ → ℕ → ℕ → Bytes → Bytes
unfolding xor_loop repeat
unmask_in_place mask len msg str buf =
    let by_16 = xor_loop (λ i. repeat 4 mask) 16 (len / 16) 0 msg str buf in
    let i = len / 16 * 16 in
    let by_8 = xor_loop (λ k. take 8 (repeat 4 mask)) 8 ((len - len % 8 - i) / 8) i msg str by_16 in
    let j = len - len % 8 in xor_loop (λ k. get_or mask (k % 4) 0 ∷ []) 1 (len - j) j msg str by_8

-- What `_decode` leaves: its status, `*len_`, `*frame_len`, the buffer and the calls made.
pub record Decoded : Type 0 where
  pub status : ProtocolStatus
  pub len : ℕ
  pub frame_len : ℕ
  pub rbuff : Bytes
  pub effects : List Effect

abbrev pub stopped : ProtocolStatus → List Effect → Bytes → Decoded
stopped status effects rbuff = record {
  status = status;
  len = 0;
  frame_len = 0;
  rbuff = rbuff;
  effects = effects;
}

-- `str[i]`; behind the buffer stands the NUL of the GString.
abbrev pub byte_at : Bytes → ℕ → ℕ
byte_at buf i = get_or buf i 0

module _ (pf : Platform) where
  open pf use {safe_uadd, utf8_validate}

  -- The NUL behind the message, and the test of its encoding.
  pub finish_decode : ℕ → ℕ → ℕ → Bytes → Decoded
  finish_decode offset len total_len buf =
      let ended = write (offset + len) (0 ∷ []) buf in
      if utf8_validate (read offset len ended)
      then record {
        status = prot_ok;
        len = len;
        frame_len = total_len;
        rbuff = ended;
        effects = [];
      }
      else record {
        status = prot_fatal;
        len = len;
        frame_len = total_len;
        rbuff = ended;
        effects = closes rfc6455_not_utf8 ∷ [];
      }

  pub decode_sized : ℕ → ℕ → ℕ → Bytes → Option ℕ → Bytes → Decoded
  unfolding unmask_in_place finish_decode
  decode_sized offset header_len len mask none rbuff = stopped prot_fatal [] rbuff
  decode_sized offset header_len len mask (some total_len) rbuff =
      if ltb (length rbuff - offset) total_len
      then stopped prot_again [] rbuff
      else finish_decode offset len total_len
          (unmask_in_place mask len offset (offset + header_len) rbuff)

  -- The length and the mask, by the 7 bits of the second byte.
  pub decode_length : ℕ → ℕ → Bytes → Decoded
  unfolding decode_sized from_be
  decode_length offset len rbuff =
      let str = drop offset rbuff in
      let rbuff_len = length rbuff - offset in
      let medium = from_be 0 (read 2 2 str) in
      let long = from_be 0 (read 2 8 str) in
      if leb len 125
      then decode_sized offset 6 len (read 2 4 str) (safe_uadd 6 len) rbuff
      else if len == 126
      then if ltb rbuff_len 8
        then stopped prot_again [] rbuff
        else decode_sized offset 8 medium (read 4 4 str) (safe_uadd 8 medium) rbuff
      else if ltb rbuff_len 14
      then stopped prot_again [] rbuff
      else decode_sized offset 14 long (read 10 4 str) (safe_uadd 14 long) rbuff

  -- `_decode`
  unfoldable pub decode : Bytes → ℕ → Decoded
  unfolding decode_length
  decode rbuff offset =
      let str = drop offset rbuff in
      if byte_at str 0 % 16 == 8
      then stopped prot_fatal (closes qev_close_hup ∷ []) rbuff
      else if ltb (length rbuff - offset) 6
      then stopped prot_again [] rbuff
      else if byte_at str 0 % 16 == 1
      then if byte_at str 1 / 128 % 2 == 0
        then stopped prot_fatal (closes rfc6455_no_mask ∷ []) rbuff
        else decode_length offset (byte_at str 1 % 128) rbuff
      else stopped prot_fatal (closes rfc6455_unsupported_opcode ∷ []) rbuff

  -- What `protocol_rfc6455_route` does with a decoded frame.
  pub route_decoded : ℕ → Decoded → Route
  unfolding protocol_raw_handle c_string
  route_decoded used d = elim d.status [
    | prot_ok ↦
        let ended = write (used + d.len) (0 ∷ []) d.rbuff in
        let (status, effects) = protocol_raw_handle pf (c_string (drop used ended)) in
        record { status = status; used = used + d.frame_len; rbuff = ended; effects = effects }
    | prot_again ↦ record { status = prot_again; used = used; rbuff = d.rbuff; effects = d.effects }
    | prot_fatal ↦ record { status = prot_fatal; used = used; rbuff = d.rbuff; effects = d.effects }
  ]

  unfoldable pub protocol_rfc6455_route : Bytes → ℕ → Route
  unfolding decode route_decoded
  protocol_rfc6455_route rbuff used = route_decoded used (decode rbuff used)
