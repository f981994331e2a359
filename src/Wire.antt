-- ===== src/Wire.antt =====
-- Types that the protocols share (src/protocols.h, src/quickio.h and the headers of the protocols),
-- and what a protocol does to the world outside its client.
pub mod Examples
use quick_io.Common.{
  ℕ, ◌+◌, ◌^◌, ◌<◌, ◌≡◌, Bool, true, false, ltb, if◌then◌else◌, List, ◌∷◌, ◌++◌, Option, none, some,
  Bytes,
}
use quick_io.Buffer.Laws.{IsText}
use quick_io.Common.Int.{ℤ}

-- `enum protocol_handles`
pub data ProtocolHandles : Type 0 where
  prot_yes prot_maybe prot_no : ProtocolHandles

-- `enum protocol_status`
pub data ProtocolStatus : Type 0 where
  prot_ok prot_again prot_fatal : ProtocolStatus

-- Why a client is closed: the reasons of quick-event that the protocols name, of src/quickio.h,
-- and of each protocol's header. `other` is any further reason of quick-event.
pub data CloseReason : Type 0 where
  qev_close_hup qev_close_exiting qev_close_timeout qev_close_out_of_mem : CloseReason
  qio_close_invalid_handshake qio_close_not_supported : CloseReason
  qio_close_unknown_error qio_close_done : CloseReason
  raw_invalid_event_format raw_heartattack : CloseReason
  rfc6455_missing_upgrade rfc6455_no_mask : CloseReason
  rfc6455_unsupported_opcode rfc6455_not_utf8 : CloseReason
  http_done http_no_surrogate http_bad_request http_length_required : CloseReason
  other : CloseReason

-- A call that leaves the protocol: `qev_write`, `qev_close`, `evs_route` with the path, the
-- client's callback and the JSON, or the heartbeat that asks for an answer.
pub data Effect : Type 0 where
  writes : Bytes → Effect
  closes : CloseReason → Effect
  routes : Bytes → ℕ → Bytes → Effect
  challenges : Effect

-- `struct protocol_heartbeat`
pub record ProtocolHeartbeat : Type 0 where
  pub timeout : ℤ
  pub poll : ℤ
  pub heartbeat : ℤ
  pub challenge : ℤ
  pub dead : ℤ

-- The result of a protocol's `route`: its status, `*used`, the buffer and the calls made.
pub record Route : Type 0 where
  pub status : ProtocolStatus
  pub used : ℕ
  pub rbuff : Bytes
  pub effects : List Effect

-- What `strtoull` leaves: the value, the text from `end` on, whether `end` moved, and whether
-- `errno` is `ERANGE`.
pub record Parsed : Type 0 where
  pub value : ℕ
  pub rest : Bytes
  pub moved : Bool
  pub erange : Bool

-- Functions of GLib and quick-event: `qev_buffer_append_uint` as the bytes it appends,
-- `g_ascii_strtoull` in base 10, `qev_safe_uadd` with `none` where it returns FALSE, and
-- `g_utf8_validate`.
pub record Platform : Type 0 where
  pub show_uint : ℕ → Bytes
  pub strtoull : Bytes → Parsed
  pub safe_uadd : ℕ → ℕ → Option ℕ
  pub utf8_validate : Bytes → Bool

-- What the code relies on: a printed number is text and is read back up to a byte that is no
-- digit, and an addition is refused exactly where it overflows 64 bits.
pub record Lawful (pf : Platform) : Type 0 where
  pub shown_text : (n : ℕ) → IsText (pf.show_uint n)
  pub read_shown :
      (n : ℕ) (rest : Bytes)
      → n < 2 ^ 64
      → pf.strtoull (pf.show_uint n ++ b'=' ∷ rest)
        ≡ record { value = n; rest = b'=' ∷ rest; moved = true; erange = false }
  pub checked_add :
      (a b : ℕ) → pf.safe_uadd a b ≡ (if ltb (a + b) (2 ^ 64) then some (a + b) else none)
