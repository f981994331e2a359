-- ===== src/Rfc6455/Handshake.antt =====
-- `protocol_rfc6455_handshake` of src/protocols_rfc6455.c on a whole frame.
use quick_io.Common.{
  ℕ, ◌+◌, ◌^◌, ◌<◌, ◌≡◌, true, [], ◌∷◌, ◌++◌, Bytes, All, length, equal, if◌then◌else◌, Bool-cases,
  inl, inr,
}
use quick_io.Buffer.Laws.{IsText, c_string_ends}
use quick_io.Raw.{handshake, protocol_raw_check_handshake}
use quick_io.Wire.{
  prot_ok, prot_fatal, writes, closes, qio_close_invalid_handshake, Platform, Lawful,
}
use quick_io.Rfc6455.{Decoded}
use quick_io.Rfc6455.Unmask.{four}
use quick_io.Rfc6455.Header.{header, masked}
use quick_io.Rfc6455.Stream.{Opened, decode-masked}
use quick_io.Rfc6455.Frames.{
  Shaken, qio_handshake, answer_handshake, shake_decoded, protocol_rfc6455_handshake,
}

-- The answer to a first message.
abbrev pub answer_to : Bytes → Shaken
answer_to event =
    if equal event handshake
    then (prot_ok, [], writes qio_handshake ∷ [])
    else (prot_fatal, [], closes qio_close_invalid_handshake ∷ [])

shake_decoded-Opened :
    (pf : Platform) (ok : Lawful pf) (event back : Bytes) (h : ℕ) (d : Decoded)
    → IsText event
    → Opened pf ok [] event back h d
    → shake_decoded d ≡ answer_to event
unfolding shake_decoded answer_handshake protocol_raw_check_handshake
shake_decoded-Opened pf ok event back h d t o =
    rw (o.result, c_string_ends event o.tail t)
      (elim (Bool-cases (equal event handshake)) [ inl same ↦ rw same | inr other ↦ rw other ])

-- A first frame with valid text is accepted exactly if the text is the handshake, which is
-- answered; any other closes the client. The buffer is emptied, with whatever followed the frame.
pub protocol_rfc6455_handshake-masked :
    (pf : Platform)
    → Lawful pf
    → (a b c d : ℕ) (event back : Bytes) → IsText event
    → All (λ x. x < 256) event
    → pf.utf8_validate event ≡ true
    → length event + 14 < 2 ^ 64
    → protocol_rfc6455_handshake pf (masked (four a b c d) event ++ back) ≡ answer_to event
unfolding protocol_rfc6455_handshake
protocol_rfc6455_handshake-masked pf ok a b c d event back t bytes u lt =
    shake_decoded-Opened pf ok event back (length (header (length event) (four a b c d))) _ t
      (decode-masked pf ok [] a b c d event back bytes u lt)
