-- ===== src/Protocols/Dispatch/Table.antt =====
-- The table `_protocols` of src/protocols.c, with src/protocols_flash.c.
use quick_io.Common.{
  ℕ, Bool, false, ◌==◌, if◌then◌else◌, List, [], ◌∷◌, none, some, Bytes, equal, codes,
}
use quick_io.Buffer.{c_string}
use quick_io.Wire.{
  ProtocolHandles, prot_yes, prot_maybe, prot_no, prot_fatal, qio_close_done, writes, closes, Route,
  Platform,
}
use quick_io.Raw.{
  protocol_raw_handles, protocol_raw_handshake, protocol_raw_route, protocol_raw_heartbeat,
  protocol_raw_frame,
}
use quick_io.Rfc6455.{protocol_rfc6455_route}
use quick_io.Rfc6455.Frames.{
  Shaken, protocol_rfc6455_handles, protocol_rfc6455_handshake, protocol_rfc6455_heartbeat,
  protocol_rfc6455_frame, protocol_rfc6455_close,
}
use quick_io.Protocols.Dispatch.{Protocol}

-- `FLASH_POLICY_REQUEST` and `FLASH_POLICY_RESPONSE`
abbrev pub flash_policy_request : Bytes
flash_policy_request = codes "<policy-file-request/>"

abbrev pub flash_policy_response : Bytes
flash_policy_response =
    codes
      "<cross-domain-policy><allow-access-from domain=\"*\" to-ports=\"*\" /></cross-domain-policy>"

abbrev starts_with : Bytes → ℕ → Bool
starts_with [] c = false
starts_with (d ∷ s) c = d == c

unfoldable pub protocol_flash_handles : Bytes → ProtocolHandles
unfolding equal c_string
protocol_flash_handles rbuff =
    if equal (c_string rbuff) flash_policy_request
    then prot_yes
    else if starts_with (c_string rbuff) b'<'
    then prot_maybe
    else prot_no

unfoldable pub protocol_flash_handshake : Bytes → Route
protocol_flash_handshake rbuff = record {
  status = prot_fatal;
  used = 0;
  rbuff = [];
  effects = writes flash_policy_response ∷ closes qio_close_done ∷ [];
}

abbrev pub flash : Protocol
flash = record {
  handles = protocol_flash_handles;
  handshake = some protocol_flash_handshake;
  route = none;
  heartbeat = none;
  frame = none;
  send = none;
  close = none;
}

abbrev pub shaken : Shaken → Route
shaken (status, rbuff, effects) = record {
  status = status;
  used = 0;
  rbuff = rbuff;
  effects = effects;
}

module _ (pf : Platform) where
  abbrev pub raw : Protocol
  raw = record {
    handles = protocol_raw_handles;
    handshake = some protocol_raw_handshake;
    route = some (protocol_raw_route pf);
    heartbeat = some protocol_raw_heartbeat;
    frame = some (λ ev_path ev_extra server_cb json. record {
      def = some (protocol_raw_frame pf ev_path ev_extra server_cb json);
      raw = none;
    });
    send = none;
    close = none;
  }

  abbrev pub rfc6455 : Protocol
  rfc6455 = record {
    handles = protocol_rfc6455_handles;
    handshake = some (λ rbuff. shaken (protocol_rfc6455_handshake pf rbuff));
    route = some (protocol_rfc6455_route pf);
    heartbeat = some protocol_rfc6455_heartbeat;
    frame = some (λ ev_path ev_extra server_cb json. record {
      def = some (protocol_rfc6455_frame pf ev_path ev_extra server_cb json);
      raw = none;
    });
    send = none;
    close = some (λ reason. writes (protocol_rfc6455_close reason) ∷ []);
  }

  -- `_protocols`; the HTTP protocol, which reaches other clients, is an argument.
  abbrev pub protocols : Protocol → List Protocol
  protocols http = http ∷ flash ∷ raw ∷ rfc6455 ∷ []
