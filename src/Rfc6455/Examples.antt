-- ===== src/Rfc6455/Examples.antt =====
-- The WebSocket protocol on the ping of test/test_protocol_rfc6455.c, behind another byte.
use quick_io.Common.{◌+◌, ◌≡◌, refl, [], ◌∷◌, ◌++◌, some, Bytes, length, codes, arith}
use quick_io.Wire.Examples.{decimal, digits}
use quick_io.Raw.{protocol_raw_format}
use quick_io.Rfc6455.Unmask.{four}
use quick_io.Rfc6455.Loops.{unmask_in_place-unmask}
use quick_io.Rfc6455.Frames.{peer_read, peer_read-frame, protocol_rfc6455_frame}
use quick_io.Rfc6455.{xor_bytes, unmask_in_place}
use quick_io.Rfc6455.Unmask.{unmask}

abbrev web_ping : Bytes
web_ping = codes "/qio/ping:1=null"

hello_masked :
    xor_bytes (codes "Hello") (0x37 ∷ 0xfa ∷ 0x21 ∷ 0x3d ∷ 0x37 ∷ [])
    ≡ 0x7f ∷ 0x9f ∷ 0x4d ∷ 0x51 ∷ 0x58 ∷ []
unfolding xor_bytes
hello_masked = refl

unmask_in_place-unmask_example :
    (junk' : Bytes) × (unmask_in_place
        (four 1 2 3 4)
        16
        1
        (1 + 6)
        (7 ∷ ((codes "header" ++ (web_ping ++ codes "x"))))
      ≡ (7 ∷ []) ++ (unmask 0 (four 1 2 3 4) web_ping ++ (junk' ++ codes "x")))
    × (length junk' ≡ 6)
unmask_in_place-unmask_example =
    unmask_in_place-unmask 1 2 3 4 (7 ∷ []) (codes "header") web_ping (codes "x")

peer_read-frame_example :
    peer_read (protocol_rfc6455_frame decimal (codes "/test") [] 12 (codes "null") ++ [])
    ≡ some (0x81, protocol_raw_format decimal (codes "/test") [] 12 (codes "null"), [])
unfolding protocol_raw_format digits
peer_read-frame_example =
    peer_read-frame decimal (codes "/test") [] 12 (codes "null") [] (omega arith)
