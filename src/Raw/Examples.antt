-- ===== src/Raw/Examples.antt =====
-- The raw protocol on the messages of test/test_protocol_raw.c.
use quick_io.Common.{◌≡◌, refl, [], ◌∷◌, Bytes, codes}
use quick_io.Wire.Examples.{decimal, read_digits}
use quick_io.Wire.{prot_ok, prot_maybe, routes}
use quick_io.Raw.{protocol_raw_handle, protocol_raw_handles}

pinged :
    protocol_raw_handle decimal (codes "/qio/ping:1=null")
    ≡ (prot_ok, routes (codes "/qio/ping") 1 (codes "null") ∷ [])
unfolding protocol_raw_handle read_digits
pinged = refl

half_handshake : protocol_raw_handles (codes "/qio") ≡ prot_maybe
unfolding protocol_raw_handles
half_handshake = refl

abbrev ping : Bytes
ping = codes "/qio/ping:1=null"
