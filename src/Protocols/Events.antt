-- ===== src/Protocols/Events.antt =====
-- `_route` of src/protocols.c with the raw and the WebSocket protocol (src/protocols_raw.c,
-- src/protocols_rfc6455.c): buffers of several events.
use mathlib.Core.Path.{subst₂}
use quick_io.Common.{
  ℕ, ◌+◌, ◌^◌, ◌<◌, ◌≡◌, refl, true, false, List, [], ◌∷◌, ◌++◌, some, Bytes, All, length,
  length-append, drop, arith,
}
use quick_io.Common.Int.{ℤ}
use quick_io.Buffer.{to_be}
use quick_io.Buffer.Laws.{length-to_be}
use quick_io.Wire.{ProtocolStatus, prot_ok, Effect, routes, Route, Platform, Lawful}
use quick_io.Raw.{protocol_raw_format, protocol_raw_frame, protocol_raw_handle, protocol_raw_route}
use quick_io.Raw.Stream.{
  Sendable, framed, protocol_raw_handle-format, protocol_raw_format-IsText,
  protocol_raw_route-framed,
}
use quick_io.Rfc6455.Unmask.{four}
use quick_io.Rfc6455.Header.{masked}
use quick_io.Rfc6455.Stream.{protocol_rfc6455_route-masked}
use quick_io.Rfc6455.{protocol_rfc6455_route}
use quick_io.Protocols.Stream.{RoutesFrame, GoodFrame, stream, all_effects, route_all-stream}
use quick_io.Protocols.{Conn, route_all}

-- What a peer sends: the path in two parts, its callback, and the JSON.
pub record Message : Type 0 where
  pub path : Bytes
  pub extra : Bytes
  pub cb : ℕ
  pub json : Bytes

abbrev pub routed : Message → List Effect
routed m = routes (m.path ++ m.extra) m.cb m.json ∷ []

All-implies :
    {M : Type 0} {P Q : M → Type 0} → ((m : M) → P m → Q m) → (ms : List M) → All P ms → All Q ms
All-implies f [] h = tt
All-implies f (m ∷ ms) h = (f m h.0, All-implies f ms h.1)

-- The mask of a frame, and what it carries.
abbrev pub MaskedMessage : Type 0
MaskedMessage = (ℕ × ℕ × ℕ × ℕ) × Message

abbrev pub web_routed : MaskedMessage → List Effect
web_routed (mask, m) = routed m

module _ (pf : Platform) where
  abbrev pub text : Message → Bytes
  text m = protocol_raw_format pf m.path m.extra m.cb m.json

  abbrev pub raw_frame : Message → Bytes
  raw_frame m = protocol_raw_frame pf m.path m.extra m.cb m.json

  abbrev pub FitsRaw : Message → Type 0
  FitsRaw m = Sendable m.path m.extra m.cb m.json × (length (text m) + 8 < 2 ^ 64)

  abbrev pub web_frame : MaskedMessage → Bytes
  web_frame ((a, b, c, d), m) = masked (four a b c d) (text m)

  abbrev pub FitsWeb : MaskedMessage → Type 0
  FitsWeb (mask, m) =
      Sendable m.path m.extra m.cb m.json
      × All (λ x. x < 256) (text m)
      × (pf.utf8_validate (text m) ≡ true)
      × (length (text m) + 14 < 2 ^ 64)

module _ (pf : Platform) (ok : Lawful pf) where
  -- What a frame's own theorem gives, with the number of its bytes and the answer of
  -- `protocol_raw_handle` put in.
  routed_frame :
      (route : Bytes → ℕ → Route) (frame event : Bytes) (n : ℕ) (made : List Effect)
      → n ≡ length frame
      → protocol_raw_handle pf event ≡ (prot_ok, made)
      → ((front back : Bytes)
          → (rbuff : Bytes) × (route (front ++ (frame ++ back)) (length front) ≡ record {
            status = (protocol_raw_handle pf event).0;
            used = length front + n;
            rbuff = rbuff;
            effects = (protocol_raw_handle pf event).1;
          })
            × (drop (length front + n) rbuff ≡ back)
            × (length rbuff ≡ length (front ++ (frame ++ back))))
      → RoutesFrame route frame made
  routed_frame route frame event n made l h f front back =
      subst₂
        (λ (k : ℕ) (r : ProtocolStatus × List Effect).
          (rbuff : Bytes) × (route (front ++ (frame ++ back)) (length front)
            ≡ record { status = r.0; used = length front + k; rbuff = rbuff; effects = r.1 })
          × (drop (length front + k) rbuff ≡ back)
          × (length rbuff ≡ length (front ++ (frame ++ back))))
        l h (f front back)

  framed-GoodFrame :
      (m : Message)
      → FitsRaw pf m
      → (0 < length (framed (text pf m)))
        × RoutesFrame (protocol_raw_route pf) (framed (text pf m)) (routed m)
  framed-GoodFrame m g =
      let l : length (text pf m) + 8 ≡ length (framed (text pf m)) = omega (
        arith,
        length-append (to_be 8 (length (text pf m))) (text pf m),
        length-to_be 8 (length (text pf m)),
      ) in
      (
        omega arith,
        routed_frame (protocol_raw_route pf) (framed (text pf m)) (text pf m)
            (length (text pf m) + 8) (routed m) l
            (protocol_raw_handle-format pf ok m.path m.extra m.cb m.json g.0)
            (λ front back.
              protocol_raw_route-framed pf ok front (text pf m) back
                (protocol_raw_format-IsText pf ok m.path m.extra m.cb m.json g.0) g.1),
      )

  raw_frame-GoodFrame :
      (m : Message) → FitsRaw pf m → GoodFrame (raw_frame pf) routed (protocol_raw_route pf) m
  unfolding protocol_raw_frame
  raw_frame-GoodFrame m g = framed-GoodFrame m g

  -- A raw client's buffer that holds frames of events of text, and nothing else, is used up in one call:
  -- each event is routed to its path, with its callback and its JSON, in the order it was sent.
  pub route_all-raw :
      (now : ℤ) (c : Conn) (m : Message) (ms : List Message)
      → c.rbuff ≡ stream (raw_frame pf) (m ∷ ms)
      → All (FitsRaw pf) (m ∷ ms)
      → route_all (protocol_raw_route pf) now c
        ≡ some (record {
          rbuff = [];
          last_recv = now;
          timeout = false;
          effects = c.effects ++ all_effects routed (m ∷ ms);
        })
  route_all-raw now c m ms e g =
      route_all-stream (raw_frame pf) routed (protocol_raw_route pf) now c m ms e
        (All-implies raw_frame-GoodFrame (m ∷ ms) g)

  web_frame-GoodFrame :
      (m : MaskedMessage)
      → FitsWeb pf m
      → GoodFrame (web_frame pf) web_routed (protocol_rfc6455_route pf) m
  web_frame-GoodFrame ((a, b, c, d), m) (s, bytes, u, lt) = (
    omega arith,
    routed_frame (protocol_rfc6455_route pf) (web_frame pf ((a, b, c, d), m)) (text pf m) _
        (routed m) refl (protocol_raw_handle-format pf ok m.path m.extra m.cb m.json s)
        (λ front back.
          protocol_rfc6455_route-masked pf ok front a b c d (text pf m) back
            (protocol_raw_format-IsText pf ok m.path m.extra m.cb m.json s) bytes u lt),
  )

  -- A WebSocket client's buffer that holds masked frames of valid text, each with its own mask and
  -- of any of the three sizes, and nothing else, is used up in one call: each event is routed to
  -- its path, with its callback and its JSON, in the order it was sent.
  pub route_all-web :
      (now : ℤ) (c : Conn) (m : MaskedMessage) (ms : List MaskedMessage)
      → c.rbuff ≡ stream (web_frame pf) (m ∷ ms)
      → All (FitsWeb pf) (m ∷ ms)
      → route_all (protocol_rfc6455_route pf) now c
        ≡ some (record {
          rbuff = [];
          last_recv = now;
          timeout = false;
          effects = c.effects ++ all_effects web_routed (m ∷ ms);
        })
  route_all-web now c m ms e g =
      route_all-stream (web_frame pf) web_routed (protocol_rfc6455_route pf) now c m ms e
        (All-implies web_frame-GoodFrame (m ∷ ms) g)
