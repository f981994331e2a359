-- ===== src/Rfc6455/Stream.antt =====
-- WebSocket frames of a client in, events out: `_decode` and `protocol_rfc6455_route` of
-- src/protocols_rfc6455.c.
use mathlib.Core.Path.{subst, subst₂}
use quick_io.Common.{
  ℕ, ◌+◌, ◌-◌, ◌^◌, ◌<◌, ◌≡◌, refl, sym, ap, ◌∙◌, true, false, ltb, [], ◌∷◌, ◌++◌, some, Bytes, All,
  length, drop, length-append, append_assoc, arith,
}
use quick_io.Buffer.{write}
use quick_io.Buffer.Laws.{IsText, c_string_ends, read_middle, write_middle, drop_front}
use quick_io.Raw.Moves.{end_over, drop_past}
use quick_io.Raw.{protocol_raw_handle}
use quick_io.Wire.{prot_ok, Route, Platform, Lawful}
use quick_io.Rfc6455.Unmask.{unmask, unmask_twice, length-unmask, four}
use quick_io.Rfc6455.Loops.{unmask_in_place-unmask}
use quick_io.Rfc6455.{
  decode, decode_sized, finish_decode, route_decoded, protocol_rfc6455_route, unmask_in_place,
  Decoded,
}
use quick_io.Rfc6455.Header.{header, masked, decode-header, length-header}

-- The event was handled, the buffer is used up to `used`, and `back` follows in it.
abbrev pub RoutesTo : Platform → Bytes → Bytes → ℕ → ℕ → Route → Type 0
RoutesTo pf event back used total r =
    (rbuff : Bytes) × (r ≡ record {
      status = (protocol_raw_handle pf event).0;
      used = used;
      rbuff = rbuff;
      effects = (protocol_raw_handle pf event).1;
    })
    × (drop used rbuff ≡ back)
    × (length rbuff ≡ total)

module _ (pf : Platform) (ok : Lawful pf) where
  added : (h n : ℕ) → h + n < 2 ^ 64 → pf.safe_uadd h n ≡ some (h + n)
  added h n lt = ok.checked_add h n ∙ ground arith

  sized :
      (front : Bytes) (a b c d : ℕ) (junk s back : Bytes)
      → length junk + length s < 2 ^ 64
      → decode_sized pf
          (length front)
          (length junk)
          (length s)
          (four a b c d)
          (pf.safe_uadd (length junk) (length s))
          (front ++ (junk ++ (s ++ back)))
        ≡ finish_decode pf (length front) (length s) (length junk + length s) (
            unmask_in_place
              (four a b c d)
              (length s)
              (length front)
              (length front + length junk)
              (front ++ (junk ++ (s ++ back))))
  unfolding decode_sized
  sized front a b c d junk s back lt =
      let enough : ltb (length (front ++ (junk ++ (s ++ back))) - length front)
            (length junk + length s)
          ≡ false =
        ground (
          arith,
          length-append front (junk ++ (s ++ back)),
          length-append junk (s ++ back),
          length-append s back,
        ) in
      rw (added (length junk) (length s) lt, enough)

  -- The decoder on a whole frame.
  pub record Opened (front event back : Bytes) (h : ℕ) (d : Decoded) : Type 0 where
    pub tail : Bytes
    pub result : d ≡ record {
      status = prot_ok;
      len = length event;
      frame_len = h + length event;
      rbuff = front ++ (event ++ (0 ∷ tail));
      effects = [];
    }
    pub rest : drop h (0 ∷ tail) ≡ back
    pub kept : length tail + 1 ≡ h + length back

  finish_decode-Opened :
      (front event gap back : Bytes) (h : ℕ)
      → length gap ≡ h
      → 0 < h
      → pf.utf8_validate event ≡ true
      → Opened front event back h (
          finish_decode pf
            (length front)
            (length event)
            (h + length event)
            (front ++ (event ++ (gap ++ back))))
  unfolding finish_decode
  finish_decode-Opened front event gap back h l pos u =
      let (tail, e, k, r) = end_over front event gap back (omega arith) in
      record {
        tail = tail;
        result = rw (e, read_middle front event (0 ∷ tail), u);
        rest = rw (← l) r;
        kept = omega arith;
      }

  decode_sized-Opened :
      (front : Bytes) (a b c d : ℕ) (hd event back : Bytes)
      → All (λ x. x < 256) event
      → pf.utf8_validate event ≡ true
      → 0 < length hd
      → length hd + length event < 2 ^ 64
      → Opened front event back (length hd) (
          decode_sized pf
            (length front)
            (length hd)
            (length event)
            (four a b c d)
            (pf.safe_uadd (length hd) (length event))
            (front ++ (hd ++ (unmask 0 (four a b c d) event ++ back))))
  decode_sized-Opened front a b c d hd event back bytes u pos lt =
      let mask = four a b c d in
      let s = unmask 0 mask event in
      let n : length s ≡ length event = length-unmask 0 mask event in
      let (gap, e, l) = unmask_in_place-unmask a b c d front hd s back in
      let plain : front ++ (unmask 0 mask s ++ (gap ++ back)) ≡ front ++ (event ++ (gap ++ back)) =
        ap (λ (x : Bytes). front ++ (x ++ (gap ++ back))) (unmask_twice 0 mask event bytes) in
      let P = λ (k : ℕ).
        decode_sized pf (length front) (length hd) k mask (pf.safe_uadd (length hd) k)
          (front ++ (hd ++ (s ++ back)))
        ≡ finish_decode pf (length front) k (length hd + k) (front ++ (event ++ (gap ++ back))) in
      let whole : P (length s) =
        sized front a b c d hd s back (omega arith)
        ∙ ap (finish_decode pf (length front) (length s) (length hd + length s)) (e ∙ plain) in
      subst (Opened front event back (length hd)) (sym (subst P n whole))
        (finish_decode-Opened front event gap back (length hd) l pos u)

  pub decode-masked :
      (front : Bytes) (a b c d : ℕ) (event back : Bytes)
      → All (λ x. x < 256) event
      → pf.utf8_validate event ≡ true
      → length event + 14 < 2 ^ 64
      → Opened front event back
          (length (header (length event) (four a b c d)))
          (decode pf (front ++ (masked (four a b c d) event ++ back)) (length front))
  decode-masked front a b c d event back bytes u lt =
      let mask = four a b c d in
      let n = length event in
      let (pos, small) = length-header n a b c d in
      rw (append_assoc (header n mask) (unmask 0 mask event) back) (
        subst (Opened front event back (length (header n mask)))
          (sym (decode-header pf front a b c d n (unmask 0 mask event ++ back) (omega arith)))
          (decode_sized-Opened front a b c d (header n mask) event back bytes u pos (omega arith)))

  route_decoded-Opened :
      (front event back : Bytes) (h : ℕ) (d : Decoded)
      → IsText event
      → Opened front event back h d
      → RoutesTo pf event back
          (length front + (h + length event))
          (length front + (h + length event) + length back)
          (route_decoded pf (length front) d)
  unfolding route_decoded
  route_decoded-Opened front event back h d t o =
      let again : write (length front + length event) (0 ∷ []) (front ++ (event ++ (0 ∷ o.tail)))
          ≡ front ++ (event ++ (0 ∷ o.tail)) =
        rw (← length-append front event, ← append_assoc front event (0 ∷ o.tail))
          (write_middle (front ++ event) (0 ∷ []) (0 ∷ []) o.tail refl) in
      let swap : h + length event ≡ length event + h = omega arith in
      (
        front ++ (event ++ (0 ∷ o.tail)),
        rw (
          o.result,
          again,
          drop_front front (event ++ (0 ∷ o.tail)),
          c_string_ends event o.tail t,
        ),
        rw swap (drop_past front event (0 ∷ o.tail) h ∙ o.rest),
        omega (
          arith,
          length-append front (event ++ (0 ∷ o.tail)),
          length-append event (0 ∷ o.tail),
          o.kept,
        ),
      )

  -- A whole masked frame of valid text, anywhere in the buffer and of any of the three sizes, is
  -- unmasked and handed on as the event that was sent; the frame and no more is used, and the
  -- bytes behind it stay as they are.
  pub protocol_rfc6455_route-masked :
      (front : Bytes) (a b c d : ℕ) (event back : Bytes)
      → IsText event
      → All (λ x. x < 256) event
      → pf.utf8_validate event ≡ true
      → length event + 14 < 2 ^ 64
      → let frame = masked (four a b c d) event in
        let used = length front + length frame in
        RoutesTo pf event back used
          (length (front ++ (frame ++ back)))
          (protocol_rfc6455_route pf (front ++ (frame ++ back)) (length front))
  unfolding protocol_rfc6455_route
  protocol_rfc6455_route-masked front a b c d event back t bytes u lt =
      let mask = four a b c d in
      let hd = header (length event) mask in
      let frame = masked mask event in
      let l : length hd + length event ≡ length frame =
        omega (arith, length-append hd (unmask 0 mask event), length-unmask 0 mask event) in
      let total : length front + (length hd + length event) + length back
          ≡ length (front ++ (frame ++ back)) =
        omega (arith, length-append front (frame ++ back), length-append frame back) in
      subst₂
        (λ (n m : ℕ).
          RoutesTo pf event back (length front + n) m
            (protocol_rfc6455_route pf (front ++ (frame ++ back)) (length front)))
        l total
        (route_decoded-Opened front event back (length hd) _ t
          (decode-masked front a b c d event back bytes u lt))
