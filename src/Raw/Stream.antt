-- ===== src/Raw/Stream.antt =====
-- Frames in, events out: `protocol_raw_frame` and `protocol_raw_route` of src/protocols_raw.c.
use mathlib.Core.Path.{subst}
use quick_io.Common.{
  ℕ, ◌+◌, ◌-◌, ◌^◌, ◌<◌, ◌≡◌, ◌≢◌, refl, ap, ◌∙◌, false, ltb, [], ◌∷◌, ◌++◌, some, Bytes, All,
  append-All, length, drop, length-append, append_assoc, arith,
}
use quick_io.Buffer.{read, write, from_be, to_be}
use quick_io.Buffer.Laws.{
  IsText, c_string_ends, read_middle, from_be-to_be, length-to_be, drop_front,
}
use quick_io.Raw.Moves.{leftover, length-leftover, moved_event, end_over, drop_past}
use quick_io.Wire.{prot_ok, routes, Platform, Lawful}
use quick_io.Raw.{
  split_colon, protocol_raw_handle, starts_with_equals, route_event, route_sized,
  protocol_raw_route, protocol_raw_format,
}

abbrev pub NoColon : Bytes → Type 0
NoColon = All (λ c. c ≢ b':')

split_colon_lem : (s t : Bytes) → NoColon s → split_colon (s ++ b':' ∷ t) ≡ some (s, t)
unfolding split_colon
split_colon_lem [] t h = refl
split_colon_lem (c ∷ cs) t h = ground (arith, split_colon_lem cs t h.1, h.0)

-- What a peer may send as an event: text, with no colon in the path.
pub record Sendable (path extra : Bytes) (cb : ℕ) (json : Bytes) : Type 0 where
  pub path_text : IsText path
  pub path_plain : NoColon path
  pub extra_text : IsText extra
  pub extra_plain : NoColon extra
  pub json_text : IsText json
  pub cb_fits : cb < 2 ^ 64

-- An event behind its size.
abbrev pub framed : Bytes → Bytes
framed event = to_be 8 (length event) ++ event

module _ (pf : Platform) (ok : Lawful pf) where
  -- An event of text, with no colon in its path and a callback of 64 bits, that
  -- `protocol_raw_format` has printed is routed to its path, with its callback and
  -- its JSON.
  pub protocol_raw_handle-format :
      (path extra : Bytes) (cb : ℕ) (json : Bytes)
      → Sendable path extra cb json
      → protocol_raw_handle pf (protocol_raw_format pf path extra cb json)
        ≡ (prot_ok, routes (path ++ extra) cb json ∷ [])
  unfolding protocol_raw_handle protocol_raw_format starts_with_equals
  protocol_raw_handle-format path extra cb json s =
      rw
        (
          ← append_assoc path extra (b':' ∷ (pf.show_uint cb ++ (b'=' ∷ json))),
          split_colon_lem (path ++ extra) (pf.show_uint cb ++ (b'=' ∷ json))
              (append-All (λ c. c ≢ b':') path extra s.path_plain s.extra_plain),
          ok.read_shown cb json s.cb_fits,
        )
        (ground arith)

  pub protocol_raw_format-IsText :
      (path extra : Bytes) (cb : ℕ) (json : Bytes)
      → Sendable path extra cb json
      → IsText (protocol_raw_format pf path extra cb json)
  unfolding protocol_raw_format
  protocol_raw_format-IsText path extra cb json s =
      let T = λ (c : ℕ). c ≢ 0 in
      append-All T path (extra ++ (b':' ∷ (pf.show_uint cb ++ (b'=' ∷ json)))) s.path_text (
        append-All T extra (b':' ∷ (pf.show_uint cb ++ (b'=' ∷ json))) s.extra_text (
          (λ e. omega arith),
          append-All T (pf.show_uint cb) (b'=' ∷ json) (ok.shown_text cb)
              ((λ e. omega arith), s.json_text),
        ))

  size_there :
      (front event back : Bytes)
      → length event < 2 ^ 64
      → from_be 0 (read (length front) 8 (front ++ (to_be 8 (length event) ++ (event ++ back))))
        ≡ length event
  size_there front event back h =
      let size = to_be 8 (length event) in
      subst
        (λ (k : ℕ).
          from_be 0 (read (length front) k (front ++ (size ++ (event ++ back)))) ≡ length event)
        (length-to_be 8 (length event))
        (ap (from_be 0) (read_middle front size (event ++ back)) ∙ from_be-to_be 8 (length event) h)

  added_size : (n : ℕ) → n + 8 < 2 ^ 64 → pf.safe_uadd n 8 ≡ some (n + 8)
  added_size n h = ok.checked_add n 8 ∙ ground arith

  route_event_lem :
      (front size event back : Bytes) (total_len : ℕ)
      → length size ≡ 8
      → IsText event
      → (rbuff : Bytes) × (route_event pf
            (length front)
            (length event)
            total_len
            (front ++ (size ++ (event ++ back)))
          ≡ record {
            status = (protocol_raw_handle pf event).0;
            used = length front + total_len;
            rbuff = rbuff;
            effects = (protocol_raw_handle pf event).1;
          })
        × (drop (length front + (length event + 8)) rbuff ≡ back)
        × (length rbuff ≡ length (front ++ (size ++ (event ++ back))))
  unfolding route_event
  route_event_lem front size event back total_len h t =
      let buf = front ++ (size ++ (event ++ back)) in
      let gap = length-leftover size event in
      let (tail, e, l, d) = end_over front event (leftover size event) back (omega arith) in
      let m : write (length front) (read (length front + 8) (length event) buf) buf
          ≡ front ++ (event ++ (leftover size event ++ back)) =
        subst
          (λ (k : ℕ).
            write (length front) (read (length front + k) (length event) buf) buf
            ≡ front ++ (event ++ (leftover size event ++ back)))
          h (moved_event front size event back) in
      (
        front ++ (event ++ (0 ∷ tail)),
        rw (m, e, drop_front front (event ++ (0 ∷ tail)), c_string_ends event tail t),
        drop_past front event (0 ∷ tail) 8
            ∙ subst (λ (k : ℕ). drop k (0 ∷ tail) ≡ back) (gap ∙ h) d,
        omega (
          arith,
          length-append front (event ++ (0 ∷ tail)),
          length-append event (0 ∷ tail),
          length-append front (size ++ (event ++ back)),
          length-append size (event ++ back),
          length-append event back,
        ),
      )

  route_enough :
      (front event back : Bytes)
      → length event + 8 < 2 ^ 64
      → protocol_raw_route pf (front ++ (to_be 8 (length event) ++ (event ++ back))) (length front)
        ≡ route_event pf
            (length front)
            (length event)
            (length event + 8)
            (front ++ (to_be 8 (length event) ++ (event ++ back)))
  unfolding protocol_raw_route
  route_enough front event back h =
      let size = to_be 8 (length event) in
      let buf = front ++ (size ++ (event ++ back)) in
      let n : length buf - length front ≡ 8 + (length event + length back) = omega (
        arith,
        length-append front (size ++ (event ++ back)),
        length-append size (event ++ back),
        length-append event back,
        length-to_be 8 (length event),
      ) in
      let some_size : ltb (length buf - length front) 8 ≡ false = ground (arith, n) in
      let all_there : ltb (length buf - length front) (length event + 8) ≡ false =
        ground (arith, n) in
      rw (some_size, size_there front event back (omega arith), added_size (length event) h)
        (unfold route_sized in rw all_there)

  -- One call of `protocol_raw_route` at a frame that is whole, of text of less than 2^64 - 8 bytes,
  -- handles the event, uses the frame and no more, and leaves the bytes behind it as they are.
  pub protocol_raw_route-framed :
      (front event back : Bytes)
      → IsText event
      → length event + 8 < 2 ^ 64
      → (rbuff : Bytes) × (protocol_raw_route pf (front ++ (framed event ++ back)) (length front)
          ≡ record {
            status = (protocol_raw_handle pf event).0;
            used = length front + (length event + 8);
            rbuff = rbuff;
            effects = (protocol_raw_handle pf event).1;
          })
        × (drop (length front + (length event + 8)) rbuff ≡ back)
        × (length rbuff ≡ length (front ++ (framed event ++ back)))
  protocol_raw_route-framed front event back t h =
      let size = to_be 8 (length event) in
      let (rbuff, e, d, l) =
        route_event_lem front size event back (length event + 8) (length-to_be 8 (length event))
          t in
      rw (append_assoc size event back) (rbuff, route_enough front event back h ∙ e, d, l)
