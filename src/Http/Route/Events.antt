-- ===== src/Http/Route/Events.antt =====
-- The body of a request of src/protocols_http.c, and the frames that it sends: events on lines.
use quick_io.Common.{
  ℕ, ◌≡◌, ◌≢◌, refl, ap, ◌∙◌, true, List, [], ◌∷◌, ◌++◌, map, append_assoc, Bytes, All, arith,
}
use quick_io.Common.Int.{ℤ}
use quick_io.Wire.{Effect, routes, Platform, Lawful}
use quick_io.Raw.{protocol_raw_format}
use quick_io.Raw.Stream.{Sendable, protocol_raw_handle-format}
use quick_io.Protocols.Events.{Message, text, routed}
use quick_io.Protocols.Stream.{all_effects}
use quick_io.Http.Text.{lines, split_lines, push, protocol_http_frame}
use quick_io.Http.Poll.{Peers, Status}
use quick_io.Http.Route.{concat, run_all, handle_line, go_on, handle_lines}

abbrev pub OneLine : Bytes → Type 0
OneLine = All (λ c. c ≢ b'\n')

-- Text that is not empty, and a line of its own.
abbrev pub Line : Bytes → Type 0
Line s = OneLine s × (s ≢ [])

split_lines-OneLine :
    (s rest : Bytes) → OneLine s → split_lines (s ++ b'\n' ∷ rest) ≡ (s, lines rest)
unfolding split_lines lines
split_lines-OneLine [] rest h = refl
split_lines-OneLine (c ∷ s) rest (here, there) =
    rw (split_lines-OneLine s rest there) (ground (arith, here))

lines-Line : (s rest : Bytes) → Line s → lines (s ++ b'\n' ∷ rest) ≡ s ∷ lines rest
unfolding lines push
lines-Line [] rest (h, some') = absurd (some' refl)
lines-Line (c ∷ s) rest (h, some') = rw (split_lines-OneLine (c ∷ s) rest h) refl

module _ (pf : Platform) where
  -- The `raw` frame of an event.
  abbrev pub http_frame : Message → Bytes
  unfolding protocol_http_frame
  http_frame m = (protocol_http_frame pf m.path m.extra m.cb m.json).1

  -- The events in a row, as a body or as what a surrogate has flushed.
  abbrev pub http_body : List Message → Bytes
  http_body ms = concat (map http_frame ms)

  abbrev pub OnLines : List Message → Type 0
  OnLines = All (λ m. OneLine (text pf m) × Sendable m.path m.extra m.cb m.json)

  text_some :
      (path extra : Bytes) (cb : ℕ) (json : Bytes) → protocol_raw_format pf path extra cb json ≢ []
  unfolding protocol_raw_format
  text_some [] [] cb json e = cc
  text_some [] (c ∷ extra) cb json e = cc
  text_some (c ∷ path) extra cb json e = cc

  lines-http_body : (ms : List Message) → OnLines ms → lines (http_body ms) ≡ map (text pf) ms
  unfolding protocol_http_frame
  lines-http_body [] h = (unfold lines split_lines push in refl)
  lines-http_body (m ∷ ms) ((one, sendable), others) =
      ap lines (append_assoc (text pf m) (b'\n' ∷ []) (http_body ms))
      ∙ (lines-Line (text pf m) (http_body ms) (one, text_some m.path m.extra m.cb m.json)
          ∙ ap (λ (l : List Bytes). text pf m ∷ l) (lines-http_body ms others))

module _ (pf : Platform) (ok : Lawful pf) (now : ℤ) (status_response : Status → Bytes)
    (run : Peers → ℕ → Effect → Peers) where
  handle_lines-routed :
      (s : Peers) (q : ℕ) (ms : List Message)
      → OnLines pf ms
      → handle_lines now pf status_response run s q (map (text pf) ms)
        ≡ (run_all now pf status_response run s q (all_effects routed ms), true)
  unfolding handle_lines handle_line go_on run_all
  handle_lines-routed s q [] h = refl
  handle_lines-routed s q (m ∷ ms) ((one, sendable), others) =
      rw (protocol_raw_handle-format pf ok m.path m.extra m.cb m.json sendable)
        (handle_lines-routed (run s q (routes (m.path ++ m.extra) m.cb m.json)) q ms others)

  -- Events that are frames of this protocol one after the other, with no newline inside and no
  -- colon in a path, are handled as one body: each is routed to its path, with its callback and its
  -- JSON, in the order it was sent, and none is refused.
  pub handle_lines-http_body :
      (s : Peers) (q : ℕ) (ms : List Message)
      → OnLines pf ms
      → handle_lines now pf status_response run s q (lines (http_body pf ms))
        ≡ (run_all now pf status_response run s q (all_effects routed ms), true)
  handle_lines-http_body s q ms h =
      ap (handle_lines now pf status_response run s q) (lines-http_body pf ms h)
      ∙ handle_lines-routed s q ms h
