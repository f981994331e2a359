-- ===== src/Http/Route/Body.antt =====
-- The references between clients when src/protocols_http.c handles the body of a request.
use quick_io.Common.{
  ℕ, ◌<◌, ◌≡◌, refl, Bool, true, false, List, [], ◌∷◌, Option, none, some, Bytes, Bool-cases, inl,
  inr,
}
use quick_io.Common.Int.{ℤ}
use quick_io.Wire.{ProtocolStatus, prot_ok, prot_again, prot_fatal, Effect, Platform}
use quick_io.Raw.{protocol_raw_handle}
use quick_io.Http.Text.{build_response, lines}
use quick_io.Http.Poll.{
  Peers, Status, status_200, status_400, status_403, status_405, status_501, peer, change,
}
use quick_io.Http.Poll.Sound.{
  Sound, change-Sound, send_response-Sound, send_error-Sound, surr_replace-Sound, surr_send-Sound,
}
use quick_io.Http.Route.{
  set_incoming, flushed, concat, run_all, handle_line, go_on, handle_lines, deliver, finish_lines,
  surr_route, to_surrogate, do_body,
}

module _ (now : ℤ) (pf : Platform) (status_response : Status → Bytes)
    (run : Peers → ℕ → Effect → Peers) (base : ℕ → ℕ)
    (kept : (s : Peers) (q : ℕ) (e : Effect) → Sound base s → Sound base (run s q e)) where
  run_all-Sound :
      (s : Peers) (q : ℕ) (es : List Effect)
      → Sound base s
      → Sound base (run_all now pf status_response run s q es)
  unfolding run_all
  run_all-Sound s q [] c = c
  run_all-Sound s q (e ∷ es) c = run_all-Sound (run s q e) q es (kept s q e c)

  go_on-Sound :
      (r : Peers × ProtocolStatus) (next : Peers → Peers × Bool)
      → ((s : Peers) → Sound base s → Sound base (next s).0)
      → Sound base r.0
      → Sound base (go_on now pf status_response run r next).0
  unfolding go_on
  go_on-Sound (s, prot_ok) next h c = h s c
  go_on-Sound (s, prot_again) next h c = c
  go_on-Sound (s, prot_fatal) next h c = c

  handle_lines-Sound :
      (s : Peers) (q : ℕ) (msgs : List Bytes)
      → Sound base s
      → Sound base (handle_lines now pf status_response run s q msgs).0
  unfolding handle_lines handle_line
  handle_lines-Sound s q [] c = c
  handle_lines-Sound s q (msg ∷ msgs) c =
      go_on-Sound (handle_line now pf status_response run s q msg) _
        (λ t. handle_lines-Sound t q msgs) (run_all-Sound s q (protocol_raw_handle pf msg).1 c)

  deliver-Sound :
      (s : Peers) (q from : ℕ) (msgs : List Bytes)
      → 0 < base q
      → 0 < base from
      → Sound base s
      → Sound base (deliver now pf status_response run s q from msgs)
  unfolding deliver
  deliver-Sound s q from [] hq hf c = surr_replace-Sound now status_response base s q from hq hf c
  deliver-Sound s q from (m ∷ ms) hq hf c =
      surr_send-Sound now status_response base s q from
        (build_response pf status_200 (some (concat (m ∷ ms)))) hq hf c

  finish_lines-Sound :
      (q from : ℕ) (r : Peers × Bool)
      → 0 < base q
      → 0 < base from
      → Sound base r.0
      → Sound base (finish_lines now pf status_response run q from r)
  unfolding finish_lines
  finish_lines-Sound q from (s, false) hq hf c =
      send_error-Sound now status_response base s (some from) status_400 c
  finish_lines-Sound q from (s, true) hq hf c =
      deliver-Sound (change s q flushed) q from (peer s q).pending hq hf
        (change-Sound base s q flushed (λ x. (refl, refl)) c)

  surr_route-Sound :
      (s : Peers) (q from : ℕ) (body : Bytes)
      → 0 < base q
      → 0 < base from
      → Sound base s
      → Sound base (surr_route now pf status_response run s q from body)
  unfolding surr_route
  surr_route-Sound s q from body hq hf c =
      finish_lines-Sound q from
        (handle_lines now pf status_response run (change s q (set_incoming true)) q (lines body)) hq
        hf
        (handle_lines-Sound (change s q (set_incoming true)) q (lines body)
          (change-Sound base s q (set_incoming true) (λ x. (refl, refl)) c))

  to_surrogate-Sound :
      (s : Peers) (p : ℕ) (o : Option ℕ) (start : Bytes)
      → 0 < base p
      → ((q : ℕ) → o ≡ some q → 0 < base q)
      → Sound base s
      → Sound base (to_surrogate now pf status_response run s p o start)
  unfolding to_surrogate
  to_surrogate-Sound s p none start hp hq c =
      send_error-Sound now status_response base s (some p) status_403 c
  to_surrogate-Sound s p (some q) start hp hq c = surr_route-Sound s q p start (hq q refl) hp c

  -- If handling an event keeps the references and the pointers in order, so does handling the body
  -- of a request of a client that others refer to: a body that is refused, one with a message that
  -- is not an event, and one whose answer replaces another poller.
  pub do_body-Sound :
      (iframe_source : Option Bytes) (s : Peers) (p : ℕ) (start : Bytes)
      → 0 < base p
      → Sound base s
      → Sound base (do_body now pf status_response run iframe_source s p start)
  unfolding do_body
  do_body-Sound none s p start hp c =
      send_error-Sound now status_response base s (some p) status_501 c
  do_body-Sound (some iframe_source) s p start hp c =
      elim (Bool-cases (peer s p).iframe_requested) [
        | inl iframe ↦ rw iframe (send_response-Sound base now s (some p) iframe_source c)
        | inr other ↦ rw other (elim (Bool-cases (peer s p).is_post) [
          | inl post ↦
              rw post (to_surrogate-Sound s p (peer s p).http_client start hp (c.within p) c)
          | inr get ↦ rw get (send_error-Sound now status_response base s (some p) status_405 c)
        ])
      ]
