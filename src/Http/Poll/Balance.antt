-- ===== src/Http/Poll/Balance.antt =====
-- Each function of src/protocols_http.c that moves pollers keeps the references in order.
use quick_io.Common.{
  ℕ, ◌+◌, ◌<◌, ◌≡◌, refl, ap, ◌∙◌, Bool, true, false, ◌||◌, Option, none, some, Bytes, length,
  Bool-cases, inl, inr, arith,
}
use quick_io.Common.Int.{ℤ}
use quick_io.Wire.{CloseReason, http_done}
use quick_io.Http.Poll.Counts.{
  own, held, Counted, Counted-lt, plus, Quiet, change-Counted, steal-Counted, unref-Counted,
  link-Counted, client-add_one_ref,
}
use quick_io.Http.Poll.{
  Peers, Status, status_403, peer, change, points_at, set_client, answered, touch, touch_surrogate,
  close_peer, keep_pending, steal_client, surr_release_client, write_response, send_stolen,
  send_response, send_error, put_poller, refuse_if, dismiss, surr_replace, send_and_unref,
  answer_new, surr_send, write_unsent, protocol_http_send, tell_reason, close_surrogate,
  protocol_http_close,
}

answered-Quiet : (now : ℤ) (resp : Bytes) → Quiet (answered now resp)
answered-Quiet now resp x = (ground arith, ground arith)

points_at-own : (o : Option ℕ) (p q : ℕ) → points_at o p ≡ true → own o q ≡ own (some p) q
points_at-own none p q e = cc
points_at-own (some k) p q e = ground arith

module _ (base : ℕ → ℕ) where
  touch_surrogate-Counted :
      (now : ℤ) (s : Peers) (o : Option ℕ) → Counted base s → Counted base (touch_surrogate now s o)
  unfolding touch_surrogate
  touch_surrogate-Counted now s none c = c
  touch_surrogate-Counted now s (some q) c =
      change-Counted base s q (touch now) (λ x. (refl, refl)) c

  write_response-Counted :
      (now : ℤ) (s : Peers) (p : ℕ) (o : Option ℕ) (resp : Bytes)
      → Counted base s
      → Counted base (write_response now s p o resp).0
  unfolding write_response
  write_response-Counted now s p o resp c = elim (Bool-cases (peer s p).in_request) [
    | inl asked ↦ rw asked (
        touch_surrogate-Counted now (change s p (answered now resp)) o
          (change-Counted base s p (answered now resp) (answered-Quiet now resp) c))
    | inr idle ↦ rw idle c
  ]

  surr_release_client-Counted :
      (s : Peers) (o : Option ℕ) (p : ℕ) → Counted base s → Counted base (surr_release_client s o p)
  unfolding surr_release_client
  surr_release_client-Counted s none p c = c
  surr_release_client-Counted s (some q) p c =
      elim (Bool-cases (points_at (peer s q).http_client p)) [
        | inl yes' ↦ rw yes' (
            unref-Counted base (change s q (set_client none)) (some p) (λ r.
              steal-Counted base s q c r
              ∙ ap (λ (n : ℕ). held r (change s q (set_client none)) + (base r + n))
                  (points_at-own (peer s q).http_client p r yes')))
        | inr no' ↦ rw no' c
      ]

send_stolen-Counted :
    (base : ℕ → ℕ) (now : ℤ) (s : Peers) (o : Option ℕ) (p : ℕ) (resp : Bytes)
    → Counted (plus base o) s
    → Counted base (send_stolen now (s, o) p resp).0
unfolding send_stolen
send_stolen-Counted base now s o p resp c =
    let t = (write_response now s p o resp).0 in
    unref-Counted base (surr_release_client t o p) o (
      surr_release_client-Counted (plus base o) t o p
        (write_response-Counted (plus base o) now s p o resp c))

module _ (base : ℕ → ℕ) (now : ℤ) where
  pub send_response-Counted :
      (s : Peers) (o : Option ℕ) (resp : Bytes)
      → Counted base s
      → Counted base (send_response now s o resp).0
  unfolding send_response steal_client
  send_response-Counted s none resp c = c
  send_response-Counted s (some p) resp c =
      send_stolen-Counted base now (change s p (set_client none)) (peer s p).http_client p resp
        (steal-Counted base s p c)

module _ (now : ℤ) (status_response : Status → Bytes) where
  pub send_error-Counted :
      (base : ℕ → ℕ) (s : Peers) (o : Option ℕ) (status : Status)
      → Counted base s
      → Counted base (send_error now status_response s o status).0
  unfolding send_error
  send_error-Counted base s o status c =
      send_response-Counted base now s o (status_response status) c

  put_poller-Counted :
      (base : ℕ → ℕ) (s : Peers) (q new : ℕ) (closing : Bool)
      → q < length s
      → new < length s
      → Counted base s
      → Counted (plus base (peer s q).http_client) (put_poller now status_response s q new closing)
  unfolding put_poller
  put_poller-Counted base s q new true hq hn c = steal-Counted base s q c
  put_poller-Counted base s q new false hq hn c =
      link-Counted base s q new hq hn c (client-add_one_ref s q new)

  refuse_if-Counted :
      (base : ℕ → ℕ) (s : Peers) (new : ℕ) (closing : Bool)
      → Counted base s
      → Counted base (refuse_if now status_response s new closing)
  unfolding refuse_if
  refuse_if-Counted base s new true c = send_error-Counted base s (some new) status_403 c
  refuse_if-Counted base s new false c = c

  dismiss-Counted :
      (base : ℕ → ℕ) (s : Peers) (o : Option ℕ) (closing : Bool)
      → Counted (plus base o) s
      → Counted base (dismiss now status_response s o closing)
  unfolding dismiss
  dismiss-Counted base s none closing c = λ r. omega (arith, c r)
  dismiss-Counted base s (some old) closing c =
      unref-Counted base _ (some old) (send_error-Counted (plus base (some old)) s (some old) _ c)

  pub surr_replace-Counted :
      (base : ℕ → ℕ) (s : Peers) (q new : ℕ)
      → 0 < base q
      → 0 < base new
      → Counted base s
      → Counted base (surr_replace now status_response s q new)
  unfolding surr_replace
  surr_replace-Counted base s q new hq hn c =
      let closing = (peer s q).closing || (peer s new).closing in
      let old = (peer s q).http_client in
      dismiss-Counted base _ old closing (
        refuse_if-Counted (plus base old) _ new closing (
          put_poller-Counted base s q new closing (Counted-lt base s q c hq)
            (Counted-lt base s new c hn) c))

  send_and_unref-Counted :
      (base : ℕ → ℕ) (s : Peers) (o : Option ℕ) (resp : Bytes)
      → Counted (plus base o) s
      → Counted base (send_and_unref now status_response (s, o) resp).0
  unfolding send_and_unref
  send_and_unref-Counted base s o resp c =
      unref-Counted base _ o (send_response-Counted (plus base o) now s o resp c)

  pub surr_send-Counted :
      (base : ℕ → ℕ) (s : Peers) (q new : ℕ) (resp : Bytes)
      → 0 < base q
      → 0 < base new
      → Counted base s
      → Counted base (surr_send now status_response s q new resp).0
  unfolding surr_send steal_client answer_new
  surr_send-Counted base s q new resp hq hn c =
      let o = (peer s q).http_client in
      let r = send_and_unref now status_response (change s q (set_client none), o) resp in
      let c' =
        send_and_unref-Counted base (change s q (set_client none)) o resp
          (steal-Counted base s q c) in
      elim (Bool-cases r.1) [
        | inl sent ↦ rw sent (surr_replace-Counted base r.0 q new hq hn c')
        | inr unsent ↦ rw unsent (send_response-Counted base now r.0 (some new) resp c')
      ]

  write_unsent-Counted :
      (base : ℕ → ℕ) (q : ℕ) (raw : Bytes) (r : Peers × Bool)
      → Counted base r.0
      → Counted base (write_unsent now status_response q raw r)
  unfolding write_unsent
  write_unsent-Counted base q raw (s, true) c = c
  write_unsent-Counted base q raw (s, false) c =
      change-Counted base s q (keep_pending raw) (λ x. (refl, refl)) c

  pub protocol_http_send-Counted :
      (base : ℕ → ℕ) (s : Peers) (q : ℕ) (def raw : Bytes)
      → Counted base s
      → Counted base (protocol_http_send now status_response s q def raw)
  unfolding protocol_http_send steal_client
  protocol_http_send-Counted base s q def raw c = elim (Bool-cases (peer s q).incoming) [
    | inl busy ↦ rw busy (write_unsent-Counted base q raw (s, false) c)
    | inr free ↦ rw free (
        write_unsent-Counted base q raw _ (
          send_and_unref-Counted base (change s q (set_client none)) (peer s q).http_client def
            (steal-Counted base s q c)))
  ]

  tell_reason-Counted :
      (base : ℕ → ℕ) (s : Peers) (p : ℕ) (o : Option Status)
      → Counted base s
      → Counted base (tell_reason now status_response s p o)
  unfolding tell_reason
  tell_reason-Counted base s p none c = c
  tell_reason-Counted base s p (some status) c = send_error-Counted base s (some p) status c

  close_surrogate-Counted :
      (base : ℕ → ℕ) (s : Peers) (o : Option ℕ)
      → Counted (plus base o) s
      → Counted base (close_surrogate now status_response s o)
  unfolding close_surrogate
  close_surrogate-Counted base s none c = λ r. omega (arith, c r)
  close_surrogate-Counted base s (some q) c =
      unref-Counted base _ (some q)
        (change-Counted (plus base (some q)) s q (close_peer http_done) (λ x. (refl, refl)) c)

  pub protocol_http_close-Counted :
      (base : ℕ → ℕ) (s : Peers) (p : ℕ) (is_surrogate : Bool) (reason : CloseReason)
      → Counted base s
      → Counted base (protocol_http_close now status_response s p is_surrogate reason)
  unfolding protocol_http_close steal_client
  protocol_http_close-Counted base s p true reason c =
      let o = (peer s p).http_client in
      unref-Counted base _ o (
        send_error-Counted (plus base o) (change s p (set_client none)) o status_403
          (steal-Counted base s p c))
  protocol_http_close-Counted base s p false reason c =
      let o = (peer s p).http_client in
      close_surrogate-Counted base _ o (
        tell_reason-Counted (plus base o) (change s p (set_client none)) p _
          (steal-Counted base s p c))
