-- ===== src/Http/Poll/Within.antt =====
-- Where the pointers between the clients of src/protocols_http.c lead: to clients that others refer
-- to.
use quick_io.Common.{
  ℕ, zero, suc, ◌<◌, ◌≡◌, Bool, true, false, ◌||◌, [], ◌∷◌, Option, none, some, Bytes, Bool-cases,
  inl, inr, arith,
}
use quick_io.Common.Int.{ℤ}
use quick_io.Http.Poll.{
  Peer, Peers, Status, status_403, peer, change, points_at, set_client, add_one_ref, drop_one_ref,
  answered, touch, touch_surrogate, keep_pending, unref, steal_client, surr_release_client,
  write_response, send_stolen, send_response, send_error, put_poller, refuse_if, dismiss,
  surr_replace, send_and_unref, answer_new, surr_send, write_unsent, protocol_http_send,
}

-- Whether a pointer leads to a client that others refer to.
abbrev pub Alive : (ℕ → ℕ) → Option ℕ → Type 0
Alive base o = (q : ℕ) → o ≡ some q → 0 < base q

abbrev pub Within : (ℕ → ℕ) → Peers → Type 0
Within base s = (p : ℕ) → Alive base (peer s p).http_client

module _ (base : ℕ → ℕ) where
  pub change-Within :
      (s : Peers) (p : ℕ) (f : Peer → Peer)
      → ((x : Peer) → Alive base x.http_client → Alive base (f x).http_client)
      → Within base s
      → Within base (change s p f)
  change-Within [] p f h w q = w q
  change-Within (x ∷ s) zero f h w zero = h x (w zero)
  change-Within (x ∷ s) zero f h w (suc q) = w (suc q)
  change-Within (x ∷ s) (suc p) f h w zero = w zero
  change-Within (x ∷ s) (suc p) f h w (suc q) = change-Within s p f h (λ r. w (suc r)) q

  pub clear-Within :
      (s : Peers) (p : ℕ) → Within base s → Within base (change s p (set_client none))
  clear-Within s p = change-Within s p (set_client none) (λ x a q e. cc)

  pub unref-Within : (s : Peers) (o : Option ℕ) → Within base s → Within base (unref s o)
  unfolding unref
  unref-Within s none w = w
  unref-Within s (some p) w = change-Within s p drop_one_ref (λ x a. a) w

  touch_surrogate-Within :
      (now : ℤ) (s : Peers) (o : Option ℕ) → Within base s → Within base (touch_surrogate now s o)
  unfolding touch_surrogate
  touch_surrogate-Within now s none w = w
  touch_surrogate-Within now s (some q) w = change-Within s q (touch now) (λ x a. a) w

  answered-Alive :
      (now : ℤ) (resp : Bytes) (x : Peer)
      → Alive base x.http_client
      → Alive base (answered now resp x).http_client
  answered-Alive now resp x a = elim (Bool-cases x.keep_alive) [
    | inl stays ↦ rw stays a
    | inr ends ↦ rw ends a
  ]

  write_response-Within :
      (now : ℤ) (s : Peers) (p : ℕ) (o : Option ℕ) (resp : Bytes)
      → Within base s
      → Within base (write_response now s p o resp).0
  unfolding write_response
  write_response-Within now s p o resp w = elim (Bool-cases (peer s p).in_request) [
    | inl asked ↦ rw asked (
        touch_surrogate-Within now (change s p (answered now resp)) o
          (change-Within s p (answered now resp) (answered-Alive now resp) w))
    | inr idle ↦ rw idle w
  ]

  surr_release_client-Within :
      (s : Peers) (o : Option ℕ) (p : ℕ) → Within base s → Within base (surr_release_client s o p)
  unfolding surr_release_client
  surr_release_client-Within s none p w = w
  surr_release_client-Within s (some q) p w =
      elim (Bool-cases (points_at (peer s q).http_client p)) [
        | inl yes' ↦
            rw yes' (unref-Within (change s q (set_client none)) (some p) (clear-Within s q w))
        | inr no' ↦ rw no' w
      ]

  pub send_response-Within :
      (now : ℤ) (s : Peers) (o : Option ℕ) (resp : Bytes)
      → Within base s
      → Within base (send_response now s o resp).0
  unfolding send_response steal_client send_stolen
  send_response-Within now s none resp w = w
  send_response-Within now s (some p) resp w =
      let o = (peer s p).http_client in
      let t = change s p (set_client none) in
      let u = (write_response now t p o resp).0 in
      unref-Within (surr_release_client u o p) o (
        surr_release_client-Within u o p
          (write_response-Within now t p o resp (clear-Within s p w)))

module _ (now : ℤ) (status_response : Status → Bytes) (base : ℕ → ℕ) where
  pub send_error-Within :
      (s : Peers) (o : Option ℕ) (status : Status)
      → Within base s
      → Within base (send_error now status_response s o status).0
  unfolding send_error
  send_error-Within s o status w = send_response-Within base now s o (status_response status) w

  put_poller-Within :
      (s : Peers) (q new : ℕ) (closing : Bool)
      → 0 < base new
      → Within base s
      → Within base (put_poller now status_response s q new closing)
  unfolding put_poller
  put_poller-Within s q new true hn w = clear-Within base s q w
  put_poller-Within s q new false hn w =
      change-Within base (change s new add_one_ref) q (set_client (some new))
        (λ x a r e. ground arith) (change-Within base s new add_one_ref (λ x a. a) w)

  refuse_if-Within :
      (s : Peers) (new : ℕ) (closing : Bool)
      → Within base s
      → Within base (refuse_if now status_response s new closing)
  unfolding refuse_if
  refuse_if-Within s new true w = send_error-Within s (some new) status_403 w
  refuse_if-Within s new false w = w

  dismiss-Within :
      (s : Peers) (o : Option ℕ) (closing : Bool)
      → Within base s
      → Within base (dismiss now status_response s o closing)
  unfolding dismiss
  dismiss-Within s none closing w = w
  dismiss-Within s (some old) closing w =
      unref-Within base _ (some old) (send_error-Within s (some old) _ w)

  pub surr_replace-Within :
      (s : Peers) (q new : ℕ)
      → 0 < base new
      → Within base s
      → Within base (surr_replace now status_response s q new)
  unfolding surr_replace
  surr_replace-Within s q new hn w =
      let closing = (peer s q).closing || (peer s new).closing in
      dismiss-Within _ (peer s q).http_client closing
        (refuse_if-Within _ new closing (put_poller-Within s q new closing hn w))

  send_and_unref-Within :
      (s : Peers) (o : Option ℕ) (resp : Bytes)
      → Within base s
      → Within base (send_and_unref now status_response (s, o) resp).0
  unfolding send_and_unref
  send_and_unref-Within s o resp w =
      unref-Within base _ o (send_response-Within base now s o resp w)

  pub surr_send-Within :
      (s : Peers) (q new : ℕ) (resp : Bytes)
      → 0 < base new
      → Within base s
      → Within base (surr_send now status_response s q new resp).0
  unfolding surr_send steal_client answer_new
  surr_send-Within s q new resp hn w =
      let o = (peer s q).http_client in
      let r = send_and_unref now status_response (change s q (set_client none), o) resp in
      let w' =
        send_and_unref-Within (change s q (set_client none)) o resp (clear-Within base s q w) in
      elim (Bool-cases r.1) [
        | inl sent ↦ rw sent (surr_replace-Within r.0 q new hn w')
        | inr unsent ↦ rw unsent (send_response-Within base now r.0 (some new) resp w')
      ]

  write_unsent-Within :
      (q : ℕ) (raw : Bytes) (r : Peers × Bool)
      → Within base r.0
      → Within base (write_unsent now status_response q raw r)
  unfolding write_unsent
  write_unsent-Within q raw (s, true) w = w
  write_unsent-Within q raw (s, false) w = change-Within base s q (keep_pending raw) (λ x a. a) w

  pub protocol_http_send-Within :
      (s : Peers) (q : ℕ) (def raw : Bytes)
      → Within base s
      → Within base (protocol_http_send now status_response s q def raw)
  unfolding protocol_http_send steal_client
  protocol_http_send-Within s q def raw w = elim (Bool-cases (peer s q).incoming) [
    | inl busy ↦ rw busy (write_unsent-Within q raw (s, false) w)
    | inr free ↦ rw free (
        write_unsent-Within q raw _ (
          send_and_unref-Within (change s q (set_client none)) (peer s q).http_client def
            (clear-Within base s q w)))
  ]
