-- ===== src/Http/Poll/Owed.antt =====
-- How many responses a client of src/protocols_http.c gets.
use quick_io.Common.{
  ℕ, ◌≡◌, refl, ◌∙◌, Bool, true, false, ◌||◌, List, [], ◌∷◌, Option, none, some, Bytes, Bool-cases,
  inl, inr,
}
use quick_io.Common.Int.{ℤ, ltb_ℤ}
use quick_io.Wire.{CloseReason, raw_heartattack, http_done, ProtocolHeartbeat}
use quick_io.Http.Poll.Due.{
  due, Same, Same-trans, quiet-Same, clear-Same, unref-Same, send_response-Same,
}
use quick_io.Http.Poll.Calls.{Call, sends, beats, ends, replaces, answers, run_call, run_calls}
use quick_io.Http.Poll.{
  Peers, Status, status_200, status_403, peer, change, set_client, add_one_ref, close_peer,
  keep_pending, steal_client, send_response, send_error, put_poller, refuse_if, dismiss,
  surr_replace, send_and_unref, answer_new, surr_send, surrogate_beat, poller_beat,
  protocol_http_heartbeat, write_unsent, protocol_http_send, close_status, tell_reason,
  close_surrogate, protocol_http_close,
}

module _ (now : ℤ) (status_response : Status → Bytes) where
  send_error-Same :
      (s : Peers) (o : Option ℕ) (status : Status)
      → Same s (send_error now status_response s o status).0
  unfolding send_error
  send_error-Same s o status = send_response-Same now s o (status_response status)

  put_poller-Same :
      (s : Peers) (q new : ℕ) (closing : Bool)
      → Same s (put_poller now status_response s q new closing)
  unfolding put_poller
  put_poller-Same s q new true = clear-Same s q
  put_poller-Same s q new false =
      Same-trans _ _ _ (quiet-Same s new add_one_ref (λ x. refl))
        (quiet-Same (change s new add_one_ref) q (set_client (some new)) (λ x. refl))

  refuse_if-Same :
      (s : Peers) (new : ℕ) (closing : Bool) → Same s (refuse_if now status_response s new closing)
  unfolding refuse_if Same
  refuse_if-Same s new true = send_error-Same s (some new) status_403
  refuse_if-Same s new false = λ q. refl

  dismiss-Same :
      (s : Peers) (o : Option ℕ) (closing : Bool) → Same s (dismiss now status_response s o closing)
  unfolding dismiss Same
  dismiss-Same s none closing = λ q. refl
  dismiss-Same s (some old) closing =
      Same-trans _ _ _ (send_error-Same s (some old) _) (unref-Same _ (some old))

  surr_replace-Same : (s : Peers) (q new : ℕ) → Same s (surr_replace now status_response s q new)
  unfolding surr_replace
  surr_replace-Same s q new =
      let closing = (peer s q).closing || (peer s new).closing in
      let t = put_poller now status_response s q new closing in
      Same-trans _ _ _ (put_poller-Same s q new closing) (
        Same-trans _ _ _ (refuse_if-Same t new closing) (
          dismiss-Same (refuse_if now status_response t new closing) (peer s q).http_client
            closing))

  send_and_unref-Same :
      (s : Peers) (o : Option ℕ) (resp : Bytes)
      → Same s (send_and_unref now status_response (s, o) resp).0
  unfolding send_and_unref
  send_and_unref-Same s o resp =
      Same-trans _ _ _ (send_response-Same now s o resp)
        (unref-Same (send_response now s o resp).0 o)

  answer_new-Same :
      (r : Peers × Bool) (q new : ℕ) (resp : Bytes)
      → Same r.0 (answer_new now status_response r q new resp).0
  unfolding answer_new
  answer_new-Same (s, true) q new resp = surr_replace-Same s q new
  answer_new-Same (s, false) q new resp = send_response-Same now s (some new) resp

  surr_send-Same :
      (s : Peers) (q new : ℕ) (resp : Bytes) → Same s (surr_send now status_response s q new resp).0
  unfolding surr_send steal_client
  surr_send-Same s q new resp =
      let t = change s q (set_client none) in
      let r = send_and_unref now status_response (t, (peer s q).http_client) resp in
      Same-trans _ _ _ (clear-Same s q) (
        Same-trans _ _ _ (send_and_unref-Same t (peer s q).http_client resp)
          (answer_new-Same r q new resp))

  surrogate_beat-Same :
      (s : Peers) (p : ℕ) (o : Option ℕ) (hb : ProtocolHeartbeat)
      → Same s (surrogate_beat now status_response s p o hb)
  unfolding surrogate_beat Same
  surrogate_beat-Same s p (some c) hb = λ q. refl
  surrogate_beat-Same s p none hb = elim (Bool-cases (ltb_ℤ (peer s p).last_send hb.timeout)) [
    | inl late ↦ rw late (quiet-Same s p (close_peer raw_heartattack) (λ x. refl))
    | inr early ↦ rw early (λ q. refl)
  ]

  poller_beat-Same :
      (s : Peers) (p : ℕ) (o : Option ℕ) (hb : ProtocolHeartbeat)
      → Same s (poller_beat now status_response s p o hb)
  unfolding poller_beat Same
  poller_beat-Same s p none hb = elim (Bool-cases (ltb_ℤ (peer s p).last_send hb.heartbeat)) [
    | inl late ↦ rw late (quiet-Same s p (close_peer raw_heartattack) (λ x. refl))
    | inr early ↦ rw early (λ q. refl)
  ]
  poller_beat-Same s p (some c) hb = elim (Bool-cases (ltb_ℤ (peer s p).last_send hb.poll)) [
    | inl late ↦ rw late (send_error-Same s (some p) status_200)
    | inr early ↦ rw early (λ q. refl)
  ]

  heartbeat-Same :
      (s : Peers) (p : ℕ) (is_surrogate : Bool) (hb : ProtocolHeartbeat)
      → Same s (protocol_http_heartbeat now status_response s p is_surrogate hb)
  unfolding protocol_http_heartbeat
  heartbeat-Same s p true hb = surrogate_beat-Same s p (peer s p).http_client hb
  heartbeat-Same s p false hb = poller_beat-Same s p (peer s p).http_client hb

  write_unsent-Same :
      (q : ℕ) (raw : Bytes) (r : Peers × Bool) → Same r.0 (write_unsent now status_response q raw r)
  unfolding write_unsent Same
  write_unsent-Same q raw (s, true) = λ r. refl
  write_unsent-Same q raw (s, false) = quiet-Same s q (keep_pending raw) (λ x. refl)

  protocol_http_send-Same :
      (s : Peers) (q : ℕ) (def raw : Bytes)
      → Same s (protocol_http_send now status_response s q def raw)
  unfolding protocol_http_send steal_client
  protocol_http_send-Same s q def raw =
      let t = change s q (set_client none) in
      let r = send_and_unref now status_response (t, (peer s q).http_client) def in
      elim (Bool-cases (peer s q).incoming) [
        | inl busy ↦ rw busy (write_unsent-Same q raw (s, false))
        | inr free ↦ rw free (
            Same-trans _ _ _ (clear-Same s q) (
              Same-trans _ _ _ (send_and_unref-Same t (peer s q).http_client def)
                (write_unsent-Same q raw r)))
      ]

  tell_reason-Same :
      (s : Peers) (p : ℕ) (o : Option Status) → Same s (tell_reason now status_response s p o)
  unfolding tell_reason Same
  tell_reason-Same s p none = λ q. refl
  tell_reason-Same s p (some status) = send_error-Same s (some p) status

  close_surrogate-Same :
      (s : Peers) (o : Option ℕ) → Same s (close_surrogate now status_response s o)
  unfolding close_surrogate Same
  close_surrogate-Same s none = λ q. refl
  close_surrogate-Same s (some q) =
      Same-trans _ _ _ (quiet-Same s q (close_peer http_done) (λ x. refl))
        (unref-Same (change s q (close_peer http_done)) (some q))

  close-Same :
      (s : Peers) (p : ℕ) (is_surrogate : Bool) (reason : CloseReason)
      → Same s (protocol_http_close now status_response s p is_surrogate reason)
  unfolding protocol_http_close steal_client
  close-Same s p true reason =
      let t = change s p (set_client none) in
      Same-trans _ _ _ (clear-Same s p) (
        Same-trans _ _ _ (send_error-Same t (peer s p).http_client status_403)
          (unref-Same _ (peer s p).http_client))
  close-Same s p false reason =
      let t = change s p (set_client none) in
      Same-trans _ _ _ (clear-Same s p) (
        Same-trans _ _ _ (tell_reason-Same t p (close_status reason))
          (close_surrogate-Same _ (peer s p).http_client))

run_call-Same :
    (status_response : Status → Bytes) (now : ℤ) (s : Peers) (call : Call)
    → Same s (run_call status_response now s call)
unfolding run_call
run_call-Same sr now s (sends q def raw) = protocol_http_send-Same now sr s q def raw
run_call-Same sr now s (beats p is_surrogate hb) = heartbeat-Same now sr s p is_surrogate hb
run_call-Same sr now s (ends p is_surrogate reason) = close-Same now sr s p is_surrogate reason
run_call-Same sr now s (replaces q new) = surr_replace-Same now sr s q new
run_call-Same sr now s (answers q new resp) = surr_send-Same now sr s q new resp

-- Each request gets at most one response, and only requests get any: over any sequence of sends,
-- heartbeats, closes and polls, the responses written to a client and its unanswered request, if
-- there is one, keep their number.
pub run_calls-due :
    (status_response : Status → Bytes) (s : Peers) (calls : List (ℤ × Call)) (q : ℕ)
    → due (peer (run_calls status_response s calls) q) ≡ due (peer s q)
unfolding run_calls Same
run_calls-due sr s [] q = refl
run_calls-due sr s ((now, call) ∷ calls) q =
    run_calls-due sr (run_call sr now s call) calls q ∙ run_call-Same sr now s call q
