-- ===== src/Http/Poll/Ends.antt =====
-- Heartbeats and closes of src/protocols_http.c keep the references and the pointers in order.
use quick_io.Common.{ℕ, Bool, true, false, Option, none, some, Bool-cases, inl, inr, Bytes}
use quick_io.Common.Int.{ℤ, ltb_ℤ}
use quick_io.Wire.{CloseReason, http_done, raw_heartattack, ProtocolHeartbeat}
use quick_io.Http.Poll.Balance.{protocol_http_close-Counted}
use quick_io.Http.Poll.Calls.{heartbeat-Counted}
use quick_io.Http.Poll.Within.{Within, change-Within, clear-Within, unref-Within, send_error-Within}
use quick_io.Http.Poll.Sound.{Sound}
use quick_io.Http.Poll.{
  Peers, Status, status_200, status_403, peer, change, set_client, close_peer, surrogate_beat,
  poller_beat, protocol_http_heartbeat, steal_client, tell_reason, close_surrogate, close_status,
  protocol_http_close,
}

module _ (now : ℤ) (status_response : Status → Bytes) (base : ℕ → ℕ) where
  surrogate_beat-Within :
      (s : Peers) (p : ℕ) (o : Option ℕ) (hb : ProtocolHeartbeat)
      → Within base s
      → Within base (surrogate_beat now status_response s p o hb)
  unfolding surrogate_beat
  surrogate_beat-Within s p (some c) hb w = w
  surrogate_beat-Within s p none hb w = elim (Bool-cases (ltb_ℤ (peer s p).last_send hb.timeout)) [
    | inl late ↦ rw late (change-Within base s p (close_peer raw_heartattack) (λ x a. a) w)
    | inr early ↦ rw early w
  ]

  poller_beat-Within :
      (s : Peers) (p : ℕ) (o : Option ℕ) (hb : ProtocolHeartbeat)
      → Within base s
      → Within base (poller_beat now status_response s p o hb)
  unfolding poller_beat
  poller_beat-Within s p none hb w = elim (Bool-cases (ltb_ℤ (peer s p).last_send hb.heartbeat)) [
    | inl late ↦ rw late (change-Within base s p (close_peer raw_heartattack) (λ x a. a) w)
    | inr early ↦ rw early w
  ]
  poller_beat-Within s p (some q) hb w = elim (Bool-cases (ltb_ℤ (peer s p).last_send hb.poll)) [
    | inl late ↦ rw late (send_error-Within now status_response base s (some p) status_200 w)
    | inr early ↦ rw early w
  ]

  heartbeat-Within :
      (s : Peers) (p : ℕ) (is_surrogate : Bool) (hb : ProtocolHeartbeat)
      → Within base s
      → Within base (protocol_http_heartbeat now status_response s p is_surrogate hb)
  unfolding protocol_http_heartbeat
  heartbeat-Within s p true hb w = surrogate_beat-Within s p (peer s p).http_client hb w
  heartbeat-Within s p false hb w = poller_beat-Within s p (peer s p).http_client hb w

  pub heartbeat-Sound :
      (s : Peers) (p : ℕ) (is_surrogate : Bool) (hb : ProtocolHeartbeat)
      → Sound base s
      → Sound base (protocol_http_heartbeat now status_response s p is_surrogate hb)
  heartbeat-Sound s p is_surrogate hb h = record {
    counted = heartbeat-Counted status_response base now s p is_surrogate hb h.counted;
    within = heartbeat-Within s p is_surrogate hb h.within;
  }

  tell_reason-Within :
      (s : Peers) (p : ℕ) (o : Option Status)
      → Within base s
      → Within base (tell_reason now status_response s p o)
  unfolding tell_reason
  tell_reason-Within s p none w = w
  tell_reason-Within s p (some status) w =
      send_error-Within now status_response base s (some p) status w

  close_surrogate-Within :
      (s : Peers) (o : Option ℕ)
      → Within base s
      → Within base (close_surrogate now status_response s o)
  unfolding close_surrogate
  close_surrogate-Within s none w = w
  close_surrogate-Within s (some q) w =
      unref-Within base _ (some q) (change-Within base s q (close_peer http_done) (λ x a. a) w)

  protocol_http_close-Within :
      (s : Peers) (p : ℕ) (is_surrogate : Bool) (reason : CloseReason)
      → Within base s
      → Within base (protocol_http_close now status_response s p is_surrogate reason)
  unfolding protocol_http_close steal_client
  protocol_http_close-Within s p true reason w =
      let o = (peer s p).http_client in
      unref-Within base _ o (
        send_error-Within now status_response base (change s p (set_client none)) o status_403
          (clear-Within base s p w))
  protocol_http_close-Within s p false reason w = close_surrogate-Within _ (peer s p).http_client (
      tell_reason-Within (change s p (set_client none)) p (close_status reason)
        (clear-Within base s p w))

  pub protocol_http_close-Sound :
      (s : Peers) (p : ℕ) (is_surrogate : Bool) (reason : CloseReason)
      → Sound base s
      → Sound base (protocol_http_close now status_response s p is_surrogate reason)
  protocol_http_close-Sound s p is_surrogate reason h = record {
    counted =
        protocol_http_close-Counted now status_response base s p is_surrogate reason h.counted;
    within = protocol_http_close-Within s p is_surrogate reason h.within;
  }
