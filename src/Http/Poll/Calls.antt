-- ===== src/Http/Poll/Calls.antt =====
-- Sequences of the calls of src/protocols_http.c that answer, replace and close pollers.
use quick_io.Common.{
  ℕ, ◌<◌, refl, Bool, true, false, List, [], ◌∷◌, Option, none, some, Bytes, All, Bool-cases, inl,
  inr,
}
use quick_io.Common.Int.{ℤ, ltb_ℤ}
use quick_io.Wire.{CloseReason, raw_heartattack, ProtocolHeartbeat}
use quick_io.Http.Poll.Counts.{Counted, change-Counted}
use quick_io.Http.Poll.Balance.{
  send_error-Counted, surr_replace-Counted, surr_send-Counted, protocol_http_send-Counted,
  protocol_http_close-Counted,
}
use quick_io.Http.Poll.{
  Peers, Status, status_200, peer, close_peer, surr_replace, surr_send, surrogate_beat, poller_beat,
  protocol_http_heartbeat, protocol_http_send, protocol_http_close,
}

-- A call from outside: an event for a surrogate with its two frames, a heartbeat, the end of a
-- client, and what `_surr_route` ends with.
pub data Call : Type 0 where
  sends : ℕ → Bytes → Bytes → Call
  beats : ℕ → Bool → ProtocolHeartbeat → Call
  ends : ℕ → Bool → CloseReason → Call
  replaces : ℕ → ℕ → Call
  answers : ℕ → ℕ → Bytes → Call

-- A poll is between clients that quick-event still refers to.
abbrev pub Ready : (ℕ → ℕ) → Call → Type 0
Ready base (sends q def raw) = Unit
Ready base (beats p is_surrogate hb) = Unit
Ready base (ends p is_surrogate reason) = Unit
Ready base (replaces q new) = (0 < base q) × (0 < base new)
Ready base (answers q new resp) = (0 < base q) × (0 < base new)

module _ (status_response : Status → Bytes) where
  unfoldable pub run_call : ℤ → Peers → Call → Peers
  unfolding protocol_http_send protocol_http_heartbeat protocol_http_close surr_replace surr_send
  run_call now s (sends q def raw) = protocol_http_send now status_response s q def raw
  run_call now s (beats p is_surrogate hb) =
      protocol_http_heartbeat now status_response s p is_surrogate hb
  run_call now s (ends p is_surrogate reason) =
      protocol_http_close now status_response s p is_surrogate reason
  run_call now s (replaces q new) = surr_replace now status_response s q new
  run_call now s (answers q new resp) = (surr_send now status_response s q new resp).0

  -- The calls one after the other, each at its time.
  unfoldable pub run_calls : Peers → List (ℤ × Call) → Peers
  unfolding run_call
  run_calls s [] = s
  run_calls s ((now, call) ∷ calls) = run_calls (run_call now s call) calls

  surrogate_beat-Counted :
      (base : ℕ → ℕ) (now : ℤ) (s : Peers) (p : ℕ) (o : Option ℕ) (hb : ProtocolHeartbeat)
      → Counted base s
      → Counted base (surrogate_beat now status_response s p o hb)
  unfolding surrogate_beat
  surrogate_beat-Counted base now s p (some c) hb h = h
  surrogate_beat-Counted base now s p none hb h =
      elim (Bool-cases (ltb_ℤ (peer s p).last_send hb.timeout)) [
        | inl late ↦
            rw late (change-Counted base s p (close_peer raw_heartattack) (λ x. (refl, refl)) h)
        | inr early ↦ rw early h
      ]

  poller_beat-Counted :
      (base : ℕ → ℕ) (now : ℤ) (s : Peers) (p : ℕ) (o : Option ℕ) (hb : ProtocolHeartbeat)
      → Counted base s
      → Counted base (poller_beat now status_response s p o hb)
  unfolding poller_beat
  poller_beat-Counted base now s p none hb h =
      elim (Bool-cases (ltb_ℤ (peer s p).last_send hb.heartbeat)) [
        | inl late ↦
            rw late (change-Counted base s p (close_peer raw_heartattack) (λ x. (refl, refl)) h)
        | inr early ↦ rw early h
      ]
  poller_beat-Counted base now s p (some q) hb h =
      elim (Bool-cases (ltb_ℤ (peer s p).last_send hb.poll)) [
        | inl late ↦ rw late (send_error-Counted now status_response base s (some p) status_200 h)
        | inr early ↦ rw early h
      ]

  pub heartbeat-Counted :
      (base : ℕ → ℕ) (now : ℤ) (s : Peers) (p : ℕ) (is_surrogate : Bool) (hb : ProtocolHeartbeat)
      → Counted base s
      → Counted base (protocol_http_heartbeat now status_response s p is_surrogate hb)
  unfolding protocol_http_heartbeat
  heartbeat-Counted base now s p true hb h =
      surrogate_beat-Counted base now s p (peer s p).http_client hb h
  heartbeat-Counted base now s p false hb h =
      poller_beat-Counted base now s p (peer s p).http_client hb h

  run_call-Counted :
      (base : ℕ → ℕ) (now : ℤ) (s : Peers) (call : Call)
      → Ready base call
      → Counted base s
      → Counted base (run_call now s call)
  unfolding run_call
  run_call-Counted base now s (sends q def raw) r c =
      protocol_http_send-Counted now status_response base s q def raw c
  run_call-Counted base now s (beats p is_surrogate hb) r c =
      heartbeat-Counted base now s p is_surrogate hb c
  run_call-Counted base now s (ends p is_surrogate reason) r c =
      protocol_http_close-Counted now status_response base s p is_surrogate reason c
  run_call-Counted base now s (replaces q new) (hq, hn) c =
      surr_replace-Counted now status_response base s q new hq hn c
  run_call-Counted base now s (answers q new resp) (hq, hn) c =
      surr_send-Counted now status_response base s q new resp hq hn c

  -- Where each client's references are those that others hold (`base`) and one for each pointer
  -- `http.client` to it, this stays so over any sequence of sends, heartbeats, closes and polls,
  -- if both clients of each poll have a reference that others hold.
  pub run_calls-Counted :
      (base : ℕ → ℕ) (s : Peers) (calls : List (ℤ × Call))
      → All (λ c. Ready base c.1) calls
      → Counted base s
      → Counted base (run_calls s calls)
  unfolding run_calls
  run_calls-Counted base s [] ready c = c
  run_calls-Counted base s ((now, call) ∷ calls) (here, there) c =
      run_calls-Counted base (run_call now s call) calls there
        (run_call-Counted base now s call here c)
