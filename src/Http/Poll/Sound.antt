-- ===== src/Http/Poll/Sound.antt =====
-- The references and the pointers between the clients of src/protocols_http.c, in order together.
use quick_io.Common.{ℕ, ◌<◌, ◌∙◌, sym, Option, Bytes}
use quick_io.Common.Int.{ℤ}
use quick_io.Http.Poll.Counts.{Counted, Quiet, change-Counted}
use quick_io.Http.Poll.Balance.{
  send_response-Counted, surr_replace-Counted, surr_send-Counted, protocol_http_send-Counted,
}
use quick_io.Http.Poll.Within.{
  Within, change-Within, send_response-Within, surr_replace-Within, surr_send-Within,
  protocol_http_send-Within,
}
use quick_io.Http.Poll.{
  Peer, Peers, Status, change, send_response, send_error, surr_replace, surr_send,
  protocol_http_send,
}

-- References are those that others hold and those of pointers, and pointers lead to clients that
-- others refer to.
pub record Sound (base : ℕ → ℕ) (s : Peers) : Type 0 where
  pub counted : Counted base s
  pub within : Within base s

module _ (base : ℕ → ℕ) where
  pub change-Sound :
      (s : Peers) (p : ℕ) (f : Peer → Peer) → Quiet f → Sound base s → Sound base (change s p f)
  change-Sound s p f quiet h = record {
    counted = change-Counted base s p f quiet h.counted;
    within = change-Within base s p f (λ x a q e. a q (sym (quiet x).0 ∙ e)) h.within;
  }

  pub send_response-Sound :
      (now : ℤ) (s : Peers) (o : Option ℕ) (resp : Bytes)
      → Sound base s
      → Sound base (send_response now s o resp).0
  send_response-Sound now s o resp h = record {
    counted = send_response-Counted base now s o resp h.counted;
    within = send_response-Within base now s o resp h.within;
  }

module _ (now : ℤ) (status_response : Status → Bytes) (base : ℕ → ℕ) where
  pub send_error-Sound :
      (s : Peers) (o : Option ℕ) (status : Status)
      → Sound base s
      → Sound base (send_error now status_response s o status).0
  unfolding send_error
  send_error-Sound s o status h = send_response-Sound base now s o (status_response status) h

  pub surr_replace-Sound :
      (s : Peers) (q new : ℕ)
      → 0 < base q
      → 0 < base new
      → Sound base s
      → Sound base (surr_replace now status_response s q new)
  surr_replace-Sound s q new hq hn h = record {
    counted = surr_replace-Counted now status_response base s q new hq hn h.counted;
    within = surr_replace-Within now status_response base s q new hn h.within;
  }

  pub surr_send-Sound :
      (s : Peers) (q new : ℕ) (resp : Bytes)
      → 0 < base q
      → 0 < base new
      → Sound base s
      → Sound base (surr_send now status_response s q new resp).0
  surr_send-Sound s q new resp hq hn h = record {
    counted = surr_send-Counted now status_response base s q new resp hq hn h.counted;
    within = surr_send-Within now status_response base s q new resp hn h.within;
  }

  pub protocol_http_send-Sound :
      (s : Peers) (q : ℕ) (def raw : Bytes)
      → Sound base s
      → Sound base (protocol_http_send now status_response s q def raw)
  protocol_http_send-Sound s q def raw h = record {
    counted = protocol_http_send-Counted now status_response base s q def raw h.counted;
    within = protocol_http_send-Within now status_response base s q def raw h.within;
  }
