-- ===== src/Http/Poll.antt =====
-- Who answers whom in src/protocols_http.c: the pointers `http.client` between surrogates and
-- pollers, the references they hold, and the responses written.
pub mod Fields
pub mod Counts
pub mod Balance
pub mod Within
pub mod Sound
pub mod Ends
pub mod Clear
pub mod Calls
pub mod Measures
pub mod Delivery
pub mod Due
pub mod Owed
use quick_io.Common.{
  ℕ, zero, suc, ◌+◌, ◌-◌, Bool, true, false, not, ◌||◌, ◌==◌, if◌then◌else◌, List, [], ◌∷◌, ◌++◌,
  Option, none, some, Bytes,
}
use quick_io.Common.Int.{ℤ, ltb_ℤ, pos}
use quick_io.Wire.{
  CloseReason, http_done, raw_heartattack, http_bad_request, http_length_required,
  qev_close_out_of_mem, ProtocolHeartbeat,
}

-- What `struct client` (src/client.h) holds for HTTP, with what quick-event keeps of the client: its
-- references, whether `qev_close` was called, and for which reasons. `out` is what was written to
-- its socket; `pending` is what was written to a surrogate and not yet flushed.
pub record Peer : Type 0 where
  pub http_client : Option ℕ
  pub sid : ℕ
  pub tbl : ℕ
  pub body_len : ℕ
  pub is_post : Bool
  pub iframe_requested : Bool
  pub in_request : Bool
  pub keep_alive : Bool
  pub incoming : Bool
  pub closing : Bool
  pub reasons : List CloseReason
  pub last_send : ℤ
  pub refs : ℕ
  pub out : List Bytes
  pub pending : List Bytes

-- A client's address is its place in the list.
abbrev pub Peers : Type 0
Peers = List Peer

abbrev pub nobody : Peer
nobody = record {
  http_client = none;
  sid = 0;
  tbl = 0;
  body_len = 0;
  is_post = false;
  iframe_requested = false;
  in_request = false;
  keep_alive = false;
  incoming = false;
  closing = false;
  reasons = [];
  last_send = pos 0;
  refs = 0;
  out = [];
  pending = [];
}

abbrev pub peer : Peers → ℕ → Peer
peer [] p = nobody
peer (x ∷ s) zero = x
peer (x ∷ s) (suc p) = peer s p

abbrev pub change : Peers → ℕ → (Peer → Peer) → Peers
change [] p f = []
change (x ∷ s) zero f = f x ∷ s
change (x ∷ s) (suc p) f = x ∷ change s p f

-- `enum status`
pub data Status : Type 0 where
  status_200 status_400 status_403 status_405 : Status
  status_411 status_413 status_426 status_501 : Status

abbrev pub set_client : Option ℕ → Peer → Peer
set_client q x = record x { http_client = q }

abbrev pub add_one_ref : Peer → Peer
add_one_ref x = record x { refs = x.refs + 1 }

abbrev pub drop_one_ref : Peer → Peer
drop_one_ref x = record x { refs = x.refs - 1 }

abbrev pub close_peer : CloseReason → Peer → Peer
close_peer reason x = record x { closing = true; reasons = reason ∷ x.reasons }

abbrev pub touch : ℤ → Peer → Peer
touch now x = record x { last_send = now }

-- `qev_unref`, which takes NULL too.
pub unref : Peers → Option ℕ → Peers
unref s none = s
unref s (some p) = change s p drop_one_ref

-- `_steal_client`
pub steal_client : Peers → ℕ → Peers × Option ℕ
steal_client s p = (change s p (set_client none), (peer s p).http_client)

abbrev pub points_at : Option ℕ → ℕ → Bool
points_at none p = false
points_at (some q) p = q == p

-- `_surr_release_client`
pub surr_release_client : Peers → Option ℕ → ℕ → Peers
unfolding unref
surr_release_client s none p = s
surr_release_client s (some q) p =
    if points_at (peer s q).http_client p then unref (change s q (set_client none)) (some p) else s

-- The part of `_send_response` where the client is in a request.
abbrev pub answered : ℤ → Bytes → Peer → Peer
answered now resp x =
    let y = record x { in_request = false; out = x.out ++ resp ∷ []; last_send = now } in
    if x.keep_alive then y else close_peer http_done y

pub touch_surrogate : ℤ → Peers → Option ℕ → Peers
touch_surrogate now s none = s
touch_surrogate now s (some q) = change s q (touch now)

pub write_response : ℤ → Peers → ℕ → Option ℕ → Bytes → Peers × Bool
unfolding touch_surrogate
write_response now s p surrogate resp =
    if (peer s p).in_request
    then (touch_surrogate now (change s p (answered now resp)) surrogate, true)
    else (s, false)

pub send_stolen : ℤ → Peers × Option ℕ → ℕ → Bytes → Peers × Bool
unfolding write_response surr_release_client unref
send_stolen now (s, surrogate) p resp =
    let (t, sent) = write_response now s p surrogate resp in
    (unref (surr_release_client t surrogate p) surrogate, sent)

-- `_send_response`
unfoldable pub send_response : ℤ → Peers → Option ℕ → Bytes → Peers × Bool
unfolding steal_client send_stolen
send_response now s none resp = (s, false)
send_response now s (some p) resp = send_stolen now (steal_client s p) p resp

abbrev pub keep_pending : Bytes → Peer → Peer
keep_pending raw x = record x { pending = x.pending ++ raw ∷ [] }

-- The status that a poller is given when it closes, for the reasons that have one.
abbrev pub close_status : CloseReason → Option Status
close_status http_bad_request = some status_400
close_status http_length_required = some status_411
close_status qev_close_out_of_mem = some status_413
close_status reason = none

module _ (now : ℤ) (status_response : Status → Bytes) where
  -- `_send_error`; `status_response` is `_status_responses`.
  unfoldable pub send_error : Peers → Option ℕ → Status → Peers × Bool
  unfolding send_response
  send_error s p status = send_response now s p (status_response status)

  -- The part of `_surr_replace` under the locks.
  pub put_poller : Peers → ℕ → ℕ → Bool → Peers
  put_poller s q new closing =
      if closing
      then change s q (set_client none)
      else change (change s new add_one_ref) q (set_client (some new))

  pub refuse_if : Peers → ℕ → Bool → Peers
  unfolding send_error
  refuse_if s new closing = if closing then (send_error s (some new) status_403).0 else s

  pub dismiss : Peers → Option ℕ → Bool → Peers
  unfolding send_error unref
  dismiss s none closing = s
  dismiss s (some old) closing =
      unref (send_error s (some old) (if closing then status_403 else status_200)).0 (some old)

  -- `_surr_replace`
  unfoldable pub surr_replace : Peers → ℕ → ℕ → Peers
  unfolding put_poller refuse_if dismiss
  surr_replace s q new =
      let closing = (peer s q).closing || (peer s new).closing in
      dismiss (refuse_if (put_poller s q new closing) new closing) (peer s q).http_client closing

  pub send_and_unref : Peers × Option ℕ → Bytes → Peers × Bool
  unfolding send_response unref
  send_and_unref (s, p) resp = let (t, sent) = send_response now s p resp in (unref t p, sent)

  -- The part of `_surr_send` behind the first response, which the flag is about.
  pub answer_new : Peers × Bool → ℕ → ℕ → Bytes → Peers × Bool
  unfolding send_response surr_replace
  answer_new (t, sent) q new resp =
      if sent then (surr_replace t q new, true) else send_response now t (some new) resp

  -- `_surr_send`, where `resp` is the response with the messages. The flag is whether the ASSERT
  -- holds.
  unfoldable pub surr_send : Peers → ℕ → ℕ → Bytes → Peers × Bool
  unfolding steal_client send_and_unref answer_new
  surr_send s q new resp = answer_new (send_and_unref (steal_client s q) resp) q new resp

  pub surrogate_beat : Peers → ℕ → Option ℕ → ProtocolHeartbeat → Peers
  surrogate_beat s p none hb =
      if ltb_ℤ (peer s p).last_send hb.timeout then change s p (close_peer raw_heartattack) else s
  surrogate_beat s p (some c) hb = s

  pub poller_beat : Peers → ℕ → Option ℕ → ProtocolHeartbeat → Peers
  unfolding send_error
  poller_beat s p none hb =
      if ltb_ℤ (peer s p).last_send hb.heartbeat then change s p (close_peer raw_heartattack) else s
  poller_beat s p (some q) hb =
      if ltb_ℤ (peer s p).last_send hb.poll then (send_error s (some p) status_200).0 else s

  unfoldable pub protocol_http_heartbeat : Peers → ℕ → Bool → ProtocolHeartbeat → Peers
  unfolding surrogate_beat poller_beat
  protocol_http_heartbeat s p is_surrogate hb =
      if is_surrogate
      then surrogate_beat s p (peer s p).http_client hb
      else poller_beat s p (peer s p).http_client hb

  pub write_unsent : ℕ → Bytes → Peers × Bool → Peers
  write_unsent q raw (s, sent) = if sent then s else change s q (keep_pending raw)

  -- `protocol_http_send`, with the two frames `def` and `raw`.
  unfoldable pub protocol_http_send : Peers → ℕ → Bytes → Bytes → Peers
  unfolding steal_client send_and_unref write_unsent
  protocol_http_send s q def raw =
      write_unsent q raw
        (if (peer s q).incoming then (s, false) else send_and_unref (steal_client s q) def)

  pub tell_reason : Peers → ℕ → Option Status → Peers
  unfolding send_error
  tell_reason s p none = s
  tell_reason s p (some status) = (send_error s (some p) status).0

  pub close_surrogate : Peers → Option ℕ → Peers
  unfolding unref
  close_surrogate s none = s
  close_surrogate s (some q) = unref (change s q (close_peer http_done)) (some q)

  -- `protocol_http_close` but for the table of sessions.
  unfoldable pub protocol_http_close : Peers → ℕ → Bool → CloseReason → Peers
  unfolding steal_client send_error unref tell_reason close_surrogate
  protocol_http_close s p is_surrogate reason =
      let (t, c) = steal_client s p in
      if is_surrogate
      then unref (send_error t c status_403).0 c
      else close_surrogate (tell_reason t p (close_status reason)) c
