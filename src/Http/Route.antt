-- ===== src/Http/Route.antt =====
-- `_surr_route` and `_do_body` of src/protocols_http.c: what becomes of the body of a request.
pub mod Request
pub mod Body
pub mod Events
pub mod Examples
use quick_io.Common.{
  ℕ, ◌+◌, Bool, true, false, not, ◌&&◌, ◌||◌, ◌==◌, ltb, leb, if◌then◌else◌, List, [], ◌∷◌, ◌++◌,
  map, Option, none, some, Bytes, length, take, drop, equal, codes,
}
use quick_io.Common.Int.{ℤ}
use quick_io.Buffer.{c_string}
use quick_io.Wire.{
  ProtocolStatus, prot_ok, prot_again, prot_fatal, http_bad_request, http_length_required, Effect,
  Platform,
}
use quick_io.Raw.{has_prefix, protocol_raw_handle}
use quick_io.Http.Text.{strstr, is_some, build_response, lines}
use quick_io.Http.Session.{World, get_surrogate}
use quick_io.Http.Poll.{
  Peer, Peers, Status, status_200, status_400, status_403, status_405, status_426, status_501, peer,
  change, set_client, add_one_ref, close_peer, touch, send_response, send_error, surr_replace,
  surr_send,
}

abbrev pub set_incoming : Bool → Peer → Peer
set_incoming b x = record x { incoming = b }

-- `qev_surrogate_flush`, and the end of the request.
abbrev pub flushed : Peer → Peer
flushed x = record x { incoming = false; pending = [] }

abbrev pub concat : List Bytes → Bytes
concat [] = []
concat (m ∷ ms) = m ++ concat ms

-- `run` is what an event that `protocol_raw_handle` routes, or a close, does to the clients.
module _ (now : ℤ) (pf : Platform) (status_response : Status → Bytes)
    (run : Peers → ℕ → Effect → Peers) where
  pub run_all : Peers → ℕ → List Effect → Peers
  run_all s q [] = s
  run_all s q (e ∷ es) = run_all (run s q e) q es

  handle_line : Peers → ℕ → Bytes → Peers × ProtocolStatus
  unfolding protocol_raw_handle run_all
  handle_line s q msg =
      let (status, effects) = protocol_raw_handle pf msg in (run_all s q effects, status)

  pub go_on : Peers × ProtocolStatus → (Peers → Peers × Bool) → Peers × Bool
  go_on (s, prot_ok) next = next s
  go_on (s, status) next = (s, false)

  -- The loop of `_surr_route`; the flag is whether every message was handled.
  pub handle_lines : Peers → ℕ → List Bytes → Peers × Bool
  unfolding handle_line go_on
  handle_lines s q [] = (s, true)
  handle_lines s q (msg ∷ msgs) = go_on (handle_line s q msg) (λ t. handle_lines t q msgs)

  deliver : Peers → ℕ → ℕ → List Bytes → Peers
  unfolding surr_replace surr_send build_response
  deliver s q from [] = surr_replace now status_response s q from
  deliver s q from (m ∷ ms) =
      (surr_send now status_response s q from
        (build_response pf status_200 (some (concat (m ∷ ms))))).0

  finish_lines : ℕ → ℕ → Peers × Bool → Peers
  unfolding deliver send_error
  finish_lines q from (s, false) = (send_error now status_response s (some from) status_400).0
  finish_lines q from (s, true) = deliver (change s q flushed) q from (peer s q).pending

  -- `_surr_route`
  unfoldable pub surr_route : Peers → ℕ → ℕ → Bytes → Peers
  unfolding handle_lines finish_lines lines
  surr_route s q from body =
      finish_lines q from (handle_lines (change s q (set_incoming true)) q (lines body))

  to_surrogate : Peers → ℕ → Option ℕ → Bytes → Peers
  unfolding surr_route send_error
  to_surrogate s p none start = (send_error now status_response s (some p) status_403).0
  to_surrogate s p (some q) start = surr_route s q p start

  -- `_do_body`; `iframe_source` is `none` where the public address is not set.
  unfoldable pub do_body : Option Bytes → Peers → ℕ → Bytes → Peers
  unfolding to_surrogate send_error send_response
  do_body none s p start = (send_error now status_response s (some p) status_501).0
  do_body (some iframe_source) s p start =
      if (peer s p).iframe_requested
      then (send_response now s (some p) iframe_source).0
      else if not (peer s p).is_post
      then (send_error now status_response s (some p) status_405).0
      else to_surrogate s p (peer s p).http_client start
