-- ===== src/Http/Route/Request.antt =====
-- `protocol_http_route` of src/protocols_http.c: a request from its headers to the end of its body.
pub mod Refs
pub mod Headers
pub mod Serves
pub mod Turns
use quick_io.Common.{
  ℕ, ◌+◌, Bool, true, false, not, ◌&&◌, ◌||◌, ◌==◌, ltb, leb, if◌then◌else◌, map, Option, none,
  some, Bytes, length, take, drop, equal, codes,
}
use quick_io.Common.Int.{ℤ}
use quick_io.Buffer.{c_string}
use quick_io.Wire.{
  ProtocolStatus, prot_ok, prot_again, prot_fatal, http_bad_request, http_length_required, Effect,
  Platform,
}
use quick_io.Raw.{has_prefix}
use quick_io.Http.Text.{strstr, is_some}
use quick_io.Http.Route.{do_body}
use quick_io.Http.Session.{World, get_surrogate}
use quick_io.Http.Poll.{
  Peer, Peers, Status, status_200, status_400, status_426, peer, change, set_client, add_one_ref,
  close_peer, touch, send_error,
}

-- What `qev_http_request_parse` gives: whether it succeeded, whether the headers may go on, and
-- the request; `body` is where the headers end.
pub record HttpRequest : Type 0 where
  pub parsed : Bool
  pub headers_incomplete : Bool
  pub method : Bytes
  pub url : Bytes
  pub version : ℕ
  pub header : Bytes → Option Bytes
  pub body : ℕ

-- The status, `*used`, and the clients and sessions after.
pub record HttpRoute : Type 0 where
  pub status : ProtocolStatus
  pub used : ℕ
  pub world : World

-- The method, the URL and the length of a request are kept.
abbrev pub requested : ℕ → Bool → Bool → Peer → Peer
requested body_len is_post iframe_requested x = record x {
  body_len = body_len;
  is_post = is_post;
  iframe_requested = iframe_requested;
}

abbrev pub started : Bool → Peer → Peer
started keep_alive x = record x { in_request = true; keep_alive = keep_alive }

abbrev pub set_peers : World → Peers → World
set_peers w s = record w { peers = s }

-- `strcasestr(s, part) != NULL`, with `part` in lower case.
abbrev pub lower : ℕ → ℕ
lower c = if leb b'A' c && leb c b'Z' then c + 32 else c

pub has_caseless : Bytes → Bytes → Bool
unfolding strstr
has_caseless s part = is_some (strstr (map lower s) part)

abbrev pub stays_alive : ℕ → Option Bytes → Bool
unfolding has_caseless
stays_alive version none = version == 1
stays_alive version (some connection) =
    if version == 1
    then not (has_caseless connection (codes "close"))
    else has_caseless connection (codes "keep-alive")

-- `g_strcmp0(s, t) == 0`
abbrev pub is_text : Option Bytes → Bytes → Bool
unfolding equal
is_text none t = false
is_text (some s) t = equal s t

-- `run` is what an event that `protocol_raw_handle` routes, or a close, does to the clients.
module _ (now : ℤ) (pf : Platform) (status_response : Status → Bytes)
    (run : Peers → ℕ → Effect → Peers) where
  -- `_do_headers_websocket`; `upgrade` is `protocol_rfc6455_upgrade` with the key.
  unfoldable pub do_headers_websocket :
      (Peers → ℕ → Bytes → Peers)
      → Peers
      → ℕ
      → HttpRequest
      → Option Bytes
      → Bytes
      → Peers × ProtocolStatus
  unfolding send_error has_caseless equal
  do_headers_websocket upgrade s p headers connection key =
      if not (is_some (headers.header (codes "Upgrade")))
        || not (elim connection [ none ↦ false | some c ↦ has_caseless c (codes "upgrade") ])
      then ((send_error now status_response s (some p) status_426).0, prot_ok)
      else if not (is_text (headers.header (codes "Sec-WebSocket-Protocol")) (codes "quickio"))
          || not (is_text (headers.header (codes "Sec-WebSocket-Version")) (codes "13"))
      then ((send_error now status_response s (some p) status_400).0, prot_ok)
      else (upgrade s p key, prot_again)

  -- The surrogate is the request's, unless one of them is closing.
  pub attach : Peers → ℕ → Option ℕ → Peers
  attach s p none = s
  attach s p (some q) =
      if (peer s q).closing || (peer s p).closing
      then s
      else change (change s q add_one_ref) p (set_client (some q))

  -- `_do_headers_http` behind the length; `opens` is whether quick-event gives a surrogate.
  pub with_length : World → ℕ → HttpRequest → Bool → Bool → ℕ → World
  unfolding get_surrogate attach
  with_length w p headers opens is_post body_len =
      let (w', o) = get_surrogate w headers.url opens now in
      set_peers w' (
        change (attach w'.peers p o) p
          (requested body_len is_post (has_prefix headers.url (codes "/iframe"))))

  given_length : World → ℕ → HttpRequest → Bool → Bool → Option ℕ → World × ProtocolStatus
  unfolding with_length
  given_length w p headers opens is_post none = (w, prot_fatal)
  given_length w p headers opens is_post (some body_len) =
      (with_length w p headers opens is_post body_len, prot_ok)

  -- `strtoull` is `qev_safe_strtoull`, with `none` where it returns FALSE.
  by_length :
      (Bytes → Option ℕ)
      → World
      → ℕ
      → HttpRequest
      → Bool
      → Bool
      → Option Bytes
      → World × ProtocolStatus
  unfolding with_length given_length
  by_length strtoull w p headers opens is_post (some text) =
      given_length w p headers opens is_post (strtoull text)
  by_length strtoull w p headers opens is_post none =
      if is_post
      then (set_peers w (change w.peers p (close_peer http_length_required)), prot_fatal)
      else (with_length w p headers opens is_post 0, prot_ok)

  unfoldable pub do_headers_http :
      (Bytes → Option ℕ) → World → ℕ → HttpRequest → Bool → World × ProtocolStatus
  unfolding by_length equal
  do_headers_http strtoull w p headers opens =
      by_length strtoull w p headers opens (equal headers.method (codes "POST"))
        (headers.header (codes "Content-Length"))

  -- `qev_close` where the status is PROT_FATAL.
  close_fatal : ℕ → ProtocolStatus → World → World
  close_fatal p prot_fatal w = set_peers w (change w.peers p (close_peer http_bad_request))
  close_fatal p status w = w

  by_key :
      (Bytes → Option ℕ)
      → (Peers → ℕ → Bytes → Peers)
      → World
      → ℕ
      → HttpRequest
      → Bool
      → Bytes
      → ℕ
      → Option Bytes
      → HttpRoute
  unfolding do_headers_http do_headers_websocket
  by_key strtoull upgrade w p headers opens rbuff used (some key) =
      let (s, status) =
        do_headers_websocket upgrade w.peers p headers (headers.header (codes "Connection")) key in
      record { status = status; used = length rbuff; world = set_peers w s }
  by_key strtoull upgrade w p headers opens rbuff used none =
      let (w', status) = do_headers_http strtoull w p headers opens in
      record { status = status; used = used + headers.body; world = w' }

  -- The first half of `protocol_http_route` where the headers are whole.
  do_headers :
      (Bytes → Option ℕ)
      → (Peers → ℕ → Bytes → Peers)
      → World
      → ℕ
      → HttpRequest
      → Bool
      → Bytes
      → ℕ
      → HttpRoute
  unfolding by_key
  do_headers strtoull upgrade w p headers opens rbuff used =
      if not headers.parsed
      then record { status = prot_fatal; used = used; world = w }
      else by_key strtoull upgrade w p headers opens rbuff used
          (headers.header (codes "Sec-WebSocket-Key"))

  pub new_request :
      (Bytes → Option ℕ)
      → (Peers → ℕ → Bytes → Peers)
      → World
      → ℕ
      → HttpRequest
      → Bool
      → Bytes
      → ℕ
      → HttpRoute
  unfolding do_headers close_fatal send_error
  new_request strtoull upgrade w p headers opens rbuff used =
      let s = (send_error now status_response w.peers (some p) status_200).0 in
      let alive = stays_alive headers.version (headers.header (codes "Connection")) in
      if not headers.parsed && headers.headers_incomplete
      then record { status = prot_again; used = used; world = w }
      else (let r =
            do_headers strtoull upgrade (set_peers w (change s p (started alive))) p headers opens
              rbuff used in
          record r { world = close_fatal p r.status r.world })

  whole_body : Option Bytes → ℕ → Bytes → HttpRoute → HttpRoute
  unfolding do_body c_string
  whole_body iframe_source p rbuff r =
      let n = (peer r.world.peers p).body_len in
      record r {
        used = r.used + n;
        world = set_peers r.world (
            change
              (do_body now pf status_response run iframe_source r.world.peers p
                (c_string (take n (drop r.used rbuff))))
              p (λ x. record x { body_len = 0 }));
      }

  if_whole : Option Bytes → ℕ → Bytes → HttpRoute → Option ℕ → HttpRoute
  unfolding whole_body
  if_whole iframe_source p rbuff r none = record r { status = prot_fatal }
  if_whole iframe_source p rbuff r (some len) =
      if ltb (length rbuff) len
      then record r { status = prot_again }
      else whole_body iframe_source p rbuff r

  -- The second half of `protocol_http_route`. The protocol is another one only where the status is
  -- PROT_AGAIN.
  take_body : Option Bytes → ℕ → Bytes → HttpRoute → ProtocolStatus → HttpRoute
  unfolding if_whole
  take_body iframe_source p rbuff r prot_ok =
      if_whole iframe_source p rbuff r (pf.safe_uadd (peer r.world.peers p).body_len r.used)
  take_body iframe_source p rbuff r status = r

  -- The bytes of a request are not read again after it, so the buffer is as before. `parse` is
  -- `qev_http_request_parse`.
  unfoldable pub protocol_http_route :
      (Bytes → HttpRequest)
      → (Bytes → Option ℕ)
      → (Peers → ℕ → Bytes → Peers)
      → Option Bytes
      → Bool
      → World
      → ℕ
      → Bytes
      → ℕ
      → HttpRoute
  unfolding new_request take_body
  protocol_http_route parse strtoull upgrade iframe_source opens w p rbuff used =
      let w' = set_peers w (change w.peers p (touch now)) in
      let r =
        if (peer w.peers p).body_len == 0
        then new_request strtoull upgrade w' p (parse (drop used rbuff)) opens rbuff used
        else record { status = prot_ok; used = used; world = w' } in
      take_body iframe_source p rbuff r r.status
