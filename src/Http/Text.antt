-- ===== src/Http/Text.antt =====
-- The bytes that src/protocols_http.c reads and writes: requests it takes, responses, and frames.
use quick_io.Common.{
  ℕ, Bool, true, false, ◌||◌, ◌==◌, if◌then◌else◌, List, [], ◌∷◌, ◌++◌, Option, none, some, Bytes,
  length, codes,
}
use quick_io.Buffer.{c_string}
use quick_io.Raw.{has_prefix, protocol_raw_format}
use quick_io.Http.Poll.{
  Status, status_200, status_400, status_403, status_405, status_411, status_413, status_426,
  status_501,
}
use quick_io.Wire.{ProtocolHandles, prot_yes, prot_maybe, prot_no, Platform}

-- `strstr`: the text from the first occurrence on.
unfoldable pub strstr : Bytes → Bytes → Option Bytes
strstr [] part = if has_prefix [] part then some [] else none
strstr (c ∷ s) part =
    let rest = strstr s part in if has_prefix (c ∷ s) part then some (c ∷ s) else rest

abbrev pub is_some {ℓ} : {A : Type ℓ} → Option A → Bool
is_some none = false
is_some (some x) = true

-- `_has_complete_header`
pub has_complete_header : Bytes → Bool
unfolding strstr c_string
has_complete_header rbuff =
    is_some (strstr (c_string rbuff) (codes "\r\n\r\n"))
    || is_some (strstr (c_string rbuff) (codes "\n\n"))

unfoldable pub protocol_http_handles : Bytes → ProtocolHandles
unfolding has_complete_header c_string
protocol_http_handles rbuff =
    let starts = has_prefix (c_string rbuff) in
    if has_complete_header rbuff
    then (if starts (codes "GET /")
          || starts (codes "POST /")
          || starts (codes "OPTIONS /")
          || starts (codes "PUT /")
          || starts (codes "HEAD /")
          || starts (codes "DELETE /")
        then prot_yes
        else prot_no)
    else prot_maybe

-- `_statuses`
abbrev pub status_line : Status → Bytes
status_line status_200 = codes "200 OK\r\n"
status_line status_400 = codes "400 Bad Request\r\n"
status_line status_403 = codes "403 Forbidden\r\n"
status_line status_405 = codes "405 Method Not Allowed\r\n"
status_line status_411 = codes "411 Length Required\r\n"
status_line status_413 = codes "413 Request Entity Too Large\r\n"
status_line status_426 = codes "426 Upgrade Required\r\n"
status_line status_501 = codes "501 Not Implemented\r\n"

-- `HTTP_COMMON`, with `HTTP_NOCACHE`.
abbrev pub http_common : Bytes
http_common =
    codes
      "Cache-Control: private, max-age=0\r\nExpires: -1\r\nConnection: Keep-Alive\r\nKeep-Alive: timeout=60\r\n"

-- A NULL body is `none`.
abbrev pub body_bytes : Option Bytes → Bytes
body_bytes none = []
body_bytes (some body) = body

module _ (pf : Platform) where
  open pf use {show_uint}

  -- `_build_response_full`
  unfoldable pub build_response_full : Status → Option Bytes → Bool → Bytes
  build_response_full status body is_iframe =
      codes "HTTP/1.0 "
      ++ (status_line status
          ++ (http_common
              ++ (codes "Content-Length: "
                  ++ (show_uint (length (body_bytes body))
                      ++ ((if is_iframe
                            then codes "\r\nContent-Type: text/html\r\n\r\n"
                            else codes "\r\nContent-Type: text/plain\r\n\r\n")
                          ++ body_bytes body)))))

  -- `_build_response`
  unfoldable pub build_response : Status → Option Bytes → Bytes
  unfolding build_response_full
  build_response status body = build_response_full status body false

  -- `_status_responses` as `protocol_http_init` fills it, where `error_html` is the page of
  -- src/protocols_http_html_error.c.
  abbrev pub status_responses : Bytes → Status → Bytes
  status_responses error_html status_501 = build_response status_501 (some error_html)
  status_responses error_html status = build_response status none

  -- The frames `def` and `raw`.
  unfoldable pub protocol_http_frame : Bytes → Bytes → ℕ → Bytes → Bytes × Bytes
  unfolding protocol_raw_format build_response
  protocol_http_frame ev_path ev_extra server_cb json =
      let raw = protocol_raw_format pf ev_path ev_extra server_cb json ++ b'\n' ∷ [] in
      (build_response status_200 (some raw), raw)

-- A byte ends the first token, or stands in it; an empty token is none.
unfoldable pub push : Bytes → List Bytes → List Bytes
push [] ws = ws
push (c ∷ w) ws = (c ∷ w) ∷ ws

-- What `strtok_r(body, "\n", &saveptr)` gives call after call: the token at the start, and the
-- others.
unfoldable pub split_lines : Bytes → Bytes × List Bytes
unfolding push
split_lines [] = ([], [])
split_lines (c ∷ s) =
    let (w, ws) = split_lines s in if c == b'\n' then ([], push w ws) else (c ∷ w, ws)

unfoldable pub lines : Bytes → List Bytes
unfolding split_lines push
lines body = let (w, ws) = split_lines body in push w ws
