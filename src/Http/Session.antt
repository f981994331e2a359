-- ===== src/Http/Session.antt =====
-- The sessions of src/protocols_http.c: the tables of surrogates, and the id in a request's URL.
pub mod Ids
pub mod Filed
pub mod Refs
use quick_io.Common.{
  ℕ, zero, suc, ◌+◌, ◌-◌, ◌*◌, ◌%◌, ◌^◌, Bool, true, false, ◌&&◌, ◌||◌, ◌==◌, leb, if◌then◌else◌,
  List, [], ◌∷◌, ◌++◌, Option, none, some, Bytes, length, codes, drop,
}
use quick_io.Common.Int.{ℤ}
use quick_io.Wire.{CloseReason}
use quick_io.Client.Subs.Table.{lookup, put, erase}
use quick_io.Http.Text.{strstr, is_some}
use quick_io.Http.Poll.{Peers, Peer, nobody, peer, Status, protocol_http_close}

-- The clients, and `_clients`: each table leads from a session's id to the surrogate.
pub record World : Type 0 where
  pub peers : Peers
  pub clients : ℕ → List (ℕ × ℕ)

-- `G_N_ELEMENTS(_clients)`
abbrev pub clients_len : ℕ
clients_len = 64

abbrev pub set_table : (ℕ → List (ℕ × ℕ)) → ℕ → List (ℕ × ℕ) → ℕ → List (ℕ × ℕ)
set_table clients i t j = if j == i then t else clients j

-- What `protocols_new_surrogate` returns, with `last_send`, `sid` and `tbl` set: nobody waits for
-- it, and the one reference is quick-event's.
abbrev pub new_surrogate : ℕ → ℤ → Peer
new_surrogate sid now = record nobody {
  sid = sid;
  tbl = sid % clients_len;
  last_send = now;
  refs = 1;
}

-- The surrogate of a new session; `opens` is whether quick-event gives one.
pub open_surrogate : World → ℕ → Bool → ℤ → World × Option ℕ
unfolding put
open_surrogate w sid opens now =
    let which = sid % clients_len in
    if opens
    then (
      record {
        peers = w.peers ++ new_surrogate sid now ∷ [];
        clients = set_table w.clients which (put sid (length w.peers) (w.clients which));
      },
      some (length w.peers),
    )
    else (w, none)

pub or_else_create : World → ℕ → Bool → Bool → ℤ → Option ℕ → World × Option ℕ
unfolding open_surrogate
or_else_create w sid or_create opens now (some q) = (w, some q)
or_else_create w sid or_create opens now none =
    if or_create then open_surrogate w sid opens now else (w, none)

-- `_surr_find`
unfoldable pub surr_find : World → ℕ → Bool → Bool → ℤ → World × Option ℕ
unfolding or_else_create lookup
surr_find w sid or_create opens now =
    or_else_create w sid or_create opens now (lookup sid (w.clients (sid % clients_len)))

-- `g_ascii_isxdigit` and `g_ascii_xdigit_value`.
abbrev pub xdigit_value : ℕ → Option ℕ
xdigit_value c =
    if leb b'0' c && leb c b'9'
    then some (c - b'0')
    else if leb b'a' c && leb c b'f'
    then some (c - b'a' + 10)
    else if leb b'A' c && leb c b'F'
    then some (c - b'A' + 10)
    else none

-- The loop goes on at a digit only.
abbrev pub if_digit : Option ℕ → (ℕ → Option ℕ) → Option ℕ
if_digit none next = none
if_digit (some v) next = next v

-- The loop of `_get_surrogate`, with `n` digits left, at digit `i`. The bits that `|=` sets are
-- not set before, so it adds.
pub read_sid : ℕ → ℕ → ℕ → Bytes → Option ℕ
read_sid zero i uuid s = some uuid
read_sid (suc n) i uuid [] = none
read_sid (suc n) i uuid (c ∷ s) =
    if_digit (xdigit_value c) (λ v. read_sid n (i + 1) (uuid + v * 2 ^ (i * 4)) s)

-- `strtok(sid, " &")` ends the string behind the first token.
abbrev pub is_separator : ℕ → Bool
is_separator c = c == b' ' || c == b'&'

abbrev pub token : Bytes → Bytes
token [] = []
token (c ∷ s) = let rest = token s in if is_separator c then [] else c ∷ rest

pub cut_token : Bytes → Bytes
cut_token [] = []
cut_token (c ∷ s) = let rest = cut_token s in if is_separator c then c ∷ rest else token (c ∷ s)

pub sid_of : Option Bytes → Option ℕ
unfolding read_sid cut_token
sid_of none = none
sid_of (some s) = read_sid 32 0 0 (cut_token (drop 4 s))

-- The session's id in a URL, if there is one that is whole.
unfoldable pub url_sid : Bytes → Option ℕ
unfolding sid_of strstr
url_sid url = sid_of (strstr url (codes "sid="))

pub find_url : World → Option ℕ → Bool → Bool → ℤ → World × Option ℕ
unfolding surr_find
find_url w none new_client opens now = (w, none)
find_url w (some sid) new_client opens now = surr_find w sid new_client opens now

-- `_get_surrogate`
unfoldable pub get_surrogate : World → Bytes → Bool → ℤ → World × Option ℕ
unfolding find_url url_sid strstr
get_surrogate w url opens now =
    find_url w (url_sid url) (is_some (strstr url (codes "connect=true"))) opens now

-- `protocol_http_close` with the table of the session.
unfoldable pub http_closed : ℤ → (Status → Bytes) → World → ℕ → Bool → CloseReason → World
unfolding protocol_http_close erase
http_closed now status_response w p is_surrogate reason =
    let x = peer w.peers p in
    record {
      peers = protocol_http_close now status_response w.peers p is_surrogate reason;
      clients =
          if is_surrogate
          then set_table w.clients x.tbl (erase x.sid (w.clients x.tbl))
          else w.clients;
    }
