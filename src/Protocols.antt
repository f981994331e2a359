-- ===== src/Protocols.antt =====
-- src/protocols.c: finding a client's protocol, and routing what the client has sent.
pub mod Stream
pub mod Events
pub mod Dispatch
pub mod Examples
use quick_io.Common.{
  ℕ, zero, suc, ◌+◌, Bool, true, false, ltb, if◌then◌else◌, List, [], ◌∷◌, ◌++◌, Option, none, some,
  Bytes, length, drop,
}
use quick_io.Common.Int.{ℤ}
use quick_io.Wire.{
  ProtocolHandles, prot_yes, prot_maybe, prot_no, ProtocolStatus, prot_ok, prot_again, prot_fatal,
  qio_close_not_supported, qio_close_unknown_error, Effect, closes, Route,
}

-- What `struct client` (src/client.h) holds for its protocol: the buffer, the time of the last
-- event, whether the timeout runs, and the calls made so far.
pub record Conn : Type 0 where
  pub rbuff : Bytes
  pub last_recv : ℤ
  pub timeout : Bool
  pub effects : List Effect

-- The loop of `_find_handler` from the protocol with index `i` on; each protocol is what its
-- `handles` answers.
unfoldable pub find_from :
    List (Bytes → ProtocolHandles) → ℕ → Bool → Bytes → Option ℕ × List Effect
find_from [] i supported rbuff =
    (none, if supported then [] else closes qio_close_not_supported ∷ [])
find_from (handles ∷ protocols) i supported rbuff =
    let maybe = find_from protocols (i + 1) true rbuff in
    let no = find_from protocols (i + 1) supported rbuff in
    elim (handles rbuff) [ prot_yes ↦ (some i, []) | prot_maybe ↦ maybe | prot_no ↦ no ]

unfoldable pub find_handler : List (Bytes → ProtocolHandles) → Bytes → Option ℕ × List Effect
unfolding find_from
find_handler protocols rbuff = find_from protocols 0 false rbuff

-- What `_route` does with one answer of the protocol; the flag is whether the loop leaves.
unfoldable pub after_route : ℤ → Conn → Route → Conn × Bool
after_route now c r = elim r.status [
  | prot_ok ↦ (
    record { rbuff = r.rbuff; last_recv = now; timeout = false; effects = c.effects ++ r.effects },
    if ltb r.used (length r.rbuff) then false else true,
  )
  | prot_again ↦
      (record c { rbuff = r.rbuff; timeout = true; effects = c.effects ++ r.effects }, true)
  | prot_fatal ↦ (
    record c {
      rbuff = r.rbuff;
      effects = c.effects ++ (r.effects ++ closes qio_close_unknown_error ∷ []);
    },
    true,
  )
]

-- The loop, with `fuel` rounds at most; `none` where they do not suffice.
unfoldable pub route_loop : (Bytes → ℕ → Route) → ℤ → ℕ → ℕ → Conn → Option (ℕ × Conn)
unfolding after_route
route_loop route now zero used c = none
route_loop route now (suc fuel) used c =
    let r = route c.rbuff used in
    let (c', leaves) = after_route now c r in
    let rest = route_loop route now fuel r.used c' in if leaves then some (r.used, c') else rest

pub erase : Option (ℕ × Conn) → Option Conn
erase none = none
erase (some (used, c)) = some (record c { rbuff = drop used c.rbuff })

-- `_route` of a protocol that has a `route`. A round that goes on uses at least one byte in every
-- protocol here, so there are no more rounds than bytes, and one more.
unfoldable pub route_all : (Bytes → ℕ → Route) → ℤ → Conn → Option Conn
unfolding route_loop erase
route_all route now c = erase (route_loop route now (length c.rbuff + 1) 0 c)
