-- ===== src/Qev.antt =====
-- src/qev.c: the functions that quick-event calls, each with all that it does to one client.
pub mod Life
pub mod Whole
pub mod Examples
use quick_io.Common.{ℕ, Bool, true, false, if◌then◌else◌, List, [], Option, none, some, map}
use quick_io.Common.Int.{ℤ, pos}
use quick_io.Wire.{CloseReason}
use quick_io.Protocols.{Conn}
use quick_io.Protocols.Dispatch.{Protocol, Link, protocols_route, protocols_closed, set_handshaked}
use quick_io.Client.Callbacks.{Callbacks, no_callbacks, client_free_cbs}
use quick_io.Client.Subs.{Client, client_closed}
use quick_io.Client.Data.{Data, client_free_data}

-- The parts of `struct client`.
pub record ServerClient : Type 0 where
  pub link : Link
  pub callbacks : Callbacks
  pub subs : Client
  pub data' : Data

abbrev set_timeout : Bool → Link → Link
set_timeout b l = record l { conn = record l.conn { timeout = b } }

-- `qev_client_new`: all of it is zero. The references to variants are those of other clients.
unfoldable pub qev_client_new : (ℕ → ℕ) → (ℕ → Bool) → ServerClient
unfolding no_callbacks
qev_client_new variant_refs floating = record {
  link = record {
    prot = none;
    handshaked = false;
    last_send = pos 0;
    conn = record { rbuff = []; timeout = false; last_recv = pos 0; effects = [] };
  };
  callbacks = no_callbacks;
  subs = record { closing = false; subs = none; refs = λ p. 0; fair_used = 0; offs = [] };
  data' = record { table = none; refs = variant_refs; floating = floating };
}

-- `is_surrogate` is `qev_is_surrogate(client)`.
unfoldable pub qev_on_open : Bool → ServerClient → ServerClient
qev_on_open is_surrogate x = if is_surrogate then x else record x { link = set_timeout true x.link }

unfoldable pub qev_on_read : List Protocol → ℤ → ServerClient → Option ServerClient
unfolding protocols_route
qev_on_read ps now x = elim (protocols_route ps now x.link) [
  | none ↦ none
  | some l ↦ some (record x { link = l })
]

unfoldable pub qev_on_close : List Protocol → ServerClient → CloseReason → ServerClient
unfolding protocols_closed client_closed
qev_on_close ps x reason = record x {
  link = protocols_closed ps (set_timeout false x.link) reason;
  subs = client_closed x.subs;
}

-- `qev_client_free`, with `client_free_all`.
unfoldable pub qev_client_free : ServerClient → ServerClient
unfolding client_free_cbs client_free_data
qev_client_free x = record x {
  callbacks = client_free_cbs x.callbacks;
  data' = client_free_data x.data';
}
