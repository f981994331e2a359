-- ===== src/Http/Route/Request/Turns.antt =====
-- Requests, sends, heartbeats and closes of src/protocols_http.c, in any order and by any clients.
use quick_io.Common.{
  ℕ, ◌<◌, ◌≡◌, sym, ◌∙◌, Bool, true, false, ◌==◌, ◌⊎◌, inl, inr, Bool-cases, if◌then◌else◌, List,
  [], ◌∷◌, Option, none, some, Bytes, All, arith,
}
use quick_io.Common.Int.{ℤ}
use quick_io.Wire.{CloseReason, Effect, Platform, ProtocolHeartbeat}
use quick_io.Client.Subs.Table.{lookup, erase, lookup-erase}
use quick_io.Http.Poll.{
  Peers, Status, peer, protocol_http_send, protocol_http_heartbeat, protocol_http_close,
}
use quick_io.Http.Poll.Sound.{Sound, protocol_http_send-Sound}
use quick_io.Http.Poll.Ends.{heartbeat-Sound, protocol_http_close-Sound}
use quick_io.Http.Session.{World, set_table, http_closed}
use quick_io.Http.Session.Refs.{Live, Extends}
use quick_io.Http.Route.Request.{HttpRequest, set_peers, protocol_http_route}
use quick_io.Http.Route.Request.Refs.{Kept, Serves, Extends-lt, same-Serves}
use quick_io.Http.Route.Request.Headers.{Upgrades}
use quick_io.Http.Route.Request.Serves.{protocol_http_route-Serves}

-- A call that quick-event, the periodic pass or an application makes: a client has bytes to read, an
-- event for a surrogate with its two frames, a heartbeat, the end of a client.
pub data Turn : Type 0 where
  requests : ℕ → Bytes → ℕ → Bool → Turn
  sends : ℕ → Bytes → Bytes → Turn
  beats : ℕ → Bool → ProtocolHeartbeat → Turn
  ends : ℕ → Bool → CloseReason → Turn

-- Who has bytes to read is a client that quick-event refers to.
abbrev pub Ready : (ℕ → ℕ) → Turn → Type 0
Ready base (requests p rbuff used opens) = 0 < base p
Ready base (sends q def raw) = Unit
Ready base (beats p is_surrogate hb) = Unit
Ready base (ends p is_surrogate reason) = Unit

Ready-Extends :
    (base base' : ℕ → ℕ) (turn : Turn) → Extends base base' → Ready base turn → Ready base' turn
Ready-Extends base base' (requests p rbuff used opens) e r = Extends-lt base base' p e r
Ready-Extends base base' (sends q def raw) e r = tt
Ready-Extends base base' (beats p is_surrogate hb) e r = tt
Ready-Extends base base' (ends p is_surrogate reason) e r = tt

All-Ready :
    (base base' : ℕ → ℕ) (turns : List (ℤ × Turn))
    → Extends base base'
    → All (λ t. Ready base t.1) turns
    → All (λ t. Ready base' t.1) turns
All-Ready base base' [] e h = tt
All-Ready base base' ((now, turn) ∷ turns) e (here, there) =
    (Ready-Extends base base' turn e here, All-Ready base base' turns e there)

Extends-trans :
    (base base' base'' : ℕ → ℕ) → Extends base base' → Extends base' base'' → Extends base base''
Extends-trans base base' base'' e e' q = cases (e q) (e' q)
  where
    cases :
        (base' q ≡ base q) ⊎ ((base q ≡ 0) × (base' q ≡ 1))
        → (base'' q ≡ base' q) ⊎ ((base' q ≡ 0) × (base'' q ≡ 1))
        → (base'' q ≡ base q) ⊎ ((base q ≡ 0) × (base'' q ≡ 1))
    cases (inl a) (inl b) = inl (omega arith)
    cases (inl a) (inr (b, c)) = inr (omega arith, omega arith)
    cases (inr (a, b)) (inl c) = inr (omega arith, omega arith)
    cases (inr (a, b)) (inr (c, d)) = absurd (omega arith)

-- A table from which an entry is taken leads where it led.
erased-Live :
    (base : ℕ → ℕ) (w : World) (s : Peers) (tbl sid : ℕ)
    → Live base w
    → Live base
        (record { peers = s; clients = set_table w.clients tbl (erase sid (w.clients tbl)) })
erased-Live base w s tbl sid live i k q e = elim (Bool-cases (i == tbl)) [
  | inl same ↦ live tbl k q (
      from (sid == k) (lookup k (w.clients tbl))
        (sym (lookup-erase sid k (w.clients tbl)) ∙ at i same e))
  | inr other ↦ live i k q (elsewhere i other e)
]
  where
    from : (b : Bool) (o : Option ℕ) → (if b then none else o) ≡ some q → o ≡ some q
    from true o e = cc
    from false o e = e

    at :
        (i : ℕ)
        → (i == tbl) ≡ true
        → lookup k (set_table w.clients tbl (erase sid (w.clients tbl)) i) ≡ some q
        → lookup k (erase sid (w.clients tbl)) ≡ some q
    at i same e = ground (arith, same, e)

    elsewhere :
        (i : ℕ)
        → (i == tbl) ≡ false
        → lookup k (set_table w.clients tbl (erase sid (w.clients tbl)) i) ≡ some q
        → lookup k (w.clients i) ≡ some q
    elsewhere i other e = ground (arith, other, e)

module _ (pf : Platform) (status_response : Status → Bytes) (run : ℤ → Peers → ℕ → Effect → Peers)
    (parse : Bytes → HttpRequest) (strtoull : Bytes → Option ℕ)
    (upgrade : ℤ → Peers → ℕ → Bytes → Peers) (iframe_source : Option Bytes) where
  unfoldable pub run_turn : ℤ → World → Turn → World
  unfolding protocol_http_route protocol_http_send protocol_http_heartbeat http_closed
  run_turn now w (requests p rbuff used opens) =
      (protocol_http_route now pf status_response (run now) parse strtoull (upgrade now)
        iframe_source opens w p rbuff used).world
  run_turn now w (sends q def raw) =
      set_peers w (protocol_http_send now status_response w.peers q def raw)
  run_turn now w (beats p is_surrogate hb) =
      set_peers w (protocol_http_heartbeat now status_response w.peers p is_surrogate hb)
  run_turn now w (ends p is_surrogate reason) =
      http_closed now status_response w p is_surrogate reason

  -- The calls one after the other, each at its time.
  unfoldable pub run_turns : World → List (ℤ × Turn) → World
  unfolding run_turn
  run_turns w [] = w
  run_turns w ((now, turn) ∷ turns) = run_turns (run_turn now w turn) turns

  module _ (up : (now : ℤ) → Upgrades (upgrade now))
      (kept : (now : ℤ) (base : ℕ → ℕ) (s : Peers) (q : ℕ) (e : Effect)
        → Sound base s
        → Sound base (run now s q e)) where
    run_turn-Serves :
        (base : ℕ → ℕ) (now : ℤ) (w : World) (turn : Turn)
        → Ready base turn
        → Kept base w
        → Serves base (run_turn now w turn)
    unfolding run_turn http_closed
    run_turn-Serves base now w (requests p rbuff used opens) hp k =
        protocol_http_route-Serves now pf status_response (run now) strtoull (upgrade now) (up now)
          (kept now) parse iframe_source opens base w p rbuff used hp k
    run_turn-Serves base now w (sends q def raw) r k = same-Serves base _ (record {
      sound = protocol_http_send-Sound now status_response base w.peers q def raw k.sound;
      live = k.live;
    })
    run_turn-Serves base now w (beats p is_surrogate hb) r k = same-Serves base _ (record {
      sound = heartbeat-Sound now status_response base w.peers p is_surrogate hb k.sound;
      live = k.live;
    })
    run_turn-Serves base now w (ends p true reason) r k = same-Serves base _ (record {
      sound = protocol_http_close-Sound now status_response base w.peers p true reason k.sound;
      live =
          erased-Live base w (protocol_http_close now status_response w.peers p true reason)
            (peer w.peers p).tbl (peer w.peers p).sid k.live;
    })
    run_turn-Serves base now w (ends p false reason) r k = same-Serves base _ (record {
      sound = protocol_http_close-Sound now status_response base w.peers p false reason k.sound;
      live = k.live;
    })

    -- Let each client have as many references as others hold (`base`) and pointers `http.client`
    -- lead to it, and let others hold one to each client that a pointer or a table of sessions leads
    -- to. If the handling of an event and the upgrade keep this, then it is so after any sequence of
    -- requests, sends, heartbeats and closes, of any clients, if others hold a reference to each
    -- client that sends a request. The others hold what they held before, but for one reference of
    -- quick-event's to each surrogate that a request created.
    pub run_turns-Serves :
        (base : ℕ → ℕ) (w : World) (turns : List (ℤ × Turn))
        → All (λ t. Ready base t.1) turns
        → Kept base w
        → Serves base (run_turns w turns)
    unfolding run_turns
    run_turns-Serves base w [] ready k = same-Serves base w k
    run_turns-Serves base w ((now, turn) ∷ turns) (here, there) k =
        let first = run_turn-Serves base now w turn here k in
        let rest =
          run_turns-Serves first.base' (run_turn now w turn) turns
            (All-Ready base first.base' turns first.extends there) first.kept in
        record {
          base' = rest.base';
          extends = Extends-trans base first.base' rest.base' first.extends rest.extends;
          kept = rest.kept;
        }
