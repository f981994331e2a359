-- ===== src/Protocols/Dispatch/Beats.antt =====
-- The heartbeats of src/protocols.c and src/periodic.c, beat after beat, on a client of the raw protocol.
use quick_io.Common.{
  ℕ, zero, suc, ◌+◌, ◌*◌, ◌≤◌, ◌<◌, ◌≡◌, refl, ap, ◌∙◌, Bool, true, false, ◌||◌, inl, inr,
  Bool-cases, List, [], ◌∷◌, ◌++◌, none, some, Bytes, codes, length, drop, arith,
}
use quick_io.Common.Int.{ℤ, pos, ltb_ℤ, ◌-ℤ◌, ◌+ℤ◌}
use quick_io.Wire.{Effect, closes, raw_heartattack, ProtocolHeartbeat, Platform}
use quick_io.Raw.{protocol_raw_do_heartbeat, protocol_raw_heartbeat}
use quick_io.Client.Callbacks.{Callbacks, client_cb_prune, client_cb_prune_get_before}
use quick_io.Buffer.Laws.{drop_front}
use quick_io.Evs.{evs_send_bruteforce}
use quick_io.Protocols.Dispatch.{
  Protocol, Link, protocols_send, protocols_heartbeat, protocols_heartbeat_get_intervals, sec,
  periodic_interval_usec,
}
use quick_io.Protocols.Dispatch.Table.{protocols}

-- `_heartbeat_cb` of src/protocols_raw.c, which does nothing.
abbrev pub heartbeat_cb : ℕ
heartbeat_cb = 0

-- What `protocol_raw_do_heartbeat` calls at a challenge.
pub challenge : List Protocol → ℤ → ℕ → Link × Callbacks → Link × Callbacks
unfolding evs_send_bruteforce protocols_send
challenge ps now random (l, c) =
    let (c', message) =
      evs_send_bruteforce c (some (codes "/qio")) (some (codes "/heartbeat")) none none
        (record { cb_fn = some heartbeat_cb; cb_data = none; free_fn = none }) random now in
    (
      protocols_send ps now l message.ev_path (some message.ev_extra) message.server_cb
          message.json,
      c',
    )

-- The heartbeat's calls as far as they are challenges; the others are done.
pub challenged : List Protocol → ℤ → ℕ → List Effect → Link × Callbacks → Link × Callbacks
unfolding challenge
challenged ps now random [] x = x
challenged ps now random (Effect.challenges ∷ es) x =
    challenged ps now random es (challenge ps now random x)
challenged ps now random (e ∷ es) x = challenged ps now random es x

-- `_foreach_cb` on one client: its heartbeat, and its callbacks that are too old. `random` is that of
-- a new callback.
unfoldable pub foreach_cb :
    List Protocol → ℤ → ℕ → ProtocolHeartbeat → ℤ → Link × Callbacks → Link × Callbacks
unfolding protocols_heartbeat challenged client_cb_prune
foreach_cb ps now random hb before (l, c) =
    let l' = protocols_heartbeat ps now l hb in
    let x = challenged ps now random (drop (length l.conn.effects) l'.conn.effects) (l', c) in
    (x.0, client_cb_prune x.1 before)

-- `periodic_run` as one client sees it; `timeout_ms` and `max_age` are configured.
unfoldable pub periodic_run : List Protocol → ℤ → ℕ → ℕ → ℕ → Link × Callbacks → Link × Callbacks
unfolding foreach_cb protocols_heartbeat_get_intervals client_cb_prune_get_before
periodic_run ps now random timeout_ms max_age x =
    foreach_cb ps now random (protocols_heartbeat_get_intervals now timeout_ms)
      (client_cb_prune_get_before now max_age) x

abbrev pub is_close : Effect → Bool
is_close (closes reason) = true
is_close other = false

abbrev pub is_closed : List Effect → Bool
is_closed [] = false
is_closed (e ∷ es) = is_close e || is_closed es

is_closed-append :
    (front back : List Effect) → is_closed (front ++ back) ≡ (is_closed front || is_closed back)
is_closed-append [] back = refl
is_closed-append (e ∷ front) back = ground (arith, is_closed-append front back)

-- `last_recv < hb.dead`, on times that are not negative.
dead_lem :
    (r n : ℕ) → r + sec 960 < n → ltb_ℤ (pos r) (pos n -ℤ pos (sec (60 * 15) + sec 60)) ≡ true
dead_lem r n h = ground arith

-- The same for clients that were heard in time, with the challenge, and for the last send.
heard_lem :
    (r n : ℕ)
    → n ≤ r + sec 900
    → (ltb_ℤ (pos r) (pos n -ℤ pos (sec (60 * 15) + sec 60)) ≡ false)
      × (ltb_ℤ (pos r) (pos n -ℤ pos (sec (60 * 15))) ≡ false)
heard_lem r n h = (ground arith, ground arith)

send_lem :
    (s n : ℕ)
    → ltb_ℤ (pos s) (pos n -ℤ pos (sec 61) +ℤ pos periodic_interval_usec) ≡ false
    → n ≤ s + sec 51
send_lem s n h = ground arith

-- A raw client that has handshaked, with the time of its last receipt.
abbrev pub silent : Bytes → ℕ → ℤ → List Effect → Link
silent rbuff last_recv last_send effects = record {
  prot = some 2;
  handshaked = true;
  last_send = last_send;
  conn = record { rbuff = rbuff; last_recv = pos last_recv; timeout = false; effects = effects };
}

module _ (pf : Platform) (http : Protocol) (timeout_ms max_age : ℕ) where
  -- The beats from the first on, the k-th at `time k`.
  unfoldable pub beats : (ℕ → ℕ) → (ℕ → ℕ) → ℕ → Link × Callbacks → Link × Callbacks
  unfolding periodic_run
  beats time random zero x = x
  beats time random (suc k) x =
      periodic_run (protocols pf http) (pos (time k)) (random k) timeout_ms max_age
        (beats time random k x)

  -- The state of a raw client that has been silent, whatever it was sent.
  abbrev IsSilent : Bytes → ℕ → Link × Callbacks → Type 0
  IsSilent rbuff r x =
      (s : ℤ) × (es : List Effect) × (d : Callbacks) × (x ≡ (silent rbuff r s es, d))

  challenged-IsSilent :
      (now : ℤ) (random : ℕ) (fs : List Effect) (rbuff : Bytes) (r : ℕ) (s : ℤ) (es : List Effect)
      (c : Callbacks)
      → IsSilent rbuff r (challenged (protocols pf http) now random fs (silent rbuff r s es, c))
  unfolding challenged challenge protocols_send
  challenged-IsSilent now random [] rbuff r s es c = (s, es, c, refl)
  challenged-IsSilent now random (Effect.challenges ∷ fs) rbuff r s es c =
      challenged-IsSilent now random fs rbuff r _ _ _
  challenged-IsSilent now random (closes reason ∷ fs) rbuff r s es c =
      challenged-IsSilent now random fs rbuff r s es c
  challenged-IsSilent now random (Effect.writes bytes ∷ fs) rbuff r s es c =
      challenged-IsSilent now random fs rbuff r s es c
  challenged-IsSilent now random (Effect.routes path cb json ∷ fs) rbuff r s es c =
      challenged-IsSilent now random fs rbuff r s es c

  -- One beat, while nothing is received.
  beat-silent :
      (now : ℤ) (random : ℕ) (rbuff : Bytes) (r : ℕ) (last_send : ℤ) (effects : List Effect)
      (c : Callbacks)
      → let hb = protocols_heartbeat_get_intervals now timeout_ms in
        let b = protocol_raw_heartbeat (pos r) last_send hb now in
        let x =
          challenged (protocols pf http) now random b.1 (silent rbuff r b.0 (effects ++ b.1), c) in
        periodic_run
          (protocols pf http)
          now
          random
          timeout_ms
          max_age
          (silent rbuff r last_send effects, c)
        ≡ (x.0, client_cb_prune x.1 (client_cb_prune_get_before now max_age))
  unfolding periodic_run protocols_heartbeat foreach_cb
  beat-silent now random rbuff r last_send effects c =
      let hb = protocols_heartbeat_get_intervals now timeout_ms in
      let b = protocol_raw_heartbeat (pos r) last_send hb now in
      ap
        (λ (fs : List Effect).
          let x =
            challenged (protocols pf http) now random fs (silent rbuff r b.0 (effects ++ b.1), c) in
          (x.0, client_cb_prune x.1 (client_cb_prune_get_before now max_age)))
        (drop_front effects b.1)

  beats-silent :
      (time random : ℕ → ℕ) (k : ℕ) (rbuff : Bytes) (r : ℕ) (last_send : ℤ) (effects : List Effect)
      (c : Callbacks)
      → IsSilent rbuff r (beats time random k (silent rbuff r last_send effects, c))
  unfolding beats
  beats-silent time random zero rbuff r last_send effects c = (last_send, effects, c, refl)
  beats-silent time random (suc k) rbuff r last_send effects c =
      let (s, es, d, e) = beats-silent time random k rbuff r last_send effects c in
      let now = pos (time k) in
      let hb = protocols_heartbeat_get_intervals now timeout_ms in
      let b = protocol_raw_heartbeat (pos r) s hb now in
      let (s', es', d', e') = challenged-IsSilent now (random k) b.1 rbuff r b.0 (es ++ b.1) d in
      (
        s',
        es',
        client_cb_prune d' (client_cb_prune_get_before now max_age),
        ap (periodic_run (protocols pf http) now (random k) timeout_ms max_age) e
            ∙ (beat-silent now (random k) rbuff r s es d
                ∙ ap
                    (λ (x : Link × Callbacks).
                      (x.0, client_cb_prune x.1 (client_cb_prune_get_before now max_age)))
                    e'),
      )

  -- A beat at which the last receipt is more than 960 seconds ago closes.
  beat-closes :
      (n r : ℕ) (last_send : ℤ)
      → r + sec 960 < n
      → protocol_raw_heartbeat
          (pos r)
          last_send
          (protocols_heartbeat_get_intervals (pos n) timeout_ms)
          (pos n)
        ≡ (last_send, closes raw_heartattack ∷ [])
  unfolding protocol_raw_heartbeat protocol_raw_do_heartbeat protocols_heartbeat_get_intervals
  beat-closes n r last_send h = rw (dead_lem r n h) refl

  closes-late :
      (x : Link × Callbacks) (n random : ℕ) (rbuff : Bytes) (r : ℕ) (s : ℤ) (es : List Effect)
      (d : Callbacks)
      → x ≡ (silent rbuff r s es, d)
      → r + sec 960 < n
      → is_closed
          (periodic_run (protocols pf http) (pos n) random timeout_ms max_age x).0.conn.effects
        ≡ true
  unfolding challenged
  closes-late x n random rbuff r s es d e h =
      ap
        (λ (y : Link × Callbacks).
          is_closed
            (periodic_run (protocols pf http) (pos n) random timeout_ms max_age y).0.conn.effects)
        e
      ∙ (ap (λ (y : Link × Callbacks). is_closed y.0.conn.effects)
            (beat-silent (pos n) random rbuff r s es d)
          ∙ (ap
                (λ (b : ℤ × List Effect).
                  is_closed
                    (challenged (protocols pf http) (pos n) random b.1
                      (silent rbuff r b.0 (es ++ b.1), d)).0.conn.effects)
                (beat-closes n r s h)
              ∙ (is_closed-append es (closes raw_heartattack ∷ []) ∙ ground arith)))

  late :
      (time : ℕ → ℕ) (r k : ℕ)
      → r ≤ time 0
      → ((i : ℕ) → time i + periodic_interval_usec ≤ time (suc i))
      → r + k * periodic_interval_usec ≤ time k
  late time r zero first gaps = omega arith
  late time r (suc k) first gaps = omega (arith, late time r k first gaps, gaps k)

  -- A raw client from which nothing comes is closed: at the latest, `qev_close` is called at the 98th
  -- beat behind its last event, where the beats are at least 10 seconds apart, whatever was sent
  -- to it and however the other protocols, the timeout and the callbacks stand.
  pub beats-is_closed :
      (time random : ℕ → ℕ) (rbuff : Bytes) (r : ℕ) (last_send : ℤ) (effects : List Effect)
      (c : Callbacks)
      → r ≤ time 0
      → ((i : ℕ) → time i + periodic_interval_usec ≤ time (suc i))
      → is_closed (beats time random 98 (silent rbuff r last_send effects, c)).0.conn.effects ≡ true
  unfolding beats
  beats-is_closed time random rbuff r last_send effects c first gaps =
      let (s, es, d, e) = beats-silent time random 97 rbuff r last_send effects c in
      closes-late (beats time random 97 (silent rbuff r last_send effects, c)) (time 97) (random 97)
        rbuff r s es d e (omega (arith, late time r 97 first gaps))

  -- A beat of a client that was heard in time; there is no challenge.
  beat-sends :
      (n r s random : ℕ) (rbuff : Bytes) (c : Callbacks)
      → n ≤ r + sec 900
      → let b =
          protocol_raw_heartbeat
            (pos r)
            (pos s)
            (protocols_heartbeat_get_intervals (pos n) timeout_ms)
            (pos n) in
        let x = challenged (protocols pf http) (pos n) random b.1 (silent rbuff r b.0 b.1, c) in
        (m : ℕ) × (x.0.last_send ≡ pos m) × (n ≤ m + sec 51) × (is_closed x.0.conn.effects ≡ false)
  unfolding protocol_raw_heartbeat protocol_raw_do_heartbeat protocols_heartbeat_get_intervals
      challenged
  beat-sends n r s random rbuff c h =
      let (alive, quiet) = heard_lem r n h in
      elim (Bool-cases (ltb_ℤ (pos s) (pos n -ℤ pos (sec 61) +ℤ pos periodic_interval_usec))) [
        | inl old ↦ (n, rw (alive, quiet, old) refl, omega arith, rw (alive, quiet, old) refl)
        | inr recent ↦
            (s, rw (alive, quiet, recent) refl, send_lem s n recent, rw (alive, quiet, recent) refl)
      ]

  -- While a raw client is heard from at least every 15 minutes, a beat does not close it, and behind
  -- the beat the last send is at most 51 seconds ago.
  pub periodic_run-sends :
      (n r s random : ℕ) (rbuff : Bytes) (c : Callbacks)
      → n ≤ r + sec 900
      → let x =
          periodic_run
            (protocols pf http)
            (pos n)
            random
            timeout_ms
            max_age
            (silent rbuff r (pos s) [], c) in
        (m : ℕ) × (x.0.last_send ≡ pos m) × (n ≤ m + sec 51) × (is_closed x.0.conn.effects ≡ false)
  periodic_run-sends n r s random rbuff c h =
      let e = beat-silent (pos n) random rbuff r (pos s) [] c in
      let (m, sent, recent, still) = beat-sends n r s random rbuff c h in
      (
        m,
        ap (λ (x : Link × Callbacks). x.0.last_send) e ∙ sent,
        recent,
        ap (λ (x : Link × Callbacks). is_closed x.0.conn.effects) e ∙ still,
      )
