-- ===== src/Protocols/Stream.antt =====
-- `_route` of src/protocols.c on a buffer that holds several whole frames.
use mathlib.Core.Path.{subst}
use quick_io.Common.{
  ℕ, zero, suc, ◌+◌, ◌<◌, ◌≤◌, ◌≡◌, sym, ap, ◌∙◌, true, false, ltb, List, [], ◌∷◌, ◌++◌, Option,
  some, Bytes, All, length, take, drop, length-append, append_assoc, append-nil, if◌then◌else◌,
  arith,
}
use quick_io.Common.Int.{ℤ}
use quick_io.Buffer.Laws.{take-append-drop, length-take}
use quick_io.Wire.{prot_ok, Effect, Route}
use quick_io.Protocols.{Conn, after_route, route_loop, route_all, erase}

-- The frame of a message is routed wherever it stands, and the bytes behind it stay.
abbrev pub RoutesFrame : (Bytes → ℕ → Route) → Bytes → List Effect → Type 0
RoutesFrame route frame effects =
    (front back : Bytes)
    → (rbuff : Bytes) × (route (front ++ (frame ++ back)) (length front) ≡ record {
      status = prot_ok;
      used = length front + length frame;
      rbuff = rbuff;
      effects = effects;
    })
      × (drop (length front + length frame) rbuff ≡ back)
      × (length rbuff ≡ length (front ++ (frame ++ back)))

module _ {M : Type 0} (frame : M → Bytes) where
  abbrev pub stream : List M → Bytes
  stream [] = []
  stream (m ∷ ms) = frame m ++ stream ms

module _ {M : Type 0} (effects : M → List Effect) where
  abbrev pub all_effects : List M → List Effect
  all_effects [] = []
  all_effects (m ∷ ms) = effects m ++ all_effects ms

module _ {M : Type 0} (frame : M → Bytes) (effects : M → List Effect)
    (route : Bytes → ℕ → Route) where
  -- The frame of a message is not empty, and is routed.
  abbrev pub GoodFrame : M → Type 0
  GoodFrame m = (0 < length (frame m)) × RoutesFrame route (frame m) (effects m)

  -- Where the loop ends.
  abbrev Done : ℤ → Conn → List M → Option (ℕ × Conn) → Type 0
  Done now c ms o =
      (used : ℕ) × (rbuff : Bytes) × (o
        ≡ some (
          used,
          record {
            rbuff = rbuff;
            last_recv = now;
            timeout = false;
            effects = c.effects ++ all_effects effects ms;
          },
        ))
      × (drop used rbuff ≡ [])

  length-stream : (ms : List M) → All GoodFrame ms → length ms ≤ length (stream frame ms)
  length-stream [] g = omega arith
  length-stream (m ∷ ms) g =
      omega (arith, length-stream ms g.1, length-append (frame m) (stream frame ms), g.0.0)

  abbrev moved_on : ℤ → Conn → Bytes → List Effect → Conn
  moved_on now c rbuff made = record {
    rbuff = rbuff;
    last_recv = now;
    timeout = false;
    effects = c.effects ++ made;
  }

  route_loop_ok :
      (now : ℤ) (fuel used u : ℕ) (c : Conn) (buf rbuff : Bytes) (made : List Effect)
      → c.rbuff ≡ buf
      → route buf used ≡ record { status = prot_ok; used = u; rbuff = rbuff; effects = made }
      → route_loop route now (suc fuel) used c ≡ (
          if (if ltb u (length rbuff) then false else true)
          then some (u, moved_on now c rbuff made)
          else route_loop route now fuel u (moved_on now c rbuff made))
  unfolding route_loop after_route
  route_loop_ok now fuel used u c buf rbuff made e r =
      ap
        (λ (x : Route).
          if (after_route now c x).1
          then some (x.used, (after_route now c x).0)
          else route_loop route now fuel x.used (after_route now c x).0)
        (ap (λ (b : Bytes). route b used) e ∙ r)

  route_loop-stream :
      (now : ℤ) (fuel : ℕ) (front : Bytes) (c : Conn) (m : M) (ms : List M)
      → c.rbuff ≡ front ++ (frame m ++ stream frame ms)
      → All GoodFrame (m ∷ ms)
      → length ms < fuel
      → Done now c (m ∷ ms) (route_loop route now fuel (length front) c)
  route_loop-stream now zero front c m ms e g lt = absurd (omega arith)
  route_loop-stream now (suc fuel) front c m [] e g lt =
      let (rbuff, r, d, l) = g.0.1 front [] in
      let u = length front + length (frame m) in
      let stop : ltb u (length rbuff) ≡ false =
        ground (arith, l, length-append front (frame m ++ []), length-append (frame m) []) in
      (
        u,
        rbuff,
        route_loop_ok now fuel (length front) u c _ rbuff (effects m) e r
            ∙ rw (stop, append-nil (effects m)),
        d,
      )
  route_loop-stream now (suc fuel) front c m (m' ∷ ms) e g lt =
      let back = stream frame (m' ∷ ms) in
      let (rbuff, r, d, l) = g.0.1 front back in
      let u = length front + length (frame m) in
      let there : u < length rbuff = omega (
        arith,
        l,
        length-append front (frame m ++ back),
        length-append (frame m) back,
        length-append (frame m') (stream frame ms),
        g.1.0.0,
      ) in
      let more : ltb u (length rbuff) ≡ true = ground (arith, there) in
      let c' = moved_on now c rbuff (effects m) in
      let lf : length (take u rbuff) ≡ u = length-take u rbuff (omega arith) in
      let split : rbuff ≡ take u rbuff ++ back =
        sym (take-append-drop u rbuff) ∙ ap (λ (b : Bytes). take u rbuff ++ b) d in
      let (used, out, e', d') =
        route_loop-stream now fuel (take u rbuff) c' m' ms split g.1 (omega arith) in
      (
        used,
        out,
        route_loop_ok now fuel (length front) u c _ rbuff (effects m) e r
            ∙ rw more (
                subst
                  (λ (k : ℕ).
                    route_loop route now fuel k c'
                    ≡ some (used, moved_on now c out (effects m ++ all_effects effects (m' ∷ ms))))
                  lf
                  (e' ∙ rw (append_assoc c.effects (effects m) (all_effects effects (m' ∷ ms))))),
        d',
      )

  -- A buffer that holds whole frames, and nothing else, is used up in one call, whatever their
  -- number: each event is routed, in order, and the timeout is cleared.
  pub route_all-stream :
      (now : ℤ) (c : Conn) (m : M) (ms : List M)
      → c.rbuff ≡ stream frame (m ∷ ms)
      → All GoodFrame (m ∷ ms)
      → route_all route now c
        ≡ some (record {
          rbuff = [];
          last_recv = now;
          timeout = false;
          effects = c.effects ++ all_effects effects (m ∷ ms);
        })
  unfolding route_all
  route_all-stream now c m ms e g =
      let n : length c.rbuff ≡ length (stream frame (m ∷ ms)) = ap length e in
      let (used, rbuff, r, d) =
        route_loop-stream now (length c.rbuff + 1) [] c m ms e g
          (omega (arith, length-stream (m ∷ ms) g)) in
      ap erase r ∙ rw d
