-- ===== src/Http/Poll/Fields.antt =====
-- What the functions of src/protocols_http.c leave of a client, one field or measure at a time.
use quick_io.Common.{
  ℕ, zero, suc, ◌≡◌, refl, ◌∙◌, if◌then◌else◌, [], ◌∷◌, Option, none, some, Bytes, length,
  Bool-cases, inl, inr, arith,
}
use quick_io.Common.Int.{ℤ}
use quick_io.Http.Poll.{
  Peer, Peers, peer, change, points_at, set_client, drop_one_ref, answered, touch, touch_surrogate,
  unref, steal_client, surr_release_client, write_response, send_stolen, send_response,
}

-- A measure of a client that a change of any client leaves.
pub field-change :
    {A : Type 0} (field : Peer → A) (s : Peers) (p q : ℕ) (f : Peer → Peer)
    → ((x : Peer) → field (f x) ≡ field x)
    → field (peer (change s p f) q) ≡ field (peer s q)
field-change field [] p q f h = refl
field-change field (x ∷ s) zero zero f h = h x
field-change field (x ∷ s) zero (suc q) f h = refl
field-change field (x ∷ s) (suc p) zero f h = refl
field-change field (x ∷ s) (suc p) (suc q) f h = field-change field s p q f h

pub length-change : (s : Peers) (p : ℕ) (f : Peer → Peer) → length (change s p f) ≡ length s
length-change [] p f = refl
length-change (x ∷ s) zero f = refl
length-change (x ∷ s) (suc p) f = omega (arith, length-change s p f)

-- Two changes of a client that a measure does not tell apart.
field-change-change :
    {A : Type 0} (field : Peer → A) (s : Peers) (p q : ℕ) (f g : Peer → Peer)
    → ((x : Peer) → field (f (g x)) ≡ field (f x))
    → field (peer (change (change s p g) p f) q) ≡ field (peer (change s p f) q)
field-change-change field [] p q f g h = refl
field-change-change field (x ∷ s) zero zero f g h = h x
field-change-change field (x ∷ s) zero (suc q) f g h = refl
field-change-change field (x ∷ s) (suc p) zero f g h = refl
field-change-change field (x ∷ s) (suc p) (suc q) f g h = field-change-change field s p q f g h

-- A measure that reads neither the pointer, nor the references, nor the time of the last send.
pub record Blind {A : Type 0} (field : Peer → A) : Type 0 where
  pub to_client : (o : Option ℕ) (x : Peer) → field (set_client o x) ≡ field x
  pub to_refs : (x : Peer) → field (drop_one_ref x) ≡ field x
  pub to_time : (now : ℤ) (x : Peer) → field (touch now x) ≡ field x
  pub to_stolen :
      (now : ℤ) (resp : Bytes) (x : Peer)
      → field (answered now resp (set_client none x)) ≡ field (answered now resp x)

module _ {A : Type 0} (field : Peer → A) (blind : Blind field) where
  pub unref-Blind :
      (s : Peers) (o : Option ℕ) (q : ℕ) → field (peer (unref s o) q) ≡ field (peer s q)
  unfolding unref
  unref-Blind s none q = refl
  unref-Blind s (some p) q = field-change field s p q drop_one_ref blind.to_refs

  surr_release_client-Blind :
      (s : Peers) (o : Option ℕ) (p q : ℕ)
      → field (peer (surr_release_client s o p) q) ≡ field (peer s q)
  unfolding surr_release_client
  surr_release_client-Blind s none p q = refl
  surr_release_client-Blind s (some r) p q =
      elim (Bool-cases (points_at (peer s r).http_client p)) [
        | inl yes' ↦ rw yes' (
            unref-Blind (change s r (set_client none)) (some p) q
            ∙ field-change field s r q (set_client none) (blind.to_client none))
        | inr no' ↦ rw no' refl
      ]

  touch_surrogate-Blind :
      (now : ℤ) (s : Peers) (o : Option ℕ) (q : ℕ)
      → field (peer (touch_surrogate now s o) q) ≡ field (peer s q)
  unfolding touch_surrogate
  touch_surrogate-Blind now s none q = refl
  touch_surrogate-Blind now s (some p) q = field-change field s p q (touch now) (blind.to_time now)

  send_stolen-Blind :
      (now : ℤ) (s : Peers) (o : Option ℕ) (p : ℕ) (resp : Bytes) (q : ℕ)
      → field (peer (send_stolen now (s, o) p resp).0 q)
        ≡ field (peer (write_response now s p o resp).0 q)
  unfolding send_stolen
  send_stolen-Blind now s o p resp q =
      let t = (write_response now s p o resp).0 in
      unref-Blind (surr_release_client t o p) o q ∙ surr_release_client-Blind t o p q

  -- A response is one change of its client, where the client is in a request, and no other.
  pub send_response-Blind :
      (now : ℤ) (s : Peers) (p : ℕ) (resp : Bytes) (q : ℕ)
      → field (peer (send_response now s (some p) resp).0 q)
        ≡ field (peer (if (peer s p).in_request then change s p (answered now resp) else s) q)
  unfolding send_response steal_client write_response
  send_response-Blind now s p resp q =
      let t = change s p (set_client none) in
      let o = (peer s p).http_client in
      let same : (peer t p).in_request ≡ (peer s p).in_request =
        field-change (λ (x : Peer). x.in_request) s p p (set_client none) (λ x. refl) in
      send_stolen-Blind now t o p resp q ∙ elim (Bool-cases (peer s p).in_request) [
        | inl asked ↦
            rw (same, asked)
              (touch_surrogate-Blind now (change t p (answered now resp)) o q
                ∙ field-change-change field s p q (answered now resp) (set_client none)
                    (blind.to_stolen now resp))
        | inr idle ↦
            rw (same, idle) (field-change field s p q (set_client none) (blind.to_client none))
      ]

length-unref : (s : Peers) (o : Option ℕ) → length (unref s o) ≡ length s
unfolding unref
length-unref s none = refl
length-unref s (some p) = length-change s p drop_one_ref

length-surr_release_client :
    (s : Peers) (o : Option ℕ) (p : ℕ) → length (surr_release_client s o p) ≡ length s
unfolding surr_release_client
length-surr_release_client s none p = refl
length-surr_release_client s (some q) p = ground (
  arith,
  length-unref (change s q (set_client none)) (some p),
  length-change s q (set_client none),
)

length-touch_surrogate :
    (now : ℤ) (s : Peers) (o : Option ℕ) → length (touch_surrogate now s o) ≡ length s
unfolding touch_surrogate
length-touch_surrogate now s none = refl
length-touch_surrogate now s (some q) = length-change s q (touch now)

-- No client comes or goes, and the function's reference is given back.
pub length-send_response :
    (now : ℤ) (s : Peers) (p : ℕ) (resp : Bytes)
    → length (unref (send_response now s (some p) resp).0 (some p)) ≡ length s
unfolding send_response steal_client send_stolen write_response
length-send_response now s p resp =
    let t = change s p (set_client none) in
    let o = (peer s p).http_client in
    let u = change t p (answered now resp) in
    ground (
      arith,
      length-change s p (set_client none),
      length-change t p (answered now resp),
      length-touch_surrogate now u o,
      length-surr_release_client (write_response now t p o resp).0 o p,
      length-unref (surr_release_client (write_response now t p o resp).0 o p) o,
      length-unref (send_response now s (some p) resp).0 (some p),
    )

-- Whether it was sent is whether the client was in a request.
pub send_response-sent :
    (now : ℤ) (s : Peers) (p : ℕ) (resp : Bytes)
    → (send_response now s (some p) resp).1 ≡ (peer s p).in_request
unfolding send_response steal_client send_stolen write_response
send_response-sent now s p resp =
    let t = change s p (set_client none) in
    let same : (peer t p).in_request ≡ (peer s p).in_request =
      field-change (λ (x : Peer). x.in_request) s p p (set_client none) (λ x. refl) in
    elim (Bool-cases (peer s p).in_request) [
      | inl asked ↦ rw (same, asked) refl
      | inr idle ↦ rw (same, idle) refl
    ]
