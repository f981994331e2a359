-- ===== src/Http/Poll/Delivery.antt =====
-- Where the messages and the responses of src/protocols_http.c go.
use quick_io.Common.{
  ℕ, ◌<◌, ◌≡◌, refl, sym, ap, ◌∙◌, Bool, true, false, ◌&&◌, ◌==◌, ◌⊎◌, if◌then◌else◌, List, ◌++◌,
  append-nil, Option, none, some, Bytes, length, Bool-cases, inl, inr, arith,
}
use quick_io.Common.Int.{ℤ}
use quick_io.Http.Poll.Fields.{
  Blind, field-change, length-change, length-send_response, unref-Blind, send_response-Blind,
  send_response-sent,
}
use quick_io.Http.Poll.Measures.{
  out_of, pending_of, in_request_of, out_of-Blind, pending_of-Blind, in_request_of-Blind,
  answered-out, answered-pending, only_if, appended, in_request-lt,
}
use quick_io.Http.Poll.{
  Peer, Peers, Status, peer, change, points_at, set_client, answered, keep_pending, send_response,
  steal_client, unref, send_and_unref, answer_new, surr_send, write_unsent, protocol_http_send,
}

abbrev pub asked : Peers → Option ℕ → Bool
asked s none = false
asked s (some p) = (peer s p).in_request

-- The poller that an event for the surrogate `q` is written to, if any.
abbrev pub taker : Peers → ℕ → Option ℕ
taker s q =
    if (peer s q).incoming
    then none
    else if asked s (peer s q).http_client
    then (peer s q).http_client
    else none

abbrev pub is_none : Option ℕ → Bool
is_none none = true
is_none (some p) = false

stolen : Peers → ℕ → Peers
stolen s q = change s q (set_client none)

length-stolen : (s : Peers) (q : ℕ) → length (stolen s q) ≡ length s
unfolding stolen
length-stolen s q = length-change s q (set_client none)

-- Every field but the pointer, and every client in a request, is as before.
stolen-Blind :
    {A : Type 0} (field : Peer → A)
    → Blind field
    → (s : Peers) (q r : ℕ) → field (peer (stolen s q) r) ≡ field (peer s r)
unfolding stolen
stolen-Blind field blind s q r = field-change field s q r (set_client none) (blind.to_client none)

asked-stolen : (s : Peers) (q p : ℕ) → (peer (stolen s q) p).in_request ≡ (peer s p).in_request
unfolding stolen
asked-stolen s q p = field-change (λ (x : Peer). x.in_request) s q p (set_client none) (λ x. refl)

module _ (now : ℤ) (status_response : Status → Bytes) where
  -- Both fields after a message, where `busy` and `o` are the surrogate's flag and pointer.
  Delivers : Peers → ℕ → Bytes → Bytes → Option ℕ → Peers → Type 0
  Delivers s q def raw to t =
      (r : ℕ)
      → ((peer t r).out ≡ (peer s r).out ++ only_if (points_at to r) def)
        × ((peer t r).pending ≡ (peer s r).pending ++ only_if (is_none to && q == r) raw)

  -- A surrogate's message goes either to the poller that waits for it, as the response to its
  -- request, or into the surrogate's own buffer.
  kept-Delivers :
      (s t : Peers) (q : ℕ) (def raw : Bytes)
      → q < length t
      → ((r : ℕ) → (peer t r).out ≡ (peer s r).out)
      → ((r : ℕ) → (peer t r).pending ≡ (peer s r).pending)
      → Delivers s q def raw none (change t q (keep_pending raw))
  unfolding Delivers
  kept-Delivers s t q def raw lt out pending r = (
    field-change out_of t q r (keep_pending raw) (λ x. refl) ∙ (out r ∙ sym (append-nil _)),
    appended t q r (keep_pending raw) pending_of raw lt (λ x. refl)
        ∙ ap (λ (b : List Bytes). b ++ only_if (q == r) raw) (pending r),
  )

  -- What the surrogate's pointer gave, and whether that poller is in a request.
  given_taker : Peers → Option ℕ → Option ℕ
  given_taker s o = if asked s o then o else none

  -- The clients after the response, for the case that the poller is in a request or not.
  given : Peers → ℕ → ℕ → Bytes → Peers
  unfolding send_response unref stolen
  given s q p def = unref (send_response now (stolen s q) (some p) def).0 (some p)

  answer_if : Bool → Peers → ℕ → Bytes → Peers
  answer_if b t p def = if b then change t p (answered now def) else t

  given-Blind :
      {A : Type 0} (field : Peer → A)
      → Blind field
      → (s : Peers) (q p : ℕ) (def : Bytes) (b : Bool) → (peer s p).in_request ≡ b
      → (r : ℕ) → field (peer (given s q p def) r) ≡ field (peer (answer_if b (stolen s q) p def) r)
  unfolding given answer_if
  given-Blind field blind s q p def b e r =
      let t = stolen s q in
      unref-Blind field blind (send_response now t (some p) def).0 (some p) r
      ∙ (send_response-Blind field blind now t p def r
          ∙ ap (λ (c : Bool). field (peer (answer_if c t p def) r)) (asked-stolen s q p ∙ e))

  given_asked-Delivers :
      (s : Peers) (q p : ℕ) (def raw : Bytes)
      → (peer s p).in_request ≡ true
      → Delivers s q def raw (some p) (given s q p def)
  unfolding Delivers answer_if
  given_asked-Delivers s q p def raw e r = (
    given-Blind out_of out_of-Blind s q p def true e r
        ∙ (appended t p r (answered now def) out_of def
              (omega (arith, length-stolen s q, in_request-lt s p e)) (answered-out now def)
            ∙ ap (λ (b : List Bytes). b ++ only_if (p == r) def)
                (stolen-Blind out_of out_of-Blind s q r)),
    given-Blind pending_of pending_of-Blind s q p def true e r
        ∙ (field-change pending_of t p r (answered now def) (answered-pending now def)
            ∙ (stolen-Blind pending_of pending_of-Blind s q r ∙ sym (append-nil _))),
  )
    where
      t : Peers
      t = stolen s q

  length-given : (s : Peers) (q p : ℕ) (def : Bytes) → length (given s q p def) ≡ length s
  unfolding given
  length-given s q p def = length-send_response now (stolen s q) p def ∙ length-stolen s q

  given_idle-Delivers :
      (s : Peers) (q p : ℕ) (def raw : Bytes)
      → q < length s
      → (peer s p).in_request ≡ false
      → Delivers s q def raw none (change (given s q p def) q (keep_pending raw))
  unfolding answer_if
  given_idle-Delivers s q p def raw lt e =
      kept-Delivers s (given s q p def) q def raw (omega (arith, length-given s q p def))
        (λ r.
          given-Blind out_of out_of-Blind s q p def false e r
          ∙ stolen-Blind out_of out_of-Blind s q r)
        (λ r.
          given-Blind pending_of pending_of-Blind s q p def false e r
          ∙ stolen-Blind pending_of pending_of-Blind s q r)

  given-Delivers :
      (s : Peers) (q : ℕ) (o : Option ℕ) (def raw : Bytes)
      → q < length s
      → Delivers s q def raw (given_taker s o) (
          write_unsent now status_response q raw
            (send_and_unref now status_response (stolen s q, o) def))
  unfolding given_taker write_unsent send_and_unref send_response unref given
  given-Delivers s q none def raw lt =
      kept-Delivers s (stolen s q) q def raw (omega (arith, length-stolen s q))
        (stolen-Blind out_of out_of-Blind s q) (stolen-Blind pending_of pending_of-Blind s q)
  given-Delivers s q (some p) def raw lt =
      let sent = send_response-sent now (stolen s q) p def in
      let same = asked-stolen s q p in
      elim (Bool-cases (peer s p).in_request) [
        | inl yes' ↦ rw (sent, same, yes') (given_asked-Delivers s q p def raw yes')
        | inr no' ↦ rw (sent, same, no') (given_idle-Delivers s q p def raw lt no')
      ]

  -- An event for a surrogate goes to exactly one place. If no request is coming in for the surrogate
  -- and a poller that is in a request waits for it, the response is written to that poller;
  -- otherwise the frame is added to what waits in the surrogate. Nothing else is written or lost.
  pub protocol_http_send-Delivers :
      (s : Peers) (q : ℕ) (def raw : Bytes)
      → q < length s
      → (r : ℕ)
      → let t = protocol_http_send now status_response s q def raw in
        ((peer t r).out ≡ (peer s r).out ++ only_if (points_at (taker s q) r) def)
        × ((peer t r).pending ≡ (peer s r).pending ++ only_if (is_none (taker s q) && q == r) raw)
  unfolding protocol_http_send steal_client write_unsent Delivers given_taker stolen
  protocol_http_send-Delivers s q def raw lt = elim (Bool-cases (peer s q).incoming) [
    | inl busy ↦ rw busy (kept-Delivers s s q def raw lt (λ r. refl) (λ r. refl))
    | inr free ↦ rw free (given-Delivers s q (peer s q).http_client def raw lt)
  ]

  -- Where nothing was sent, the poller that is to be answered is in its request as before.
  send_and_unref-asked :
      (s : Peers) (o : Option ℕ) (new : ℕ) (resp : Bytes)
      → (peer s new).in_request ≡ true
      → let r = send_and_unref now status_response (s, o) resp in
        (r.1 ≡ true) ⊎ ((peer r.0 new).in_request ≡ true)
  unfolding send_and_unref send_response unref
  send_and_unref-asked s none new resp e = inr e
  send_and_unref-asked s (some p) new resp e = elim (Bool-cases (peer s p).in_request) [
    | inl yes' ↦ inl (send_response-sent now s p resp ∙ yes')
    | inr no' ↦ inr (
        unref-Blind in_request_of in_request_of-Blind (send_response now s (some p) resp).0 (some p)
          new
        ∙ (send_response-Blind in_request_of in_request_of-Blind now s p resp new ∙ rw no' e))
  ]

  answer_new-asked :
      (r : Peers × Bool) (q new : ℕ) (resp : Bytes)
      → (r.1 ≡ true) ⊎ ((peer r.0 new).in_request ≡ true)
      → (answer_new now status_response r q new resp).1 ≡ true
  unfolding answer_new
  answer_new-asked (t, true) q new resp h = refl
  answer_new-asked (t, false) q new resp (inl e) = cc
  answer_new-asked (t, false) q new resp (inr e) = send_response-sent now t new resp ∙ e

  -- A new poller that is in a request is answered, or a poller before it was and it takes the
  -- place: the assertion at the end of `_surr_send` never fails.
  pub surr_send-asked :
      (s : Peers) (q new : ℕ) (resp : Bytes)
      → (peer s new).in_request ≡ true
      → (surr_send now status_response s q new resp).1 ≡ true
  unfolding surr_send steal_client stolen
  surr_send-asked s q new resp e =
      answer_new-asked
        (send_and_unref now status_response (stolen s q, (peer s q).http_client) resp) q new resp
        (send_and_unref-asked (stolen s q) (peer s q).http_client new resp
          (asked-stolen s q new ∙ e))
