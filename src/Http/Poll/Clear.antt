-- ===== src/Http/Poll/Clear.antt =====
-- After an answer of src/protocols_http.c its client points at nobody.
use quick_io.Common.{
  ℕ, zero, suc, ◌≡◌, refl, Bool-cases, inl, inr, [], ◌∷◌, Option, none, some, Bytes, arith,
}
use quick_io.Common.Int.{ℤ}
use quick_io.Http.Poll.{
  Peer, Peers, Status, peer, change, points_at, set_client, drop_one_ref, touch, answered, unref,
  touch_surrogate, surr_release_client, write_response, send_stolen, steal_client, send_response,
  send_error,
}

-- A client that points at nobody.
abbrev pub Clear : ℕ → Peers → Type 0
Clear p s = (peer s p).http_client ≡ none

pub change-Clear :
    (s : Peers) (p q : ℕ) (f : Peer → Peer)
    → ((x : Peer) → x.http_client ≡ none → (f x).http_client ≡ none)
    → Clear p s
    → Clear p (change s q f)
change-Clear [] p q f h c = c
change-Clear (x ∷ s) zero zero f h c = h x c
change-Clear (x ∷ s) zero (suc q) f h c = c
change-Clear (x ∷ s) (suc p) zero f h c = c
change-Clear (x ∷ s) (suc p) (suc q) f h c = change-Clear s p q f h c

cleared : (s : Peers) (p : ℕ) → Clear p (change s p (set_client none))
cleared [] p = refl
cleared (x ∷ s) zero = refl
cleared (x ∷ s) (suc p) = cleared s p

unref-Clear : (s : Peers) (o : Option ℕ) (p : ℕ) → Clear p s → Clear p (unref s o)
unfolding unref
unref-Clear s none p c = c
unref-Clear s (some q) p c = change-Clear s p q drop_one_ref (λ x e. e) c

release-Clear : (s : Peers) (o : Option ℕ) (p : ℕ) → Clear p s → Clear p (surr_release_client s o p)
unfolding surr_release_client
release-Clear s none p c = c
release-Clear s (some q) p c = elim (Bool-cases (points_at (peer s q).http_client p)) [
  | inl there ↦ rw there (
      unref-Clear (change s q (set_client none)) (some p) p
        (change-Clear s p q (set_client none) (λ x e. refl) c))
  | inr other ↦ rw other c
]

write-Clear :
    (now : ℤ) (s : Peers) (p : ℕ) (o : Option ℕ) (resp : Bytes)
    → Clear p s
    → Clear p (write_response now s p o resp).0
unfolding write_response
write-Clear now s p o resp c = elim (Bool-cases (peer s p).in_request) [
  | inl asked ↦ rw asked (touched o)
  | inr idle ↦ rw idle c
]
  where
    touched : (o : Option ℕ) → Clear p (touch_surrogate now (change s p (answered now resp)) o)
    touched none = change-Clear s p p (answered now resp) (λ x e. ground arith) c
    touched (some q) =
        change-Clear (change s p (answered now resp)) p q (touch now) (λ x e. e)
          (change-Clear s p p (answered now resp) (λ x e. ground arith) c)

-- Whoever is answered points at nobody afterwards.
module _ (now : ℤ) (status_response : Status → Bytes) where
  pub send_error-Clear :
      (s : Peers) (p : ℕ) (status : Status)
      → Clear p (send_error now status_response s (some p) status).0
  unfolding send_error send_response send_stolen steal_client
  send_error-Clear s p status =
      let t = change s p (set_client none) in
      let o = (peer s p).http_client in
      let u = (write_response now t p o (status_response status)).0 in
      unref-Clear (surr_release_client u o p) o p
        (release-Clear u o p (write-Clear now t p o (status_response status) (cleared s p)))
