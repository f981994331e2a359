-- ===== src/Http/Poll/Measures.antt =====
-- The fields of a client that tell what src/protocols_http.c wrote for it.
use quick_io.Common.{
  ℕ, zero, suc, ◌<◌, ◌≡◌, refl, sym, ◌∙◌, Bool, true, false, ◌==◌, if◌then◌else◌, List, [], ◌∷◌,
  ◌++◌, append-nil, none, Bytes, length, arith,
}
use quick_io.Common.Int.{ℤ}
use quick_io.Http.Poll.Fields.{Blind}
use quick_io.Http.Poll.{Peer, Peers, peer, change, set_client, answered}

-- What one message adds for a client.
abbrev pub only_if : Bool → Bytes → List Bytes
only_if b resp = if b then resp ∷ [] else []

abbrev pub out_of : Peer → List Bytes
out_of x = x.out

abbrev pub pending_of : Peer → List Bytes
pending_of x = x.pending

pub answered-out :
    (now : ℤ) (resp : Bytes) (x : Peer) → (answered now resp x).out ≡ x.out ++ resp ∷ []
answered-out now resp x = ground arith

pub answered-pending :
    (now : ℤ) (resp : Bytes) (x : Peer) → (answered now resp x).pending ≡ x.pending
answered-pending now resp x = ground arith

pub out_of-Blind : Blind out_of
out_of-Blind = record {
  to_client = λ o x. refl;
  to_refs = λ x. refl;
  to_time = λ now x. refl;
  to_stolen =
      λ now resp x. answered-out now resp (set_client none x) ∙ sym (answered-out now resp x);
}

pub pending_of-Blind : Blind pending_of
pending_of-Blind = record {
  to_client = λ o x. refl;
  to_refs = λ x. refl;
  to_time = λ now x. refl;
  to_stolen = λ now resp x.
      answered-pending now resp (set_client none x) ∙ sym (answered-pending now resp x);
}

abbrev pub in_request_of : Peer → Bool
in_request_of x = x.in_request

pub answered-in_request :
    (now : ℤ) (resp : Bytes) (x : Peer) → (answered now resp x).in_request ≡ false
answered-in_request now resp x = ground arith

pub in_request_of-Blind : Blind in_request_of
in_request_of-Blind = record {
  to_client = λ o x. refl;
  to_refs = λ x. refl;
  to_time = λ now x. refl;
  to_stolen = λ now resp x.
      answered-in_request now resp (set_client none x) ∙ sym (answered-in_request now resp x);
}

pub appended :
    (s : Peers) (p q : ℕ) (f : Peer → Peer) (field : Peer → List Bytes) (resp : Bytes)
    → p < length s
    → ((x : Peer) → field (f x) ≡ field x ++ resp ∷ [])
    → field (peer (change s p f) q) ≡ field (peer s q) ++ only_if (p == q) resp
appended [] p q f field resp lt h = absurd (omega arith)
appended (x ∷ s) zero zero f field resp lt h = h x
appended (x ∷ s) zero (suc q) f field resp lt h = ground (arith, append-nil (field (peer s q)))
appended (x ∷ s) (suc p) zero f field resp lt h = ground (arith, append-nil (field x))
appended (x ∷ s) (suc p) (suc q) f field resp lt h =
    ground (arith, appended s p q f field resp (omega arith) h)

-- Only a client of the list is in a request.
pub in_request-lt : (s : Peers) (p : ℕ) → (peer s p).in_request ≡ true → p < length s
in_request-lt [] p h = cc
in_request-lt (x ∷ s) zero h = omega arith
in_request-lt (x ∷ s) (suc p) h = omega (arith, in_request-lt s p h)
