-- ===== src/Http/Poll/Due.antt =====
-- How many responses a client of src/protocols_http.c has had or still waits for.
use quick_io.Common.{
  ℕ, zero, suc, ◌+◌, ◌≡◌, refl, ◌∙◌, true, if◌then◌else◌, [], ◌∷◌, Option, none, some, Bytes,
  length, length-append, Bool-cases, inl, inr, arith,
}
use quick_io.Common.Int.{ℤ}
use quick_io.Http.Poll.Fields.{Blind, field-change, unref-Blind, send_response-Blind}
use quick_io.Http.Poll.Measures.{answered-in_request, answered-out}
use quick_io.Http.Poll.{Peer, Peers, peer, change, set_client, answered, unref, send_response}

-- The responses that were written, and one where a request is not answered yet.
abbrev pub due : Peer → ℕ
due x = length x.out + (if x.in_request then 1 else 0)

due-answered :
    (now : ℤ) (resp : Bytes) (x : Peer) → x.in_request ≡ true → due (answered now resp x) ≡ due x
due-answered now resp x e = ground (
  arith,
  answered-in_request now resp x,
  answered-out now resp x,
  length-append x.out (resp ∷ []),
)

due-stolen :
    (now : ℤ) (resp : Bytes) (x : Peer)
    → due (answered now resp (set_client none x)) ≡ due (answered now resp x)
due-stolen now resp x = ground (
  arith,
  answered-in_request now resp x,
  answered-out now resp x,
  answered-in_request now resp (set_client none x),
  answered-out now resp (set_client none x),
)

due-Blind : Blind due
due-Blind = record {
  to_client = λ o x. refl;
  to_refs = λ x. refl;
  to_time = λ now x. refl;
  to_stolen = due-stolen;
}

due-change-answered :
    (now : ℤ) (s : Peers) (p : ℕ) (resp : Bytes) (q : ℕ)
    → (peer s p).in_request ≡ true
    → due (peer (change s p (answered now resp)) q) ≡ due (peer s q)
due-change-answered now [] p resp q e = refl
due-change-answered now (x ∷ s) zero resp zero e = due-answered now resp x e
due-change-answered now (x ∷ s) zero resp (suc q) e = refl
due-change-answered now (x ∷ s) (suc p) resp zero e = refl
due-change-answered now (x ∷ s) (suc p) resp (suc q) e = due-change-answered now s p resp q e

-- The same for every client.
unfoldable pub Same : Peers → Peers → Type 0
Same s t = (q : ℕ) → due (peer t q) ≡ due (peer s q)

pub Same-trans : (s t u : Peers) → Same s t → Same t u → Same s u
unfolding Same
Same-trans s t u h k q = k q ∙ h q

-- A change that `due` does not see.
pub quiet-Same :
    (s : Peers) (p : ℕ) (f : Peer → Peer) → ((x : Peer) → due (f x) ≡ due x) → Same s (change s p f)
unfolding Same
quiet-Same s p f h q = field-change due s p q f h

pub clear-Same : (s : Peers) (p : ℕ) → Same s (change s p (set_client none))
clear-Same s p = quiet-Same s p (set_client none) (λ x. refl)

pub unref-Same : (s : Peers) (o : Option ℕ) → Same s (unref s o)
unfolding Same
unref-Same s o q = unref-Blind due due-Blind s o q

pub send_response-Same :
    (now : ℤ) (s : Peers) (o : Option ℕ) (resp : Bytes) → Same s (send_response now s o resp).0
unfolding Same send_response
send_response-Same now s none resp q = refl
send_response-Same now s (some p) resp q =
    send_response-Blind due due-Blind now s p resp q ∙ elim (Bool-cases (peer s p).in_request) [
      | inl asked ↦ rw asked (due-change-answered now s p resp q asked)
      | inr idle ↦ rw idle refl
    ]
