-- ===== src/Http/Route/Request/Refs.antt =====
-- The references between clients when a request of src/protocols_http.c
-- finds its surrogate.
use quick_io.Common.{
  ℕ, ◌+◌, ◌<◌, refl, ◌∙◌, Bool, ◌||◌, ap, inl, inr, Bool-cases, Option, none, some, Bytes, codes,
  arith,
}
use quick_io.Common.Int.{ℤ}
use quick_io.Raw.{has_prefix}
use quick_io.Wire.{CloseReason, Effect, Platform}
use quick_io.Http.Poll.{Peer, Peers, Status, peer, change, set_client, add_one_ref, close_peer}
use quick_io.Http.Poll.Clear.{Clear}
use quick_io.Http.Poll.Counts.{
  held, Counted, Counted-lt, Quiet, plus, link-Counted, client-add_one_ref,
}
use quick_io.Http.Session.{World, get_surrogate}
use quick_io.Http.Session.Refs.{Live, Extends, get_surrogate-Finds}
use quick_io.Http.Poll.Within.{Alive, change-Within}
use quick_io.Http.Poll.Sound.{Sound, change-Sound}
use quick_io.Http.Route.Request.{HttpRequest, requested, set_peers, attach, with_length}

-- The references and the pointers are in order, and quick-event refers to the surrogates in the
-- tables.
pub record Kept (base : ℕ → ℕ) (w : World) : Type 0 where
  pub sound : Sound base w.peers
  pub live : Live base w

-- The same after a part of a request; the others hold what they held before, and quick-event one
-- reference to each surrogate that is new.
pub record Serves (base : ℕ → ℕ) (w : World) : Type 0 where
  pub base' : ℕ → ℕ
  pub extends : Extends base base'
  pub kept : Kept base' w

pub Extends-lt : (base base' : ℕ → ℕ) (q : ℕ) → Extends base base' → 0 < base q → 0 < base' q
Extends-lt base base' q e h = elim (e q) [ inl same ↦ omega arith | inr (zero', one) ↦ omega arith ]

-- A change of a client that leaves its pointer and its references.
pub change-Kept :
    (base : ℕ → ℕ) (q : ℕ) (w : World) (f : Peer → Peer)
    → Quiet f
    → Kept base w
    → Kept base (set_peers w (change w.peers q f))
change-Kept base q w f quiet k = record {
  sound = change-Sound base w.peers q f quiet k.sound;
  live = k.live;
}

pub change-Serves :
    (base : ℕ → ℕ) (q : ℕ) (w : World) (f : Peer → Peer)
    → Quiet f
    → Serves base w
    → Serves base (set_peers w (change w.peers q f))
change-Serves base q w f quiet h = record {
  base' = h.base';
  extends = h.extends;
  kept = change-Kept h.base' q w f quiet h.kept;
}

pub same-Serves : (base : ℕ → ℕ) (w : World) → Kept base w → Serves base w
same-Serves base w k = record { base' = base; extends = λ q. inl refl; kept = k }

linked-Counted :
    (base : ℕ → ℕ) (s : Peers) (p q : ℕ)
    → 0 < base p
    → 0 < base q
    → Clear p s
    → Counted base s
    → Counted base (change (change s q add_one_ref) p (set_client (some q)))
linked-Counted base s p q hp hq clear c r =
    link-Counted base s p q (Counted-lt base s p c hp) (Counted-lt base s q c hq) c
      (client-add_one_ref s p q) r
    ∙ ap
        (λ (o : Option ℕ).
          held r (change (change s q add_one_ref) p (set_client (some q))) + plus base o r)
        clear
    ∙ omega arith

linked-Sound :
    (base : ℕ → ℕ) (s : Peers) (p q : ℕ)
    → 0 < base p
    → 0 < base q
    → Clear p s
    → Sound base s
    → Sound base (change (change s q add_one_ref) p (set_client (some q)))
linked-Sound base s p q hp hq clear h = record {
  counted = linked-Counted base s p q hp hq clear h.counted;
  within =
      change-Within base (change s q add_one_ref) p (set_client (some q)) (λ x a r e. ground arith)
        (change-Within base s q add_one_ref (λ x a. a) h.within);
}

pub close-Serves :
    (base : ℕ → ℕ) (w : World) (p : ℕ) (reason : CloseReason)
    → Serves base w
    → Serves base (set_peers w (change w.peers p (close_peer reason)))
close-Serves base w p reason h = change-Serves base p w (close_peer reason) (λ x. (refl, refl)) h

module _ (now : ℤ) (pf : Platform) (status_response : Status → Bytes)
    (run : Peers → ℕ → Effect → Peers) where
  attach-Sound :
      (base : ℕ → ℕ) (s : Peers) (p : ℕ) (o : Option ℕ)
      → 0 < base p
      → Alive base o
      → Clear p s
      → Sound base s
      → Sound base (attach now pf status_response run s p o)
  unfolding attach
  attach-Sound base s p none hp alive clear c = c
  attach-Sound base s p (some q) hp alive clear c =
      elim (Bool-cases ((peer s q).closing || (peer s p).closing)) [
        | inl closing ↦ rw closing c
        | inr open' ↦ rw open' (linked-Sound base s p q hp (alive q refl) clear c)
      ]

  -- The parts of a request begin with a client that points at nobody.
  pub with_length-Serves :
      (base : ℕ → ℕ) (w : World) (p : ℕ) (headers : HttpRequest) (opens is_post : Bool)
      (body_len : ℕ)
      → 0 < base p
      → Clear p w.peers
      → Kept base w
      → Serves base (with_length now pf status_response run w p headers opens is_post body_len)
  unfolding with_length
  with_length-Serves base w p headers opens is_post body_len hp clear k =
      let f = get_surrogate-Finds base w headers.url opens now k.sound k.live in
      let r = get_surrogate w headers.url opens now in
      let lt = Counted-lt base w.peers p k.sound.counted hp in
      let hp' = Extends-lt base f.base' p f.extends hp in
      let clear' : Clear p (r.0).peers = ap (λ (x : Peer). x.http_client) (f.stays p lt) ∙ clear in
      change-Serves base p (set_peers r.0 (attach now pf status_response run (r.0).peers p r.1))
        (requested body_len is_post (has_prefix headers.url (codes "/iframe"))) (λ x. (refl, refl))
        (record {
          base' = f.base';
          extends = f.extends;
          kept = record {
            sound = attach-Sound f.base' (r.0).peers p r.1 hp' f.alive clear' f.sound;
            live = f.live;
          };
        })
