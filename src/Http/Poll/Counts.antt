-- ===== src/Http/Poll/Counts.antt =====
-- References between the clients of src/protocols_http.c: how a change of one client moves them.
use quick_io.Common.{
  ℕ, zero, suc, ◌+◌, ◌-◌, ◌<◌, ◌≡◌, refl, ap, if◌then◌else◌, [], ◌∷◌, Option, none, some, length,
  arith,
}
use quick_io.Http.Poll.Fields.{field-change, length-change}
use quick_io.Http.Poll.{
  Peer, Peers, peer, change, points_at, set_client, add_one_ref, drop_one_ref, unref,
}

abbrev pub own : Option ℕ → ℕ → ℕ
own o p = if points_at o p then 1 else 0

-- How many clients point at `p`.
abbrev pub held : ℕ → Peers → ℕ
held p [] = 0
held p (x ∷ s) = own x.http_client p + held p s

-- Every reference to a client is one of `base`, which others hold, or that of a pointer to it.
abbrev pub Counted : (ℕ → ℕ) → Peers → Type 0
Counted base s = (p : ℕ) → (peer s p).refs ≡ held p s + base p

-- One more reference, where there is one, in the hands of the running function.
abbrev pub plus : (ℕ → ℕ) → Option ℕ → ℕ → ℕ
plus base o p = base p + own o p

pub Counted-lt : (base : ℕ → ℕ) (s : Peers) (p : ℕ) → Counted base s → 0 < base p → p < length s
Counted-lt base s p c h = in_range s p (omega (arith, c p))
  where
    in_range : (s : Peers) (p : ℕ) → 0 < (peer s p).refs → p < length s
    in_range [] p h = absurd (omega arith)
    in_range (x ∷ s) zero h = omega arith
    in_range (x ∷ s) (suc p) h = omega (arith, in_range s p h)

-- A change that leaves the pointer and the references of a client.
abbrev pub Quiet : (Peer → Peer) → Type 0
Quiet f = (x : Peer) → ((f x).http_client ≡ x.http_client) × ((f x).refs ≡ x.refs)

held-change :
    (s : Peers) (p q : ℕ) (f : Peer → Peer)
    → ((x : Peer) → (f x).http_client ≡ x.http_client)
    → held q (change s p f) ≡ held q s
held-change [] p q f h = refl
held-change (x ∷ s) zero q f h = ap (λ (o : Option ℕ). own o q + held q s) (h x)
held-change (x ∷ s) (suc p) q f h = omega (arith, held-change s p q f h)

refs-change :
    (s : Peers) (p q : ℕ) (f : Peer → Peer)
    → ((x : Peer) → (f x).refs ≡ x.refs)
    → (peer (change s p f) q).refs ≡ (peer s q).refs
refs-change s p q f h = field-change (λ (x : Peer). x.refs) s p q f h

pub change-Counted :
    (base : ℕ → ℕ) (s : Peers) (p : ℕ) (f : Peer → Peer)
    → Quiet f
    → Counted base s
    → Counted base (change s p f)
change-Counted base s p f quiet c q =
    omega
      (arith, held-change s p q f (λ x. (quiet x).0), refs-change s p q f (λ x. (quiet x).1), c q)

held-clear :
    (s : Peers) (p q : ℕ)
    → held q (change s p (set_client none)) + own (peer s p).http_client q ≡ held q s
held-clear [] p q = refl
held-clear (x ∷ s) zero q = omega arith
held-clear (x ∷ s) (suc p) q = omega (arith, held-clear s p q)

-- A pointer that is taken out leaves its reference in the function's hands.
pub steal-Counted :
    (base : ℕ → ℕ) (s : Peers) (p : ℕ)
    → Counted base s
    → Counted (plus base (peer s p).http_client) (change s p (set_client none))
steal-Counted base s p c q =
    omega (arith, held-clear s p q, refs-change s p q (set_client none) (λ x. refl), c q)

held-set :
    (s : Peers) (p q : ℕ) (o : Option ℕ)
    → p < length s
    → held q (change s p (set_client o)) + own (peer s p).http_client q ≡ held q s + own o q
held-set [] p q o h = absurd (omega arith)
held-set (x ∷ s) zero q o h = omega arith
held-set (x ∷ s) (suc p) q o h = omega (arith, held-set s p q o (omega arith))

refs-add :
    (s : Peers) (p q : ℕ)
    → p < length s
    → (peer (change s p add_one_ref) q).refs ≡ (peer s q).refs + own (some p) q
refs-add [] p q h = absurd (omega arith)
refs-add (x ∷ s) zero zero h = ground arith
refs-add (x ∷ s) zero (suc q) h = ground arith
refs-add (x ∷ s) (suc p) zero h = ground arith
refs-add (x ∷ s) (suc p) (suc q) h = ground (arith, refs-add s p q)

refs-drop :
    (s : Peers) (p q : ℕ)
    → (peer (change s p drop_one_ref) q).refs ≡ (peer s q).refs - own (some p) q
refs-drop [] p q = ground arith
refs-drop (x ∷ s) zero zero = ground arith
refs-drop (x ∷ s) zero (suc q) = ground arith
refs-drop (x ∷ s) (suc p) zero = ground arith
refs-drop (x ∷ s) (suc p) (suc q) = ground (arith, refs-drop s p q)

-- `qev_unref` gives the function's reference back.
pub unref-Counted :
    (base : ℕ → ℕ) (s : Peers) (o : Option ℕ) → Counted (plus base o) s → Counted base (unref s o)
unfolding unref
unref-Counted base s none c q = omega (arith, c q)
unref-Counted base s (some p) c q =
    omega (arith, held-change s p q drop_one_ref (λ x. refl), refs-drop s p q, c q)

-- A pointer set with a reference of its own; the reference of the pointer that stood there is the
-- function's.
pub link-Counted :
    (base : ℕ → ℕ) (s : Peers) (p q : ℕ)
    → p < length s
    → q < length s
    → Counted base s
    → (peer (change s q add_one_ref) p).http_client ≡ (peer s p).http_client
    → Counted
        (plus base (peer s p).http_client)
        (change (change s q add_one_ref) p (set_client (some q)))
link-Counted base s p q hp hq c same r =
    let t = change s q add_one_ref in
    omega (
      arith,
      held-set t p r (some q) (omega (arith, length-change s q add_one_ref)),
      ap (λ (o : Option ℕ). own o r) same,
      held-change s q r add_one_ref (λ x. refl),
      refs-change t p r (set_client (some q)) (λ x. refl),
      refs-add s q r hq,
      c r,
    )

pub client-add_one_ref :
    (s : Peers) (p q : ℕ) → (peer (change s q add_one_ref) p).http_client ≡ (peer s p).http_client
client-add_one_ref [] p q = refl
client-add_one_ref (x ∷ s) zero zero = refl
client-add_one_ref (x ∷ s) (suc p) zero = refl
client-add_one_ref (x ∷ s) zero (suc q) = refl
client-add_one_ref (x ∷ s) (suc p) (suc q) = client-add_one_ref s p q
