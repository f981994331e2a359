-- ===== src/Http/Session/Filed.antt =====
-- `_surr_find` and `protocol_http_close` of src/protocols_http.c on the tables of sessions.
use quick_io.Common.{
  ℕ, zero, suc, ◌%◌, ◌<◌, ◌≡◌, refl, sym, ap, ◌∙◌, Bool, true, false, ◌&&◌, ◌==◌, ==_iff,
  if◌then◌else◌, ◌⊎◌, inl, inr, Bool-cases, List, [], ◌∷◌, ◌++◌, Option, none, some, length,
  length-append, arith,
}
use quick_io.Common.Int.{ℤ}
use quick_io.Client.Subs.Table.{lookup, put, lookup-put}
use quick_io.Http.Poll.{Peer, Peers, peer}
use quick_io.Http.Session.{
  World, clients_len, set_table, new_surrogate, open_surrogate, or_else_create, surr_find,
}

-- A session's table leads to a client that has the session's id and table.
pub record Session (w : World) (i sid q : ℕ) : Type 0 where
  pub here : i ≡ sid % clients_len
  pub known : q < length w.peers
  pub same_sid : (peer w.peers q).sid ≡ sid
  pub same_tbl : (peer w.peers q).tbl ≡ i

-- Whatever is in a table is such a session.
abbrev pub Filed : World → Type 0
Filed w = (i sid q : ℕ) → lookup sid (w.clients i) ≡ some q → Session w i sid q

pub peer-append : (s t : Peers) (q : ℕ) → q < length s → peer (s ++ t) q ≡ peer s q
peer-append [] t q h = absurd (omega arith)
peer-append (x ∷ s) t zero h = refl
peer-append (x ∷ s) t (suc q) h = peer-append s t q (omega arith)

peer-length : (s : Peers) (x : Peer) → peer (s ++ x ∷ []) (length s) ≡ x
peer-length [] x = refl
peer-length (y ∷ s) x = peer-length s x

-- One more client leaves the sessions that there are.
grown :
    (w w' : World) (x : Peer) (i sid q : ℕ)
    → w'.peers ≡ w.peers ++ x ∷ []
    → Session w i sid q
    → Session w' i sid q
grown w w' x i sid q e h = record {
  here = h.here;
  known = rw e (omega (arith, h.known, length-append w.peers (x ∷ [])));
  same_sid = rw (e, peer-append w.peers (x ∷ []) q h.known) h.same_sid;
  same_tbl = rw (e, peer-append w.peers (x ∷ []) q h.known) h.same_tbl;
}

opened : World → ℕ → ℤ → World
unfolding put
opened w sid now =
    let which = sid % clients_len in
    record {
      peers = w.peers ++ new_surrogate sid now ∷ [];
      clients = set_table w.clients which (put sid (length w.peers) (w.clients which));
    }

new_Session :
    (w : World) (sid : ℕ) (now : ℤ)
    → Session (opened w sid now) (sid % clients_len) sid (length w.peers)
unfolding opened
new_Session w sid now = record {
  here = refl;
  known = omega (arith, length-append w.peers (new_surrogate sid now ∷ []));
  same_sid = ap (λ (x : Peer). x.sid) (peer-length w.peers (new_surrogate sid now));
  same_tbl = ap (λ (x : Peer). x.tbl) (peer-length w.peers (new_surrogate sid now));
}

-- What a table holds after an insertion.
pub lookup-set_table :
    (clients : ℕ → List (ℕ × ℕ)) (which sid n i k : ℕ)
    → lookup k (set_table clients which (put sid n (clients which)) i)
      ≡ (if i == which && sid == k then some n else lookup k (clients i))
lookup-set_table clients which sid n i k = elim (Bool-cases (i == which)) [
  | inl same ↦ rw same (
      lookup-put sid k n (clients which)
      ∙ ap (λ (j : ℕ). if sid == k then some n else lookup k (clients j))
          (sym ((==_iff i which).0 same)))
  | inr other ↦ rw other refl
]

stood_before :
    (i which sid n k q : ℕ) (o : Option ℕ)
    → (if i == which && sid == k then some n else o) ≡ some q
    → ((i ≡ which) × (k ≡ sid) × (q ≡ n)) ⊎ (o ≡ some q)
stood_before i which sid n k q o h = ground arith

-- A session is found under its id alone, so two sessions never share a surrogate.
opened-Filed : (w : World) (sid : ℕ) (now : ℤ) → Filed w → Filed (opened w sid now)
unfolding opened
opened-Filed w sid now f i k q h =
    elim (stood_before i (sid % clients_len) sid (length w.peers) k q (lookup k (w.clients i))
      (sym (lookup-set_table w.clients (sid % clients_len) sid (length w.peers) i k) ∙ h)) [
        | inl (e, e', e'') ↦ rw (e, e', e'') (new_Session w sid now)
        | inr old ↦ grown w (opened w sid now) (new_surrogate sid now) i k q refl (f i k q old)
      ]

-- What `_surr_find` promises of its answer.
abbrev pub Answers : World → ℕ → Option ℕ → Type 0
Answers w sid none = Unit
Answers w sid (some q) = Session w (sid % clients_len) sid q

found :
    (w : World) (sid : ℕ) (or_create opens : Bool) (now : ℤ) (o : Option ℕ)
    → lookup sid (w.clients (sid % clients_len)) ≡ o
    → Filed w
    → let r = or_else_create w sid or_create opens now o in Filed r.0 × Answers r.0 sid r.1
unfolding or_else_create open_surrogate opened
found w sid or_create opens now (some q) e f = (f, f (sid % clients_len) sid q e)
found w sid false opens now none e f = (f, tt)
found w sid true false now none e f = (f, tt)
found w sid true true now none e f = (opened-Filed w sid now f, new_Session w sid now)

-- If each session in a table leads to a client with its id, in the table that the id selects, then
-- `_surr_find` keeps this, and the client that it returns, found or created, is one with the id
-- asked for.
pub surr_find-Filed :
    (w : World) (sid : ℕ) (or_create opens : Bool) (now : ℤ)
    → Filed w
    → let r = surr_find w sid or_create opens now in Filed r.0 × Answers r.0 sid r.1
unfolding surr_find
surr_find-Filed w sid or_create opens now f =
    found w sid or_create opens now (lookup sid (w.clients (sid % clients_len))) refl f
