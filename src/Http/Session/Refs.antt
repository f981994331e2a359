-- ===== src/Http/Session/Refs.antt =====
-- The references to surrogates when `_get_surrogate` of src/protocols_http.c finds or creates one.
use quick_io.Common.{
  ℕ, zero, suc, ◌%◌, ◌<◌, ◌≡◌, refl, sym, ap, ◌∙◌, Bool, true, false, ◌&&◌, ◌==◌, if◌then◌else◌,
  ◌⊎◌, inl, [], ◌∷◌, ◌++◌, Option, none, some, Bytes, length, codes, arith,
}
use quick_io.Common.Int.{ℤ}
use quick_io.Client.Subs.Table.{lookup, put}
use quick_io.Http.Text.{strstr, is_some}
use quick_io.Http.Session.Filed.{lookup-set_table, peer-append}
use quick_io.Http.Poll.{Peer, Peers, nobody, peer}
use quick_io.Http.Poll.Counts.{held, Counted}
use quick_io.Http.Poll.Within.{Alive, Within}
use quick_io.Http.Poll.Sound.{Sound}
use quick_io.Http.Session.{
  World, clients_len, set_table, new_surrogate, open_surrogate, or_else_create, surr_find, find_url,
  get_surrogate, url_sid,
}

-- The surrogates in the tables are referred to by quick-event.
abbrev pub Live : (ℕ → ℕ) → World → Type 0
Live base w = (i sid q : ℕ) → lookup sid (w.clients i) ≡ some q → 0 < base q

-- What others hold, with quick-event's one reference to a client that is new.
abbrev pub Extends : (ℕ → ℕ) → (ℕ → ℕ) → Type 0
Extends base base' = (q : ℕ) → (base' q ≡ base q) ⊎ ((base q ≡ 0) × (base' q ≡ 1))

abbrev with_one : (ℕ → ℕ) → ℕ → ℕ → ℕ
with_one base n q = if q == n then 1 else base q

peer-snoc :
    (s : Peers) (x : Peer) (q : ℕ) → peer (s ++ x ∷ []) q ≡ (if q == length s then x else peer s q)
peer-snoc [] x zero = refl
peer-snoc [] x (suc q) = ground arith
peer-snoc (y ∷ s) x zero = ground arith
peer-snoc (y ∷ s) x (suc q) = ground (arith, peer-snoc s x q)

held-snoc : (s : Peers) (x : Peer) (q : ℕ) → x.http_client ≡ none → held q (s ++ x ∷ []) ≡ held q s
held-snoc [] x q e = rw e refl
held-snoc (y ∷ s) x q e = omega (arith, held-snoc s x q e)

nobody_there : (s : Peers) → peer s (length s) ≡ nobody
nobody_there [] = refl
nobody_there (x ∷ s) = nobody_there s

opened-Counted :
    (base : ℕ → ℕ) (s : Peers) (x : Peer)
    → x.http_client ≡ none
    → x.refs ≡ 1
    → Counted base s
    → Counted (with_one base (length s)) (s ++ x ∷ [])
opened-Counted base s x e one c q =
    ground (arith, peer-snoc s x q, held-snoc s x q e, nobody_there s, c q, c (length s))

unheld : (base : ℕ → ℕ) (s : Peers) → Counted base s → base (length s) ≡ 0
unheld base s c = ground (arith, nobody_there s, c (length s))

with_one-lt : (base : ℕ → ℕ) (n q : ℕ) → 0 < base q → 0 < with_one base n q
with_one-lt base n q h = ground arith

opened-Within :
    (base : ℕ → ℕ) (s : Peers) (x : Peer)
    → x.http_client ≡ none
    → Within base s
    → Within (with_one base (length s)) (s ++ x ∷ [])
opened-Within base s x e w p q at =
    from (p == length s) (sym (ap (λ (y : Peer). y.http_client) (peer-snoc s x p)) ∙ at)
  where
    from :
        (b : Bool)
        → (if b then x else peer s p).http_client ≡ some q
        → 0 < with_one base (length s) q
    from true at = cc
    from false at = with_one-lt base (length s) q (w p q at)

opened-Sound :
    (base : ℕ → ℕ) (s : Peers) (x : Peer)
    → x.http_client ≡ none
    → x.refs ≡ 1
    → Sound base s
    → Sound (with_one base (length s)) (s ++ x ∷ [])
opened-Sound base s x e one h = record {
  counted = opened-Counted base s x e one h.counted;
  within = opened-Within base s x e h.within;
}

opened-Live :
    (base : ℕ → ℕ) (w : World) (sid : ℕ) (s : Peers)
    → Live base w
    → Live (with_one base (length w.peers)) (record {
      peers = s;
      clients =
          set_table w.clients
            (sid % clients_len)
            (put sid (length w.peers) (w.clients (sid % clients_len)));
    })
opened-Live base w sid s live i k q e =
    from (i == sid % clients_len && sid == k) (length w.peers) (lookup k (w.clients i))
      (sym (lookup-set_table w.clients (sid % clients_len) sid (length w.peers) i k) ∙ e)
      (live i k q)
  where
    from :
        (b : Bool) (n : ℕ) (o : Option ℕ)
        → (if b then some n else o) ≡ some q
        → (o ≡ some q → 0 < base q)
        → 0 < with_one base n q
    from true n o e h = ground arith
    from false n o e h = let p : 0 < base q = h e in ground arith

-- What a search for a surrogate leaves: the clients that there were, the counts, and its answer.
pub record Finds (base : ℕ → ℕ) (w : World) (r : World × Option ℕ) : Type 0 where
  pub base' : ℕ → ℕ
  pub extends : Extends base base'
  pub sound : Sound base' (r.0).peers
  pub live : Live base' r.0
  pub alive : Alive base' r.1
  pub stays : (p : ℕ) → p < length w.peers → peer (r.0).peers p ≡ peer w.peers p

nothing_new :
    (base : ℕ → ℕ) (w : World) (o : Option ℕ)
    → Sound base w.peers
    → Live base w
    → Alive base o
    → Finds base w (w, o)
nothing_new base w o c live alive = record {
  base' = base;
  extends = λ q. inl refl;
  sound = c;
  live = live;
  alive = alive;
  stays = λ p h. refl;
}

or_else_create-Finds :
    (base : ℕ → ℕ) (w : World) (sid : ℕ) (or_create opens : Bool) (now : ℤ) (o : Option ℕ)
    → Sound base w.peers
    → Live base w
    → Alive base o
    → Finds base w (or_else_create w sid or_create opens now o)
unfolding or_else_create open_surrogate
or_else_create-Finds base w sid or_create opens now (some q) c live alive =
    nothing_new base w (some q) c live alive
or_else_create-Finds base w sid false opens now none c live alive =
    nothing_new base w none c live alive
or_else_create-Finds base w sid true false now none c live alive =
    nothing_new base w none c live alive
or_else_create-Finds base w sid true true now none c live alive = record {
  base' = with_one base (length w.peers);
  extends = λ q. ground (arith, unheld base w.peers c.counted);
  sound = opened-Sound base w.peers (new_surrogate sid now) refl refl c;
  live = opened-Live base w sid (w.peers ++ new_surrogate sid now ∷ []) live;
  alive = λ q e. ground arith;
  stays = λ p h. peer-append w.peers (new_surrogate sid now ∷ []) p h;
}

pub get_surrogate-Finds :
    (base : ℕ → ℕ) (w : World) (url : Bytes) (opens : Bool) (now : ℤ)
    → Sound base w.peers
    → Live base w
    → Finds base w (get_surrogate w url opens now)
unfolding get_surrogate find_url surr_find
get_surrogate-Finds base w url opens now c live = by_sid (url_sid url)
  where
    by_sid :
        (o : Option ℕ)
        → Finds base w (find_url w o (is_some (strstr url (codes "connect=true"))) opens now)
    by_sid none = nothing_new base w none c live (λ q e. cc)
    by_sid (some sid) =
        or_else_create-Finds base w sid (is_some (strstr url (codes "connect=true"))) opens now
          (lookup sid (w.clients (sid % clients_len))) c live
          (λ q e. live (sid % clients_len) sid q e)
