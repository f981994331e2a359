-- ===== src/Client/Subs/Life.antt =====
-- The life of one subscription of a client, as `enum client_sub_state` of src/client.h tells it.
use quick_io.Common.{
  ◌∙◌, ℕ, ◌≡◌, ◌≢◌, refl, Bool, true, false, ◌==◌, if◌then◌else◌, List, [], ◌∷◌, Option, none, some,
  arith,
}
use quick_io.Client.Subs.Table.{erase, lookup-put, lookup-erase}
use quick_io.Client.Subs.{
  ClientSub, ClientSubState, sub_pending, sub_tombstoned, sub_created, sub_active, sub_null, Client,
  table_of, or_null, sub_get, sub_cleanup, store_sub,
}

-- What a subscription is to a client: nothing, waiting for an answer, waiting and already
-- unsubscribed, or active.
pub data Life : Type 0 where
  unknown waiting leaving active : Life

abbrev pub life : Option ClientSub → Life
life none = unknown
life (some csub) = if csub.pending then (if csub.tombstone then leaving else waiting) else active

-- The request that comes, with the answer of quick-event where one is asked for.
pub data Request : Type 0 where
  add : Bool → Request
  accept : Bool → Request
  reject : Request
  remove : Request

-- The life after a request, with what the function returns.
abbrev pub next_life : Life → Request → Life
next_life unknown (add granted) = if granted then waiting else unknown
next_life waiting (add granted) = waiting
next_life leaving (add granted) = waiting
next_life active (add granted) = active
next_life unknown (accept added) = unknown
next_life waiting (accept added) = if added then active else unknown
next_life leaving (accept added) = unknown
next_life active (accept added) = if added then active else unknown
next_life l reject = unknown
next_life unknown remove = unknown
next_life waiting remove = leaving
next_life leaving remove = leaving
next_life active remove = unknown

abbrev pub add_answer : Life → Bool → ClientSubState
add_answer unknown granted = if granted then sub_created else sub_null
add_answer waiting granted = sub_pending
add_answer leaving granted = sub_pending
add_answer active granted = sub_active

abbrev pub accept_answer : Life → Bool → ClientSubState
accept_answer unknown added = sub_null
accept_answer waiting added = if added then sub_active else sub_null
accept_answer leaving added = if added then sub_tombstoned else sub_null
accept_answer active added = if added then sub_active else sub_null

abbrev pub life_of : Client → ℕ → Life
life_of c p = life (sub_get c p)

-- No subscription that is past its pending state is marked as unsubscribed.
abbrev pub Settled : Option ClientSub → Type 0
Settled none = Unit {0}
Settled (some csub) = csub.pending ≡ false → csub.tombstone ≡ false

pub table_of-or_null : (t : List (ℕ × ClientSub)) → table_of (or_null t) ≡ t
table_of-or_null [] = refl
table_of-or_null (x ∷ t) = refl

pub sub_get-sub_cleanup :
    (c : Client) (p q : ℕ) → sub_get (sub_cleanup c p) q ≡ (if p == q then none else sub_get c q)
unfolding sub_get sub_cleanup
sub_get-sub_cleanup c p q =
    rw (table_of-or_null (erase p (table_of c.subs))) (lookup-erase p q (table_of c.subs))

pub sub_get-store_sub :
    (c : Client) (p q : ℕ) (csub : ClientSub)
    → sub_get (store_sub c p csub) q ≡ (if p == q then some csub else sub_get c q)
unfolding sub_get store_sub
sub_get-store_sub c p q csub = lookup-put p q csub (table_of c.subs)

-- The state after a request about `p`, as far as lookups see it: `p` now lives as said, is
-- settled, and every other subscription is as before.
pub record Moves (c d : Client) (p : ℕ) (l : Life) : Type 0 where
  pub lives : life_of d p ≡ l
  pub settled : Settled (sub_get d p)
  pub others : (q : ℕ) → p ≢ q → sub_get d q ≡ sub_get c q

module _ (c : Client) (p : ℕ) where
  pub cleanup-Moves : Moves c (sub_cleanup c p) p unknown
  cleanup-Moves = record {
    lives = ground (arith, sub_get-sub_cleanup c p p);
    settled = rw (sub_get-sub_cleanup c p p) (ground arith);
    others = λ q ne. ground (arith, sub_get-sub_cleanup c p q);
  }

  pub store_sub-Moves :
      (csub : ClientSub) → Settled (some csub) → Moves c (store_sub c p csub) p (life (some csub))
  store_sub-Moves csub s = record {
    lives = ground (arith, sub_get-store_sub c p p csub);
    settled = rw (sub_get-store_sub c p p csub) (ground arith);
    others = λ q ne. ground (arith, sub_get-store_sub c p q csub);
  }

  pub stays-Moves : (o : Option ClientSub) → sub_get c p ≡ o → Settled o → Moves c c p (life o)
  stays-Moves o e s = record { lives = ground (arith, e); settled = rw e s; others = λ q ne. refl }

-- Two states with the same table are alike to `Moves`.
pub Moves-table :
    (c d d' : Client) (p : ℕ) (l : Life)
    → ((q : ℕ) → sub_get d' q ≡ sub_get d q)
    → Moves c d p l
    → Moves c d' p l
Moves-table c d d' p l same m = record {
  lives = ground (arith, same p, m.lives);
  settled = rw (same p) m.settled;
  others = λ q ne. same q ∙ m.others q ne;
}

-- What `_sub_remove` returns: whether the subscription is gone, and not left to its answer.
abbrev pub remove_answer : Life → Bool
remove_answer active = true
remove_answer other = false
