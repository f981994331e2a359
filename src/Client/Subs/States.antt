-- ===== src/Client/Subs/States.antt =====
-- That the functions on a client's subscriptions (src/client.c) follow the life cycle.
use mathlib.Core.Path.{subst}
use quick_io.Common.{ℕ, ◌≡◌, refl, sym, ◌↔◌, Bool, true, false, Option, none, some, length}
use quick_io.Client.Subs.{
  ClientSub, sub_null, Client, table_of, sub_get, client_sub_active, client_sub_add,
  client_sub_accept, client_sub_reject, client_sub_remove, remove_found, is_active,
}
use quick_io.Client.Subs.Life.{
  unknown, active, add, accept, remove, next_life, add_answer, accept_answer, remove_answer,
  life_of, Settled, Moves, cleanup-Moves, stays-Moves,
}
use quick_io.Client.Subs.Branches.{
  add_open-Moves, accept_found-Moves, remove_found-Removes, add_closing, add_still, is_active_iff,
  Adds,
}

-- Where only a pending subscription has a tombstone, `client_sub_add` follows the life cycle: a closing client is refused and left alone; else an
-- unknown subscription waits if the share is granted, one that is leaving waits again, and the
-- answer tells which. No other subscription is touched.
pub client_sub_add-Moves :
    (fair_use : ℕ → Bool) (c : Client) (p : ℕ)
    → Settled (sub_get c p)
    → let granted = fair_use (length (table_of c.subs)) in
      let r = client_sub_add fair_use c p in
      (c.closing ≡ true → r ≡ (c, sub_null))
      × (c.closing ≡ false
          → Moves c r.0 p (next_life (life_of c p) (add granted))
            × (r.1 ≡ add_answer (life_of c p) granted))
client_sub_add-Moves fair_use c p s = (
  (λ shut. add_closing fair_use c p shut),
  λ still.
      subst (Adds c p (fair_use (length (table_of c.subs)))) (sym (add_still fair_use c p still))
        (add_open-Moves c p (sub_get c p) (fair_use (length (table_of c.subs))) refl s),
)

-- Where only a pending subscription has a tombstone, `client_sub_accept` follows the life cycle: what waits becomes active if the list takes the
-- client, what is leaving or not taken is forgotten, and nothing happens where there is none.
pub client_sub_accept-Moves :
    (c : Client) (p : ℕ) (added : Bool)
    → Settled (sub_get c p)
    → Moves c (client_sub_accept c p added).0 p (next_life (life_of c p) (accept added))
      × ((client_sub_accept c p added).1 ≡ accept_answer (life_of c p) added)
unfolding client_sub_accept
client_sub_accept-Moves c p added s = accept_found-Moves c p (sub_get c p) added refl s

-- Where only a pending subscription has a tombstone, `client_sub_remove` follows the life cycle: an active subscription is forgotten, one that
-- waits for its answer is marked as leaving, and only the first returns TRUE.
pub client_sub_remove-Moves :
    (c : Client) (p : ℕ)
    → Settled (sub_get c p)
    → Moves c (client_sub_remove c p).0 p (next_life (life_of c p) remove)
      × ((client_sub_remove c p).1 ≡ remove_answer (life_of c p))
unfolding client_sub_remove
client_sub_remove-Moves c p s = remove_found-Removes c p (sub_get c p) refl s

reject_found-Moves :
    (c : Client) (p : ℕ) (o : Option ClientSub)
    → sub_get c p ≡ o
    → Settled o
    → Moves c (remove_found c p o true).0 p unknown
unfolding remove_found
reject_found-Moves c p none e s = stays-Moves c p none e s
reject_found-Moves c p (some csub) e s = cleanup-Moves c p

-- Whatever state it was in, with a tombstone only if pending, a rejected subscription is forgotten, and no other is touched.
pub client_sub_reject-Moves :
    (c : Client) (p : ℕ) → Settled (sub_get c p) → Moves c (client_sub_reject c p) p unknown
unfolding client_sub_reject
client_sub_reject-Moves c p s = reject_found-Moves c p (sub_get c p) refl s

-- Where only a pending subscription has a tombstone, `client_sub_active` says exactly that the subscription is in its active state.
pub client_sub_active_iff :
    (c : Client) (p : ℕ)
    → Settled (sub_get c p)
    → (client_sub_active c p ≡ true) ↔ (life_of c p ≡ active)
unfolding client_sub_active is_active
client_sub_active_iff c p s = is_active_iff (sub_get c p) s
