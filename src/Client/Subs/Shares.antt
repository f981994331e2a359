-- ===== src/Client/Subs/Shares.antt =====
-- What the subscriptions of a client hold elsewhere (src/client.c): one reference to each
-- subscription in the table, and one unit of the fair share.
use mathlib.Core.Path.{subst}
use quick_io.Common.{
  ℕ, ◌+◌, ◌-◌, ◌≡◌, refl, sym, ap, ◌∙◌, inl, inr, Bool, true, false, List, [], ◌∷◌, Option, none,
  some, length, Bool-cases, arith,
}
use quick_io.Client.Subs.Table.{
  lookup, erase, Distinct, put-Distinct, erase-Distinct, one_if_some, length-put, length-erase,
  lookup-put, lookup-erase,
}
use quick_io.Client.Subs.Life.{table_of-or_null}
use quick_io.Client.Subs.Branches.{add_closing, add_still}
use quick_io.Client.Subs.{
  ClientSub, ClientSubState, Client, table_of, sub_get, sub_cleanup, store_sub, release, add_open,
  accept_found, remove_found, client_sub_add, client_sub_accept, client_sub_reject,
  client_sub_remove, release_all, client_closed,
}

pub record Balanced (c : Client) : Type 0 where
  pub held : (p : ℕ) → c.refs p ≡ one_if_some (sub_get c p)
  pub used : c.fair_used ≡ length (table_of c.subs)
  pub distinct : Distinct (table_of c.subs)

cleanup-Balanced :
    (c : Client) (p : ℕ) (csub : ClientSub)
    → sub_get c p ≡ some csub
    → Balanced c
    → Balanced (sub_cleanup c p)
unfolding sub_cleanup sub_get
cleanup-Balanced c p csub e b =
    let t = table_of c.subs in
    record {
      held = λ q. rw (table_of-or_null (erase p t)) (ground (arith, lookup-erase p q t, b.held q));
      used =
          rw (table_of-or_null (erase p t))
            (omega (arith, length-erase p t b.distinct, ap one_if_some e, b.used));
      distinct = rw (table_of-or_null (erase p t)) (erase-Distinct p t b.distinct);
    }

store_sub-Balanced :
    (c : Client) (p : ℕ) (old new : ClientSub)
    → sub_get c p ≡ some old
    → Balanced c
    → Balanced (store_sub c p new)
unfolding store_sub sub_get
store_sub-Balanced c p old new e b =
    let t = table_of c.subs in
    record {
      held = λ q. ground (arith, lookup-put p q new t, b.held q);
      used = omega (arith, length-put p new t, ap one_if_some e, b.used);
      distinct = put-Distinct p new t b.distinct;
    }

add_open-Balanced :
    (c : Client) (p : ℕ) (o : Option ClientSub) (granted : Bool)
    → sub_get c p ≡ o
    → Balanced c
    → Balanced (add_open c p o granted).0
unfolding add_open
add_open-Balanced c p none false e b = b
add_open-Balanced c p (some csub) granted e b =
    store_sub-Balanced c p csub (record csub { tombstone = false }) e b
add_open-Balanced c p none true e b =
    let t = table_of c.subs in
    let new : ClientSub = record { idx = false; pending = true; tombstone = false } in
    unfold sub_get in
    record {
      held = λ q. ground (arith, lookup-put p q new t, b.held q);
      used = omega (arith, length-put p new t, ap one_if_some e, b.used);
      distinct = put-Distinct p new t b.distinct;
    }

accept_cases :
    (c : Client) (p : ℕ) (csub : ClientSub) (added : Bool)
    → Balanced (sub_cleanup c p)
    → Balanced (store_sub c p (record csub { idx = true; pending = false }))
    → Balanced (accept_found c p (some csub) added).0
accept_cases c p csub added gone kept = unfold accept_found in ground arith

remove_cases :
    (c : Client) (p : ℕ) (csub : ClientSub) (rejected : Bool)
    → Balanced (sub_cleanup c p)
    → Balanced (store_sub c p (record csub { tombstone = true }))
    → Balanced (remove_found c p (some csub) rejected).0
remove_cases c p csub rejected gone kept = unfold remove_found in ground arith

add_cases :
    (fair_use : ℕ → Bool) (c : Client) (p : ℕ)
    → Balanced c
    → Balanced (client_sub_add fair_use c p).0
add_cases fair_use c p b =
    let opened = add_open-Balanced c p (sub_get c p) (fair_use (length (table_of c.subs))) refl b in
    let keeps : Client × ClientSubState → Type 0 = λ r. Balanced r.0 in
    elim (Bool-cases c.closing) [
      | inl shut ↦ subst keeps (sym (add_closing fair_use c p shut)) b
      | inr still ↦ subst keeps (sym (add_still fair_use c p still)) opened
    ]

accept_found-Balanced :
    (c : Client) (p : ℕ) (o : Option ClientSub) (added : Bool)
    → sub_get c p ≡ o
    → Balanced c
    → Balanced (accept_found c p o added).0
accept_found-Balanced c p none added e b = unfold accept_found in b
accept_found-Balanced c p (some csub) added e b =
    let gone = cleanup-Balanced c p csub e b in
    let kept = store_sub-Balanced c p csub (record csub { idx = true; pending = false }) e b in
    accept_cases c p csub added gone kept

remove_found-Balanced :
    (c : Client) (p : ℕ) (o : Option ClientSub) (rejected : Bool)
    → sub_get c p ≡ o
    → Balanced c
    → Balanced (remove_found c p o rejected).0
remove_found-Balanced c p none rejected e b = unfold remove_found in b
remove_found-Balanced c p (some csub) rejected e b =
    remove_cases c p csub rejected (cleanup-Balanced c p csub e b)
      (store_sub-Balanced c p csub (record csub { tombstone = true }) e b)

-- A request that changes the subscriptions of a client.
pub data Call : Type 0 where
  adds : (ℕ → Bool) → ℕ → Call
  accepts : ℕ → Bool → Call
  rejects removes : ℕ → Call

unfoldable pub run : Client → Call → Client
run c (adds fair_use p) = (client_sub_add fair_use c p).0
run c (accepts p added) = (client_sub_accept c p added).0
run c (rejects p) = client_sub_reject c p
run c (removes p) = (client_sub_remove c p).0

-- Every request keeps the books of a client whose books are right: the client holds one reference to each subscription in its
-- table and none to another, and as many units of the fair share as it has subscriptions.
pub run-Balanced : (c : Client) (call : Call) → Balanced c → Balanced (run c call)
unfolding run client_sub_accept client_sub_reject client_sub_remove
run-Balanced c (adds fair_use p) b = add_cases fair_use c p b
run-Balanced c (accepts p added) b = accept_found-Balanced c p (sub_get c p) added refl b
run-Balanced c (rejects p) b = remove_found-Balanced c p (sub_get c p) true refl b
run-Balanced c (removes p) b = remove_found-Balanced c p (sub_get c p) false refl b

release_all_lem :
    (t : List (ℕ × ClientSub)) (c : Client)
    → Distinct t
    → ((q : ℕ) → (release_all c t).refs q ≡ c.refs q - one_if_some (lookup q t))
      × ((release_all c t).fair_used ≡ c.fair_used - length t)
      × (length (release_all c t).offs ≡ length c.offs + length t)
unfolding release_all lookup
release_all_lem [] c d = ((λ q. omega arith), omega arith, omega arith)
release_all_lem ((p, csub) ∷ t) c d =
    let (r, f, o) = release_all_lem t (release c p) d.1 in
    ((λ q. ground (arith, r q, d.0)), omega arith, omega arith)

-- When a client whose books are right closes, every reference and every unit of the share is given back, `off` is
-- called once for each subscription, and the table is gone.
pub client_closed-Balanced :
    (c : Client)
    → Balanced c
    → ((p : ℕ) → (client_closed c).refs p ≡ 0)
      × ((client_closed c).fair_used ≡ 0)
      × (length (client_closed c).offs ≡ length c.offs + length (table_of c.subs))
      × ((client_closed c).subs ≡ none)
      × Balanced (client_closed c)
unfolding client_closed sub_get lookup
client_closed-Balanced c b =
    let (r, f, o) = release_all_lem (table_of c.subs) c b.distinct in
    let empty : (p : ℕ) → (release_all c (table_of c.subs)).refs p ≡ 0 =
      λ p. r p ∙ omega (arith, b.held p) in
    let unused : (release_all c (table_of c.subs)).fair_used ≡ 0 = omega (arith, b.used) in
    (empty, unused, o, refl, record { held = λ p. empty p; used = unused; distinct = tt })
