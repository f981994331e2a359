-- ===== src/Client/Subs/Elsewhere.antt =====
-- A request of a client's leaves the client's references to all other subscriptions (src/client.c).
use quick_io.Common.{
  ℕ, ◌≡◌, ◌≤◌, refl, ap, ◌∙◌, Bool, true, false, ◌==◌, not, ◌&&◌, Bool-cases, inl, inr, Option,
  none, some, length, arith,
}
use quick_io.Client.Subs.Table.{one_if_some}
use quick_io.Client.Subs.Branches.{add_closing, add_still}
use quick_io.Client.Subs.Shares.{Balanced, Call, adds, accepts, rejects, removes, run}
use quick_io.Client.Subs.{
  Client, ClientSub, ClientSubState, table_of, sub_get, sub_cleanup, store_sub, add_open,
  accept_found, remove_found, client_sub_add, client_sub_accept, client_sub_reject,
  client_sub_remove, add_again, add_new, sub_remove,
}

-- The subscription that a request is about.
abbrev pub target : Call → ℕ
target (adds fair_use p) = p
target (accepts p added) = p
target (rejects p) = p
target (removes p) = p

module _ (c : Client) (p q : ℕ) (other : (q == p) ≡ false) where
  cleanup-elsewhere : (sub_cleanup c p).refs q ≡ c.refs q
  unfolding sub_cleanup
  cleanup-elsewhere = rw other refl

  open-elsewhere :
      (o : Option ClientSub) (granted : Bool) → (add_open c p o granted).0.refs q ≡ c.refs q
  unfolding add_open add_again add_new store_sub
  open-elsewhere (some csub) granted = refl
  open-elsewhere none true = rw other refl
  open-elsewhere none false = refl

  accept-elsewhere :
      (o : Option ClientSub) (added : Bool) → (accept_found c p o added).0.refs q ≡ c.refs q
  unfolding accept_found store_sub
  accept-elsewhere none added = refl
  accept-elsewhere (some csub) false = cleanup-elsewhere
  accept-elsewhere (some csub) true = elim (Bool-cases csub.tombstone) [
    | inl gone ↦ rw gone cleanup-elsewhere
    | inr kept ↦ rw kept refl
  ]

  remove-elsewhere :
      (o : Option ClientSub) (rejected : Bool) → (remove_found c p o rejected).0.refs q ≡ c.refs q
  unfolding remove_found store_sub
  remove-elsewhere none rejected = refl
  remove-elsewhere (some csub) rejected = elim (Bool-cases (not rejected && csub.pending)) [
    | inl waits ↦ rw waits refl
    | inr goes ↦ rw goes cleanup-elsewhere
  ]

  add-elsewhere : (fair_use : ℕ → Bool) → (client_sub_add fair_use c p).0.refs q ≡ c.refs q
  add-elsewhere fair_use =
      let counts : Client × ClientSubState → ℕ = λ r. r.0.refs q in
      elim (Bool-cases c.closing) [
        | inl shut ↦ ap counts (add_closing fair_use c p shut)
        | inr still ↦
            ap counts (add_still fair_use c p still)
            ∙ open-elsewhere (sub_get c p) (fair_use (length (table_of c.subs)))
      ]

pub run-elsewhere :
    (c : Client) (call : Call) (q : ℕ) → (q == target call) ≡ false → (run c call).refs q ≡ c.refs q
unfolding run client_sub_accept client_sub_reject client_sub_remove sub_remove
run-elsewhere c (adds fair_use p) q e = add-elsewhere c p q e fair_use
run-elsewhere c (accepts p added) q e = accept-elsewhere c p q e (sub_get c p) added
run-elsewhere c (rejects p) q e = remove-elsewhere c p q e (sub_get c p) true
run-elsewhere c (removes p) q e = remove-elsewhere c p q e (sub_get c p) false

-- A client whose books are right has one reference to a subscription or none.
pub refs-le-one : (c : Client) (q : ℕ) → Balanced c → c.refs q ≤ 1
refs-le-one c q b = small (sub_get c q) (b.held q)
  where
    small : (o : Option ClientSub) → c.refs q ≡ one_if_some o → c.refs q ≤ 1
    small none e = omega arith
    small (some csub) e = omega arith
