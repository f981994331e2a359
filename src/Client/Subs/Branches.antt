-- ===== src/Client/Subs/Branches.antt =====
-- Each branch of the functions on a subscription (src/client.c) against its life cycle.
use mathlib.Core.Path.{subst}
use quick_io.Common.{
  inl, inr, ℕ, ◌≡◌, refl, sym, ◌↔◌, Bool, true, false, if◌then◌else◌, Option, none, some, length,
  Bool-cases, arith,
}
use quick_io.Client.Subs.{
  ClientSub, ClientSubState, sub_pending, sub_tombstoned, sub_active, sub_null, Client, table_of,
  sub_get, client_sub_add, sub_cleanup, store_sub, add_open, accept_found, remove_found, is_active,
}
use quick_io.Client.Subs.Life.{
  Life, unknown, waiting, active, life, add, accept, remove, next_life, add_answer, accept_answer,
  remove_answer, life_of, Settled, Moves, cleanup-Moves, store_sub-Moves, stays-Moves, Moves-table,
}

again_life :
    (csub : ClientSub) (granted : Bool)
    → life (some (record csub { tombstone = false })) ≡ next_life (life (some csub)) (add granted)
again_life csub granted = ground arith

again_answer :
    (csub : ClientSub) (granted : Bool)
    → (if csub.pending then sub_pending else sub_active) ≡ add_answer (life (some csub)) granted
again_answer csub granted = ground arith

refused_life : (csub : ClientSub) → unknown ≡ next_life (life (some csub)) (accept false)
refused_life csub = ground arith

refused_answer : (csub : ClientSub) → sub_null ≡ accept_answer (life (some csub)) false
refused_answer csub = ground arith

left_life :
    (csub : ClientSub)
    → Settled (some csub)
    → csub.tombstone ≡ true
    → unknown ≡ next_life (life (some csub)) (accept true)
left_life csub s e = ground arith

left_answer :
    (csub : ClientSub)
    → Settled (some csub)
    → csub.tombstone ≡ true
    → sub_tombstoned ≡ accept_answer (life (some csub)) true
left_answer csub s e = ground arith

kept_life :
    (csub : ClientSub)
    → csub.tombstone ≡ false
    → active ≡ next_life (life (some csub)) (accept true)
kept_life csub e = ground arith

kept_answer :
    (csub : ClientSub) → csub.tombstone ≡ false → sub_active ≡ accept_answer (life (some csub)) true
kept_answer csub e = ground arith

pub add_open-Moves :
    (c : Client) (p : ℕ) (o : Option ClientSub) (granted : Bool)
    → sub_get c p ≡ o
    → Settled o
    → Moves c (add_open c p o granted).0 p (next_life (life o) (add granted))
      × ((add_open c p o granted).1 ≡ add_answer (life o) granted)
unfolding add_open
add_open-Moves c p none true e s = (
  Moves-table c (store_sub c p (record { idx = false; pending = true; tombstone = false }))
      (add_open c p none true).0 p waiting (λ q. (unfold sub_get in refl))
      (store_sub-Moves c p (record { idx = false; pending = true; tombstone = false }) (λ x. refl)),
  refl,
)
add_open-Moves c p none false e s = (stays-Moves c p none e s, refl)
add_open-Moves c p (some csub) granted e s = (
  subst (Moves c (store_sub c p (record csub { tombstone = false })) p) (again_life csub granted)
      (store_sub-Moves c p (record csub { tombstone = false }) (λ x. refl)),
  again_answer csub granted,
)

-- A result that follows the life cycle.
abbrev Follows : Client → ℕ → Life → Bool → Client × ClientSubState → Type 0
Follows c p l added r = Moves c r.0 p (next_life l (accept added)) × (r.1 ≡ accept_answer l added)

abbrev pub Adds : Client → ℕ → Bool → Client × ClientSubState → Type 0
Adds c p granted r =
    Moves c r.0 p (next_life (life_of c p) (add granted)) × (r.1 ≡ add_answer (life_of c p) granted)

pub add_closing :
    (fair_use : ℕ → Bool) (c : Client) (p : ℕ)
    → c.closing ≡ true
    → client_sub_add fair_use c p ≡ (c, sub_null)
unfolding client_sub_add
add_closing fair_use c p e = ground arith

pub add_still :
    (fair_use : ℕ → Bool) (c : Client) (p : ℕ)
    → c.closing ≡ false
    → client_sub_add fair_use c p ≡ add_open c p (sub_get c p) (fair_use (length (table_of c.subs)))
add_still fair_use c p e = unfold client_sub_add in ground arith

pub is_active_iff : (o : Option ClientSub) → Settled o → (is_active o ≡ true) ↔ (life o ≡ active)
unfolding is_active
is_active_iff none s = ground arith
is_active_iff (some csub) s = ground arith

accept_left :
    (c : Client) (p : ℕ) (csub : ClientSub)
    → csub.tombstone ≡ true
    → accept_found c p (some csub) true ≡ (sub_cleanup c p, sub_tombstoned)
unfolding accept_found
accept_left c p csub e = ground arith

accept_kept :
    (c : Client) (p : ℕ) (csub : ClientSub)
    → csub.tombstone ≡ false
    → accept_found c p (some csub) true
      ≡ (store_sub c p (record csub { idx = true; pending = false }), sub_active)
unfolding accept_found
accept_kept c p csub e = ground arith

pub accept_found-Moves :
    (c : Client) (p : ℕ) (o : Option ClientSub) (added : Bool)
    → sub_get c p ≡ o
    → Settled o
    → Moves c (accept_found c p o added).0 p (next_life (life o) (accept added))
      × ((accept_found c p o added).1 ≡ accept_answer (life o) added)
unfolding accept_found
accept_found-Moves c p none added e s = (stays-Moves c p none e s, refl)
accept_found-Moves c p (some csub) false e s = (
  subst (Moves c (sub_cleanup c p) p) (refused_life csub) (cleanup-Moves c p),
  refused_answer csub,
)
accept_found-Moves c p (some csub) true e s = elim (Bool-cases csub.tombstone) [
  | inl left ↦ subst (Follows c p (life (some csub)) true) (sym (accept_left c p csub left)) (
    subst (Moves c (sub_cleanup c p) p) (left_life csub s left) (cleanup-Moves c p),
    left_answer csub s left,
  )
  | inr stays ↦
      let kept = record csub { idx = true; pending = false } in
      subst (Follows c p (life (some csub)) true) (sym (accept_kept c p csub stays)) (
        subst (Moves c (store_sub c p kept) p) (kept_life csub stays)
            (store_sub-Moves c p kept (λ x. stays)),
        kept_answer csub stays,
      )
]

remove_waiting :
    (c : Client) (p : ℕ) (csub : ClientSub)
    → csub.pending ≡ true
    → remove_found c p (some csub) false ≡ (store_sub c p (record csub { tombstone = true }), false)
unfolding remove_found
remove_waiting c p csub e = ground arith

remove_active :
    (c : Client) (p : ℕ) (csub : ClientSub)
    → csub.pending ≡ false
    → remove_found c p (some csub) false ≡ (sub_cleanup c p, true)
unfolding remove_found
remove_active c p csub e = ground arith

abbrev pub Removes : Client → ℕ → Life → Client × Bool → Type 0
Removes c p l r = Moves c r.0 p (next_life l remove) × (r.1 ≡ remove_answer l)

waiting_leaves :
    (csub : ClientSub)
    → csub.pending ≡ true
    → (life (some (record csub { tombstone = true })) ≡ next_life (life (some csub)) remove)
      × (false ≡ remove_answer (life (some csub)))
waiting_leaves csub e = (ground arith, ground arith)

active_ends :
    (csub : ClientSub)
    → csub.pending ≡ false
    → (unknown ≡ next_life (life (some csub)) remove) × (true ≡ remove_answer (life (some csub)))
active_ends csub e = (ground arith, ground arith)

pub remove_found-Removes :
    (c : Client) (p : ℕ) (o : Option ClientSub)
    → sub_get c p ≡ o
    → Settled o
    → Removes c p (life o) (remove_found c p o false)
remove_found-Removes c p none e s = unfold remove_found in (stays-Moves c p none e s, refl)
remove_found-Removes c p (some csub) e s = elim (Bool-cases csub.pending) [
  | inl wait ↦
      let marked = record csub { tombstone = true } in
      subst (Removes c p (life (some csub))) (sym (remove_waiting c p csub wait)) (
        subst (Moves c (store_sub c p marked) p) (waiting_leaves csub wait).0
            (store_sub-Moves c p marked (λ x. ground arith)),
        (waiting_leaves csub wait).1,
      )
  | inr done ↦ subst (Removes c p (life (some csub))) (sym (remove_active c p csub done)) (
    subst (Moves c (sub_cleanup c p) p) (active_ends csub done).0 (cleanup-Moves c p),
    (active_ends csub done).1,
  )
]
