-- ===== src/Sub/Steps.antt =====
-- The functions of src/sub.c as steps of any number of threads.
use mathlib.Core.Option.{some-injective}
use mathlib.Core.Path.{subst}
use quick_io.Common.{
  ℕ, ◌+◌, ◌<◌, ◌≡◌, inl, inr, sym, ap, ◌∙◌, Bool, ◌==◌, Option, none, some, Bytes, ◌%◌, ◌-◌,
  Bool-cases, Option-cases, arith, ◌^◌,
}
use quick_io.Sub.{
  Sub, Store, get_if_exists, get_or_create, create, sub_ref, dec_and_test, reap, update_heap,
  try_ref, counted, atomic_inc_not_zero, or_created, set_refs,
}
use quick_io.Sub.Invariant.{Inv, set_refs-Inv, Vacant, create-Inv, reap_lem, reap-Inv}

pub sub_ref_lem :
    (s : Store) (p : ℕ) (sub : Sub)
    → s.heap p ≡ some sub
    → sub_ref s p ≡ some (set_refs s p sub ((sub.refs + 1) % 2 ^ 32))
unfolding sub_ref
sub_ref_lem s p sub h = rw h

pub dec_and_test_lem :
    (s : Store) (p : ℕ) (sub : Sub)
    → s.heap p ≡ some sub
    → dec_and_test s p
      ≡ some (
        set_refs s p sub ((sub.refs + 2 ^ 32 - 1) % 2 ^ 32),
        (sub.refs + 2 ^ 32 - 1) % 2 ^ 32 == 0,
      )
unfolding dec_and_test
dec_and_test_lem s p sub h = rw h

-- What `_get_if_exists` finds.
pub data Found (s : Store) (e : ℕ) (x : Bytes) : Type 0 where
  absent : s.table e x ≡ none → get_if_exists s e x ≡ some (s, none) → Found s e x
  dying :
      (p : ℕ) (sub : Sub)
      → s.table e x ≡ some p
      → s.heap p ≡ some sub
      → sub.refs ≡ 0
      → get_if_exists s e x ≡ some (s, none)
      → Found s e x
  present :
      (p : ℕ) (sub : Sub)
      → s.table e x ≡ some p
      → s.heap p ≡ some sub
      → 0 < sub.refs
      → get_if_exists s e x
        ≡ some (
          record s {
            heap = update_heap s.heap p (some (record sub { refs = (sub.refs + 1) % 2 ^ 32 }));
          },
          some p,
        )
      → Found s e x

get_entry :
    (s : Store) (e : ℕ) (x : Bytes) (p : ℕ) (sub : Sub)
    → s.table e x ≡ some p
    → s.heap p ≡ some sub
    → get_if_exists s e x ≡ some (counted s p sub (atomic_inc_not_zero sub.refs))
unfolding get_if_exists
get_entry s e x p sub t h = rw (t, try_ref) (rw (h, try_ref))

pub get_if_exists-Found : (s : Store) (e : ℕ) (x : Bytes) → Inv s → Found s e x
get_if_exists-Found s e x v = elim (Option-cases (s.table e x)) [
  | inl t ↦ absent t (unfold get_if_exists in rw (t, try_ref))
  | inr (p, t) ↦
      let (sub, h, e', x') = v.entry e x p t in
      elim (Bool-cases (sub.refs == 0)) [
        | inl zero' ↦
            dying p sub t h (ground arith)
              (get_entry s e x p sub t h ∙ (unfold atomic_inc_not_zero counted in rw zero'))
        | inr pos ↦
            present p sub t h (ground arith)
              (get_entry s e x p sub t h ∙ (unfold atomic_inc_not_zero counted in rw pos))
      ]
]

pub get_or_create_lem :
    (s : Store) (e : ℕ) (x : Bytes) (new : ℕ) {t : Store} {r : Option ℕ}
    → get_if_exists s e x ≡ some (t, r)
    → get_or_create s e x new ≡ some (or_created (t, r) e x new)
unfolding get_or_create
get_or_create_lem s e x new g = rw g

fst_of :
    {s t : Store} {r q : Option ℕ}
    → ◌≡◌ {A = Option (Store × Option ℕ)} (some (s, r)) (some (t, q))
    → s ≡ t
fst_of e = ap (λ (p : Store × Option ℕ). p.0) (some-injective _ _ e)

looks_up-Inv :
    {s t : Store} (e : ℕ) (x : Bytes) (r : Option ℕ)
    → Inv s
    → get_if_exists s e x ≡ some (t, r)
    → Inv t
looks_up-Inv {s} e x r v g = elim (get_if_exists-Found s e x v) [
  | absent _ f ↦ subst Inv (fst_of (sym f ∙ g)) v
  | dying _ _ _ _ _ f ↦ subst Inv (fst_of (sym f ∙ g)) v
  | present p sub _ h pos f ↦ subst Inv (fst_of (sym f ∙ g)) (set_refs-Inv s p sub _ v h pos)
]

pub Vacant-absent : (s : Store) (e : ℕ) (x : Bytes) → s.table e x ≡ none → Vacant s e x
Vacant-absent s e x t p sub t' h = cc

pub Vacant-dying :
    (s : Store) (e : ℕ) (x : Bytes) (p : ℕ) (sub : Sub)
    → s.table e x ≡ some p
    → s.heap p ≡ some sub
    → sub.refs ≡ 0
    → Vacant s e x
Vacant-dying s e x p sub t h z q sub' t' h' = ground arith

creates-Inv :
    {s t : Store} (e : ℕ) (x : Bytes) (new : ℕ) (r : Option ℕ)
    → Inv s
    → s.heap new ≡ none
    → get_or_create s e x new ≡ some (t, r)
    → Inv t
unfolding or_created
creates-Inv {s} {t = t'} e x new r v fresh g = elim (get_if_exists-Found s e x v) [
  | absent t f ↦
      subst Inv (fst_of (created f)) (create-Inv s e x new v fresh (Vacant-absent s e x t))
  | dying p sub t h z f ↦
      subst Inv (fst_of (created f)) (create-Inv s e x new v fresh (Vacant-dying s e x p sub t h z))
  | present p sub _ h pos f ↦
      subst Inv (fst_of (sym (get_or_create_lem s e x new f) ∙ g)) (set_refs-Inv s p sub _ v h pos)
]
  where
    created :
        get_if_exists s e x ≡ some (s, none)
        → ◌≡◌ {A = Option (Store × Option ℕ)} (some (create s e x new, some new)) (some (t', r))
    created f = sym (get_or_create_lem s e x new f) ∙ g

-- What a thread may do next. A count is raised or dropped by a holder of a reference, `reap` is
-- run by the thread that took the count to 0, and the allocator gives memory that is not in use.
pub data Step (s t : Store) : Type 0 where
  looks_up : (e : ℕ) (x : Bytes) (r : Option ℕ) → get_if_exists s e x ≡ some (t, r) → Step s t
  creates :
      (e : ℕ) (x : Bytes) (new : ℕ) (r : Option ℕ)
      → s.heap new ≡ none
      → get_or_create s e x new ≡ some (t, r)
      → Step s t
  refers :
      (p : ℕ) (sub : Sub) → s.heap p ≡ some sub → 0 < sub.refs → sub_ref s p ≡ some t → Step s t
  drops :
      (p : ℕ) (sub : Sub) (b : Bool)
      → s.heap p ≡ some sub
      → 0 < sub.refs
      → dec_and_test s p ≡ some (t, b)
      → Step s t
  reaps : (p : ℕ) (sub : Sub) → s.heap p ≡ some sub → sub.refs ≡ 0 → reap s p ≡ some t → Step s t

-- Every step of every thread keeps the tables and the counts in order.
pub Step-Inv : {s t : Store} → Step s t → Inv s → Inv t
Step-Inv {s} {t} (looks_up e x r h) v = looks_up-Inv e x r v h
Step-Inv {s} {t} (creates e x new r fresh h) v = creates-Inv e x new r v fresh h
Step-Inv {s} {t} (refers p sub h pos e) v =
    subst Inv (some-injective _ _ (sym (sub_ref_lem s p sub h) ∙ e))
      (set_refs-Inv s p sub _ v h pos)
Step-Inv {s} {t} (drops p sub b h pos e) v =
    subst Inv
      (ap (λ (r : Store × Bool). r.0) (some-injective _ _ (sym (dec_and_test_lem s p sub h) ∙ e)))
      (set_refs-Inv s p sub _ v h pos)
Step-Inv {s} {t} (reaps p sub h _ e) v =
    subst Inv (some-injective _ _ (sym (reap_lem s p sub h) ∙ e)) (reap-Inv s p sub v h)

pub data Reach (s : Store) : Store → Type 0 where
  here : Reach s s
  next : {t u : Store} → Reach s t → Step t u → Reach s u

-- From tables and counts in order, whatever the threads do, in whatever order: every entry of a table is a subscription in
-- memory, filed under its own event and extra, and two subscriptions with references never
-- share an event and an extra.
pub Reach-unique :
    {s t : Store}
    → Inv s
    → Reach s t
    → Inv t
      × ((p q : ℕ) (a b : Sub)
          → t.heap p ≡ some a
          → t.heap q ≡ some b
          → 0 < a.refs
          → 0 < b.refs
          → a.ev ≡ b.ev
          → a.ev_extra ≡ b.ev_extra
          → p ≡ q)
Reach-unique {s} v here = (v, λ p q a b hp hq la lb e x. ground (arith, v.live p a, v.live q b))
Reach-unique {s} v (next {t} {u} r st) =
    let v' = Step-Inv st (Reach-unique v r).0 in
    (v', λ p q a b hp hq la lb e x. ground (arith, v'.live p a, v'.live q b))
