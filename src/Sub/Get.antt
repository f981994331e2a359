-- ===== src/Sub/Get.antt =====
-- `sub_get` and `sub_unref` of src/sub.c, each run from its start to its end.
use quick_io.Common.{
  ℕ, ◌+◌, ◌%◌, ◌^◌, ◌<◌, ◌≡◌, refl, ◌∙◌, Bool, true, false, Option, none, some, Bytes, equal_iff,
  arith,
}
use quick_io.Path.{or_empty}
use quick_io.Sub.Invariant.{Inv, set_refs-Inv, Vacant, create-Inv, reaped, reap_lem, points_to_self}
use quick_io.Sub.Steps.{
  absent, dying, present, get_if_exists-Found, get_or_create_lem, Vacant-absent, Vacant-dying,
  dec_and_test_lem,
}
use quick_io.Sub.{
  Sub, Store, get_if_exists, or_created, create, get_again, sub_get, sub_unref, reap_if, set_refs,
}

-- A reference to a subscription for this event and extra, with no fault on the way.
pub record Holds (r : Option (Store × Option ℕ)) (e : ℕ) (x : Bytes) : Type 0 where
  pub store : Store
  pub at : ℕ
  pub sub : Sub
  pub returned : r ≡ some (store, some at)
  pub inv : Inv store
  pub stands : store.heap at ≡ some sub
  pub event_of : sub.ev ≡ e
  pub extra_of : sub.ev_extra ≡ x
  pub referenced : 0 < sub.refs

sub_get_lem :
    (s : Store) (e : ℕ) (x : Option Bytes) (b : Bool) (new : ℕ) {r : Store × Option ℕ}
    → get_if_exists s e (or_empty x) ≡ some r
    → sub_get s e x b new ≡ get_again r e (or_empty x) b new
unfolding sub_get
sub_get_lem s e none b new g = rw g
sub_get_lem s e (some x) b new g = rw g

pub sub_get_new :
    (s : Store) (e : ℕ) (x : Option Bytes) (new : ℕ)
    → get_if_exists s e (or_empty x) ≡ some (s, none)
    → sub_get s e x true new ≡ some (create s e (or_empty x) new, some new)
unfolding get_again or_created
sub_get_new s e x new g = sub_get_lem s e x true new g ∙ get_or_create_lem s e (or_empty x) new g

pub sub_get_old :
    (s t : Store) (e : ℕ) (x : Option Bytes) (b : Bool) (new p : ℕ)
    → get_if_exists s e (or_empty x) ≡ some (t, some p)
    → sub_get s e x b new ≡ some (t, some p)
unfolding get_again
sub_get_old s t e x b new p g = sub_get_lem s e x b new g

pub sub_get-none :
    (s : Store) (e : ℕ) (x : Option Bytes) (new : ℕ)
    → get_if_exists s e (or_empty x) ≡ some (s, none)
    → sub_get s e x false new ≡ some (s, none)
unfolding get_again
sub_get-none s e x new g = sub_get_lem s e x false new g

created-Holds :
    (s : Store) (e : ℕ) (x : Option Bytes) (new : ℕ)
    → Inv s
    → s.heap new ≡ none
    → Vacant s e (or_empty x)
    → get_if_exists s e (or_empty x) ≡ some (s, none)
    → Holds (sub_get s e x true new) e (or_empty x)
created-Holds s e x new v fresh vacant g = record {
  store = create s e (or_empty x) new;
  at = new;
  sub = record { ev = e; ev_extra = or_empty x; refs = 1 };
  returned = sub_get_new s e x new g;
  inv = create-Inv s e (or_empty x) new v fresh vacant;
  stands = unfold create in ground arith;
  event_of = refl;
  extra_of = refl;
  referenced = omega arith;
}

-- From a state in order, `sub_get` that may create never faults and always returns a
-- subscription in memory, filed under the event and the extra asked for, with a reference.
pub sub_get-Holds :
    (s : Store) (e : ℕ) (x : Option Bytes) (new : ℕ)
    → Inv s
    → s.heap new ≡ none
    → ((p : ℕ) (sub : Sub) → s.heap p ≡ some sub → sub.refs + 1 < 2 ^ 32)
    → Holds (sub_get s e x true new) e (or_empty x)
sub_get-Holds s e x new v fresh small = elim (get_if_exists-Found s e (or_empty x) v) [
  | absent t g ↦ created-Holds s e x new v fresh (Vacant-absent s e (or_empty x) t) g
  | dying p sub t h z g ↦
      created-Holds s e x new v fresh (Vacant-dying s e (or_empty x) p sub t h z) g
  | present p sub t h pos g ↦
      let (sub', h', e', x') = v.entry e (or_empty x) p t in
      let n = (sub.refs + 1) % 2 ^ 32 in
      let sm = small p sub h in
      record {
        store = set_refs s p sub n;
        at = p;
        sub = record sub { refs = n };
        returned = sub_get_old s (set_refs s p sub n) e x true new p g;
        inv = set_refs-Inv s p sub n v h pos;
        stands = ground arith;
        event_of = ground arith;
        extra_of = ground arith;
        referenced = omega arith;
      }
]

-- Two stores that no lookup tells apart.
pub record Same (s t : Store) : Type 0 where
  pub heaps : (q : ℕ) → t.heap q ≡ s.heap q
  pub tables : (e : ℕ) (x : Bytes) → t.table e x ≡ s.table e x
  pub totals : t.total ≡ s.total

sub_unref_last :
    (s : Store) (p : ℕ) (sub : Sub)
    → s.heap p ≡ some sub
    → sub.refs ≡ 1
    → sub_unref s p ≡ some (reaped (set_refs s p sub 0) p (record sub { refs = 0 }))
unfolding sub_unref reap_if
sub_unref_last s p sub h one =
    rw (dec_and_test_lem s p sub h, one)
      (reap_lem (set_refs s p sub 0) p (record sub { refs = 0 }) (ground arith))

-- Dropping the only reference to a subscription that was just created frees it, and leaves the
-- memory, the tables and the total as they were before.
sub_unref-create :
    (s : Store) (e : ℕ) (x : Bytes) (new : ℕ)
    → s.heap new ≡ none
    → s.table e x ≡ none
    → (t : Store) × (sub_unref (create s e x new) new ≡ some t) × Same s t
unfolding create
sub_unref-create s e x new fresh vacant =
    let made : Sub = record { ev = e; ev_extra = x; refs = 1 } in
    let dropped : Sub = record { ev = e; ev_extra = x; refs = 0 } in
    (
      reaped (set_refs (create s e x new) new made 0) new dropped,
      sub_unref_last (create s e x new) new made (ground arith) refl,
      record {
        heaps = λ q. ground arith;
        tables = λ e' x'. ground (arith, equal_iff x x, equal_iff x' x, points_to_self new);
        totals = omega arith;
      },
    )
