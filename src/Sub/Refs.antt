-- ===== src/Sub/Refs.antt =====
-- The counts of src/sub.c as numbers: how each function moves that of one subscription.
use quick_io.Common.{
  ℕ, ◌+◌, ◌-◌, ◌%◌, ◌^◌, ◌<◌, ◌≡◌, refl, ap, ◌∙◌, Bool, true, false, Bool-cases, inl, inr, ◌==◌,
  if◌then◌else◌, Option, none, some, Bytes, arith,
}
use quick_io.Sub.Invariant.{Inv, set_refs-Inv, Vacant, create-Inv, reap-Inv}
use quick_io.Sub.Steps.{
  absent, dying, present, get_if_exists-Found, Vacant-absent, Vacant-dying, sub_ref_lem,
}
use quick_io.Path.{or_empty}
use quick_io.Sub.Get.{sub_get_new, sub_get_old, sub_get-none}
use quick_io.Sub.Pairs.{dropped, sub_unref_lem}
use quick_io.Sub.{Sub, Store, create, sub_get, sub_ref, sub_unref, set_refs, get_if_exists}

abbrev count_of : Option Sub → ℕ
count_of none = 0
count_of (some sub) = sub.refs

-- The references to an address; none to one that holds nothing.
abbrev pub refs_of : Store → ℕ → ℕ
refs_of s q = count_of (s.heap q)

-- One more reference to `p`.
abbrev pub Bumped : Store → Store → ℕ → Type 0
Bumped s t p = (q : ℕ) → refs_of t q ≡ refs_of s q + (if q == p then 1 else 0)

-- Counts leave room for another reference.
abbrev pub Small : Store → Type 0
Small s = (q : ℕ) → refs_of s q + 1 < 2 ^ 32

pub counted_there :
    (s : Store) (p : ℕ)
    → 0 < refs_of s p
    → (sub : Sub) × (s.heap p ≡ some sub) × (sub.refs ≡ refs_of s p)
counted_there s p h = there (s.heap p) refl
  where
    there :
        (o : Option Sub)
        → s.heap p ≡ o
        → (sub : Sub) × (s.heap p ≡ some sub) × (sub.refs ≡ refs_of s p)
    there none e = absurd (ground arith)
    there (some sub) e = (sub, e, ground arith)

set_refs-Bumped :
    (s : Store) (p : ℕ) (sub : Sub)
    → s.heap p ≡ some sub
    → Bumped s (set_refs s p sub (sub.refs + 1)) p
set_refs-Bumped s p sub h q = ground arith

create-Bumped :
    (s : Store) (e : ℕ) (x : Bytes) (new : ℕ) → s.heap new ≡ none → Bumped s (create s e x new) new
unfolding create
create-Bumped s e x new fresh q = ground arith

dropped-Bumped :
    (s : Store) (p : ℕ) (sub : Sub)
    → s.heap p ≡ some sub
    → 0 < sub.refs
    → Bumped (dropped s p sub) s p
dropped-Bumped s p sub h pos q = elim (Bool-cases (sub.refs == 1)) [
  | inl one ↦ rw one (ground arith)
  | inr more ↦ rw more (ground arith)
]

dropped-Inv :
    (s : Store) (p : ℕ) (sub : Sub)
    → Inv s
    → s.heap p ≡ some sub
    → 0 < sub.refs
    → Inv (dropped s p sub)
dropped-Inv s p sub v h pos = elim (Bool-cases (sub.refs == 1)) [
  | inl one ↦ rw one (
      reap-Inv (set_refs s p sub 0) p (record sub { refs = 0 }) (set_refs-Inv s p sub 0 v h pos)
        (ground arith))
  | inr more ↦ rw more (set_refs-Inv s p sub (sub.refs - 1) v h pos)
]

-- What a function that moves one count leaves.
pub record Moved (r : Option Store) (s : Store) (p : ℕ) : Type 0 where
  pub after : Store
  pub returned : r ≡ some after
  pub inv : Inv after
  pub moved : Bumped s after p

pub record Returned (r : Option Store) (s : Store) (p : ℕ) : Type 0 where
  pub after : Store
  pub returned : r ≡ some after
  pub inv : Inv after
  pub moved : Bumped after s p

pub sub_ref-Moved :
    (s : Store) (p : ℕ) → Inv s → Small s → 0 < refs_of s p → Moved (sub_ref s p) s p
sub_ref-Moved s p v small pos =
    let (sub, h, e) = counted_there s p pos in
    let n : (sub.refs + 1) % 2 ^ 32 ≡ sub.refs + 1 = omega (arith, small p) in
    record {
      after = set_refs s p sub (sub.refs + 1);
      returned = rw (sub_ref_lem s p sub h, n) refl;
      inv = set_refs-Inv s p sub (sub.refs + 1) v h (omega arith);
      moved = set_refs-Bumped s p sub h;
    }

pub sub_unref-Returned :
    (s : Store) (p : ℕ) → Inv s → Small s → 0 < refs_of s p → Returned (sub_unref s p) s p
sub_unref-Returned s p v small pos =
    let (sub, h, e) = counted_there s p pos in
    let pos' : 0 < sub.refs = omega arith in
    record {
      after = dropped s p sub;
      returned = sub_unref_lem s p sub h pos' (omega (arith, small p));
      inv = dropped-Inv s p sub v h pos';
      moved = dropped-Bumped s p sub h pos';
    }

-- What `sub_get` leaves: a subscription with one more reference, or nothing changed, which is only
-- where it may not create one.
pub data Got (r : Option (Store × Option ℕ)) (s : Store) (or_create : Bool) : Type 0 where
  got : (t : Store) (p : ℕ) → r ≡ some (t, some p) → Inv t → Bumped s t p → Got r s or_create
  nothing : or_create ≡ false → r ≡ some (s, none) → Got r s or_create

missing-Got :
    (s : Store) (e : ℕ) (x : Option Bytes) (or_create : Bool) (new : ℕ)
    → Inv s
    → s.heap new ≡ none
    → Vacant s e (or_empty x)
    → get_if_exists s e (or_empty x) ≡ some (s, none)
    → Got (sub_get s e x or_create new) s or_create
missing-Got s e x true new v fresh vacant g =
    got (create s e (or_empty x) new) new (sub_get_new s e x new g)
      (create-Inv s e (or_empty x) new v fresh vacant) (create-Bumped s e (or_empty x) new fresh)
missing-Got s e x false new v fresh vacant g = nothing refl (sub_get-none s e x new g)

pub sub_get-Got :
    (s : Store) (e : ℕ) (x : Option Bytes) (or_create : Bool) (new : ℕ)
    → Inv s
    → Small s
    → s.heap new ≡ none
    → Got (sub_get s e x or_create new) s or_create
sub_get-Got s e x or_create new v small fresh = elim (get_if_exists-Found s e (or_empty x) v) [
  | absent t g ↦ missing-Got s e x or_create new v fresh (Vacant-absent s e (or_empty x) t) g
  | dying p sub t h z g ↦
      missing-Got s e x or_create new v fresh (Vacant-dying s e (or_empty x) p sub t h z) g
  | present p sub t h pos g ↦
      let n : (sub.refs + 1) % 2 ^ 32 ≡ sub.refs + 1 = omega (arith, small p, ap count_of h) in
      got (set_refs s p sub (sub.refs + 1)) p
        (sub_get_old s (set_refs s p sub (sub.refs + 1)) e x or_create new p
          (g ∙ ap (λ (k : ℕ). some (set_refs s p sub k, some p)) n))
        (set_refs-Inv s p sub (sub.refs + 1) v h pos) (set_refs-Bumped s p sub h)
]
