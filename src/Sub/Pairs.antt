-- ===== src/Sub/Pairs.antt =====
-- A reference to a subscription of src/sub.c that is taken and dropped.
use quick_io.Common.{
  ℕ, false, ◌+◌, ◌-◌, ◌%◌, ◌^◌, ◌<◌, ◌≡◌, refl, ◌∙◌, Bool-cases, inl, inr, ◌==◌, if◌then◌else◌,
  Option, some, arith,
}
use quick_io.Sub.Invariant.{reaped, reap_lem}
use quick_io.Sub.Steps.{sub_ref_lem, dec_and_test_lem}
use quick_io.Sub.Get.{Same}
use quick_io.Sub.{Sub, Store, sub_ref, sub_unref, reap_if, set_refs}

-- The store after `sub_unref`.
abbrev pub dropped : Store → ℕ → Sub → Store
dropped s p sub =
    if sub.refs == 1
    then reaped (set_refs s p sub 0) p (record sub { refs = 0 })
    else set_refs s p sub (sub.refs - 1)

pub sub_unref_lem :
    (s : Store) (p : ℕ) (sub : Sub)
    → s.heap p ≡ some sub
    → 0 < sub.refs
    → sub.refs < 2 ^ 32
    → sub_unref s p ≡ some (dropped s p sub)
unfolding sub_unref reap_if
sub_unref_lem s p sub h pos lt =
    let n : (sub.refs + 2 ^ 32 - 1) % 2 ^ 32 ≡ sub.refs - 1 = omega arith in
    elim (Bool-cases (sub.refs == 1)) [
      | inl one ↦
          let e : sub.refs - 1 ≡ 0 = ground arith in
          rw (dec_and_test_lem s p sub h, n, one, e)
            (reap_lem (set_refs s p sub 0) p (record sub { refs = 0 }) (ground arith))
      | inr more ↦
          let e : (sub.refs - 1 == 0) ≡ false = ground arith in
          rw (dec_and_test_lem s p sub h, n, more, e) refl
    ]

-- A subscription to which a reference was taken and given back.
abbrev twice : Store → ℕ → Sub → Store
twice s p sub =
    let more : Sub = record sub { refs = sub.refs + 1 } in
    set_refs (set_refs s p sub (sub.refs + 1)) p more sub.refs

kept_one :
    (s : Store) (p : ℕ) (sub : Sub)
    → 0 < sub.refs
    → ◌≡◌ {A = Option Store}
        (some (dropped (set_refs s p sub (sub.refs + 1)) p (record sub { refs = sub.refs + 1 })))
        (some (twice s p sub))
kept_one s p sub pos =
    let one : (sub.refs + 1 == 1) ≡ false = ground arith in
    let back : sub.refs + 1 - 1 ≡ sub.refs = omega arith in rw (one, back) refl

twice-Same :
    (s : Store) (p : ℕ) (sub : Sub) → Same (dropped s p sub) (dropped (twice s p sub) p sub)
twice-Same s p sub = elim (Bool-cases (sub.refs == 1)) [
  | inl one ↦ rw one (record { heaps = λ q. ground arith; tables = λ e x. refl; totals = refl })
  | inr more ↦ rw more (record { heaps = λ q. ground arith; tables = λ e x. refl; totals = refl })
]

-- A reference that is taken before another is dropped keeps the subscription, and dropping it too
-- leaves what dropping the other alone would have left.
pub sub_ref-sub_unref :
    (s : Store) (p : ℕ) (sub : Sub)
    → s.heap p ≡ some sub
    → 0 < sub.refs
    → sub.refs + 1 < 2 ^ 32
    → (t u v : Store) × (sub_ref s p ≡ some t)
      × (sub_unref t p ≡ some u)
      × (u.heap p ≡ some sub)
      × (sub_unref u p ≡ some v)
      × Same (dropped s p sub) v
sub_ref-sub_unref s p sub h pos lt =
    let more : Sub = record sub { refs = sub.refs + 1 } in
    let t = set_refs s p sub (sub.refs + 1) in
    let u = twice s p sub in
    let n : (sub.refs + 1) % 2 ^ 32 ≡ sub.refs + 1 = omega arith in
    (
      t,
      u,
      dropped u p sub,
      rw (sub_ref_lem s p sub h, n) refl,
      sub_unref_lem t p more (ground arith) (omega arith) (omega arith) ∙ kept_one s p sub pos,
      ground arith,
      sub_unref_lem u p sub (ground arith) pos (omega arith),
      twice-Same s p sub,
    )
