-- ===== src/Sub/Examples.antt =====
-- One event, at address 1, and one subscription to its extra "/a", at address 5.
use quick_io.Common.{
  ℕ, ◌<◌, ◌≡◌, refl, true, ◌&&◌, ◌==◌, if◌then◌else◌, none, some, equal, equal_iff, codes, arith,
}
use quick_io.Sub.Get.{Holds, sub_get-Holds}
use quick_io.Sub.Invariant.{Inv}
use quick_io.Sub.Steps.{Step, here, next, drops, Reach-unique}
use quick_io.Sub.{Sub, Store, sub_get, dec_and_test}

abbrev empty_store : Store
empty_store = record { heap = λ p. none; table = λ e x. none; total = 0; added = 0; removed = 0 }

empty_store-Inv : Inv empty_store
empty_store-Inv = record { entry = λ e x p h. cc; live = λ p sub h l. cc }

abbrev one_sub : Store
one_sub = record {
  heap = λ p. if p == 5 then some (record { ev = 1; ev_extra = codes "/a"; refs = 1 }) else none;
  table = λ e x. if e == 1 && equal x (codes "/a") then some 5 else none;
  total = 1;
  added = 1;
  removed = 0;
}

one_sub-Inv : Inv one_sub
one_sub-Inv = record {
  entry = λ e x p h. (
    record { ev = 1; ev_extra = codes "/a"; refs = 1 },
    ground arith,
    ground arith,
    ground (arith, equal_iff x (codes "/a")),
  );
  live = λ p sub h l. ground (arith, equal_iff sub.ev_extra (codes "/a"));
}

sub_get-Holds_example : Holds (sub_get one_sub 1 (some (codes "/a")) true 6) 1 (codes "/a")
sub_get-Holds_example =
    sub_get-Holds one_sub 1 (some (codes "/a")) 6 one_sub-Inv refl (λ p sub h. ground arith)

-- The last reference is dropped, and the subscription waits to be freed.
abbrev dropped : Store
dropped = record one_sub {
  heap = λ p.
      if p == 5 then some (record { ev = 1; ev_extra = codes "/a"; refs = 0 }) else one_sub.heap p;
}

dec_and_test-Step : Step one_sub dropped
unfolding dec_and_test
dec_and_test-Step =
    drops 5 (record { ev = 1; ev_extra = codes "/a"; refs = 1 }) true refl (omega arith) refl

Reach-unique_example :
    Inv dropped
    × ((p q : ℕ) (a b : Sub)
        → dropped.heap p ≡ some a
        → dropped.heap q ≡ some b
        → 0 < a.refs
        → 0 < b.refs
        → a.ev ≡ b.ev
        → a.ev_extra ≡ b.ev_extra
        → p ≡ q)
Reach-unique_example = Reach-unique one_sub-Inv (next here dec_and_test-Step)
