-- ===== src/Client/Subs/Examples.antt =====
-- One client with the subscriptions 7, active, and 9, waiting for its answer.
use quick_io.Common.{
  ℕ, refl, Bool, true, false, ◌==◌, ◌||◌, if◌then◌else◌, List, [], ◌∷◌, some, arith,
}
use quick_io.Client.Subs.Table.{lookup}
use quick_io.Client.Subs.Shares.{Balanced, run, Call, adds, accepts, removes, run-Balanced}
use quick_io.Client.Subs.Refines.{
  AllSettled, Allowed, view, all_returned, run_each, run_each-Allowed,
}
use quick_io.Client.Subs.{Client, sub_get}

abbrev two_subs : Client
two_subs = record {
  closing = false;
  subs = some (
      (7, record { idx = true; pending = false; tombstone = false })
      ∷ (9, record { idx = false; pending = true; tombstone = false })
      ∷ []);
  refs = λ p. if p == 7 || p == 9 then 1 else 0;
  fair_used = 2;
  offs = [];
}

abbrev grants : ℕ → Bool
grants used = true

two_subs-Balanced : Balanced two_subs
unfolding sub_get lookup
two_subs-Balanced = record { held = λ p. ground arith; used = refl; distinct = (refl, (refl, tt)) }

run-Balanced_example : Balanced (run two_subs (removes 7))
run-Balanced_example = run-Balanced two_subs (removes 7) two_subs-Balanced

two_subs-AllSettled : AllSettled two_subs
unfolding sub_get lookup
two_subs-AllSettled q = ground arith

abbrev requests : List Call
requests = removes 9 ∷ (adds grants 3 ∷ (accepts 9 true ∷ []))

run_each-Allowed_example :
    Allowed requests
      (all_returned two_subs requests)
      (view two_subs)
      (view (run_each two_subs requests))
run_each-Allowed_example = run_each-Allowed two_subs requests two_subs-Balanced two_subs-AllSettled
