-- ===== src/Client/Data/Examples.antt =====
-- A client with the value 70 under the key 3, which only its table refers to.
use quick_io.Common.{◌≡◌, refl, true, false, ◌==◌, if◌then◌else◌, [], ◌∷◌, some, arith}
use quick_io.Client.Subs.Table.{lookup}
use quick_io.Client.Data.{
  Data, alone, client_get, client_get_locked, client_has, is_there, client_del,
}
use quick_io.Client.Data.Counts.{
  Balanced, sets, deletes, behind, run_op, leads, run_op-Balanced, run_op-leads,
  client_get-client_del,
}

abbrev one_value : Data
one_value = record {
  table = some ((3, 70) ∷ []);
  refs = λ v. if v == 70 then 1 else if v == 80 then 1 else 0;
  floating = λ v. v == 80;
}

-- The value 80 is new: its only reference is the caller's.
run_op-Balanced_example :
    Balanced (behind (λ v. 0) one_value (sets 3 80)) (run_op one_value (sets 3 80))
run_op-Balanced_example =
    run_op-Balanced (λ v. 0) one_value (sets 3 80)
      (record { counted = λ v. ground arith; distinct = (unfold lookup in (refl, tt)) })

run_op-leads_example :
    (client_get_locked (run_op one_value (deletes 3)) 3
      ≡ leads (deletes 3) 3 (client_get_locked one_value 3))
    × (client_has (run_op one_value (deletes 3)) 3
        ≡ is_there (leads (deletes 3) 3 (client_get_locked one_value 3)))
run_op-leads_example = run_op-leads one_value (deletes 3) 3

client_get-client_del_example :
    ((client_get alone one_value 3).too_late ≡ false)
    × ((client_get (λ e. client_del e 3) one_value 3).value ≡ some 70)
    × ((client_get (λ e. client_del e 3) one_value 3).too_late ≡ true)
client_get-client_del_example =
    client_get-client_del (λ v. if v == 80 then 1 else 0) one_value 3 70
      (record { counted = λ v. ground arith; distinct = (unfold lookup in (refl, tt)) })
      (unfold client_get_locked lookup in refl) refl refl
