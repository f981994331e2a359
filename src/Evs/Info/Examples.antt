-- ===== src/Evs/Info/Examples.antt =====
-- An application keeps what it was told of a subscription, to answer later.
use quick_io.Common.{◌==◌, true, false, if◌then◌else◌, equal, ◌&&◌, none, some, refl, codes, arith}
use quick_io.Sub.{Sub}
use quick_io.Evs.Info.{OnInfo, Memory}
use quick_io.Evs.Info.Held.{Outlives, evs_on_info_copy-Outlives}

abbrev one_sub : Sub
one_sub = record { ev = 1; ev_extra = codes "/a"; refs = 1 }

abbrev one_client : Memory
one_client = record {
  clients = λ p. if p == 3 then 2 else 0;
  store = record {
    heap = λ p. if p == 5 then some one_sub else none;
    table = λ e x. if e == 1 && equal x (codes "/a") then some 5 else none;
    total = 1;
    added = 1;
    removed = 0;
  };
}

abbrev asked : OnInfo
asked = record {
  ev_extra = some (codes "/a");
  json = some (codes "null");
  sub = 5;
  client = 3;
  client_cb = 7;
}

evs_on_info_copy-Outlives_example : Outlives one_client asked true false one_sub
evs_on_info_copy-Outlives_example =
    evs_on_info_copy-Outlives one_client asked true false one_sub refl (omega arith) (omega arith)
