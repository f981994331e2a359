-- ===== src/Evs/Info/Held.antt =====
-- What `evs_on_info_copy` of src/evs.c keeps for whoever answers a subscription later.
use quick_io.Common.{ℕ, ◌+◌, ◌-◌, ◌^◌, ◌<◌, ◌≡◌, Bool, Option, some, refl, arith}
use quick_io.Sub.{Sub, sub_unref, ◌>>=◌}
use quick_io.Sub.Get.{Same}
use quick_io.Sub.Pairs.{dropped, sub_unref_lem, sub_ref-sub_unref}
use quick_io.Evs.Info.{OnInfo, Memory, change_refs, only_with, evs_on_info_copy, evs_on_info_free}

-- The memory where the reference that `evs_on` holds to the subscription is dropped.
abbrev pub left_by_evs_on : Memory → OnInfo → Option Memory
left_by_evs_on m info = do store ← sub_unref m.store info.sub; some (record m { store = store })

-- What comes of a copy: the memory with it, the memory that `evs_on` leaves, and the memory after
-- the copy is freed.
pub record Outlives (m : Memory) (info : OnInfo) (with_ev_extra with_json : Bool) (sub : Sub)
    : Type 0 where
  pub copied : Memory
  pub left : Memory
  pub freed : Memory
  pub alone : Memory
  pub copies :
      evs_on_info_copy m info with_ev_extra with_json
      ≡ some (
        copied,
        record info {
          ev_extra = only_with with_ev_extra info.ev_extra;
          json = only_with with_json info.json;
        },
      )
  pub leaves : left_by_evs_on copied info ≡ some left
  pub sub_there : left.store.heap info.sub ≡ some sub
  pub client_there : left.clients info.client ≡ m.clients info.client + 1
  pub frees : evs_on_info_free left info ≡ some freed
  pub leaves_alone : left_by_evs_on m info ≡ some alone
  pub same_store : Same alone.store freed.store
  pub same_clients : (q : ℕ) → freed.clients q ≡ alone.clients q

-- Where the subscription is there, with a count that leaves room for one more: `evs_on_info_copy`
-- gives the same information with the strings that were asked for, and after `evs_on` has dropped
-- its own reference the subscription is there with the references that it had and the client has
-- one more. `evs_on_info_free` then leaves what `evs_on` alone would have left.
pub evs_on_info_copy-Outlives :
    (m : Memory) (info : OnInfo) (with_ev_extra with_json : Bool) (sub : Sub)
    → m.store.heap info.sub ≡ some sub
    → 0 < sub.refs
    → sub.refs + 1 < 2 ^ 32
    → Outlives m info with_ev_extra with_json sub
unfolding evs_on_info_copy evs_on_info_free
evs_on_info_copy-Outlives m info with_ev_extra with_json sub h pos lt =
    let (t, u, v, refs, drops, there, frees, same) =
      sub_ref-sub_unref m.store info.sub sub h pos lt in
    let clients = change_refs m.clients info.client (λ n. n + 1) in
    record {
      copied = record { clients = clients; store = t };
      left = record { clients = clients; store = u };
      freed = record { clients = change_refs clients info.client (λ n. n - 1); store = v };
      alone = record m { store = dropped m.store info.sub sub };
      copies = rw refs refl;
      leaves = rw drops refl;
      sub_there = there;
      client_there = ground arith;
      frees = rw frees refl;
      leaves_alone = rw (sub_unref_lem m.store info.sub sub h pos (omega arith)) refl;
      same_store = same;
      same_clients = λ q. ground arith;
    }
