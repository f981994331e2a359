-- ===== src/Query/Examples.antt =====
-- The tree of test/test_evs.c, `test_evs_query_handles_children_lookups`.
use quick_io.Common.{
  ◌≡◌, refl, inr, Bool, true, false, [], none, some, Bytes, codes, equal, arith, List, ◌∷◌,
}
use quick_io.Path.{evs_make_path}
use quick_io.Query.Release.{ptrie_free, register}
use quick_io.Query.Release.Counts.{cleared_by, count}
use quick_io.Query.Release.Cleared.{ptrie_free-register}
use quick_io.Query.Handlers.{
  evs_query-evs_add_handler, evs_query-Matches, evs_query_out_of_bounds, evs_query_inside, filed,
}
use quick_io.Query.Lookup.{event_at}
use quick_io.Query.Walk.{Matches}
use quick_io.Query.{
  Event, Ptrie, node, Checked, ok, out_of_bounds, evs_add_handler, evs_query, no_events,
  empty_childs, insert_from,
}

abbrev blank : Bool → Event
blank handles = record {
  ev_path = [];
  handler_fn = none;
  on_fn = none;
  off_fn = none;
  handle_children = handles;
}

abbrev tree_of : Checked (Ptrie × Bool) → Ptrie
tree_of (ok (t, b)) = t
tree_of out_of_bounds = no_events

abbrev base : Bytes
base = codes "/query-test"

abbrev handles_tree : Ptrie
handles_tree = tree_of (evs_add_handler no_events (some base) none (blank true))

abbrev another_tree : Ptrie
another_tree =
    tree_of (evs_add_handler handles_tree (some base) (some (codes "/another")) (blank false))

query_child :
    evs_query another_tree (codes "/query-test/not/setup")
    ≡ ok (some (filed (some base) none (blank true), codes "/not/setup"))
unfolding evs_query evs_add_handler no_events
query_child = refl

evs_query-evs_add_handler_example :
    evs_query another_tree (evs_make_path (some base) (some (codes "/another")) none)
    ≡ ok (some (filed (some base) (some (codes "/another")) (blank false), []))
unfolding evs_add_handler no_events
evs_query-evs_add_handler_example =
    evs_query-evs_add_handler handles_tree another_tree (some base) (some (codes "/another"))
      (blank false) refl

evs_query-Matches_example :
    Matches another_tree
      (codes "query-test/not/setup")
      (filed (some base) none (blank true))
      (codes "/not/setup")
unfolding evs_query evs_add_handler no_events
evs_query-Matches_example = evs_query-Matches another_tree (codes "/query-test/not/setup") refl

evs_query_out_of_bounds_example :
    evs_query (node none empty_childs) (codes "/~root") ≡ out_of_bounds
evs_query_out_of_bounds_example =
    evs_query_out_of_bounds none empty_childs b'~' (codes "root") (inr (omega arith))

-- "/query-test" handles its children, and "/query-test/another" is registered: "/query-test/a"
-- is then not found.
evs_query_inside_example : evs_query another_tree (codes "/query-test/a") ≡ ok none
unfolding evs_add_handler no_events insert_from event_at
evs_query_inside_example =
    evs_query_inside handles_tree another_tree (codes "query-test/a") b'n' (codes "other")
      (filed (some base) (some (codes "/another")) (blank false)) (omega arith) refl refl

abbrev asks : Bytes → Event
asks path = record {
  ev_path = path;
  handler_fn = none;
  on_fn = none;
  off_fn = none;
  handle_children = false;
}

-- The second and the third are refused.
abbrev wanted : List Event
wanted = asks (codes "/ab") ∷ (asks (codes "/ab") ∷ (asks [] ∷ (asks (codes "/abc") ∷ [])))

abbrev end_with_c : Event → Bool
end_with_c ev = equal ev.ev_path (codes "/abc")

wanted_tree : Ptrie
wanted_tree = elim (register no_events wanted) [ ok r ↦ r.0 | out_of_bounds ↦ no_events ]

ptrie_free-register_example :
    cleared_by end_with_c (ptrie_free wanted_tree)
    ≡ count end_with_c (asks (codes "/ab") ∷ (asks (codes "/abc") ∷ []))
unfolding wanted_tree register no_events
ptrie_free-register_example =
    ptrie_free-register wanted (asks (codes "/ab") ∷ (asks (codes "/abc") ∷ [])) wanted_tree
      end_with_c refl
