-- ===== src/Query/Lookup.antt =====
-- `evs_query_insert` and `evs_query` of src/evs_query.c against a plain lookup in the tree.
use quick_io.Common.{
  ℕ, ◌≡◌, refl, Bool, true, false, if◌then◌else◌, [], ◌∷◌, ◌++◌, Option, none, some, Bytes, All,
  equal, arith,
}
use quick_io.Path.Clean.{InTable}
use quick_io.Query.{
  Event, Ptrie, null, node, ok, empty_childs, set_child, Handler, child_index, checked_index,
  insert_from, query_from, fall_back, remember,
}

-- The event at the end of a path, with no regard to `handle_children`.
unfoldable pub event_at : Ptrie → Bytes → Option Event
event_at null s = none
event_at (node at childs) [] = at
event_at (node at childs) (c ∷ cs) = event_at (childs (child_index c)) cs

pub checked_index_lem : (c : ℕ) → InTable c → checked_index c ≡ ok (child_index c)
checked_index_lem c h = ground arith

child_index-injective : (c d : ℕ) → InTable c → InTable d → child_index c ≡ child_index d → c ≡ d
child_index-injective c d hc hd h = omega arith

-- What is at the path after an insertion: an event that was there stays.
abbrev pub or_new : Option Event → Event → Event
or_new none ev = ev
or_new (some old) ev = old

abbrev pub is_free : Option Event → Bool
is_free none = true
is_free (some old) = false

-- The tree that the insertion leaves, with no check of the indices.
pub inserted : Ptrie → Bytes → Event → Ptrie
inserted null [] ev = node (some ev) empty_childs
inserted (node at childs) [] ev = node (some (or_new at ev)) childs
inserted null (c ∷ cs) ev = node none (set_child empty_childs (child_index c) (inserted null cs ev))
inserted (node at childs) (c ∷ cs) ev =
    node at (set_child childs (child_index c) (inserted (childs (child_index c)) cs ev))

pub insert_from-inserted :
    (t : Ptrie) (s : Bytes) (ev : Event)
    → All InTable s
    → insert_from t s ev ≡ ok (inserted t s ev, is_free (event_at t s))
unfolding insert_from inserted event_at
insert_from-inserted null [] ev h = refl
insert_from-inserted (node none childs) [] ev h = refl
insert_from-inserted (node (some old) childs) [] ev h = refl
insert_from-inserted null (c ∷ cs) ev h =
    rw (checked_index_lem c h.0, insert_from-inserted null cs ev h.1) (unfold event_at in refl)
insert_from-inserted (node at childs) (c ∷ cs) ev h =
    rw (checked_index_lem c h.0, insert_from-inserted (childs (child_index c)) cs ev h.1)

pub event_at-inserted :
    (t : Ptrie) (s q : Bytes) (ev : Event)
    → All InTable s
    → All InTable q
    → event_at (inserted t s ev) q
      ≡ (if equal s q then some (or_new (event_at t s) ev) else event_at t q)
unfolding inserted event_at equal
event_at-inserted null [] [] ev hs hq = refl
event_at-inserted null [] (d ∷ ds) ev hs hq = refl
event_at-inserted null (c ∷ cs) [] ev hs hq = refl
event_at-inserted null (c ∷ cs) (d ∷ ds) ev hs hq =
    ground (arith, child_index-injective c d hs.0 hq.0, event_at-inserted null cs ds ev hs.1 hq.1)
event_at-inserted (node at childs) [] [] ev hs hq = ground arith
event_at-inserted (node at childs) [] (d ∷ ds) ev hs hq = refl
event_at-inserted (node at childs) (c ∷ cs) [] ev hs hq = refl
event_at-inserted (node at childs) (c ∷ cs) (d ∷ ds) ev hs hq = ground (
  arith,
  child_index-injective c d hs.0 hq.0,
  event_at-inserted (childs (child_index c)) cs ds ev hs.1 hq.1,
)

-- Within the table, an insertion never leaves the array; it adds the event where the path had
-- none and changes nothing at any other path.
pub insert_from-event_at :
    (t : Ptrie) (s : Bytes) (ev : Event)
    → All InTable s
    → (t' : Ptrie) × (insert_from t s ev ≡ ok (t', is_free (event_at t s)))
      × ((q : Bytes)
          → All InTable q
          → event_at t' q ≡ (if equal s q then some (or_new (event_at t s) ev) else event_at t q))
insert_from-event_at t s ev h =
    (inserted t s ev, insert_from-inserted t s ev h, λ q hq. event_at-inserted t s q ev h hq)

-- A path that holds an event is found as that event, with nothing left over.
pub query_from-exact :
    (t : Ptrie) (q : Bytes) (h : Handler) {ev : Event}
    → All InTable q
    → event_at t q ≡ some ev
    → query_from t q h ≡ ok (some (ev, []))
unfolding query_from event_at
query_from-exact null q h i e = cc
query_from-exact (node none childs) [] h i e = cc
query_from-exact (node (some old) childs) [] h i e = ground arith
query_from-exact (node at childs) (c ∷ cs) h i e =
    rw (checked_index_lem c i.0)
      (query_from-exact (childs (child_index c)) cs (remember at (c ∷ cs) h) i.1 e)

-- Within the table a query never leaves the array.
pub query_from-total :
    (t : Ptrie) (q : Bytes) (h : Handler)
    → All InTable q
    → (r : Handler) × (query_from t q h ≡ ok r)
unfolding query_from
query_from-total null q h i = (fall_back h, refl)
query_from-total (node none childs) [] h i = (none, refl)
query_from-total (node (some ev) childs) [] h i = (some (ev, []), refl)
query_from-total (node at childs) (c ∷ cs) h i =
    rw (checked_index_lem c i.0)
      (query_from-total (childs (child_index c)) cs (remember at (c ∷ cs) h) i.1)

-- A node that the insertion of a longer path has made, and that holds no event, is found as
-- nothing, whatever handler of children the query has passed.
pub query_from-inside :
    (t : Ptrie) (p : Bytes) (c : ℕ) (cs : Bytes) (ev : Event) (h : Handler)
    → All InTable (p ++ c ∷ cs)
    → event_at t p ≡ none
    → query_from (inserted t (p ++ c ∷ cs) ev) p h ≡ ok none
unfolding query_from inserted event_at
query_from-inside null [] c cs ev h i e = refl
query_from-inside (node none childs) [] c cs ev h i e = refl
query_from-inside (node (some old) childs) [] c cs ev h i e = cc
query_from-inside null (d ∷ ds) c cs ev h i e =
    ground (arith, query_from-inside null ds c cs ev h i.1 (unfold event_at in refl))
query_from-inside (node at childs) (d ∷ ds) c cs ev h i e =
    ground
      (arith, query_from-inside (childs (child_index d)) ds c cs ev (remember at (d ∷ ds) h) i.1 e)
