-- ===== src/Query/Handlers.antt =====
-- `evs_add_handler` of src/evs.c and `evs_query` of src/evs_query.c together: what is registered
-- is found, and a cleaned path never leads out of the array of children.
use quick_io.Common.{
  ℕ, ◌<◌, ◌≡◌, ◌⊎◌, inl, inr, refl, ◌∙◌, Bool, true, false, ◌&&◌, if◌then◌else◌, [], ◌∷◌, ◌++◌,
  Option, none, some, Bytes, All, equal, equal_iff, ltb, ltb→lt, Bool-cases, arith,
}
use quick_io.Path.{evs_clean_path, evs_make_path}
use quick_io.Path.Clean.{
  InTable, IsCleanFrom-InTable, evs_clean_path-IsClean, evs_make_path-IsClean,
}
use quick_io.Query.Lookup.{
  event_at, is_free, or_new, inserted, query_from-inside, insert_from-inserted, event_at-inserted,
  query_from-exact, query_from-total,
}
use quick_io.Query.Walk.{query_from-Matches, Matches}
use quick_io.Query.{
  Event, Ptrie, node, ok, out_of_bounds, Handler, insert_from, insert_stripped, evs_query,
  evs_add_handler, strip_slash, child_index, childs_len,
}

strip_slash-InTable : (s : Bytes) → All InTable s → All InTable (strip_slash s)
strip_slash-InTable [] h = tt
strip_slash-InTable (c ∷ cs) h = ground arith

-- The path, without its first slash, under which `evs_add_handler` files an event.
abbrev pub filed_at : Option Bytes → Option Bytes → Bytes
filed_at ev_prefix ev_path = strip_slash (evs_make_path ev_prefix ev_path none)

pub filed_at-InTable : (p q : Option Bytes) → All InTable (filed_at p q)
filed_at-InTable p q =
    strip_slash-InTable _ (IsCleanFrom-InTable false _ (evs_make_path-IsClean p q none).0)

-- An event is added unless its path is empty or taken.
abbrev pub is_new : Ptrie → Bytes → Bool
is_new root [] = false
is_new root (c ∷ cs) = is_free (event_at root (c ∷ cs))

insert_stripped_lem :
    (root : Ptrie) (s : Bytes) (ev : Event)
    → All InTable s
    → (root' : Ptrie) × (insert_stripped root s ev ≡ ok (root', is_new root s))
      × ((q : Bytes)
          → All InTable q
          → event_at root' q ≡ (if is_new root s && equal s q then some ev else event_at root q))
insert_stripped_lem root [] ev h = (root, (unfold insert_stripped in refl), λ q hq. refl)
insert_stripped_lem root (c ∷ cs) ev h = (
  inserted root (c ∷ cs) ev,
  (unfold insert_stripped in insert_from-inserted root (c ∷ cs) ev h),
  λ q hq. event_at-inserted root (c ∷ cs) q ev h hq ∙ added (event_at root (c ∷ cs)) q refl,
)
  where
    added :
        (o : Option Event) (q : Bytes)
        → event_at root (c ∷ cs) ≡ o
        → (if equal (c ∷ cs) q then some (or_new o ev) else event_at root q)
          ≡ (if is_free o && equal (c ∷ cs) q then some ev else event_at root q)
    added none q e = refl
    added (some old) q e = ground (arith, equal_iff (c ∷ cs) q)

-- The event as `event_init` fills it in.
abbrev pub filed : Option Bytes → Option Bytes → Event → Event
filed ev_prefix ev_path ev = record ev { ev_path = evs_make_path ev_prefix ev_path none }

-- `evs_add_handler` never leaves the array of children. It adds the event exactly when its path
-- is neither empty nor taken, at that path and nowhere else.
evs_add_handler-event_at :
    (root : Ptrie) (ev_prefix ev_path : Option Bytes) (ev : Event)
    → (root' : Ptrie) × (evs_add_handler root ev_prefix ev_path ev
        ≡ ok (root', is_new root (filed_at ev_prefix ev_path)))
      × ((q : Bytes)
          → All InTable q
          → event_at root' q ≡ (
              if is_new root (filed_at ev_prefix ev_path) && equal (filed_at ev_prefix ev_path) q
              then some (filed ev_prefix ev_path ev)
              else event_at root q))
unfolding evs_add_handler
evs_add_handler-event_at root ev_prefix ev_path ev =
    insert_stripped_lem root (filed_at ev_prefix ev_path) (filed ev_prefix ev_path ev)
      (filed_at-InTable ev_prefix ev_path)

-- An event that was added under a path is what a query of that path returns, with nothing over.
pub evs_query-evs_add_handler :
    (root root' : Ptrie) (ev_prefix ev_path : Option Bytes) (ev : Event)
    → evs_add_handler root ev_prefix ev_path ev ≡ ok (root', true)
    → evs_query root' (evs_make_path ev_prefix ev_path none)
      ≡ ok (some (filed ev_prefix ev_path ev, []))
unfolding evs_query
evs_query-evs_add_handler root root' ev_prefix ev_path ev h =
    let s = filed_at ev_prefix ev_path in
    let (r, e, at) = evs_add_handler-event_at root ev_prefix ev_path ev in
    let i = filed_at-InTable ev_prefix ev_path in
    query_from-exact root' s none i (ground (arith, at s i, equal_iff s s))

-- A query of a cleaned path, as `evs_route` makes it, stays within the array of children.
pub evs_query-evs_clean_path :
    (root : Ptrie) (ev_path : Bytes)
    → (r : Handler) × (evs_query root (evs_clean_path ev_path) ≡ ok r)
unfolding evs_query
evs_query-evs_clean_path root ev_path =
    query_from-total root (strip_slash (evs_clean_path ev_path)) none (
      strip_slash-InTable (evs_clean_path ev_path)
        (IsCleanFrom-InTable false (evs_clean_path ev_path) (evs_clean_path-IsClean ev_path)))

-- What a query returns is an event of the tree. It stands at the whole path, or it handles its
-- children and stands at a front part of the path with a slash right behind.
pub evs_query-Matches :
    (root : Ptrie) (ev_path : Bytes) {ev : Event} {extra : Bytes}
    → evs_query root ev_path ≡ ok (some (ev, extra))
    → Matches root (strip_slash ev_path) ev extra
unfolding evs_query
evs_query-Matches root ev_path h =
    query_from-Matches root (strip_slash ev_path) [] root (strip_slash ev_path) none refl
      (λ s. refl) tt h

-- A path that is not cleaned, with a byte outside '-' to 'z' at its start, reads `childs` out of
-- bounds at any root node.
pub evs_query_out_of_bounds :
    (at : Option Event) (childs : ℕ → Ptrie) (c : ℕ) (cs : Bytes)
    → (c < b'-') ⊎ ((b'z' < c) × (c < 256))
    → evs_query (node at childs) (b'/' ∷ c ∷ cs) ≡ out_of_bounds
unfolding evs_query
evs_query_out_of_bounds at childs c cs h = elim (Bool-cases (ltb (child_index c) childs_len)) [
  | inl lt ↦ absurd (omega (arith, ltb→lt (child_index c) childs_len lt))
  | inr ge ↦ rw ge
]

-- A query of a path that holds no event returns nothing as soon as a longer path that begins with
-- it is registered, also where an event above it handles its children.
pub evs_query_inside :
    (root root' : Ptrie) (p : Bytes) (c : ℕ) (cs : Bytes) (ev : Event)
    → All InTable (p ++ c ∷ cs)
    → event_at root p ≡ none
    → insert_from root (p ++ c ∷ cs) ev ≡ ok (root', true)
    → evs_query root' (b'/' ∷ p) ≡ ok none
unfolding evs_query
evs_query_inside root root' p c cs ev i e h =
    ground (
      arith,
      insert_from-inserted root (p ++ c ∷ cs) ev i,
      query_from-inside root p c cs ev none i e,
    )
