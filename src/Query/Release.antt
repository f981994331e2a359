-- ===== src/Query/Release.antt =====
-- `_ptrie_free` of src/evs_query.c and `event_clear` of src/evs.c: the tree of events at the exit.
pub mod Counts
pub mod Cleared
use mathlib.Core.Path.{subst₂}
use quick_io.Common.{
  ltb→lt, ℕ, zero, suc, ◌+◌, ◌≡◌, refl, ap, ◌∙◌, ◌<◌, ◌≤◌, Bool-cases, inl, inr, Bool, true, false,
  ◌==◌, ltb, if◌then◌else◌, List, [], ◌∷◌, ◌++◌, Option, none, some, Bytes, arith,
}
use quick_io.Query.{
  Event, Ptrie, null, node, Checked, ok, out_of_bounds, ◌>>=◌, childs_len, checked_index,
  child_index, empty_childs, set_child, place, insert_from, strip_slash, evs_query_insert,
}

-- What is given back: the path, the lock and the table of an event, and the memory of a node.
pub data Freed : Type 0 where
  cleared : Event → Freed
  slice : Freed

-- The children from index `i` on, of which `n` are left.
pub free_childs : ℕ → ℕ → (ℕ → List Freed) → List Freed
free_childs zero i free = []
free_childs (suc n) i free = free i ++ free_childs n (i + 1) free

abbrev pub clear_event : Option Event → List Freed
clear_event none = []
clear_event (some ev) = cleared ev ∷ []

-- A child, whose memory was allocated.
pub free_child : Ptrie → List Freed
unfolding free_childs
free_child null = []
free_child (node at childs) =
    free_childs childs_len 0 (λ i. free_child (childs i)) ++ (clear_event at ++ slice ∷ [])

-- `_ptrie_free` of `_events`, which is static.
unfoldable pub ptrie_free : Ptrie → List Freed
unfolding free_childs free_child
ptrie_free null = []
ptrie_free (node at childs) =
    free_childs childs_len 0 (λ i. free_child (childs i)) ++ clear_event at

abbrev pub keep_added : Event → Bool → Checked (Ptrie × List Event) → Checked (Ptrie × List Event)
keep_added ev added r = do s ← r; ok (s.0, if added then ev ∷ s.1 else s.1)

-- Events registered one after the other, with those that were added.
unfoldable pub register : Ptrie → List Event → Checked (Ptrie × List Event)
unfolding evs_query_insert
register root [] = ok (root, [])
register root (ev ∷ evs) = do r ← evs_query_insert root ev; keep_added ev r.1 (register r.0 evs)
