-- ===== src/Query.antt =====
-- src/evs_query.c: the prefix tree of events, with `struct event` of src/evs.h as far as the tree
-- and its clients read it. `evs_add_handler` of src/evs.c is the tree's other client.
pub mod Lookup
pub mod Release
pub mod Walk
pub mod Handlers
pub mod Examples
use quick_io.Common.{
  ℕ, ◌+◌, ◌-◌, ◌%◌, Bool, true, false, ◌==◌, ltb, if◌then◌else◌, List, [], ◌∷◌, Option, none, some,
  Bytes,
}
use quick_io.Path.{evs_make_path}

-- A handler is a function pointer, so a number, or `none` for NULL. What the handlers do is a
-- parameter of the functions that call them.
pub record Event : Type 0 where
  pub ev_path : Bytes
  pub handler_fn : Option ℕ
  pub on_fn : Option ℕ
  pub off_fn : Option ℕ
  pub handle_children : Bool

-- `struct _ptrie *`. A node holds an event where its `ev.ev_path` is not NULL.
pub data Ptrie : Type 0 where
  null : Ptrie
  node : Option Event → (ℕ → Ptrie) → Ptrie

-- An access to `childs`, or a fault where the index is no index of the array.
pub data Checked {ℓ} (A : Type ℓ) : Type ℓ where
  ok : A → Checked A
  out_of_bounds : Checked A

infixl 5 ◌>>=◌
abbrev pub ◌>>=◌ {ℓ κ} : {A : Type ℓ} {B : Type κ} → Checked A → (A → Checked B) → Checked B
ok a >>= f = f a
out_of_bounds >>= f = out_of_bounds

-- `'z' - '-' + 1`
abbrev pub childs_len : ℕ
childs_len = 78

-- `guchar ch = *curr - '-'`
abbrev pub child_index : ℕ → ℕ
child_index c = (c + 256 - b'-') % 256

abbrev pub checked_index : ℕ → Checked ℕ
checked_index c = if ltb (child_index c) childs_len then ok (child_index c) else out_of_bounds

abbrev pub empty_childs : ℕ → Ptrie
empty_childs ch = null

-- `parent->childs[ch] = child`
abbrev pub set_child : (ℕ → Ptrie) → ℕ → Ptrie → ℕ → Ptrie
set_child childs ch child i = if i == ch then child else childs i

-- The test of `ev_path`, then `event_init`; the flag is whether the event was added.
place : Option Event → (ℕ → Ptrie) → Event → Ptrie × Bool
place none childs ev = (node (some ev) childs, true)
place (some old) childs ev = (node (some old) childs, false)

-- The loop of `evs_query_insert` from the node `parent` on; a child that is NULL is allocated.
unfoldable pub insert_from : Ptrie → Bytes → Event → Checked (Ptrie × Bool)
unfolding place
insert_from null [] ev = ok (place none empty_childs ev)
insert_from (node at childs) [] ev = ok (place at childs ev)
insert_from null (c ∷ cs) ev = do
  ch ← checked_index c
  r ← insert_from null cs ev
  ok (node none (set_child empty_childs ch r.0), r.1)
insert_from (node at childs) (c ∷ cs) ev = do
  ch ← checked_index c
  r ← insert_from (childs ch) cs ev
  ok (node at (set_child childs ch r.0), r.1)

-- `if (*curr == '/') curr++;`
abbrev pub strip_slash : Bytes → Bytes
strip_slash [] = []
strip_slash (c ∷ cs) = if c == b'/' then cs else c ∷ cs

insert_stripped : Ptrie → Bytes → Event → Checked (Ptrie × Bool)
unfolding insert_from
insert_stripped root [] ev = ok (root, false)
insert_stripped root (c ∷ cs) ev = insert_from root (c ∷ cs) ev

-- The path is that of the event. The flag is whether the result is not NULL.
unfoldable pub evs_query_insert : Ptrie → Event → Checked (Ptrie × Bool)
unfolding insert_stripped
evs_query_insert root ev = insert_stripped root (strip_slash ev.ev_path) ev

-- `child_handler` and `child_start`.
abbrev pub Handler : Type 0
Handler = Option (Event × Bytes)

-- `if (parent->ev.handle_children) { … }`
abbrev pub remember : Option Event → Bytes → Handler → Handler
remember none curr handler = handler
remember (some ev) curr handler = if ev.handle_children then some (ev, curr) else handler

-- The end of `evs_query` where `parent == NULL`.
fall_back : Handler → Handler
fall_back none = none
fall_back (some (ev, [])) = none
fall_back (some (ev, c ∷ cs)) = if c == b'/' then some (ev, c ∷ cs) else none

-- The loop of `evs_query` and what follows it; `null` is `parent == NULL` after the `break`.
pub query_from : Ptrie → Bytes → Handler → Checked Handler
unfolding fall_back
query_from null curr handler = ok (fall_back handler)
query_from (node none childs) [] handler = ok none
query_from (node (some ev) childs) [] handler = ok (some (ev, []))
query_from (node at childs) (c ∷ cs) handler = do
  ch ← checked_index c
  query_from (childs ch) cs (remember at (c ∷ cs) handler)

-- The event found, with `ev_extra`.
unfoldable pub evs_query : Ptrie → Bytes → Checked Handler
unfolding query_from
evs_query root ev_path = query_from root (strip_slash ev_path) none

-- `_events`, zeroed.
unfoldable pub no_events : Ptrie
no_events = node none empty_childs

-- `evs_add_handler`: the path is made and inserted.
unfoldable pub evs_add_handler :
    Ptrie → Option Bytes → Option Bytes → Event → Checked (Ptrie × Bool)
unfolding evs_query_insert evs_make_path
evs_add_handler root ev_prefix ev_path ev =
    evs_query_insert root (record ev { ev_path = evs_make_path ev_prefix ev_path none })
