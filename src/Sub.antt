-- ===== src/Sub.antt =====
-- src/sub.c and src/atomic.h: subscriptions, their reference counts, and the tables `subs` of the
-- events that find them by `ev_extra`.
--
-- Memory is explicit: a subscription stands at an address, and an access to an address that holds
-- none is a use after free, `none` in the results. What a function does under one lock, or by one
-- atomic instruction, is one step; `Sub/Steps.antt` interleaves them.
pub mod Invariant
pub mod Steps
pub mod Get
pub mod Pairs
pub mod Refs
pub mod Examples
use quick_io.Common.{
  ℕ, ◌+◌, ◌-◌, ◌%◌, ◌^◌, Bool, true, false, ◌&&◌, ◌==◌, if◌then◌else◌, [], Option, none, some,
  Bytes, equal,
}

-- `struct subscription`; an event is named by its address. The list of subscribers belongs to
-- quick-event.
pub record Sub : Type 0 where
  pub ev : ℕ
  pub ev_extra : Bytes
  pub refs : ℕ

pub record Store : Type 0 where
  pub heap : ℕ → Option Sub
  pub table : ℕ → Bytes → Option ℕ
  pub total : ℕ
  pub added : ℕ
  pub removed : ℕ

infixl 5 ◌>>=◌
abbrev pub ◌>>=◌ {ℓ κ} : {A : Type ℓ} {B : Type κ} → Option A → (A → Option B) → Option B
none >>= f = none
some a >>= f = f a

abbrev pub update_heap : (ℕ → Option Sub) → ℕ → Option Sub → ℕ → Option Sub
update_heap heap p v q = if q == p then v else heap q

abbrev pub update_table : (ℕ → Bytes → Option ℕ) → ℕ → Bytes → Option ℕ → ℕ → Bytes → Option ℕ
update_table table ev extra v e x = if e == ev && equal x extra then v else table e x

abbrev pub set_refs : Store → ℕ → Sub → ℕ → Store
set_refs s p sub n = record s { heap = update_heap s.heap p (some (record sub { refs = n })) }

-- `atomic_inc_not_zero`: the new count, or `none` where it was 0 and stays so.
pub atomic_inc_not_zero : ℕ → Option ℕ
atomic_inc_not_zero to = if to == 0 then none else some ((to + 1) % 2 ^ 32)

counted : Store → ℕ → Sub → Option ℕ → Store × Option ℕ
counted s p sub none = (s, none)
counted s p sub (some n) = (set_refs s p sub n, some p)

try_ref : Store → Option ℕ → Option (Store × Option ℕ)
unfolding counted atomic_inc_not_zero
try_ref s none = some (s, none)
try_ref s (some p) = do sub ← s.heap p; some (counted s p sub (atomic_inc_not_zero sub.refs))

-- `_get_if_exists`: the subscription in the table with one more reference, unless its count is 0.
unfoldable pub get_if_exists : Store → ℕ → Bytes → Option (Store × Option ℕ)
unfolding try_ref
get_if_exists s ev ev_extra = try_ref s (s.table ev ev_extra)

-- A new subscription at the address that the allocator gave; it replaces what the table held.
pub create : Store → ℕ → Bytes → ℕ → Store
create s ev ev_extra p = record s {
  heap = update_heap s.heap p (some (record { ev = ev; ev_extra = ev_extra; refs = 1 }));
  table = update_table s.table ev ev_extra (some p);
  total = s.total + 1;
  added = s.added + 1;
}

pub or_created : Store × Option ℕ → ℕ → Bytes → ℕ → Store × Option ℕ
unfolding create
or_created (s, some p) ev ev_extra new = (s, some p)
or_created (s, none) ev ev_extra new = (create s ev ev_extra new, some new)

-- The part of `sub_get` under the writer's lock.
unfoldable pub get_or_create : Store → ℕ → Bytes → ℕ → Option (Store × Option ℕ)
unfolding or_created get_if_exists
get_or_create s ev ev_extra new = do
  r ← get_if_exists s ev ev_extra
  some (or_created r ev ev_extra new)

get_again : Store × Option ℕ → ℕ → Bytes → Bool → ℕ → Option (Store × Option ℕ)
get_again (s, some p) ev ev_extra or_create new = some (s, some p)
get_again (s, none) ev ev_extra or_create new =
    if or_create then get_or_create s ev ev_extra new else some (s, none)

-- `sub_get` with no other thread between its two critical sections. A NULL `ev_extra` is "".
unfoldable pub sub_get : Store → ℕ → Option Bytes → Bool → ℕ → Option (Store × Option ℕ)
unfolding get_if_exists get_again get_or_create
sub_get s ev none or_create new = do r ← get_if_exists s ev []; get_again r ev [] or_create new
sub_get s ev (some ev_extra) or_create new = do
  r ← get_if_exists s ev ev_extra
  get_again r ev ev_extra or_create new

unfoldable pub sub_ref : Store → ℕ → Option Store
sub_ref s p = do sub ← s.heap p; some (set_refs s p sub ((sub.refs + 1) % 2 ^ 32))

-- `g_atomic_int_dec_and_test`: whether the count is now 0.
unfoldable pub dec_and_test : Store → ℕ → Option (Store × Bool)
dec_and_test s p = do
  sub ← s.heap p
  let n = (sub.refs + 2 ^ 32 - 1) % 2 ^ 32
  some (set_refs s p sub n, n == 0)

pub points_to : Option ℕ → ℕ → Bool
points_to none p = false
points_to (some q) p = q == p

-- The rest of `sub_unref` once the count is 0: the entry goes if it still is this subscription,
-- and the memory is freed.
unfoldable pub reap : Store → ℕ → Option Store
unfolding points_to
reap s p = do
  sub ← s.heap p
  some (record s {
    heap = update_heap s.heap p none;
    table =
        if points_to (s.table sub.ev sub.ev_extra) p
        then update_table s.table sub.ev sub.ev_extra none
        else s.table;
    total = s.total - 1;
    removed = s.removed + 1;
  })

reap_if : Store × Bool → ℕ → Option Store
unfolding reap
reap_if (s, true) p = reap s p
reap_if (s, false) p = some s

unfoldable pub sub_unref : Store → ℕ → Option Store
unfolding dec_and_test reap_if
sub_unref s p = do r ← dec_and_test s p; reap_if r p
