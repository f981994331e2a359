-- ===== src/Client/Subs.antt =====
-- The subscriptions of a client: `subs` of `struct client`, and `client_sub_*`, `_sub_*` and the
-- table's part of `client_closed` of src/client.c.
--
-- A subscription is named by its address. Of what the functions do elsewhere, the state keeps this
-- client's part: its references (`sub_ref` and `sub_unref` of src/sub.c), what it uses of the
-- fair share `_fair_subs`, and the calls of `evs_client_off`. quick-event decides whether the
-- share is granted (`qev_fair_use`) and whether a list takes the client (`qev_list_add`): both
-- answers are arguments.
pub mod Table
pub mod Life
pub mod Branches
pub mod States
pub mod Shares
pub mod Elsewhere
pub mod Refines
pub mod Examples
use quick_io.Common.{
  ℕ, ◌+◌, ◌-◌, Bool, true, false, not, ◌&&◌, ◌==◌, if◌then◌else◌, List, [], ◌∷◌, Option, none, some,
  length,
}
use Table.{lookup, put, erase}

-- `idx` says whether the item has a place in the list of subscribers.
pub record ClientSub : Type 0 where
  pub idx : Bool
  pub pending : Bool
  pub tombstone : Bool

-- `enum client_sub_state`
pub data ClientSubState : Type 0 where
  sub_pending sub_tombstoned sub_created : ClientSubState
  sub_active sub_null : ClientSubState

-- `subs` is `none` for NULL. `refs p` are the references to `p` that the client took and has
-- not dropped.
pub record Client : Type 0 where
  pub closing : Bool
  pub subs : Option (List (ℕ × ClientSub))
  pub refs : ℕ → ℕ
  pub fair_used : ℕ
  pub offs : List ℕ

abbrev pub table_of : Option (List (ℕ × ClientSub)) → List (ℕ × ClientSub)
table_of none = []
table_of (some t) = t

-- `_sub_get`
unfoldable pub sub_get : Client → ℕ → Option ClientSub
sub_get c p = lookup p (table_of c.subs)

abbrev pub add_ref : (ℕ → ℕ) → ℕ → ℕ → ℕ
add_ref refs p q = if q == p then refs q + 1 else refs q

abbrev pub drop_ref : (ℕ → ℕ) → ℕ → ℕ → ℕ
drop_ref refs p q = if q == p then refs q - 1 else refs q

-- `_sub_cleanup` up to the table: out of the list, the `off` call, the share and the reference.
abbrev pub release : Client → ℕ → Client
release c p = record c { refs = drop_ref c.refs p; fair_used = c.fair_used - 1; offs = p ∷ c.offs }

-- An empty table is freed and `subs` is NULL again.
abbrev pub or_null : List (ℕ × ClientSub) → Option (List (ℕ × ClientSub))
or_null [] = none
or_null (x ∷ t) = some (x ∷ t)

-- `_sub_cleanup` with `cleanup_hashtable`.
pub sub_cleanup : Client → ℕ → Client
sub_cleanup c p = record (release c p) { subs = or_null (erase p (table_of c.subs)) }

pub store_sub : Client → ℕ → ClientSub → Client
store_sub c p csub = record c { subs = some (put p csub (table_of c.subs)) }

-- `client_sub_active`
pub is_active : Option ClientSub → Bool
is_active none = false
is_active (some csub) = not csub.pending && not csub.tombstone

unfoldable pub client_sub_active : Client → ℕ → Bool
unfolding is_active sub_get
client_sub_active c p = is_active (sub_get c p)

-- What `client_sub_add` does where the subscription is there.
add_again : Client → ℕ → ClientSub → Client × ClientSubState
unfolding store_sub
add_again c p csub = (
  store_sub c p (record csub { tombstone = false }),
  if csub.pending then sub_pending else sub_active,
)

-- What it does where there is none; `granted` is what `qev_fair_use` answers.
add_new : Client → ℕ → Bool → Client × ClientSubState
unfolding store_sub
add_new c p granted =
    if granted
    then (
      record (store_sub c p (record { idx = false; pending = true; tombstone = false })) {
        refs = add_ref c.refs p;
        fair_used = c.fair_used + 1;
      },
      sub_created,
    )
    else (c, sub_null)

pub add_open : Client → ℕ → Option ClientSub → Bool → Client × ClientSubState
unfolding add_again add_new
add_open c p (some csub) granted = add_again c p csub
add_open c p none granted = add_new c p granted

-- `fair_use` answers for the number of subscriptions that the client has.
unfoldable pub client_sub_add : (ℕ → Bool) → Client → ℕ → Client × ClientSubState
unfolding add_open sub_get
client_sub_add fair_use c p =
    if c.closing
    then (c, sub_null)
    else add_open c p (sub_get c p) (fair_use (length (table_of c.subs)))

pub accept_found : Client → ℕ → Option ClientSub → Bool → Client × ClientSubState
unfolding store_sub sub_cleanup
accept_found c p none added = (c, sub_null)
accept_found c p (some csub) added =
    if not added
    then (sub_cleanup c p, sub_null)
    else if csub.tombstone
    then (sub_cleanup c p, sub_tombstoned)
    else (store_sub c p (record csub { idx = true; pending = false }), sub_active)

-- `added` is what `qev_list_add` answers.
unfoldable pub client_sub_accept : Client → ℕ → Bool → Client × ClientSubState
unfolding accept_found sub_get
client_sub_accept c p added = accept_found c p (sub_get c p) added

pub remove_found : Client → ℕ → Option ClientSub → Bool → Client × Bool
unfolding store_sub sub_cleanup
remove_found c p none rejected = (c, false)
remove_found c p (some csub) rejected =
    if not rejected && csub.pending
    then (store_sub c p (record csub { tombstone = true }), false)
    else (sub_cleanup c p, true)

-- `_sub_remove`
sub_remove : Client → ℕ → Bool → Client × Bool
unfolding remove_found sub_get
sub_remove c p rejected = remove_found c p (sub_get c p) rejected

unfoldable pub client_sub_reject : Client → ℕ → Client
unfolding sub_remove
client_sub_reject c p = (sub_remove c p true).0

unfoldable pub client_sub_remove : Client → ℕ → Client × Bool
unfolding sub_remove
client_sub_remove c p = sub_remove c p false

-- The loop of `client_closed` over the table.
release_all : Client → List (ℕ × ClientSub) → Client
release_all c [] = c
release_all c ((p, csub) ∷ t) = release_all (release c p) t

unfoldable pub client_closed : Client → Client
unfolding release_all
client_closed c = record (release_all c (table_of c.subs)) { subs = none }
