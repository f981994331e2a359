-- ===== src/Evs/Shared.antt =====
-- `evs_on`, `evs_on_cb` and `evs_off` of src/evs.c together with src/client.c and src/sub.c: what a
-- client's subscribing does to the subscriptions that all clients share.
pub mod Books
pub mod Serve
pub mod Examples
use quick_io.Common.{
  ℕ, Bool, true, false, ltb, if◌then◌else◌, List, [], ◌∷◌, Option, none, some, Bytes,
}
use quick_io.Client.Subs.{
  Client, ClientSubState, sub_created, client_sub_add, client_sub_accept, client_sub_reject,
  client_sub_remove,
}
use quick_io.Client.Subs.Shares.{Call, adds, accepts, rejects, removes, run}
use quick_io.Client.Subs.Elsewhere.{target}
use quick_io.Sub.{Store, sub_get, sub_ref, sub_unref, ◌>>=◌}

-- The subscriptions of all events, and one client's.
pub record System : Type 0 where
  pub store : Store
  pub client : Client

-- `sub_ref` where a function of src/client.c stores a subscription, `sub_unref` where
-- `_sub_cleanup` drops one, by how the client's references to it move.
abbrev pub follow : Store → ℕ → ℕ → ℕ → Option Store
follow s p before after =
    if ltb before after then sub_ref s p else if ltb after before then sub_unref s p else some s

-- A function of src/client.c, with what it does to the shared subscription.
unfoldable pub request : System → Call → Option System
unfolding run sub_ref sub_unref
request y call =
    let c = run y.client call in
    do
      store ← follow y.store (target call) (y.client.refs (target call)) (c.refs (target call))
      some (record { store = store; client = c })

-- What `on_fn` makes of a new subscription: whether it is accepted, with the answer of
-- `qev_list_add`, or `none` where the application will answer later.
abbrev pub Verdict : Type 0
Verdict = Option (Bool × Bool)

-- `evs_on_cb`
unfoldable pub answer_request : System → ℕ → Verdict → Option System
unfolding request
answer_request y p none = some y
answer_request y p (some (true, added)) = request y (accepts p added)
answer_request y p (some (false, added)) = request y (rejects p)

is_created : ClientSubState → Bool
is_created sub_created = true
is_created state = false

-- The part of `evs_on` between `sub_get` and `sub_unref`.
pub on_found : System → ℕ → (ℕ → Bool) → Verdict → Option System
unfolding request answer_request is_created client_sub_add
on_found y p fair_use verdict = do
  z ← request y (adds fair_use p)
  if is_created (client_sub_add fair_use y.client p).1 then answer_request z p verdict else some z

-- `sub_unref` at the end.
pub drop_handle : System → ℕ → Option System
unfolding sub_unref
drop_handle y p = do store ← sub_unref y.store p; some (record y { store = store })

on_got : Client → (ℕ → Bool) → Verdict → Store × Option ℕ → Option System
unfolding on_found drop_handle
on_got c fair_use verdict (s, none) = none
on_got c fair_use verdict (s, some p) = do
  y ← on_found (record { store = s; client = c }) p fair_use verdict
  drop_handle y p

-- `evs_on`; `none` is an access to a subscription that was freed, or to NULL. `new` is the address
-- that a new subscription is given.
unfoldable pub evs_on_shared : System → ℕ → Option Bytes → ℕ → (ℕ → Bool) → Verdict → Option System
unfolding sub_get on_got
evs_on_shared y ev ev_extra new fair_use verdict = do
  r ← sub_get y.store ev ev_extra true new
  on_got y.client fair_use verdict r

off_got : Client → Store × Option ℕ → Option System
unfolding request drop_handle
off_got c (s, none) = some (record { store = s; client = c })
off_got c (s, some p) = do
  y ← request (record { store = s; client = c }) (removes p)
  drop_handle y p

-- `evs_off`
unfoldable pub evs_off_shared : System → ℕ → Option Bytes → ℕ → Option System
unfolding sub_get off_got
evs_off_shared y ev ev_extra new = do r ← sub_get y.store ev ev_extra false new; off_got y.client r
