-- ===== src/Evs/Shared/Serve.antt =====
-- `evs_on` and `evs_off` keep the count of a shared subscription, one after the other.
use mathlib.Core.Path.{subst}
use quick_io.Common.{
  ℕ, ◌≡◌, refl, Bool, true, false, List, [], ◌∷◌, Option, none, some, Bytes, arith,
}
use quick_io.Client.Subs.Shares.{removes}
use quick_io.Sub.{Store, ◌>>=◌}
use quick_io.Sub.Invariant.{Inv}
use quick_io.Sub.Refs.{Bumped, got, nothing, sub_get-Got}
use quick_io.Evs.Shared.{System, Verdict, on_got, evs_on_shared, off_got, evs_off_shared}
use quick_io.Evs.Shared.Books.{
  Books, Room, with_handle, Room-with_handle, Keeps, Books-Small, put, request-Keeps,
  on_found-Keeps, drop_handle-Keeps,
}

got-Books :
    (others : ℕ → ℕ) (y : System) (s : Store) (p : ℕ)
    → Inv s
    → Bumped y.store s p
    → Books others y
    → Books (with_handle others p) (put y s y.client)
got-Books others y s p v moved b = record {
  inv = v;
  balanced = b.balanced;
  counts = λ q. omega (arith, moved q, b.counts q);
}

evs_on_shared-Keeps :
    (others : ℕ → ℕ) (y : System) (ev : ℕ) (ev_extra : Option Bytes) (new : ℕ) (fair_use : ℕ → Bool)
    (verdict : Verdict)
    → Room 3 others
    → y.store.heap new ≡ none
    → Books others y
    → Keeps others (evs_on_shared y ev ev_extra new fair_use verdict)
unfolding evs_on_shared on_got
evs_on_shared-Keeps others y ev ev_extra new fair_use verdict room fresh b =
    elim (sub_get-Got y.store ev ev_extra true new b.inv
      (Books-Small others y (λ q. omega (arith, room q)) b) fresh) [
        | nothing never e ↦ absurd (no_way never)
        | got s p e v moved ↦
            let more = with_handle others p in
            let (z, e', bz) =
              on_found-Keeps more (put y s y.client) p fair_use verdict
                (Room-with_handle 2 others p room) (ground arith)
                (got-Books others y s p v moved b) in
            let (w, e'', bw) = drop_handle-Keeps others z p room bz in (w, rw (e, e') e'', bw)
      ]
  where
    no_way : ◌≡◌ {A = Bool} true false → ⊥
    no_way e = cc

evs_off_shared-Keeps :
    (others : ℕ → ℕ) (y : System) (ev : ℕ) (ev_extra : Option Bytes) (new : ℕ)
    → Room 3 others
    → y.store.heap new ≡ none
    → Books others y
    → Keeps others (evs_off_shared y ev ev_extra new)
unfolding evs_off_shared off_got
evs_off_shared-Keeps others y ev ev_extra new room fresh b =
    elim (sub_get-Got y.store ev ev_extra false new b.inv
      (Books-Small others y (λ q. omega (arith, room q)) b) fresh) [
        | nothing only e ↦ (y, rw e refl, b)
        | got s p e v moved ↦
            let more = with_handle others p in
            let (z, e', bz) =
              request-Keeps more (put y s y.client) (removes p) (Room-with_handle 2 others p room)
                (ground arith) (got-Books others y s p v moved b) in
            let (w, e'', bw) = drop_handle-Keeps others z p room bz in (w, rw (e, e') e'', bw)
      ]

-- What a client asks for, with the address that a new subscription would be given.
pub data Ask : Type 0 where
  subscribes : ℕ → Option Bytes → ℕ → (ℕ → Bool) → Verdict → Ask
  unsubscribes : ℕ → Option Bytes → ℕ → Ask

abbrev pub address : Ask → ℕ
address (subscribes ev ev_extra new fair_use verdict) = new
address (unsubscribes ev ev_extra new) = new

unfoldable pub serve : System → Ask → Option System
unfolding evs_on_shared evs_off_shared
serve y (subscribes ev ev_extra new fair_use verdict) =
    evs_on_shared y ev ev_extra new fair_use verdict
serve y (unsubscribes ev ev_extra new) = evs_off_shared y ev ev_extra new

unfoldable pub serve_all : System → List Ask → Option System
unfolding serve
serve_all y [] = some y
serve_all y (a ∷ as') = do z ← serve y a; serve_all z as'

-- Whenever an address is given, it is not in use.
abbrev pub Allocates : Option System → List Ask → Type 0
Allocates none as' = Unit
Allocates (some y) [] = Unit
Allocates (some y) (a ∷ as') = (y.store.heap (address a) ≡ none) × Allocates (serve y a) as'

serve-Keeps :
    (others : ℕ → ℕ) (y : System) (a : Ask)
    → Room 3 others
    → y.store.heap (address a) ≡ none
    → Books others y
    → Keeps others (serve y a)
unfolding serve
serve-Keeps others y (subscribes ev ev_extra new fair_use verdict) room fresh b =
    evs_on_shared-Keeps others y ev ev_extra new fair_use verdict room fresh b
serve-Keeps others y (unsubscribes ev ev_extra new) room fresh b =
    evs_off_shared-Keeps others y ev ev_extra new room fresh b

-- Let the tables of subscriptions be in order, the client's books right, and each count the
-- client's references and those of others, with room for three more, and let the addresses of new
-- subscriptions not be in use. Then any sequence of `evs_on` and `evs_off`, with any answers of the
-- application and of quick-event, runs without an access to a subscription that was freed, and
-- leaves all this so, with the others' references as they were.
pub serve_all-Keeps :
    (others : ℕ → ℕ) (y : System) (asks : List Ask)
    → Room 3 others
    → Allocates (some y) asks
    → Books others y
    → Keeps others (serve_all y asks)
unfolding serve_all
serve_all-Keeps others y [] room fresh b = (y, refl, b)
serve_all-Keeps others y (a ∷ asks) room fresh b =
    let (z, e, bz) = serve-Keeps others y a room fresh.0 b in
    let fresh' = subst (λ (r : Option System). Allocates r asks) e fresh.1 in
    let (w, e', bw) = serve_all-Keeps others z asks room fresh' bz in (w, rw e e', bw)
