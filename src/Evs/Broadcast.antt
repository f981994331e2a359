-- ===== src/Evs/Broadcast.antt =====
-- The queue of broadcasts of src/evs.c, and the pass that sends it.
pub mod Examples
use quick_io.Common.{
  ℕ, ◌≡◌, refl, sym, ap, ◌∙◌, ◌==◌, ==_iff, All, Bool-cases, inl, inr, Bool, true, false,
  if◌then◌else◌, List, [], ◌∷◌, ◌++◌, map, Option, none, some, Bytes,
}
use quick_io.Common.Int.{ℤ}
use mathlib.Core.Path.{subst}
use quick_io.Query.{Event, Ptrie, Checked, ok, Handler, evs_query}
use quick_io.Query
use quick_io.Sub.{◌>>=◌}
use quick_io.Evs.{json_or_null}
use quick_io.Protocols.Dispatch.{
  Protocol, Link, Frames, protocols_bcast, protocols_bcast_write, protocols_send,
}
use quick_io.Protocols.Dispatch.Session.{
  Known, protocols_bcast_write-protocols_send, prot-protocols_send,
}

-- `struct _broadcast`, with the path of the subscription's event and its extra.
pub record Broadcast : Type 0 where
  pub sub : ℕ
  pub ev_path : Bytes
  pub ev_extra : Bytes
  pub json : Bytes

-- `sub` is what `sub_get` found; its reference goes with the broadcast.
unfoldable pub evs_broadcast :
    List Broadcast → Event → Bytes → Option ℕ → Option Bytes → List Broadcast
evs_broadcast queue ev ev_extra none json = queue
evs_broadcast queue ev ev_extra (some sub) json =
    queue
    ++ record { sub = sub; ev_path = ev.ev_path; ev_extra = ev_extra; json = json_or_null json }
      ∷ []

broadcast_found :
    (Event → Bytes → Option ℕ) → List Broadcast → Option Bytes → Handler → List Broadcast
unfolding evs_broadcast
broadcast_found find queue json none = queue
broadcast_found find queue json (some (ev, ev_extra)) =
    evs_broadcast queue ev ev_extra (find ev ev_extra) json

-- `find` is `sub_get`. The path is not cleaned.
unfoldable pub evs_broadcast_path :
    (Event → Bytes → Option ℕ)
    → Ptrie
    → List Broadcast
    → Bytes
    → Option Bytes
    → Checked (List Broadcast)
unfolding broadcast_found evs_query
evs_broadcast_path find root queue ev_path json =
    Query.◌>>=◌ (evs_query root ev_path) (λ found. ok (broadcast_found find queue json found))

-- The queue, every client by its number, and the references given back by `_broadcast_free`.
pub record Casting : Type 0 where
  pub queue : List Broadcast
  pub links : ℕ → Link
  pub released : List ℕ

abbrev pub set_link : (ℕ → Link) → ℕ → Link → ℕ → Link
set_link links i l j = if i == j then l else links j

abbrev pub sub_of : Broadcast → ℕ
sub_of b = b.sub

-- `subscribers` is the list of a subscription's clients.
module _ (ps : List Protocol) (now : ℤ) (subscribers : ℕ → List ℕ) where
  -- `qev_list_foreach` with `_broadcast`.
  pub cast_to : List Frames → List ℕ → (ℕ → Link) → Option (ℕ → Link)
  unfolding protocols_bcast_write
  cast_to frames [] links = some links
  cast_to frames (i ∷ is) links = do
    l ← protocols_bcast_write ps now (links i) frames
    cast_to frames is (set_link links i l)

  pub cast_one : Broadcast → (ℕ → Link) → Option (ℕ → Link)
  unfolding protocols_bcast cast_to
  cast_one b links =
      cast_to (protocols_bcast ps (b.ev_path ++ b.ev_extra) b.json) (subscribers b.sub) links

  pub cast_all : List Broadcast → (ℕ → Link) → Option (ℕ → Link)
  unfolding cast_one
  cast_all [] links = some links
  cast_all (b ∷ queue) links = do links' ← cast_one b links; cast_all queue links'

  -- The loop takes what is in the queue until it is empty. `none` is as in `protocols_bcast_write`.
  unfoldable pub evs_broadcast_tick : Casting → Option Casting
  unfolding cast_all
  evs_broadcast_tick c = do
    links ← cast_all c.queue c.links
    some (record { queue = []; links = links; released = c.released ++ map sub_of c.queue })

  -- The broadcasts of the client's subscriptions, sent to it one by one.
  abbrev pub sent_to : ℕ → Broadcast → List ℕ → Link → Link
  unfolding protocols_send
  sent_to i b [] l = l
  sent_to i b (j ∷ js) l =
      sent_to i b js
        (if j == i then protocols_send ps now l (b.ev_path ++ b.ev_extra) none 0 b.json else l)

  abbrev pub sent_each : ℕ → List Broadcast → Link → Link
  unfolding sent_to
  sent_each i [] l = l
  sent_each i (b ∷ queue) l = sent_each i queue (sent_to i b (subscribers b.sub) l)

  -- Clients with the protocols `prots` after some broadcasts, and what each of them was sent.
  record Cast (prots : ℕ → Option ℕ) (r : Option (ℕ → Link)) (sent : ℕ → Link) : Type 0 where
    links' : ℕ → Link
    returns : r ≡ some links'
    all_sent : (i : ℕ) → links' i ≡ sent i
    same_prots : (i : ℕ) → (links' i).prot ≡ prots i

  module _ (prots : ℕ → Option ℕ) where
    cast_to-Cast :
        (b : Broadcast) (is : List ℕ) (links : ℕ → Link)
        → All (λ i. Known ps (prots i)) is
        → ((i : ℕ) → (links i).prot ≡ prots i)
        → Cast prots
            (cast_to (protocols_bcast ps (b.ev_path ++ b.ev_extra) b.json) is links)
            (λ i. sent_to i b is (links i))
    unfolding cast_to sent_to
    cast_to-Cast b [] links known same = record {
      links' = links;
      returns = refl;
      all_sent = λ i. refl;
      same_prots = same;
    }
    cast_to-Cast b (j ∷ js) links (here, there) same =
        let send : Link → Link =
          λ (l : Link). protocols_send ps now l (b.ev_path ++ b.ev_extra) none 0 b.json in
        let links1 = set_link links j (send (links j)) in
        let kept : (i : ℕ) → (links1 i).prot ≡ prots i = λ i. elim (Bool-cases (j == i)) [
          | inl at ↦ rw at (
              prot-protocols_send ps now (links j) (b.ev_path ++ b.ev_extra) none 0 b.json
              ∙ (same j ∙ ap prots ((==_iff j i).0 at)))
          | inr other ↦ rw other (same i)
        ] in
        let r = cast_to-Cast b js links1 there kept in
        record {
          links' = r.links';
          returns =
              rw
                (protocols_bcast_write-protocols_send ps now (links j) (b.ev_path ++ b.ev_extra)
                  b.json (subst (Known ps) (sym (same j)) here))
                r.returns;
          all_sent = λ i.
              r.all_sent i
              ∙ ap (sent_to i b js) (elim (Bool-cases (j == i)) [
                | inl at ↦ rw at (ap (λ (k : ℕ). send (links k)) ((==_iff j i).0 at))
                | inr other ↦ rw other refl
              ]);
          same_prots = r.same_prots;
        }

    cast_all-Cast :
        (queue : List Broadcast) (links : ℕ → Link)
        → All (λ b. All (λ i. Known ps (prots i)) (subscribers b.sub)) queue
        → ((i : ℕ) → (links i).prot ≡ prots i)
        → Cast prots (cast_all queue links) (λ i. sent_each i queue (links i))
    unfolding cast_all cast_one sent_each
    cast_all-Cast [] links known same = record {
      links' = links;
      returns = refl;
      all_sent = λ i. refl;
      same_prots = same;
    }
    cast_all-Cast (b ∷ queue) links (here, there) same =
        let first = cast_to-Cast b (subscribers b.sub) links here same in
        let rest = cast_all-Cast queue first.links' there first.same_prots in
        record {
          links' = rest.links';
          returns = rw first.returns rest.returns;
          all_sent = λ i. rest.all_sent i ∙ ap (sent_each i queue) (first.all_sent i);
          same_prots = rest.same_prots;
        }

  -- Where every subscriber of the broadcasts in the queue has a protocol, a tick returns. It empties
  -- the queue and gives each broadcast's reference back once, and what it does to a client is what
  -- sending it, in their order, the broadcasts of its subscriptions would do, and nothing else.
  pub evs_broadcast_tick-protocols_send :
      (c : Casting)
      → All (λ b. All (λ i. Known ps (c.links i).prot) (subscribers b.sub)) c.queue
      → (d : Casting) × (evs_broadcast_tick c ≡ some d)
        × (d.queue ≡ [])
        × (d.released ≡ c.released ++ map sub_of c.queue)
        × ((i : ℕ) → d.links i ≡ sent_each i c.queue (c.links i))
  unfolding evs_broadcast_tick
  evs_broadcast_tick-protocols_send c known =
      let r = cast_all-Cast (λ i. (c.links i).prot) c.queue c.links known (λ i. refl) in
      (
        record { queue = []; links = r.links'; released = c.released ++ map sub_of c.queue },
        rw r.returns refl,
        refl,
        refl,
        r.all_sent,
      )
