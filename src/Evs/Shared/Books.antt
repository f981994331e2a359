-- ===== src/Evs/Shared/Books.antt =====
-- The count of a shared subscription is what its holders hold, whatever a client asks for.
use quick_io.Common.{
  ℕ, ◌+◌, ◌^◌, ◌<◌, ◌≤◌, ◌≡◌, refl, Bool, true, false, ltb, Bool-cases, inl, inr, ◌==◌,
  if◌then◌else◌, Option, none, some, arith,
}
use quick_io.Client.Subs.{Client, client_sub_add}
use quick_io.Client.Subs.Shares.{Balanced, Call, adds, accepts, rejects, run, run-Balanced}
use quick_io.Client.Subs.Elsewhere.{target, run-elsewhere, refs-le-one}
use quick_io.Sub.{Store}
use quick_io.Sub.Invariant.{Inv}
use quick_io.Sub.Refs.{refs_of, Small, sub_ref-Moved, sub_unref-Returned}
use quick_io.Evs.Shared.{
  System, Verdict, follow, request, answer_request, is_created, on_found, drop_handle,
}

-- Every reference to a subscription is the client's or one of `others`.
pub record Books (others : ℕ → ℕ) (y : System) : Type 0 where
  pub inv : Inv y.store
  pub balanced : Balanced y.client
  pub counts : (q : ℕ) → refs_of y.store q ≡ y.client.refs q + others q

-- The counts stay below 2 ^ 32 with `k` more.
abbrev pub Room : ℕ → (ℕ → ℕ) → Type 0
Room k others = (q : ℕ) → others q + k < 2 ^ 32

abbrev pub with_handle : (ℕ → ℕ) → ℕ → ℕ → ℕ
with_handle others p q = others q + (if q == p then 1 else 0)

pub Room-with_handle :
    (k : ℕ) (others : ℕ → ℕ) (p : ℕ) → Room (k + 1) others → Room k (with_handle others p)
Room-with_handle k others p room q = ground (arith, room q)

-- A call that returns, and keeps the books.
abbrev pub Keeps : (ℕ → ℕ) → Option System → Type 0
Keeps others r = (z : System) × (r ≡ some z) × Books others z

pub Books-Small : (others : ℕ → ℕ) (y : System) → Room 2 others → Books others y → Small y.store
Books-Small others y room b q = omega (arith, b.counts q, room q, refs-le-one y.client q b.balanced)

-- How the counts move where only those of `p` do, by the moves of three numbers.
up : (a b s t o : ℕ) → a ≤ 1 → b ≤ 1 → ltb a b ≡ true → s ≡ a + o → t ≡ s + 1 → t ≡ b + o
up a b s t o h k e f g = ground arith

down : (a b s t o : ℕ) → a ≤ 1 → b ≤ 1 → ltb b a ≡ true → s ≡ a + o → s ≡ t + 1 → t ≡ b + o
down a b s t o h k e f g = ground arith

level : (a b s o : ℕ) → ltb a b ≡ false → ltb b a ≡ false → s ≡ a + o → s ≡ b + o
level a b s o e f g = ground arith

abbrev pub put : System → Store → Client → System
put y s c = record { store = s; client = c }

follow-Keeps :
    (others : ℕ → ℕ) (y : System) (p : ℕ) (c : Client)
    → Room 2 others
    → Books others y
    → Balanced c
    → 0 < refs_of y.store p
    → ((q : ℕ) → (q == p) ≡ false → c.refs q ≡ y.client.refs q)
    → (s : Store) × (follow y.store p (y.client.refs p) (c.refs p) ≡ some s)
      × Inv s
      × ((q : ℕ) → refs_of s q ≡ c.refs q + others q)
follow-Keeps others y p c room b bal pos same =
    let small = Books-Small others y room b in
    let one = refs-le-one y.client p b.balanced in
    let one' = refs-le-one c p bal in
    elim (Bool-cases (ltb (y.client.refs p) (c.refs p))) [
      | inl more ↦
          let m = sub_ref-Moved y.store p b.inv small pos in
          (
            m.after,
            rw more m.returned,
            m.inv,
            at_target m.after (λ q miss. ground (arith, m.moved q, miss))
                (up (y.client.refs p) (c.refs p) (refs_of y.store p) (refs_of m.after p) (others p)
                  one one' more (b.counts p) (ground (arith, m.moved p))),
          )
      | inr not_more ↦ elim (Bool-cases (ltb (c.refs p) (y.client.refs p))) [
        | inl less ↦
            let m = sub_unref-Returned y.store p b.inv small pos in
            (
              m.after,
              rw (not_more, less) m.returned,
              m.inv,
              at_target m.after (λ q miss. ground (arith, m.moved q, miss))
                  (down (y.client.refs p) (c.refs p) (refs_of y.store p) (refs_of m.after p)
                    (others p) one one' less (b.counts p) (ground (arith, m.moved p))),
            )
        | inr not_less ↦ (
          y.store,
          rw (not_more, not_less) refl,
          b.inv,
          at_target y.store (λ q miss. refl)
              (level (y.client.refs p) (c.refs p) (refs_of y.store p) (others p) not_more not_less
                (b.counts p)),
        )
      ]
    ]
  where
    at_target :
        (t : Store)
        → ((q : ℕ) → (q == p) ≡ false → refs_of t q ≡ refs_of y.store q)
        → refs_of t p ≡ c.refs p + others p
        → (q : ℕ) → refs_of t q ≡ c.refs q + others q
    at_target t elsewhere here q = elim (Bool-cases (q == p)) [
      | inl hit ↦ let e : q ≡ p = ground arith in rw e here
      | inr miss ↦ omega (arith, elsewhere q miss, b.counts q, same q miss)
    ]

pub request-Keeps :
    (others : ℕ → ℕ) (y : System) (call : Call)
    → Room 2 others
    → 0 < others (target call)
    → Books others y
    → Keeps others (request y call)
unfolding request
request-Keeps others y call room held b =
    let p = target call in
    let c = run y.client call in
    let bal = run-Balanced y.client call b.balanced in
    let (s, e, v, counts) =
      follow-Keeps others y p c room b bal (omega (arith, b.counts p))
        (λ q miss. run-elsewhere y.client call q miss) in
    (put y s c, rw e refl, record { inv = v; balanced = bal; counts = counts })

answer_request-Keeps :
    (others : ℕ → ℕ) (y : System) (p : ℕ) (verdict : Verdict)
    → Room 2 others
    → 0 < others p
    → Books others y
    → Keeps others (answer_request y p verdict)
unfolding answer_request
answer_request-Keeps others y p none room held b = (y, refl, b)
answer_request-Keeps others y p (some (true, added)) room held b =
    request-Keeps others y (accepts p added) room held b
answer_request-Keeps others y p (some (false, added)) room held b =
    request-Keeps others y (rejects p) room held b

pub on_found-Keeps :
    (others : ℕ → ℕ) (y : System) (p : ℕ) (fair_use : ℕ → Bool) (verdict : Verdict)
    → Room 2 others
    → 0 < others p
    → Books others y
    → Keeps others (on_found y p fair_use verdict)
unfolding on_found
on_found-Keeps others y p fair_use verdict room held b =
    let (z, e, bz) = request-Keeps others y (adds fair_use p) room held b in
    elim (Bool-cases (is_created (client_sub_add fair_use y.client p).1)) [
      | inl created ↦
          let (w, e', bw) = answer_request-Keeps others z p verdict room held bz in
          (w, rw (e, created) e', bw)
      | inr old ↦ (z, rw (e, old) refl, bz)
    ]

-- The reference that `sub_get` gave is given back.
pub drop_handle-Keeps :
    (others : ℕ → ℕ) (y : System) (p : ℕ)
    → Room 3 others
    → Books (with_handle others p) y
    → Keeps others (drop_handle y p)
unfolding drop_handle
drop_handle-Keeps others y p room b =
    let small = Books-Small (with_handle others p) y (Room-with_handle 2 others p room) b in
    let r = sub_unref-Returned y.store p b.inv small (ground (arith, b.counts p)) in
    (
      record y { store = r.after },
      rw r.returned refl,
      record {
        inv = r.inv;
        balanced = b.balanced;
        counts = λ q. omega (arith, b.counts q, r.moved q);
      },
    )
