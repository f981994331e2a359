-- ===== src/Sub/Invariant.antt =====
-- The invariant of the tables and counts of src/sub.c, and how each kind of change keeps it.
use quick_io.Common.{
  ℕ, ◌+◌, ◌<◌, ◌≡◌, inl, inr, true, ◌&&◌, ◌==◌, if◌then◌else◌, Option, none, some, Bytes, equal,
  equal_iff, ◌-◌, ◌≢◌, Bool-cases, arith,
}
use quick_io.Sub.{Sub, Store, create, reap, update_heap, update_table, points_to}

-- An entry of a table is a subscription in memory that belongs there, and whatever still has
-- references is the entry of its table.
pub record Inv (s : Store) : Type 0 where
  pub entry :
      (e : ℕ) (x : Bytes) (p : ℕ)
      → s.table e x ≡ some p
      → (sub : Sub) × (s.heap p ≡ some sub) × (sub.ev ≡ e) × (sub.ev_extra ≡ x)
  pub live :
      (p : ℕ) (sub : Sub)
      → s.heap p ≡ some sub
      → 0 < sub.refs
      → s.table sub.ev sub.ev_extra ≡ some p

-- Changing the count of a subscription that had references.
pub set_refs-Inv :
    (s : Store) (p : ℕ) (sub : Sub) (n : ℕ)
    → Inv s
    → s.heap p ≡ some sub
    → 0 < sub.refs
    → Inv (record s { heap = update_heap s.heap p (some (record sub { refs = n })) })
set_refs-Inv s p sub n v h pos = record { entry = entry'; live = live' }
  where
    entry' :
        (e : ℕ) (x : Bytes) (q : ℕ)
        → s.table e x ≡ some q
        → (sub' : Sub) × (update_heap s.heap p (some (record sub { refs = n })) q ≡ some sub')
          × (sub'.ev ≡ e)
          × (sub'.ev_extra ≡ x)
    entry' e x q t =
        let (sub', h', e', x') = v.entry e x q t in
        elim (Bool-cases (q == p)) [
          | inl hit ↦ (record sub { refs = n }, ground arith, ground arith, ground arith)
          | inr miss ↦ (sub', ground arith, e', x')
        ]

    live' :
        (q : ℕ) (sub' : Sub)
        → update_heap s.heap p (some (record sub { refs = n })) q ≡ some sub'
        → 0 < sub'.refs
        → s.table sub'.ev sub'.ev_extra ≡ some q
    live' q sub' t lt = elim (Bool-cases (q == p)) [
      | inl hit ↦ ground (arith, v.live p sub h pos)
      | inr miss ↦ ground (arith, v.live q sub')
    ]

-- No live subscription is the entry for this event and extra.
abbrev pub Vacant : Store → ℕ → Bytes → Type 0
Vacant s e x = (p : ℕ) (sub : Sub) → s.table e x ≡ some p → s.heap p ≡ some sub → sub.refs ≡ 0

pub create-Inv :
    (s : Store) (e : ℕ) (x : Bytes) (new : ℕ)
    → Inv s
    → s.heap new ≡ none
    → Vacant s e x
    → Inv (create s e x new)
unfolding create
create-Inv s e x new v h vacant = record { entry = entry'; live = live' }
  where
    made : Sub
    made = record { ev = e; ev_extra = x; refs = 1 }

    entry' :
        (e' : ℕ) (x' : Bytes) (q : ℕ)
        → update_table s.table e x (some new) e' x' ≡ some q
        → (sub' : Sub) × (update_heap s.heap new (some made) q ≡ some sub')
          × (sub'.ev ≡ e')
          × (sub'.ev_extra ≡ x')
    entry' e' x' q t = elim (Bool-cases (e' == e && equal x' x)) [
      | inl hit ↦ (made, ground arith, ground arith, ground (arith, equal_iff x' x))
      | inr miss ↦
          let (sub', h', i', j') = v.entry e' x' q (rw miss at t) in
          (sub', ground (arith, h), i', j')
    ]

    live' :
        (q : ℕ) (sub' : Sub)
        → update_heap s.heap new (some made) q ≡ some sub'
        → 0 < sub'.refs
        → update_table s.table e x (some new) sub'.ev sub'.ev_extra ≡ some q
    live' q sub' t lt = elim (Bool-cases (q == new)) [
      | inl hit ↦ ground (arith, equal_iff x x)
      | inr miss ↦
          let old : s.heap q ≡ some sub' = rw miss at t in
          let here : s.table sub'.ev sub'.ev_extra ≡ some q = v.live q sub' old lt in
          elim (Bool-cases (sub'.ev == e && equal sub'.ev_extra x)) [
            | inl same ↦ ground (arith, equal_iff sub'.ev_extra x, vacant q sub')
            | inr other ↦ rw other here
          ]
    ]

-- The table after a subscription was freed.
abbrev pub table_without : Store → ℕ → Sub → ℕ → Bytes → Option ℕ
table_without s p sub =
    if points_to (s.table sub.ev sub.ev_extra) p
    then update_table s.table sub.ev sub.ev_extra none
    else s.table

points_to_lem : (o : Option ℕ) (p : ℕ) → points_to o p ≡ true → o ≡ some p
unfolding points_to
points_to_lem none p h = cc
points_to_lem (some q) p h = ground arith

pub points_to_self : (p : ℕ) → points_to (some p) p ≡ true
unfolding points_to
points_to_self p = ground arith

module _ (s : Store) (p : ℕ) (sub : Sub) (v : Inv s) (h : s.heap p ≡ some sub) where
  table_without-some :
      (e : ℕ) (x : Bytes) (q : ℕ)
      → table_without s p sub e x ≡ some q
      → (s.table e x ≡ some q) × (q ≢ p)
  table_without-some e x q t = elim (Bool-cases (points_to (s.table sub.ev sub.ev_extra) p)) [
    | inl own ↦ elim (Bool-cases (e == sub.ev && equal x sub.ev_extra)) [
      | inl hit ↦ absurd (ground arith)
      | inr miss ↦
          let at : s.table e x ≡ some q = ground arith in
          let (sub', h', e', x') = v.entry e x q at in
          (at, λ same. ground (arith, equal_iff x sub.ev_extra))
    ]
    | inr gone ↦
        let at : s.table e x ≡ some q = rw gone at t in
        let (sub', h', e', x') = v.entry e x q at in (at, λ same. ground (arith, points_to_self p))
  ]

  table_without-keeps :
      (e : ℕ) (x : Bytes) (q : ℕ)
      → s.table e x ≡ some q
      → q ≢ p
      → table_without s p sub e x ≡ some q
  table_without-keeps e x q at ne = elim (Bool-cases (points_to (s.table sub.ev sub.ev_extra) p)) [
    | inl own ↦ elim (Bool-cases (e == sub.ev && equal x sub.ev_extra)) [
      | inl hit ↦
          ground (arith, equal_iff x sub.ev_extra, points_to_lem (s.table sub.ev sub.ev_extra) p)
      | inr miss ↦ ground arith
    ]
    | inr gone ↦ rw gone at
  ]

abbrev pub reaped : Store → ℕ → Sub → Store
reaped s p sub = record s {
  heap = update_heap s.heap p none;
  table = table_without s p sub;
  total = s.total - 1;
  removed = s.removed + 1;
}

pub reap_lem :
    (s : Store) (p : ℕ) (sub : Sub) → s.heap p ≡ some sub → reap s p ≡ some (reaped s p sub)
unfolding reap
reap_lem s p sub h = rw (h, reap)

pub reap-Inv : (s : Store) (p : ℕ) (sub : Sub) → Inv s → s.heap p ≡ some sub → Inv (reaped s p sub)
reap-Inv s p sub v h = record { entry = entry'; live = live' }
  where
    entry' :
        (e : ℕ) (x : Bytes) (q : ℕ)
        → table_without s p sub e x ≡ some q
        → (sub' : Sub) × (update_heap s.heap p none q ≡ some sub')
          × (sub'.ev ≡ e)
          × (sub'.ev_extra ≡ x)
    entry' e x q t =
        let (at, ne) = table_without-some s p sub v h e x q t in
        let (sub', h', e', x') = v.entry e x q at in (sub', ground arith, e', x')

    live' :
        (q : ℕ) (sub' : Sub)
        → update_heap s.heap p none q ≡ some sub'
        → 0 < sub'.refs
        → table_without s p sub sub'.ev sub'.ev_extra ≡ some q
    live' q sub' t lt = elim (Bool-cases (q == p)) [
      | inl hit ↦ ground arith
      | inr miss ↦
          table_without-keeps s p sub v h sub'.ev sub'.ev_extra q (v.live q sub' (rw miss at t) lt)
            (ground arith)
    ]
