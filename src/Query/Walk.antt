-- ===== src/Query/Walk.antt =====
-- What `evs_query` of src/evs_query.c returns.
use quick_io.Common.{
  ℕ, ◌≡◌, ◌⊎◌, inl, inr, refl, sym, ◌∙◌, Bool, true, false, if◌then◌else◌, [], ◌∷◌, ◌++◌, Option,
  none, some, Bytes, ltb, Bool-cases, append-nil, append_assoc, arith,
}
use quick_io.Query.{
  Event, Ptrie, null, node, ok, Handler, child_index, childs_len, query_from, fall_back, remember,
}
use quick_io.Query.Lookup.{event_at}

-- `ev` stands at `front`, which is the whole path, or it handles its children and a slash follows.
pub record Matches (t : Ptrie) (q : Bytes) (ev : Event) (extra : Bytes) : Type 0 where
  pub front : Bytes
  pub splits : q ≡ front ++ extra
  pub stands : event_at t front ≡ some ev
  pub reaches :
      (extra ≡ []) ⊎ ((ev.handle_children ≡ true) × (rest : Bytes) × (extra ≡ b'/' ∷ rest))

-- A remembered handler stands at `front`, the path read so far up to its `child_start`.
abbrev pub Remembered : Ptrie → Bytes → Handler → Type 0
Remembered root q none = Unit {0}
Remembered root q (some (ev, start)) =
    (front : Bytes) × (q ≡ front ++ start)
    × (event_at root front ≡ some ev)
    × (ev.handle_children ≡ true)

fall_back-Matches :
    (root : Ptrie) (q : Bytes) (h : Handler) {ev : Event} {extra : Bytes}
    → Remembered root q h
    → fall_back h ≡ some (ev, extra)
    → Matches root q ev extra
unfolding fall_back
fall_back-Matches root q none m e = cc
fall_back-Matches root q (some (old, [])) m e = cc
fall_back-Matches root q (some (old, c ∷ cs)) {ev} {extra} m e = record {
  front = m.0;
  splits = ground (arith, m.1);
  stands = ground (arith, m.2);
  reaches = inr (ground (arith, m.3), cs, ground arith);
}

remember-Remembered :
    (root : Ptrie) (full front curr : Bytes) (at : Option Event) (h : Handler)
    → full ≡ front ++ curr
    → event_at root front ≡ at
    → Remembered root full h
    → Remembered root full (remember at curr h)
remember-Remembered root full front curr none h f e m = m
remember-Remembered root full front curr (some ev) h f e m = choose ev.handle_children refl
  where
    choose :
        (b : Bool)
        → ev.handle_children ≡ b
        → Remembered root full (if b then some (ev, curr) else h)
    choose true handles = (front, f, e, handles)
    choose false handles = m

event_at-nil : (at : Option Event) (childs : ℕ → Ptrie) → event_at (node at childs) [] ≡ at
unfolding event_at
event_at-nil at childs = refl

-- Whatever `evs_query` returns is an event of the tree: at the whole path, or at a part of it
-- that handles its children and ends where a slash follows.
pub query_from-Matches :
    (root : Ptrie) (full front : Bytes) (t : Ptrie) (q : Bytes) (h : Handler) {ev : Event}
    {extra : Bytes}
    → full ≡ front ++ q
    → ((s : Bytes) → event_at t s ≡ event_at root (front ++ s))
    → Remembered root full h
    → query_from t q h ≡ ok (some (ev, extra))
    → Matches root full ev extra
unfolding query_from
query_from-Matches root full front null q h f same m e =
    fall_back-Matches root full h m (ground arith)
query_from-Matches root full front (node none childs) [] h f same m e = cc
query_from-Matches root full front (node (some old) childs) [] h {ev} {extra} f same m e = record {
  front = front;
  splits = ground arith;
  stands = rw (← append-nil front) (sym (same []) ∙ event_at-nil (some old) childs ∙ ground arith);
  reaches = inl (ground arith);
}
query_from-Matches root full front (node at childs) (c ∷ cs) h f same m e =
    elim (Bool-cases (ltb (child_index c) childs_len)) [
      | inl lt ↦
          query_from-Matches root full (front ++ c ∷ []) (childs (child_index c)) cs
            (remember at (c ∷ cs) h) (rw append_assoc f)
            (λ s. rw append_assoc (unfold event_at in same (c ∷ s)))
            (remember-Remembered root full front (c ∷ cs) at h f
              (rw (← append-nil front) (sym (same []) ∙ event_at-nil at childs)) m)
            (rw (lt, query_from) at e)
      | inr ge ↦ ground (arith, ge)
    ]
