-- ===== src/Query/Release/Cleared.antt =====
-- Every event that is registered is cleared once when src/evs_query.c frees its tree.
use mathlib.Core.Path.{subst₂}
use quick_io.Common.{
  ltb→lt, ℕ, ◌+◌, ◌≡◌, refl, ◌<◌, Bool-cases, inl, inr, Bool, true, false, ltb, if◌then◌else◌, List,
  [], ◌∷◌, Option, none, some, Bytes, arith,
}
use quick_io.Query.{
  Event, Ptrie, null, node, Checked, ok, out_of_bounds, ◌>>=◌, childs_len, checked_index,
  child_index, empty_childs, set_child, place, insert_from, insert_stripped, strip_slash,
  evs_query_insert, no_events,
}
use quick_io.Query.Release.{free_child, ptrie_free, keep_added, register}
use quick_io.Query.Release.Counts.{
  cleared_by, count, one, free_child-node, ptrie_free-free_child, kids-set_child, kids-empty,
  null_none,
}

module _ (test : Event → Bool) where
  -- What an insertion adds to the events that are cleared.
  abbrev Adds : Ptrie → Event → Ptrie → Bool → Type 0
  Adds t ev t' added =
      cleared_by test (free_child t') ≡ cleared_by test (free_child t) + one test ev added

  Adds-ok :
      (t : Ptrie) (ev : Event) (u t' : Ptrie) (b added : Bool)
      → Adds t ev u b
      → ◌≡◌ {A = Checked (Ptrie × Bool)} (ok (u, b)) (ok (t', added))
      → Adds t ev t' added
  Adds-ok t ev u t' b added h e =
      let eu : u ≡ t' = cc in
      let eb : b ≡ added = cc in subst₂ (λ (x : Ptrie) (y : Bool). Adds t ev x y) eu eb h

  abbrev put_child :
      Option Event → (ℕ → Ptrie) → ℕ → Checked (Ptrie × Bool) → Checked (Ptrie × Bool)
  put_child at childs ch r = do u ← r; ok (node at (set_child childs ch u.0), u.1)

  abbrev below_child : Option Event → (ℕ → Ptrie) → ℕ → Bytes → Event → Checked (Ptrie × Bool)
  below_child at childs c cs ev = do
    ch ← checked_index c
    put_child at childs ch (insert_from (childs ch) cs ev)

  Adds-child :
      (at : Option Event) (childs : ℕ → Ptrie) (c : ℕ) (cs : Bytes) (ev : Event) (t' : Ptrie)
      (added : Bool)
      → ((ch : ℕ) (u : Ptrie) (b : Bool)
          → insert_from (childs ch) cs ev ≡ ok (u, b)
          → Adds (childs ch) ev u b)
      → below_child at childs c cs ev ≡ ok (t', added)
      → Adds (node at childs) ev t' added
  Adds-child at childs c cs ev t' added below h =
      elim (Bool-cases (ltb (child_index c) childs_len)) [
        | inr outside ↦ absurd (no_result (rw outside at h))
        | inl inside ↦
            inserted (insert_from (childs (child_index c)) cs ev) refl (ltb→lt _ _ inside)
              (rw inside at h)
      ]
    where
      no_result : ◌≡◌ {A = Checked (Ptrie × Bool)} out_of_bounds (ok (t', added)) → ⊥
      no_result e = cc

      inserted :
          (r : Checked (Ptrie × Bool))
          → insert_from (childs (child_index c)) cs ev ≡ r
          → child_index c < childs_len
          → put_child at childs (child_index c) r ≡ ok (t', added)
          → Adds (node at childs) ev t' added
      inserted out_of_bounds e lt h = absurd (no_result h)
      inserted (ok (u, b)) e lt h =
          Adds-ok (node at childs) ev (node at (set_child childs (child_index c) u)) t' b added
            (omega (
              arith,
              below (child_index c) u b e,
              kids-set_child test childs (child_index c) u lt,
              free_child-node test at childs,
              free_child-node test at (set_child childs (child_index c) u),
            ))
            h

  insert_from-cleared :
      (t : Ptrie) (s : Bytes) (ev : Event) (t' : Ptrie) (added : Bool)
      → insert_from t s ev ≡ ok (t', added)
      → Adds t ev t' added
  unfolding insert_from place
  insert_from-cleared null [] ev t' added h =
      Adds-ok null ev (node (some ev) empty_childs) t' true added
        (omega
          (arith, free_child-node test (some ev) empty_childs, kids-empty test, null_none test))
        h
  insert_from-cleared (node none childs) [] ev t' added h =
      Adds-ok (node none childs) ev (node (some ev) childs) t' true added
        (omega (arith, free_child-node test (some ev) childs, free_child-node test none childs)) h
  insert_from-cleared (node (some old) childs) [] ev t' added h =
      Adds-ok (node (some old) childs) ev (node (some old) childs) t' false added (omega arith) h
  insert_from-cleared null (c ∷ cs) ev t' added h = omega (
    arith,
    Adds-child none empty_childs c cs ev t' added (λ ch u b e. insert_from-cleared null cs ev u b e)
        h,
    free_child-node test none empty_childs,
    kids-empty test,
    null_none test,
  )
  insert_from-cleared (node at childs) (c ∷ cs) ev t' added h =
      Adds-child at childs c cs ev t' added
        (λ ch u b e. insert_from-cleared (childs ch) cs ev u b e) h

  insert_stripped-cleared :
      (t : Ptrie) (s : Bytes) (ev : Event) (t' : Ptrie) (added : Bool)
      → insert_stripped t s ev ≡ ok (t', added)
      → Adds t ev t' added
  unfolding insert_stripped
  insert_stripped-cleared t [] ev t' added h = Adds-ok t ev t t' false added (omega arith) h
  insert_stripped-cleared t (c ∷ cs) ev t' added h = insert_from-cleared t (c ∷ cs) ev t' added h

  abbrev rest_of : Event → List Event → Checked (Ptrie × Bool) → Checked (Ptrie × List Event)
  rest_of ev evs r = do u ← r; keep_added ev u.1 (register u.0 evs)

  abbrev Registers : Ptrie → Ptrie → List Event → Type 0
  Registers t t' added =
      cleared_by test (free_child t') ≡ cleared_by test (free_child t) + count test added

  Registers-ok :
      (t u t' : Ptrie) (l added : List Event)
      → Registers t u l
      → ◌≡◌ {A = Checked (Ptrie × List Event)} (ok (u, l)) (ok (t', added))
      → Registers t t' added
  Registers-ok t u t' l added h e =
      let eu : u ≡ t' = cc in
      let el : l ≡ added = cc in subst₂ (λ (x : Ptrie) (y : List Event). Registers t x y) eu el h

  register_step :
      (t : Ptrie) (ev : Event) (evs : List Event) (t' : Ptrie) (added : List Event)
      → ((u v : Ptrie) (l : List Event) → register u evs ≡ ok (v, l) → Registers u v l)
      → rest_of ev evs (evs_query_insert t ev) ≡ ok (t', added)
      → Registers t t' added
  register_step t ev evs t' added rest = inserted (evs_query_insert t ev) refl
    where
      inserted :
          (r : Checked (Ptrie × Bool))
          → evs_query_insert t ev ≡ r
          → rest_of ev evs r ≡ ok (t', added)
          → Registers t t' added
      inserted out_of_bounds e h = cc
      inserted (ok (u, b)) e h = registered (register u evs) refl h
        where
          registered :
              (s : Checked (Ptrie × List Event))
              → register u evs ≡ s
              → keep_added ev b s ≡ ok (t', added)
              → Registers t t' added
          registered out_of_bounds e' h = cc
          registered (ok (v, l)) e' h =
              Registers-ok t v t' (if b then ev ∷ l else l) added
                (by_flag b (
                  insert_stripped-cleared t (strip_slash ev.ev_path) ev u b
                    (unfold evs_query_insert in e)))
                h
            where
              by_flag : (b : Bool) → Adds t ev u b → Registers t v (if b then ev ∷ l else l)
              by_flag true a = omega (arith, rest u v l e')
              by_flag false a = omega (arith, rest u v l e')

  none_yet : cleared_by test (free_child no_events) ≡ 0
  unfolding no_events
  none_yet = omega (arith, free_child-node test none empty_childs, kids-empty test)

  -- From any tree: what is cleared at the end are the events that were in it and those added.
  register-cleared :
      (t : Ptrie) (evs : List Event) (t' : Ptrie) (added : List Event)
      → register t evs ≡ ok (t', added)
      → Registers t t' added
  unfolding register evs_query_insert
  register-cleared t [] t' added h = Registers-ok t t t' [] added (omega arith) h
  register-cleared t (ev ∷ evs) t' added h =
      register_step t ev evs t' added (λ u v l e. register-cleared u evs v l e) h

-- Take any events, registered from the empty tree one after the other, where none has a path that
-- leads out of an array of children. Freeing the tree clears each event that was added as often as
-- it was added, and none that was refused for an empty path or one that was taken: of either kind
-- of event that a test picks, as many are cleared as were added.
pub ptrie_free-register :
    (evs added : List Event) (root : Ptrie) (test : Event → Bool)
    → register no_events evs ≡ ok (root, added)
    → cleared_by test (ptrie_free root) ≡ count test added
ptrie_free-register evs added root test h = omega (
  arith,
  ptrie_free-free_child test root,
  register-cleared test no_events evs root added h,
  none_yet test,
)
