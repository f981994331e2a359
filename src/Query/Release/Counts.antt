-- ===== src/Query/Release/Counts.antt =====
-- How many events src/evs_query.c clears when it frees a node and its children.
use quick_io.Common.{
  ℕ, zero, suc, ◌+◌, ◌≡◌, refl, ap, ◌<◌, ◌≤◌, Bool-cases, inl, inr, Bool, false, ◌==◌,
  if◌then◌else◌, List, [], ◌∷◌, ◌++◌, Option, arith,
}
use quick_io.Query.{Event, Ptrie, null, node, childs_len, empty_childs, set_child}
use quick_io.Query.Release.{Freed, cleared, slice, free_childs, clear_event, free_child, ptrie_free}

-- How many events that `test` accepts are cleared.
abbrev pub cleared_by : (Event → Bool) → List Freed → ℕ
cleared_by test [] = 0
cleared_by test (cleared ev ∷ xs) = (if test ev then 1 else 0) + cleared_by test xs
cleared_by test (slice ∷ xs) = cleared_by test xs

abbrev pub count : (Event → Bool) → List Event → ℕ
count test [] = 0
count test (ev ∷ evs) = (if test ev then 1 else 0) + count test evs

abbrev pub one : (Event → Bool) → Event → Bool → ℕ
one test ev added = if added then (if test ev then 1 else 0) else 0

module _ (test : Event → Bool) where
  cleared_by-append :
      (xs ys : List Freed) → cleared_by test (xs ++ ys) ≡ cleared_by test xs + cleared_by test ys
  cleared_by-append [] ys = omega arith
  cleared_by-append (cleared ev ∷ xs) ys = omega (arith, cleared_by-append xs ys)
  cleared_by-append (slice ∷ xs) ys = cleared_by-append xs ys

  childs_none : (n i : ℕ) → cleared_by test (free_childs n i (λ j. [])) ≡ 0
  unfolding free_childs
  childs_none zero i = refl
  childs_none (suc n) i = childs_none n (i + 1)

  -- Two arrays that differ at one index at most.
  module _ (f f' : ℕ → List Freed) (ch : ℕ) (same : (j : ℕ) → (j == ch) ≡ false → f' j ≡ f j) where
    childs_above :
        (n i : ℕ)
        → ch < i
        → cleared_by test (free_childs n i f') ≡ cleared_by test (free_childs n i f)
    unfolding free_childs
    childs_above zero i h = refl
    childs_above (suc n) i h =
        let e : (i == ch) ≡ false = ground arith in
        omega (
          arith,
          cleared_by-append (f' i) (free_childs n (i + 1) f'),
          cleared_by-append (f i) (free_childs n (i + 1) f),
          ap (cleared_by test) (same i e),
          childs_above n (i + 1) (omega arith),
        )

    childs_set :
        (n i : ℕ)
        → i ≤ ch
        → ch < i + n
        → cleared_by test (free_childs n i f') + cleared_by test (f ch)
          ≡ cleared_by test (free_childs n i f) + cleared_by test (f' ch)
    unfolding free_childs
    childs_set zero i h h' = absurd (omega arith)
    childs_set (suc n) i h h' = elim (Bool-cases (i == ch)) [
      | inl here ↦
          let e : i ≡ ch = ground arith in
          omega (
            arith,
            cleared_by-append (f' i) (free_childs n (i + 1) f'),
            cleared_by-append (f i) (free_childs n (i + 1) f),
            ap (λ (j : ℕ). cleared_by test (f j)) e,
            ap (λ (j : ℕ). cleared_by test (f' j)) e,
            childs_above n (i + 1) (omega arith),
          )
      | inr other ↦ omega (
        arith,
        cleared_by-append (f' i) (free_childs n (i + 1) f'),
        cleared_by-append (f i) (free_childs n (i + 1) f),
        ap (cleared_by test) (same i other),
        childs_set n (i + 1) (ground arith) (omega arith),
      )
    ]

  abbrev pub kids : (ℕ → Ptrie) → ℕ
  kids childs = cleared_by test (free_childs childs_len 0 (λ i. free_child (childs i)))

  pub free_child-node :
      (at : Option Event) (childs : ℕ → Ptrie)
      → cleared_by test (free_child (node at childs))
        ≡ kids childs + cleared_by test (clear_event at)
  unfolding free_child
  free_child-node at childs = omega (
    arith,
    cleared_by-append (free_childs childs_len 0 (λ i. free_child (childs i)))
        (clear_event at ++ slice ∷ []),
    cleared_by-append (clear_event at) (slice ∷ []),
  )

  pub ptrie_free-free_child :
      (t : Ptrie) → cleared_by test (ptrie_free t) ≡ cleared_by test (free_child t)
  unfolding ptrie_free
  ptrie_free-free_child null = unfold free_child in refl
  ptrie_free-free_child (node at childs) = omega (
    arith,
    free_child-node at childs,
    cleared_by-append (free_childs childs_len 0 (λ i. free_child (childs i))) (clear_event at),
  )

  pub kids-set_child :
      (childs : ℕ → Ptrie) (ch : ℕ) (child : Ptrie)
      → ch < childs_len
      → kids (set_child childs ch child) + cleared_by test (free_child (childs ch))
        ≡ kids childs + cleared_by test (free_child child)
  kids-set_child childs ch child h =
      let here : set_child childs ch child ch ≡ child = ground arith in
      omega (
        arith,
        childs_set (λ i. free_child (childs i)) (λ i. free_child (set_child childs ch child i)) ch
            (λ j e. ap free_child (ground arith)) childs_len 0 (omega arith) (omega arith),
        ap (λ (t : Ptrie). cleared_by test (free_child t)) here,
      )

  pub kids-empty : kids empty_childs ≡ 0
  unfolding free_child
  kids-empty = childs_none childs_len 0

  pub null_none : cleared_by test (free_child null) ≡ 0
  unfolding free_child
  null_none = refl
