-- ===== src/Client/Subs/Table.antt =====
-- A hash table whose keys are addresses, as an association list (GHashTable with no hash function
-- of its own, as src/client.c makes it).
use quick_io.Common.{
  ℕ, ◌+◌, ◌≡◌, ◌≢◌, refl, sym, ap, ◌∙◌, Bool-cases, inl, inr, ◌==◌, if◌then◌else◌, List, [], ◌∷◌,
  Option, none, some, length, arith,
}

module _ {ℓ} {V : Type ℓ} where
  unfoldable pub lookup : ℕ → List (ℕ × V) → Option V
  lookup k [] = none
  lookup k ((j, v) ∷ t) = if j == k then some v else lookup k t

  -- `g_hash_table_insert`, and a write through a pointer to the value.
  unfoldable pub put : ℕ → V → List (ℕ × V) → List (ℕ × V)
  put k v [] = (k, v) ∷ []
  put k v ((j, w) ∷ t) = if j == k then (k, v) ∷ t else (j, w) ∷ put k v t

  -- `g_hash_table_remove`
  unfoldable pub erase : ℕ → List (ℕ × V) → List (ℕ × V)
  erase k [] = []
  erase k ((j, w) ∷ t) = let rest = erase k t in if j == k then rest else (j, w) ∷ rest

  pub lookup-put :
      (k j : ℕ) (v : V) (t : List (ℕ × V))
      → lookup j (put k v t) ≡ (if k == j then some v else lookup j t)
  unfolding lookup put
  lookup-put k j v [] = refl
  lookup-put k j v ((i, w) ∷ t) = ground (arith, lookup-put k j v t)

  pub lookup-erase :
      (k j : ℕ) (t : List (ℕ × V)) → lookup j (erase k t) ≡ (if k == j then none else lookup j t)
  unfolding lookup erase
  lookup-erase k j [] = ground arith
  lookup-erase k j ((i, w) ∷ t) = ground (arith, lookup-erase k j t)

  -- No key stands twice.
  abbrev pub Distinct : List (ℕ × V) → Type ℓ
  Distinct [] = Unit
  Distinct ((k, v) ∷ t) = (lookup k t ≡ none) × Distinct t

  pub put-Distinct : (k : ℕ) (v : V) (t : List (ℕ × V)) → Distinct t → Distinct (put k v t)
  unfolding put lookup
  put-Distinct k v [] d = (refl, tt)
  put-Distinct k v ((j, w) ∷ t) d = ground (arith, put-Distinct k v t d.1, lookup-put k j v t)

  pub erase-Distinct : (k : ℕ) (t : List (ℕ × V)) → Distinct t → Distinct (erase k t)
  unfolding erase
  erase-Distinct k [] d = tt
  erase-Distinct k ((j, w) ∷ t) d = ground (arith, erase-Distinct k t d.1, lookup-erase k j t)

  abbrev pub one_if_some : Option V → ℕ
  one_if_some none = 0
  one_if_some (some v) = 1

  pub length-put :
      (k : ℕ) (v : V) (t : List (ℕ × V))
      → length (put k v t) + one_if_some (lookup k t) ≡ length t + 1
  unfolding put lookup
  length-put k v [] = omega arith
  length-put k v ((j, w) ∷ t) = ground (arith, length-put k v t)

  erase_absent : (k : ℕ) (t : List (ℕ × V)) → lookup k t ≡ none → erase k t ≡ t
  unfolding erase lookup
  erase_absent k [] h = refl
  erase_absent k ((j, w) ∷ t) h = ground (arith, erase_absent k t)

  pub length-erase :
      (k : ℕ) (t : List (ℕ × V))
      → Distinct t
      → length (erase k t) + one_if_some (lookup k t) ≡ length t
  unfolding erase lookup
  length-erase k [] d = omega arith
  length-erase k ((j, w) ∷ t) d = ground (arith, length-erase k t d.1, erase_absent k t)

  -- Tables that say the same of every key are of one length.
  length-same :
      (s t : List (ℕ × V))
      → Distinct s
      → Distinct t
      → ((k : ℕ) → lookup k s ≡ lookup k t)
      → length s ≡ length t
  unfolding lookup
  length-same [] [] ds dt same = refl
  length-same [] ((j, w) ∷ t) ds dt same = absurd (let e = same j in ground (arith, e))
  length-same ((k, v) ∷ s) t ds dt same =
      let rest =
        length-same s (erase k t) ds.1 (erase-Distinct k t dt)
          (λ q. ground (arith, lookup-erase k q t, same q, ds.0)) in
      let there : lookup k t ≡ some v = sym (same k) ∙ ground arith in
      omega (arith, rest, length-erase k t dt, ap one_if_some there)

  -- Tables that differ in one key at most.
  pub length-others :
      (s t : List (ℕ × V)) (p : ℕ)
      → Distinct s
      → Distinct t
      → ((k : ℕ) → p ≢ k → lookup k s ≡ lookup k t)
      → length s + one_if_some (lookup p t) ≡ length t + one_if_some (lookup p s)
  length-others s t p ds dt same = omega (
    arith,
    length-erase p s ds,
    length-erase p t dt,
    length-same (erase p s) (erase p t) (erase-Distinct p s ds) (erase-Distinct p t dt) (λ k.
        lookup-erase p k s
        ∙ (elim (Bool-cases (p == k)) [
          | inl at ↦ rw at refl
          | inr other ↦ rw other (same k (λ e. ground (arith, e)))
        ]
            ∙ sym (lookup-erase p k t))),
  )
