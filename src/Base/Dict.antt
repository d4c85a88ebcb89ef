-- ===== src/Base/Dict.antt =====
-- Python dictionaries: association lists in insertion order. A write to a key that is there keeps
-- its place, a new key goes to the end.
use nimbus_mesh_x.Base.Tests.{if◌then◌else◌, Bool-cases}
use nimbus_mesh_x.Base.Lists.{All}
use nimbus_mesh_x.Base.Equality.{Eq, ◌==◌, beq_refl, eq_of_beq, ne_of_beq}
use mathlib.Core.Path.{◌≡◌, refl, sym}
use mathlib.Core.Logic.{inl, inr, ◌≢◌}
use mathlib.Core.Option.{Option, none, some}
use mathlib.Core.List.{List, [], ◌∷◌, map}
use native.Mathlib.Omega.{arith}

abbrev pub Dict {ℓ κ} : Type ℓ → Type κ → Type (ℓ ⊔ κ)
Dict K V = List (K × V)

module _ {ℓ κ} {K : Type ℓ} {V : Type κ} ⦃e : Eq K⦄ where
  -- `d.get(k)`
  unfoldable pub lookup : K → Dict K V → Option V
  lookup k [] = none
  lookup k ((j, v) ∷ d) = if k == j then some v else lookup k d

  -- `d.get(k, default)`
  unfoldable pub get_or : K → V → Dict K V → V
  unfolding lookup
  get_or k v d = elim (lookup k d) [ some w ↦ w | none ↦ v ]

  -- `d[k] = v`
  unfoldable pub insert : K → V → Dict K V → Dict K V
  insert k v [] = (k, v) ∷ []
  insert k v ((j, w) ∷ d) = if k == j then (j, v) ∷ d else (j, w) ∷ insert k v d

  -- `del d[k]`
  unfoldable pub delete : K → Dict K V → Dict K V
  delete k [] = []
  delete k ((j, w) ∷ d) = if k == j then d else (j, w) ∷ delete k d

module _ {ℓ κ} {K : Type ℓ} {V : Type κ} where
  abbrev pub keys : Dict K V → List K
  keys = map (λ p. p.0)

  abbrev pub values : Dict K V → List V
  values = map (λ p. p.1)

  -- No key stands twice.
  abbrev pub Distinct : Dict K V → Type ℓ
  Distinct [] = Unit
  Distinct (p ∷ d) = All (λ q. q.0 ≢ p.0) d × Distinct d

module _ {ℓ κ} {K : Type ℓ} {V : Type κ} ⦃e : Eq K⦄ where
  pub lookup-insert :
      (j k : K) (v : V) (d : Dict K V)
      → lookup j (insert k v d) ≡ (if j == k then some v else lookup j d)
  unfolding lookup insert
  lookup-insert j k v [] = refl
  lookup-insert j k v ((i, w) ∷ d) =
      ground (arith, e.beq_iff k i, e.beq_iff j i, e.beq_iff j k, lookup-insert j k v d)

  pub get_or-cons :
      (k j : K) (v w : V) (d : Dict K V)
      → get_or k v ((j, w) ∷ d) ≡ (if k == j then w else get_or k v d)
  unfolding get_or
  get_or-cons k j v w d = ground arith

  pub get_or-insert :
      (j k : K) (v w : V) (d : Dict K V)
      → get_or j w (insert k v d) ≡ (if j == k then v else get_or j w d)
  unfolding get_or
  get_or-insert j k v w d = ground (arith, lookup-insert j k v d)

  pub get_or_absent : (k : K) (v : V) (d : Dict K V) → All (λ q. q.0 ≢ k) d → get_or k v d ≡ v
  get_or_absent k v [] h = unfold get_or in refl
  get_or_absent k v ((j, w) ∷ d) h = elim (Bool-cases (k == j)) [
    | inl same ↦ absurd (h.0 (sym (eq_of_beq k j same)))
    | inr other ↦ rw (get_or-cons, other) (get_or_absent k v d h.1)
  ]

  pub get_or-All {μ} :
      (P : K → V → Type μ) (k : K) (v : V) (d : Dict K V)
      → All (λ q. P q.0 q.1) d
      → P k v
      → P k (get_or k v d)
  get_or-All P k v [] h p = unfold get_or in p
  get_or-All P k v ((j, w) ∷ d) h p = elim (Bool-cases (k == j)) [
    | inl same ↦ rw (get_or-cons, same) (rw (eq_of_beq k j same) h.0)
    | inr other ↦ rw (get_or-cons, other) (get_or-All P k v d h.1 p)
  ]

  pub lookup-insert_self : (k : K) (v : V) (d : Dict K V) → lookup k (insert k v d) ≡ some v
  lookup-insert_self k v d = rw (lookup-insert, beq_refl)

  pub lookup-insert_ne :
      (j k : K) (v : V) (d : Dict K V) → j ≢ k → lookup j (insert k v d) ≡ lookup j d
  lookup-insert_ne j k v d h = ground (arith, lookup-insert j k v d, e.beq_iff j k)

  All-insert {μ} :
      (P : K × V → Type μ) (k : K) (v : V) (d : Dict K V)
      → All P d
      → ((j : K) → j ≡ k → P (j, v))
      → All P (insert k v d)
  unfolding insert
  All-insert P k v [] h new = (new k refl, tt)
  All-insert P k v ((j, w) ∷ d) h new = elim (Bool-cases (k == j)) [
    | inl same ↦ rw same (new j (sym (eq_of_beq k j same)), h.1)
    | inr other ↦ rw other (h.0, All-insert P k v d h.1 new)
  ]

  pub insert-Distinct : (k : K) (v : V) (d : Dict K V) → Distinct d → Distinct (insert k v d)
  unfolding insert
  insert-Distinct k v [] h = (tt, tt)
  insert-Distinct k v ((j, w) ∷ d) h = elim (Bool-cases (k == j)) [
    | inl same ↦ rw same h
    | inr other ↦ rw other (
      All-insert (λ q. q.0 ≢ j) k v d h.0 (λ i here back. ne_of_beq k j other (cc)),
      insert-Distinct k v d h.1,
    )
  ]

  -- A property of the bindings survives a write of a value that has it.
  pub insert-All {μ} :
      (P : K → V → Type μ) (k : K) (v : V) (d : Dict K V)
      → All (λ q. P q.0 q.1) d
      → P k v
      → All (λ q. P q.0 q.1) (insert k v d)
  insert-All P k v d h p = All-insert (λ q. P q.0 q.1) k v d h (λ j same. rw same p)

  pub lookup-All {μ} :
      (P : K → V → Type μ) (k : K) (d : Dict K V) {v : V}
      → All (λ q. P q.0 q.1) d
      → lookup k d ≡ some v
      → P k v
  unfolding lookup
  lookup-All P k [] h found = absurd (cc)
  lookup-All P k ((j, w) ∷ d) {v} h found = elim (Bool-cases (k == j)) [
    | inl same ↦
        let hit : some w ≡ some v = rw same at found in
        rw (eq_of_beq k j same, ← mathlib.Core.Option.some-injective _ _ hit) h.0
    | inr other ↦ lookup-All P k d h.1 (rw other at found)
  ]

  pub delete-All {μ} : (P : K × V → Type μ) (k : K) (d : Dict K V) → All P d → All P (delete k d)
  unfolding delete
  delete-All P k [] h = tt
  delete-All P k ((j, w) ∷ d) h = elim (Bool-cases (k == j)) [
    | inl same ↦ rw same h.1
    | inr other ↦ rw other (h.0, delete-All P k d h.1)
  ]

  pub delete-Distinct : (k : K) (d : Dict K V) → Distinct d → Distinct (delete k d)
  unfolding delete
  delete-Distinct k [] h = tt
  delete-Distinct k ((j, w) ∷ d) h = elim (Bool-cases (k == j)) [
    | inl same ↦ rw same h.1
    | inr other ↦ rw other (delete-All (λ q. q.0 ≢ j) k d h.0, delete-Distinct k d h.1)
  ]

  lookup-skip :
      (k : K) (v : V) (d xs : Dict K V)
      → All (λ q. q.0 ≢ k) xs
      → All (λ q. lookup q.0 d ≡ some q.1) xs
      → All (λ q. lookup q.0 ((k, v) ∷ d) ≡ some q.1) xs
  unfolding lookup
  lookup-skip k v d [] other h = tt
  lookup-skip k v d ((j, w) ∷ xs) other h = (
    elim (Bool-cases (j == k)) [
      | inl same ↦ absurd (other.0 (eq_of_beq j k same))
      | inr differs ↦ rw differs h.0
    ],
    lookup-skip k v d xs other.1 h.1,
  )

  -- Where no key stands twice, each binding is the one that its key finds.
  pub lookup_of_Distinct : (d : Dict K V) → Distinct d → All (λ q. lookup q.0 d ≡ some q.1) d
  unfolding lookup
  lookup_of_Distinct [] h = tt
  lookup_of_Distinct ((k, v) ∷ d) h =
      (rw beq_refl refl, lookup-skip k v d d h.0 (lookup_of_Distinct d h.1))
