-- ===== src/Go/Table.antt =====
-- A Go map with string keys, as an association list.
use cursor_cli_byok.Base.{
  suc, ◌≤◌, ◌≡◌, ◌≢◌, refl, ap, subst, Option, none, some, List, [], ◌∷◌, Bytes, arith, length, All,
  if◌then◌else◌, inl, inr, Bool-cases,
}
use cursor_cli_byok.Go.Strings.{same, same_iff, same_self}

abbrev pub Table {ℓ} : Type ℓ → Type ℓ
Table V = List (Bytes × V)

module _ {ℓ} {V : Type ℓ} where
  -- m[k]
  unfoldable pub lookup : Bytes → Table V → Option V
  lookup k [] = none
  lookup k ((j, v) ∷ m) = if same j k then some v else lookup k m

  -- m[k] = v
  unfoldable pub put : Bytes → V → Table V → Table V
  put k v [] = (k, v) ∷ []
  put k v ((j, u) ∷ m) = if same j k then (k, v) ∷ m else (j, u) ∷ put k v m

  -- delete(m, k)
  unfoldable pub remove : Bytes → Table V → Table V
  remove k [] = []
  remove k ((j, v) ∷ m) = let rest = remove k m in if same j k then rest else (j, v) ∷ rest

  pub lookup-put :
      (k j : Bytes) (v : V) (m : Table V)
      → lookup j (put k v m) ≡ (if same k j then some v else lookup j m)
  unfolding lookup put
  lookup-put k j v [] = refl
  lookup-put k j v ((i, u) ∷ m) =
      ground (arith, same_iff k j, same_iff i k, same_iff i j, lookup-put k j v m)

  pub lookup-put_self : (k : Bytes) (v : V) (m : Table V) → lookup k (put k v m) ≡ some v
  lookup-put_self k v m = simp (lookup-put, same_self)

  pub lookup-remove :
      (k j : Bytes) (m : Table V) → lookup j (remove k m) ≡ (if same k j then none else lookup j m)
  unfolding lookup remove
  lookup-remove k j [] = ground arith
  lookup-remove k j ((i, u) ∷ m) =
      ground (arith, same_iff k j, same_iff i k, same_iff i j, lookup-remove k j m)

  pub length-remove_le : (k : Bytes) (m : Table V) → length (remove k m) ≤ length m
  unfolding remove
  length-remove_le k [] = omega arith
  length-remove_le k ((i, u) ∷ m) = ground (arith, length-remove_le k m)

  pub length-remove :
      (k : Bytes) (m : Table V) {v : V} → lookup k m ≡ some v → suc (length (remove k m)) ≤ length m
  unfolding lookup remove
  length-remove k [] h = cc
  length-remove k ((i, u) ∷ m) h = elim (Bool-cases (same i k)) [
    | inl e ↦ rw e (omega (arith, length-remove_le k m))
    | inr n ↦ rw n (omega (arith, length-remove k m (rw n at h)))
  ]

  pub remove-cons :
      (k j : Bytes) (v : V) (m : Table V)
      → remove k ((j, v) ∷ m) ≡ (if same j k then remove k m else (j, v) ∷ remove k m)
  unfolding remove
  remove-cons k j v m = refl

  pub put-cons :
      (k j : Bytes) (v u : V) (m : Table V)
      → put k v ((j, u) ∷ m) ≡ (if same j k then (k, v) ∷ m else (j, u) ∷ put k v m)
  unfolding put
  put-cons k j v u m = refl

  pub length-put :
      (k : Bytes) (v : V) (m : Table V) {u : V}
      → lookup k m ≡ some u
      → length (put k v m) ≡ length m
  unfolding lookup put
  length-put k v [] h = absurd (cc h)
  length-put k v ((j, w) ∷ m) h = elim (Bool-cases (same j k)) [
    | inl e ↦ rw e
    | inr n ↦ rw n (ap suc (length-put k v m (rw n at h)))
  ]

  -- No key stands twice, and none is empty.
  abbrev pub IsTable : Table V → Type ℓ
  IsTable [] = Unit
  IsTable ((k, v) ∷ m) = (k ≢ []) × (lookup k m ≡ none) × IsTable m

  pub IsTable-remove : (k : Bytes) (m : Table V) → IsTable m → IsTable (remove k m)
  IsTable-remove k [] h = unfold remove in tt
  IsTable-remove k ((j, v) ∷ m) h = elim (Bool-cases (same j k)) [
    | inl e ↦ rw remove-cons (rw e (IsTable-remove k m h.2))
    | inr n ↦
        rw remove-cons
          (rw n (h.0, rw (lookup-remove k j m) (ground (arith, h.1)), IsTable-remove k m h.2))
  ]

  length-remove_absent :
      (k : Bytes) (m : Table V) → lookup k m ≡ none → length (remove k m) ≡ length m
  unfolding lookup remove
  length-remove_absent k [] h = refl
  length-remove_absent k ((j, v) ∷ m) h = ground (arith, length-remove_absent k m)

  -- In a table no more than one entry is removed.
  pub length-remove_one :
      (k : Bytes) (m : Table V) → IsTable m → length m ≤ suc (length (remove k m))
  unfolding remove
  length-remove_one k [] t = omega arith
  length-remove_one k ((j, v) ∷ m) t = elim (Bool-cases (same j k)) [
    | inl e ↦
        let free : lookup k m ≡ none = subst (λ i. lookup i m ≡ none) ((same_iff j k).0 e) t.1 in
        rw e (omega (arith, length-remove_absent k m free))
    | inr n ↦ rw n (omega (arith, length-remove_one k m t.2))
  ]

  pub length-put_le : (k : Bytes) (v : V) (m : Table V) → length (put k v m) ≤ suc (length m)
  unfolding put
  length-put_le k v [] = omega arith
  length-put_le k v ((j, u) ∷ m) = ground (arith, length-put_le k v m)

  pub All-put {κ} :
      (P : Bytes × V → Type κ) (k : Bytes) (v : V) (m : Table V)
      → P (k, v)
      → All P m
      → All P (put k v m)
  All-put P k v [] p h = unfold put in (p, tt)
  All-put P k v ((j, u) ∷ m) p h = rw put-cons (elim (Bool-cases (same j k)) [
    | inl e ↦ rw e (p, h.1)
    | inr n ↦ rw n (h.0, All-put P k v m p h.1)
  ])
