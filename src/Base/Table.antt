-- ===== src/Base/Table.antt =====
-- A hash map as an association list. Its order is not the program's: nothing here iterates over one.
use Prim.Native.Nat.{◌+◌}
use mathlib.Core.Path.{◌≡◌, subst}
use mathlib.Core.Logic.{◌↔◌, inl, inr}
use mathlib.Core.Bool.{Bool, true}
use mathlib.Core.Option.{Option, none, some}
use mathlib.Core.List.{List, [], ◌∷◌}
use native.Mathlib.Omega.{arith}
use custom_built_network_ana.Base.Tests.{if◌then◌else◌, Bool-cases}
use custom_built_network_ana.Base.Lists.{length}

pub record Eq {ℓ} (A : Type ℓ) : Type ℓ where
  pub beq : A → A → Bool
  pub beq_iff : (a b : A) → (beq a b ≡ true) ↔ (a ≡ b)

module _ {ℓ κ} {K : Type ℓ} {V : Type κ} ⦃e : Eq K⦄ where
  unfoldable pub lookup : K → List (K × V) → Option V
  lookup k [] = none
  lookup k ((j, v) ∷ m) = if e.beq j k then some v else lookup k m

  unfoldable pub insert : K → V → List (K × V) → List (K × V)
  insert k v [] = (k, v) ∷ []
  insert k v ((j, w) ∷ m) = if e.beq j k then (j, v) ∷ m else (j, w) ∷ insert k v m

  pub lookup-insert_self : (k : K) (v : V) (m : List (K × V)) → lookup k (insert k v m) ≡ some v
  unfolding lookup insert
  lookup-insert_self k v [] = ground (arith, e.beq_iff k k)
  lookup-insert_self k v ((j, w) ∷ m) = ground (arith, lookup-insert_self k v m)

  pub lookup-insert_ne :
      (k i : K) (v : V) (m : List (K × V)) → ¬ (k ≡ i) → lookup i (insert k v m) ≡ lookup i m
  unfolding lookup insert
  lookup-insert_ne k i v [] h = ground (arith, e.beq_iff k i)
  lookup-insert_ne k i v ((j, w) ∷ m) h =
      ground (arith, e.beq_iff j k, e.beq_iff j i, lookup-insert_ne k i v m h)

  -- A new key adds an entry; a known one does not.
  pub length-insert_new :
      (k : K) (v : V) (m : List (K × V)) → lookup k m ≡ none → length (insert k v m) ≡ length m + 1
  unfolding lookup insert
  length-insert_new k v [] h = omega arith
  length-insert_new k v ((j, w) ∷ m) h = ground (arith, length-insert_new k v m)

  pub length-insert_old :
      (k : K) (v w : V) (m : List (K × V)) → lookup k m ≡ some w → length (insert k v m) ≡ length m
  unfolding lookup insert
  length-insert_old k v w [] h = cc
  length-insert_old k v w ((j, x) ∷ m) h = ground (arith, length-insert_old k v w m)

  -- Every value has the property.
  abbrev pub AllValues {μ} : (V → Type μ) → List (K × V) → Type μ
  AllValues P [] = Unit {μ}
  AllValues P ((k, v) ∷ m) = P v × AllValues P m

  pub AllValues-insert {μ} :
      (P : V → Type μ) (k : K) (v : V) (m : List (K × V))
      → AllValues P m
      → P v
      → AllValues P (insert k v m)
  unfolding insert
  AllValues-insert P k v [] h p = (p, tt)
  AllValues-insert P k v ((j, w) ∷ m) (q, h) p = elim (Bool-cases (e.beq j k)) [
    | inl same ↦ rw same (p, h)
    | inr other ↦ rw other (q, AllValues-insert P k v m h p)
  ]

  pub AllValues-lookup {μ} :
      (P : V → Type μ) (k : K) (m : List (K × V)) (v : V)
      → AllValues P m
      → lookup k m ≡ some v
      → P v
  unfolding lookup
  AllValues-lookup P k [] v h l = absurd (cc)
  AllValues-lookup P k ((j, w) ∷ m) v (q, h) l = elim (Bool-cases (e.beq j k)) [
    | inl same ↦ subst P (cc (rw same at l)) q
    | inr other ↦ AllValues-lookup P k m v h (rw other at l)
  ]
