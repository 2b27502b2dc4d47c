-- ===== src/Outcomes/Gives.antt =====
-- What a chain that cannot fail gives: no index or slice of it is out of range, and no loop out of rounds.
use custom_built_network_ana.Base.{
  ℕ, ◌-◌, ◌≤◌, ◌<◌, Bool, true, false, List, ◌≡◌, refl, arith, if◌then◌else◌, length, drop, lt→ltb,
  le→leb, length-take, length-drop,
}
use custom_built_network_ana.Error.{Outcome, ok, ◌>>=◌}
use custom_built_network_ana.Bytes.{index, slice}
use custom_built_network_ana.Bytes.Ensures.{AreBytes, take-AreBytes, drop-AreBytes}

pub data Gives {ℓ} {A : Type ℓ} (Q : A → Type 0) : Outcome A → Type ℓ where
  gives : {a : A} → Q a → Gives Q (ok a)

-- The rule of a chain.
pub then-Gives {ℓ κ} :
    {A : Type ℓ} {B : Type κ} (P : A → Type 0) {Q : B → Type 0} (o : Outcome A) (f : A → Outcome B)
    → Gives P o
    → ((a : A) → P a → Gives Q (f a))
    → Gives Q (o >>= f)
unfolding ◌>>=◌
then-Gives P _ f (gives {a} p) k = k a p

pub weaken-Gives {ℓ} :
    {A : Type ℓ} {P Q : A → Type 0} {o : Outcome A} → Gives P o → ((a : A) → P a → Q a) → Gives Q o
weaken-Gives (gives {a} p) k = gives (k a p)

pub index-Gives : (xs : List ℕ) (i : ℕ) → i < length xs → Gives (λ _. Unit {0}) (index xs i)
unfolding index
index-Gives xs i h = rw (lt→ltb i (length xs) h) (gives tt)

pub slice-Gives :
    (xs : List ℕ) (a b : ℕ)
    → a ≤ b
    → b ≤ length xs
    → Gives (λ c. (length c ≡ b - a) × (AreBytes xs → AreBytes c)) (slice xs a b)
unfolding slice
slice-Gives xs a b h k =
    rw (le→leb a b h, le→leb b (length xs) k)
      (gives (
        omega (arith, length-take (b - a) (drop a xs), length-drop a xs, k),
        λ m. take-AreBytes (b - a) (drop a xs) (drop-AreBytes a xs m),
      ))

-- The rule of a test.
pub if_Gives {ℓ} :
    {A : Type ℓ} {Q : A → Type 0} (t : Bool) (a b : Outcome A)
    → (t ≡ true → Gives Q a)
    → (t ≡ false → Gives Q b)
    → Gives Q (if t then a else b)
if_Gives true a b h k = h refl
if_Gives false a b h k = k refl
