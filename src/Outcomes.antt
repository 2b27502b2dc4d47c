-- ===== src/Outcomes.antt =====
-- What a chain of results yields: no index or slice of it is out of range.
pub mod Gives
use custom_built_network_ana.Base.{
  ℕ, ◌-◌, ◌≤◌, ◌<◌, Bool, true, false, List, ◌≡◌, refl, if◌then◌else◌, length, get_or, take, drop,
  lt→ltb, le→leb,
}
use custom_built_network_ana.Error.{Outcome, ok, ◌>>=◌}
use custom_built_network_ana.Bytes.{index, slice}
use custom_built_network_ana.Bytes.Ensures.{Yields, yields, fails}

-- The rule of a chain.
pub then-Yields {ℓ κ} :
    {A : Type ℓ} {B : Type κ} (P : A → Type 0) {Q : B → Type 0} (o : Outcome A) (f : A → Outcome B)
    → Yields P o
    → ((a : A) → P a → Yields Q (f a))
    → Yields Q (o >>= f)
unfolding ◌>>=◌
then-Yields P _ f (yields {a} p) k = k a p
then-Yields P _ f fails k = fails

pub weaken-Yields {ℓ} :
    {A : Type ℓ} {P Q : A → Type 0} (o : Outcome A)
    → Yields P o
    → ((a : A) → P a → Q a)
    → Yields Q o
weaken-Yields _ (yields {a} p) k = yields (k a p)
weaken-Yields _ fails k = fails

pub index-Yields :
    (xs : List ℕ) (i : ℕ) → i < length xs → Yields (λ b. b ≡ get_or xs i 0) (index xs i)
unfolding index
index-Yields xs i h = rw (lt→ltb i (length xs) h) (yields refl)

pub slice-Yields :
    (xs : List ℕ) (a b : ℕ)
    → a ≤ b
    → b ≤ length xs
    → Yields (λ c. c ≡ take (b - a) (drop a xs)) (slice xs a b)
unfolding slice
slice-Yields xs a b h k = rw (le→leb a b h, le→leb b (length xs) k) (yields refl)

-- The rule of a test.
pub if_Yields {ℓ} :
    {A : Type ℓ} {Q : A → Type 0} (t : Bool) (a b : Outcome A)
    → (t ≡ true → Yields Q a)
    → (t ≡ false → Yields Q b)
    → Yields Q (if t then a else b)
if_Yields true a b h k = h refl
if_Yields false a b h k = k refl

-- A chain whose first step is known.
pub then_is {ℓ κ} :
    {A : Type ℓ} {B : Type κ} (o : Outcome A) (f : A → Outcome B) {a : A}
    → o ≡ ok a
    → (o >>= f) ≡ f a
unfolding ◌>>=◌
then_is o f e = rw (e, ◌>>=◌) refl
