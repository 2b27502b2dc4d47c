-- ===== src/Base/Lists.antt =====
-- Lists measured and indexed by native numbers, under the library's names.
use Prim.Native.Nat.{ℕ, zero, suc, ◌+◌, ◌-◌, ◌≤◌, min}
use mathlib.Core.Path.{◌≡◌, refl, ap}
use mathlib.Core.List.{List, [], ◌∷◌, ◌++◌}
use native.Mathlib.Omega.{arith}

module _ {ℓ} {A : Type ℓ} where
  abbrev pub length : List A → ℕ
  length [] = 0
  length (x ∷ xs) = suc (length xs)

  abbrev pub get_or : List A → ℕ → A → A
  get_or [] i d = d
  get_or (x ∷ xs) zero d = x
  get_or (x ∷ xs) (suc i) d = get_or xs i d

  abbrev pub set : List A → ℕ → A → List A
  set [] i v = []
  set (x ∷ xs) zero v = v ∷ xs
  set (x ∷ xs) (suc i) v = x ∷ set xs i v

  abbrev pub take : ℕ → List A → List A
  take zero xs = []
  take (suc n) [] = []
  take (suc n) (x ∷ xs) = x ∷ take n xs

  abbrev pub drop : ℕ → List A → List A
  drop zero xs = xs
  drop (suc n) [] = []
  drop (suc n) (x ∷ xs) = drop n xs

  abbrev pub replicate : ℕ → A → List A
  replicate zero a = []
  replicate (suc n) a = a ∷ replicate n a

  pub length-append : (xs ys : List A) → length (xs ++ ys) ≡ length xs + length ys
  length-append [] ys = omega arith
  length-append (x ∷ xs) ys = omega (arith, length-append xs ys)

  pub length-take : (n : ℕ) (xs : List A) → length (take n xs) ≡ min n (length xs)
  length-take zero xs = omega arith
  length-take (suc n) [] = omega arith
  length-take (suc n) (x ∷ xs) = omega (arith, length-take n xs)

  pub length-drop : (n : ℕ) (xs : List A) → length (drop n xs) ≡ length xs - n
  length-drop zero xs = omega arith
  length-drop (suc n) [] = omega arith
  length-drop (suc n) (x ∷ xs) = omega (arith, length-drop n xs)

  pub length-replicate : (n : ℕ) (a : A) → length (replicate n a) ≡ n
  length-replicate zero a = refl
  length-replicate (suc n) a = ap suc (length-replicate n a)

  pub length-set : (xs : List A) (i : ℕ) (v : A) → length (set xs i v) ≡ length xs
  length-set [] i v = refl
  length-set (x ∷ xs) zero v = refl
  length-set (x ∷ xs) (suc i) v = ap suc (length-set xs i v)

  pub take-append-drop : (n : ℕ) (xs : List A) → take n xs ++ drop n xs ≡ xs
  take-append-drop zero xs = refl
  take-append-drop (suc n) [] = refl
  take-append-drop (suc n) (x ∷ xs) = ap (◌∷◌ x) (take-append-drop n xs)

  pub drop-nil : (n : ℕ) → drop n [] ≡ []
  drop-nil zero = refl
  drop-nil (suc n) = refl

  pub drop-drop : (m n k : ℕ) (xs : List A) → k ≡ n + m → drop m (drop n xs) ≡ drop k xs
  drop-drop m zero k xs e = ap (λ j. drop j xs) (omega arith)
  drop-drop m (suc n) zero xs e = absurd (omega arith)
  drop-drop m (suc n) (suc k) [] e = drop-nil m
  drop-drop m (suc n) (suc k) (x ∷ xs) e = drop-drop m n k xs (omega arith)

  pub drop-length-le : (n : ℕ) (xs : List A) → length xs ≤ n → drop n xs ≡ []
  drop-length-le zero [] h = refl
  drop-length-le zero (x ∷ xs) h = absurd (omega arith)
  drop-length-le (suc n) [] h = refl
  drop-length-le (suc n) (x ∷ xs) h = drop-length-le n xs (omega arith)

  pub take-length-le : (n : ℕ) (xs : List A) → length xs ≤ n → take n xs ≡ xs
  take-length-le zero [] h = refl
  take-length-le zero (x ∷ xs) h = absurd (omega arith)
  take-length-le (suc n) [] h = refl
  take-length-le (suc n) (x ∷ xs) h = ap (◌∷◌ x) (take-length-le n xs (omega arith))

  -- What is left of a prefix after its first bytes.
  pub drop-take : (m n k : ℕ) (xs : List A) → k ≡ m + n → drop m (take k xs) ≡ take n (drop m xs)
  drop-take zero n k xs e = ap (λ j. take j xs) (omega arith)
  drop-take (suc m) n zero xs e = absurd (omega arith)
  drop-take (suc m) zero (suc k) [] e = refl
  drop-take (suc m) (suc n) (suc k) [] e = refl
  drop-take (suc m) n (suc k) (x ∷ xs) e = drop-take m n k xs (omega arith)

  -- A part of a prefix is a part of the whole.
  pub take-drop-take :
      (k o n : ℕ) (xs : List A) → o + k ≤ n → take k (drop o (take n xs)) ≡ take k (drop o xs)
  take-drop-take zero o n xs h = refl
  take-drop-take (suc k) o zero xs h = absurd (omega arith)
  take-drop-take (suc k) o (suc n) [] h = refl
  take-drop-take (suc k) zero (suc n) (x ∷ xs) h =
      ap (◌∷◌ x) (take-drop-take k zero n xs (omega arith))
  take-drop-take (suc k) (suc o) (suc n) (x ∷ xs) h = take-drop-take (suc k) o n xs (omega arith)

  pub get_or-drop : (n : ℕ) (xs : List A) (d : A) → get_or (drop n xs) 0 d ≡ get_or xs n d
  get_or-drop zero [] d = refl
  get_or-drop zero (x ∷ xs) d = refl
  get_or-drop (suc n) [] d = refl
  get_or-drop (suc n) (x ∷ xs) d = get_or-drop n xs d

  pub take-min : (n k : ℕ) (xs : List A) → k ≡ min n (length xs) → take k xs ≡ take n xs
  take-min zero zero xs e = refl
  take-min zero (suc k) xs e = absurd (omega arith)
  take-min (suc n) zero [] e = refl
  take-min (suc n) zero (x ∷ xs) e = absurd (omega arith)
  take-min (suc n) (suc k) [] e = refl
  take-min (suc n) (suc k) (x ∷ xs) e = ap (◌∷◌ x) (take-min n k xs (omega arith))

  pub append_assoc : (xs ys zs : List A) → (xs ++ ys) ++ zs ≡ xs ++ (ys ++ zs)
  append_assoc [] ys zs = refl
  append_assoc (x ∷ xs) ys zs = ap (◌∷◌ x) (append_assoc xs ys zs)

  pub append_none : (xs : List A) → xs ++ [] ≡ xs
  append_none [] = refl
  append_none (x ∷ xs) = ap (◌∷◌ x) (append_none xs)
