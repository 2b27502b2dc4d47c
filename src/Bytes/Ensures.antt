-- ===== src/Bytes/Ensures.antt =====
-- What a chain of reads ensures: an index or a slice is never out of range, and a value that it
-- returns comes with a fact about it and about the reader left behind.
use custom_built_network_ana.Base.{
  ℕ, zero, suc, ◌+◌, ◌≤◌, ◌<◌, String, Bool, true, false, List, [], ◌∷◌, ◌≡◌, refl, sym, ◌∙◌, arith,
  Option, none, some, subst, length, get_or, take, drop,
}
use custom_built_network_ana.Error.{DecodeError, Outcome, ok, err, panic}
use custom_built_network_ana.Bytes.{
  Reader, Parser, ◌>>=◌, pure, and_then, or_none, branch, fail_if, attempt, lift, eval, new,
}

-- Every element is a byte.
abbrev pub AreBytes : List ℕ → Type 0
AreBytes [] = Unit {0}
AreBytes (b ∷ bs) = (b < 256) × AreBytes bs

pub take-AreBytes : (n : ℕ) (xs : List ℕ) → AreBytes xs → AreBytes (take n xs)
take-AreBytes zero xs h = tt
take-AreBytes (suc n) [] h = tt
take-AreBytes (suc n) (x ∷ xs) (p, q) = (p, take-AreBytes n xs q)

pub drop-AreBytes : (n : ℕ) (xs : List ℕ) → AreBytes xs → AreBytes (drop n xs)
drop-AreBytes zero xs h = h
drop-AreBytes (suc n) [] h = tt
drop-AreBytes (suc n) (x ∷ xs) (p, q) = drop-AreBytes n xs q

pub get_or-lt : (xs : List ℕ) (i : ℕ) → AreBytes xs → get_or xs i 0 < 256
get_or-lt [] i h = omega arith
get_or-lt (x ∷ xs) zero (p, q) = p
get_or-lt (x ∷ xs) (suc i) (p, q) = get_or-lt xs i q

-- The cursor never passes the end.
pub record IsValid (r : Reader) : Type 0 where
  pub within : r.pos ≤ length r.buf
  pub bytes : AreBytes r.buf

pub data Ensures {ℓ} {A : Type ℓ} (Q : A → Reader → Type 0) : Outcome (A × Reader) → Type ℓ where
  returns : {a : A} {r : Reader} → IsValid r → Q a r → Ensures Q (ok (a, r))
  fails : {e : DecodeError} → Ensures Q (err e)

-- The same for a call that returns no reader.
pub data Yields {ℓ} {A : Type ℓ} (Q : A → Type 0) : Outcome A → Type ℓ where
  yields : {a : A} → Q a → Yields Q (ok a)
  fails : {e : DecodeError} → Yields Q (err e)

module _ {ℓ κ} {A : Type ℓ} {B : Type κ} {P : A → Reader → Type 0} {Q : B → Reader → Type 0} where
  bind_outcome :
      (o : Outcome (A × Reader)) (f : A → Parser B)
      → Ensures P o
      → ((a : A) (s : Reader) → IsValid s → P a s → Ensures Q (f a s))
      → Ensures Q (and_then o f)
  bind_outcome _ f (returns {a} {r} v q) k = k a r v q
  bind_outcome _ f fails k = fails

  -- The rule of a chain.
  pub bind :
      (p : Parser A) (f : A → Parser B) (r : Reader)
      → Ensures P (p r)
      → ((a : A) (s : Reader) → IsValid s → P a s → Ensures Q (f a s))
      → Ensures Q ((p >>= f) r)
  unfolding ◌>>=◌
  bind p f r = bind_outcome (p r) f

-- The rule of a step that leaves the reader alone.
pub bind_same {ℓ κ} :
    {A : Type ℓ} {B : Type κ} {P : A → Type 0} {Q : B → Reader → Type 0} (p : Parser A)
    (f : A → Parser B) (r : Reader)
    → IsValid r
    → Ensures (λ a s. P a × (s ≡ r)) (p r)
    → ((a : A) → P a → Ensures Q (f a r))
    → Ensures Q ((p >>= f) r)
bind_same {Q} p f r v h k =
    bind p f r h (λ a s w x. subst (λ t. Ensures Q (f a t)) (sym x.1) (k a x.0))

pub weaken {ℓ} :
    {A : Type ℓ} {P Q : A → Reader → Type 0} {o : Outcome (A × Reader)}
    → Ensures P o
    → ((a : A) (s : Reader) → IsValid s → P a s → Q a s)
    → Ensures Q o
weaken (returns {a} {r} v q) k = returns v (k a r v q)
weaken fails k = fails

module _ {ℓ} {A : Type ℓ} {P : A → Reader → Type 0} {Q : A → Type 0} where
  eval_outcome :
      (o : Outcome (A × Reader))
      → Ensures P o
      → ((a : A) (s : Reader) → IsValid s → P a s → Q a)
      → Yields Q (elim o [ ok (a, s) ↦ ok a | err e ↦ err e | panic ↦ panic ])
  eval_outcome _ (returns {a} {r} v q) k = yields (k a r v q)
  eval_outcome _ fails k = fails

  pub eval_lem :
      (p : Parser A) (r : Reader)
      → Ensures P (p r)
      → ((a : A) (s : Reader) → IsValid s → P a s → Q a)
      → Yields Q (eval p r)
  unfolding eval
  eval_lem p r = eval_outcome (p r)

pub Yields-ok {ℓ} :
    {A : Type ℓ} {Q : A → Type 0} {o : Outcome A} {a : A} → Yields Q o → o ≡ ok a → Q a
Yields-ok {Q} {a} (yields {a = b} q) e = subst Q (ok-injective e) q
  where
    ok-injective : ok b ≡ ok a → b ≡ a
    ok-injective e = cc
Yields-ok fails e = absurd (cc)

-- The reader `s` is the reader `r`, moved on by `n` bytes.
pub record Moved (n : ℕ) (r s : Reader) : Type 0 where
  pub buf : s.buf ≡ r.buf
  pub pos : s.pos ≡ r.pos + n

pub new-IsValid : (buf : List ℕ) (layer : String) → AreBytes buf → IsValid (new buf layer)
unfolding new
new-IsValid buf layer h = record { within = omega arith; bytes = h }

pub pure_lem {ℓ} :
    {A : Type ℓ} {Q : A → Reader → Type 0} {r : Reader} (a : A)
    → IsValid r
    → Q a r
    → Ensures Q (pure a r)
unfolding pure
pure_lem a v q = returns v q

pub fail_if_lem :
    (test : Bool) (e : DecodeError) (r : Reader)
    → IsValid r
    → Ensures (λ _ s. (test ≡ false) × (s ≡ r)) (fail_if test e r)
unfolding fail_if
fail_if_lem true e r v = fails
fail_if_lem false e r v = returns v (refl, refl)

-- The rule of a call that may fail: then the reader is where it was.
module _ {ℓ κ} {A : Type ℓ} {B : Type κ} {P : A → Reader → Type 0} {Q : B → Reader → Type 0} where
  attempt_outcome :
      (o : Outcome (A × Reader)) (f : Option A → Parser B) (r : Reader)
      → Ensures P o
      → Ensures Q (f none r)
      → ((a : A) (s : Reader) → IsValid s → P a s → Ensures Q (f (some a) s))
      → Ensures Q (and_then (or_none o r) f)
  attempt_outcome _ f r (returns {a} {r = s} w q) n k = k a s w q
  attempt_outcome _ f r fails n k = n

  pub bind_attempt :
      (p : Parser A) (f : Option A → Parser B) (r : Reader)
      → Ensures P (p r)
      → Ensures Q (f none r)
      → ((a : A) (s : Reader) → IsValid s → P a s → Ensures Q (f (some a) s))
      → Ensures Q ((attempt p >>= f) r)
  unfolding attempt ◌>>=◌
  bind_attempt p f r = attempt_outcome (p r) f r

or_none_lem {ℓ} :
    {A : Type ℓ} {P : A → Reader → Type 0} (o : Outcome (A × Reader)) (r : Reader)
    → IsValid r
    → Ensures P o
    → Ensures (λ _ _. Unit {0}) (or_none o r)
or_none_lem _ r v (returns w q) = returns w tt
or_none_lem _ r v fails = returns v tt

pub attempt_lem {ℓ} :
    {A : Type ℓ} {P : A → Reader → Type 0} (p : Parser A) (r : Reader)
    → IsValid r
    → Ensures P (p r)
    → Ensures (λ _ _. Unit {0}) (attempt p r)
unfolding attempt
attempt_lem p r = or_none_lem (p r) r

module _ {ℓ} {A : Type ℓ} {P : A → Type 0} (r : Reader) (v : IsValid r) where
  pub lift_lem : (o : Outcome A) → Yields P o → Ensures (λ a s. P a × (s ≡ r)) (lift o r)
  unfolding lift
  lift_lem _ (yields q) = returns v (q, refl)
  lift_lem _ fails = fails

-- The rule of a test.
pub on_test {ℓ} :
    {A : Type ℓ} {Q : A → Reader → Type 0} (b : Bool) (p q : Parser A) (r : Reader)
    → (b ≡ true → Ensures Q (p r))
    → (b ≡ false → Ensures Q (q r))
    → Ensures Q (branch b p q r)
unfolding branch
on_test true p q r h k = h refl
on_test false p q r h k = k refl

pub Moved-trans :
    {m n : ℕ} {r s t : Reader} (k : ℕ) → Moved m r s → Moved n s t → k ≡ m + n → Moved k r t
Moved-trans k a b e = record { buf = b.buf ∙ a.buf; pos = omega (arith, a.pos, b.pos, e) }
