-- ===== src/Ioc/Prefix.antt =====
-- Two lists of octets are compared by their first bits.
use custom_built_network_ana.Base.{
  ℕ, zero, suc, ◌+◌, ◌-◌, ◌*◌, ◌/◌, ◌%◌, ◌^◌, ◌≤◌, ◌<◌, bit_and, Bool, true, false, not, List, [],
  ◌∷◌, ◌≡◌, sym, ap, ◌∙◌, inl, inr, ◌⊎◌, arith, ◌==◌, ==_iff, refl, length, get_or, take, lt→ltb,
  le→leb,
}
use custom_built_network_ana.Bytes.{index, slice}
use custom_built_network_ana.Bytes.Ensures.{AreBytes, get_or-lt}
use custom_built_network_ana.Outcomes.Gives.{Gives, gives, then-Gives, if_Gives}
use custom_built_network_ana.Flow.{octets_eq}
use custom_built_network_ana.Flow.Canonical.{octets_eq_iff}
use custom_built_network_ana.Ioc.{mask, partial_eq, prefix_eq}
use custom_built_network_ana.Ioc.Octets.{top, bit, bits→top, top→bits, bit_and-mask, unit_cancel}

-- The first `bits` bits are the same.
abbrev pub Agree : ℕ → List ℕ → List ℕ → Type 0
Agree bits a b = (j k : ℕ) → k < 8 → 8 * j + k < bits → bit (get_or a j 0) k ≡ bit (get_or b j 0) k

-- A test that answers whether `P` holds.
abbrev pub Answers : Type 0 → Bool → Type 0
Answers P true = P
Answers P false = ¬ P

get_or-take : (m j : ℕ) (xs : List ℕ) → j < m → get_or (take m xs) j 0 ≡ get_or xs j 0
get_or-take zero j xs h = absurd (omega arith)
get_or-take (suc m) j [] h = refl
get_or-take (suc m) zero (x ∷ xs) h = refl
get_or-take (suc m) (suc j) (x ∷ xs) h = get_or-take m j xs (omega arith)

take_same :
    (m : ℕ) (a b : List ℕ)
    → m ≤ length a
    → m ≤ length b
    → ((j : ℕ) → j < m → get_or a j 0 ≡ get_or b j 0)
    → take m a ≡ take m b
take_same zero a b h k e = refl
take_same (suc m) [] b h k e = absurd (omega arith)
take_same (suc m) (x ∷ a) [] h k e = absurd (omega arith)
take_same (suc m) (x ∷ a) (y ∷ b) h k e =
    ap (λ z. z ∷ take m a) (e zero (omega arith))
    ∙ ap (λ zs. y ∷ zs)
        (take_same m a b (omega arith) (omega arith) (λ j l. e (suc j) (omega arith)))

slice_same : (xs : List ℕ) (n : ℕ) → n ≤ length xs → Gives (λ ys. ys ≡ take n xs) (slice xs 0 n)
unfolding slice
slice_same xs n h =
    rw (le→leb n (length xs) h, le→leb 0 n (omega arith)) (gives (ap (λ k. take k xs) whole_part))
  where
    whole_part : n - 0 ≡ n
    whole_part = omega arith

index_same : (xs : List ℕ) (i : ℕ) → i < length xs → Gives (λ x. x ≡ get_or xs i 0) (index xs i)
unfolding index
index_same xs i h = rw (lt→ltb i (length xs) h) (gives refl)

-- Two masked octets are equal where their first `r` bits are.
masked_test :
    (x y r : ℕ)
    → r < 8
    → x < 256
    → y < 256
    → (t : Bool) → (bit_and x (mask r) == bit_and y (mask r)) ≡ t
    → Answers (top x r ≡ top y r) t
masked_test x y r h p q true e =
    unit_cancel (top x r) (top y r) r h
      (sym (bit_and-mask r x h p) ∙ (==_iff _ _).0 e ∙ bit_and-mask r y h q)
masked_test x y r h p q false e = λ same.
    differ
      ((==_iff _ _).1
        (bit_and-mask r x h p ∙ ap (λ z. z * 2 ^ (8 - r)) same ∙ sym (bit_and-mask r y h q)))
      e
  where
    differ : {t : Bool} → t ≡ true → t ≡ false → ⊥
    differ e e' = cc

-- The answer to a question is the answer to an equivalent one.
pub by_test : {P Q : Type 0} (t : Bool) → Answers P t → (P → Q) → (Q → P) → Answers Q t
by_test true p f g = f p
by_test false n f g = λ q. n (g q)

module _ (a b : List ℕ) (bits n : ℕ) (p : length a ≡ n) (q : length b ≡ n) (h : bits ≤ 8 * n)
    (m : AreBytes a) (l : AreBytes b) where
  abbrev whole : ℕ
  whole = bits / 8

  agree→whole : Agree bits a b → take whole a ≡ take whole b
  agree→whole agree = take_same whole a b (omega (arith, p, h)) (omega (arith, q, h)) λ j below.
      let same : get_or a j 0 / 1 ≡ get_or b j 0 / 1 =
        bits→top (get_or a j 0) (get_or b j 0) 8 (get_or-lt a j m) (get_or-lt b j l) (omega arith)
          λ k small. agree j k small (omega arith) in
      omega (arith, same)

  agree→top : Agree bits a b → top (get_or a whole 0) (bits % 8) ≡ top (get_or b whole 0) (bits % 8)
  agree→top agree =
      bits→top (get_or a whole 0) (get_or b whole 0) (bits % 8) (get_or-lt a whole m)
        (get_or-lt b whole l) (omega arith) λ k small. agree whole k (omega arith) (omega arith)

  whole→agree :
      take whole a ≡ take whole b
      → (bits % 8 ≡ 0) ⊎ (top (get_or a whole 0) (bits % 8) ≡ top (get_or b whole 0) (bits % 8))
      → Agree bits a b
  whole→agree same part j k small below = elim (before_or_last j k bits small below) [
    | inl early ↦
        ap (λ x. bit x k)
          (sym (get_or-take whole j a early)
            ∙ ap (λ (xs : List ℕ). get_or xs j 0) same
            ∙ get_or-take whole j b early)
    | inr (last, little) ↦
        ap (λ i. bit (get_or a i 0) k) last
        ∙ top→bits _ _ (bits % 8) k (omega arith) little (some_part part little)
        ∙ ap (λ i. bit (get_or b i 0) k) (sym last)
  ]
    where
      before_or_last :
          (j k bits : ℕ)
          → k < 8
          → 8 * j + k < bits
          → (j < bits / 8) ⊎ ((j ≡ bits / 8) × (k < bits % 8))
      before_or_last j k bits small below = ground arith

      some_part :
          (bits % 8 ≡ 0) ⊎ (top (get_or a whole 0) (bits % 8) ≡ top (get_or b whole 0) (bits % 8))
          → k < bits % 8
          → top (get_or a whole 0) (bits % 8) ≡ top (get_or b whole 0) (bits % 8)
      some_part (inl none) little = absurd (omega arith)
      some_part (inr e) little = e

  partial_eq-Gives :
      take whole a ≡ take whole b → Gives (Answers (Agree bits a b)) (partial_eq a b bits)
  unfolding partial_eq
  partial_eq-Gives same =
      if_Gives (bits % 8 == 0) _ _ (λ t. gives (whole→agree same (inl ((==_iff _ _).0 t))))
        λ t.
          let more : whole < n = omega (arith, some_rest bits n t h) in
          then-Gives (λ x. x ≡ get_or a whole 0) (index a whole) _
            (index_same a whole (omega (arith, p, more)))
            λ x e.
              then-Gives (λ y. y ≡ get_or b whole 0) (index b whole) _
                (index_same b whole (omega (arith, q, more)))
                λ y e'. gives (
                  by_test _
                    (masked_test x y (bits % 8) (omega arith) (rw e (get_or-lt a whole m))
                      (rw e' (get_or-lt b whole l)) _ refl)
                    (λ f. whole→agree same (
                      inr (ap (λ z. top z (bits % 8)) (sym e) ∙ f ∙ ap (λ z. top z (bits % 8)) e')))
                    λ agree.
                      ap (λ z. top z (bits % 8)) e
                      ∙ agree→top agree
                      ∙ ap (λ z. top z (bits % 8)) (sym e'))
    where
      some_rest : (bits n : ℕ) → (bits % 8 == 0) ≡ false → bits ≤ 8 * n → bits / 8 < n
      some_rest bits n t h = ground (arith, t)

  -- Within the lists, the comparison cannot fail, and answers whether the first bits agree.
  pub prefix_eq-Gives : Gives (Answers (Agree bits a b)) (prefix_eq a b bits)
  unfolding prefix_eq
  prefix_eq-Gives =
      then-Gives (λ x. x ≡ take whole a) (slice a 0 whole) _
        (slice_same a whole (omega (arith, p, h)))
        λ x e.
          then-Gives (λ y. y ≡ take whole b) (slice b 0 whole) _
            (slice_same b whole (omega (arith, q, h)))
            λ y e'.
              if_Gives (not (octets_eq x y)) _ _
                (λ t. gives λ agree. differ x y t (e ∙ agree→whole agree ∙ sym e'))
                λ t. partial_eq-Gives (sym e ∙ (octets_eq_iff x y).0 (equal _ t) ∙ e')
    where
      equal : (t : Bool) → not t ≡ false → t ≡ true
      equal true h = refl
      equal false h = absurd (cc)

      opposite : (t : Bool) → not t ≡ true → t ≡ true → ⊥
      opposite true h e = cc
      opposite false h e = cc

      differ : (x y : List ℕ) → not (octets_eq x y) ≡ true → ¬ (x ≡ y)
      differ x y t e = opposite _ t ((octets_eq_iff x y).1 e)
