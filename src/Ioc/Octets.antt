-- ===== src/Ioc/Octets.antt =====
-- The bits of the octets of an address, the most significant first, and the mask of their first `n`.
use custom_built_network_ana.Base.{
  ℕ, zero, suc, all_below, all_below_lem, ◌+◌, ◌-◌, ◌*◌, ◌/◌, ◌%◌, ◌^◌, ◌≤◌, ◌<◌, bit_and, Bool,
  true, ◌≡◌, sym, ap, ◌∙◌, inl, inr, ◌⊎◌, arith, ◌==◌, ==_iff, refl,
}
use custom_built_network_ana.Ioc.{mask}

-- The first `n` bits of an octet, as a number.
abbrev pub top : ℕ → ℕ → ℕ
top x n = x / 2 ^ (8 - n)

-- The bit of an octet with `k` bits before it.
abbrev pub bit : ℕ → ℕ → ℕ
bit x k = x / 2 ^ (7 - k) % 2

-- One bit more is twice the number before, and the bit.
top-suc : (x n : ℕ) → n < 8 → top x (suc n) ≡ top x n * 2 + bit x n
top-suc x zero h = omega arith
top-suc x (suc zero) h = omega arith
top-suc x (suc (suc zero)) h = omega arith
top-suc x (suc (suc (suc zero))) h = omega arith
top-suc x (suc (suc (suc (suc zero)))) h = omega arith
top-suc x (suc (suc (suc (suc (suc zero))))) h = omega arith
top-suc x (suc (suc (suc (suc (suc (suc zero)))))) h = omega arith
top-suc x (suc (suc (suc (suc (suc (suc (suc zero))))))) h = omega arith
top-suc x (suc (suc (suc (suc (suc (suc (suc (suc n)))))))) h = absurd (omega arith)

-- Equal multiples of the unit of the last of `n` bits are multiples of equal numbers.
pub unit_cancel : (a b n : ℕ) → n < 8 → a * 2 ^ (8 - n) ≡ b * 2 ^ (8 - n) → a ≡ b
unit_cancel a b zero h e = omega arith
unit_cancel a b (suc zero) h e = omega arith
unit_cancel a b (suc (suc zero)) h e = omega arith
unit_cancel a b (suc (suc (suc zero))) h e = omega arith
unit_cancel a b (suc (suc (suc (suc zero)))) h e = omega arith
unit_cancel a b (suc (suc (suc (suc (suc zero))))) h e = omega arith
unit_cancel a b (suc (suc (suc (suc (suc (suc zero)))))) h e = omega arith
unit_cancel a b (suc (suc (suc (suc (suc (suc (suc zero))))))) h e = omega arith
unit_cancel a b (suc (suc (suc (suc (suc (suc (suc (suc n)))))))) h e = absurd (omega arith)

module _ (x y : ℕ) where
  -- Octets with the same first bits have the same number.
  pub bits→top :
      (n : ℕ)
      → x < 256
      → y < 256
      → n ≤ 8
      → ((k : ℕ) → k < n → bit x k ≡ bit y k)
      → top x n ≡ top y n
  bits→top zero p q h same = omega arith
  bits→top (suc n) p q h same = omega (
    arith,
    top-suc x n (omega arith),
    top-suc y n (omega arith),
    same n (omega arith),
    bits→top n p q (omega arith) (λ k l. same k (omega arith)),
  )

  pub top→bits : (n k : ℕ) → n ≤ 8 → k < n → top x n ≡ top y n → bit x k ≡ bit y k
  top→bits zero k h l e = absurd (omega arith)
  top→bits (suc n) k h l e =
      let here = top-suc x n (omega arith) in
      let there = top-suc y n (omega arith) in
      elim (last_or_before k n l) [
        | inl last ↦
            ap (bit x) last
            ∙ the_last (top x n) (top y n) _ _ (omega (arith, here, there, e))
            ∙ ap (bit y) (sym last)
        | inr before ↦ top→bits n k (omega arith) before (omega (arith, here, there, e))
      ]
    where
      last_or_before : (k n : ℕ) → k < suc n → (k ≡ n) ⊎ (k < n)
      last_or_before k n l = ground arith

      the_last : (a b c d : ℕ) → a * 2 + c % 2 ≡ b * 2 + d % 2 → c % 2 ≡ d % 2
      the_last a b c d e = omega arith

-- The mask of `n` bits leaves the first `n`, for every octet and every `n` below 8.
abbrev masked : ℕ → ℕ → Bool
masked n x = bit_and x (mask n) == top x n * 2 ^ (8 - n)

table : all_below 2048 (λ i. masked (i / 256) (i % 256)) ≡ true
unfolding all_below
table = refl

pub bit_and-mask : (n x : ℕ) → n < 8 → x < 256 → bit_and x (mask n) ≡ top x n * 2 ^ (8 - n)
bit_and-mask n x h p = (==_iff _ _).0 (
    ap (λ k. masked k x) quotient
    ∙ ap (masked ((n * 256 + x) / 256)) remainder
    ∙ all_below_lem 2048 (λ i. masked (i / 256) (i % 256)) (n * 256 + x) table (omega arith))
  where
    quotient : n ≡ (n * 256 + x) / 256
    quotient = omega arith

    remainder : x ≡ (n * 256 + x) % 256
    remainder = omega arith
