-- ===== src/Ranges/Cover.antt =====
-- Which offsets are filled after `add_range`, and what `contiguous` measures.
use custom_built_network_ana.Base.{
  ℕ, ◌+◌, ◌≤◌, ◌<◌, min, max, true, false, ◌||◌, List, [], ◌∷◌, ◌≡◌, refl, arith,
}
use custom_built_network_ana.Ranges.{
  Range, holds, is_filled, add_range, contiguous, AreRanges, AreBelow,
}
use custom_built_network_ana.Ranges.Insert.{insert_range, add_range-insert_range}

insert_range-is_filled :
    (rs : List Range) (lo a b i : ℕ)
    → AreRanges lo rs
    → a < b
    → is_filled (insert_range (a, b) rs) i ≡ (holds (a, b) i || is_filled rs i)
unfolding is_filled insert_range
insert_range-is_filled [] lo a b i h q = refl
insert_range-is_filled ((s, e) ∷ rs) lo a b i (p, k, h) q = ground (
  arith,
  insert_range-is_filled rs (e + 1) a b i h q,
  insert_range-is_filled rs (e + 1) (min a s) (max b e) i h (omega arith),
)

-- After `add_range` of a range that is not empty to a sorted, disjoint list exactly the offsets of the new range and those filled before are filled.
pub add_range-is_filled :
    (rs : List Range) (a b i : ℕ)
    → AreRanges 0 rs
    → a < b
    → is_filled (add_range rs a b) i ≡ (holds (a, b) i || is_filled rs i)
add_range-is_filled rs a b i h q =
    rw (add_range-insert_range rs a b h q) (insert_range-is_filled rs 0 a b i h q)

is_filled_above : (rs : List Range) (lo i : ℕ) → AreRanges lo rs → i < lo → is_filled rs i ≡ false
unfolding is_filled
is_filled_above [] lo i h k = refl
is_filled_above ((s, e) ∷ rs) lo i (p, q, h) k = ground (arith, is_filled_above rs (e + 1) i h)

is_filled_below : (rs : List Range) (n i : ℕ) → AreBelow n rs → is_filled rs i ≡ true → i < n
unfolding is_filled
is_filled_below [] n i h k = cc
is_filled_below ((s, e) ∷ rs) n i (p, h) k = ground (arith, is_filled_below rs n i h)

-- On a sorted, disjoint list `contiguous` is the length of the longest filled prefix: all before it is filled, and it is not.
pub contiguous_lem :
    (rs : List Range)
    → AreRanges 0 rs
    → ((i : ℕ) → i < contiguous rs → is_filled rs i ≡ true) × (is_filled rs (contiguous rs) ≡ false)
unfolding contiguous is_filled
contiguous_lem [] h = ((λ i k. absurd (omega arith)), refl)
contiguous_lem ((s, e) ∷ rs) (p, q, h) = (
  (λ i k. ground arith),
  ground (arith, is_filled_above rs (e + 1) e h, is_filled_above rs (e + 1) 0 h),
)

pub contiguous-le : (rs : List Range) (n : ℕ) → AreBelow n rs → contiguous rs ≤ n
unfolding contiguous
contiguous-le [] n h = omega arith
contiguous-le ((s, e) ∷ rs) n (p, h) = ground arith
