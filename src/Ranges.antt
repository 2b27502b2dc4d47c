-- ===== src/Ranges.antt =====
-- The filled ranges that crates/cbna-core/src/reassembly.rs and ip_reassembly.rs keep, in the same
-- words in both files: a sorted list of disjoint `[start, end)` pairs.
pub mod Insert
pub mod Cover
use custom_built_network_ana.Base.{
  ℕ, ◌+◌, ◌≤◌, ◌<◌, min, max, Bool, true, false, ◌&&◌, ◌||◌, List, [], ◌∷◌, ◌++◌, ltb, leb, ◌==◌,
  if◌then◌else◌,
}

abbrev pub Range : Type 0
Range = ℕ × ℕ

abbrev pub holds : Range → ℕ → Bool
holds (s, e) i = leb s i && ltb i e

-- `is_filled`
unfoldable pub is_filled : List Range → ℕ → Bool
is_filled [] i = false
is_filled (r ∷ rs) i = holds r i || is_filled rs i

-- `e < merged.0 || s > merged.1`
abbrev pub apart : Range → Range → Bool
apart (s, e) (a, b) = ltb e a || ltb b s

abbrev pub merge : Range → Range → Range
merge (s, e) (a, b) = (min a s, max b e)

-- The loop of `add_range`, with `merged` and `out`.
unfoldable pub scan : List Range → Range → List Range → Range × List Range
scan [] merged out = (merged, out)
scan (r ∷ rs) merged out =
    scan rs (if apart r merged then merged else merge r merged)
      (if apart r merged then out ++ r ∷ [] else out)

-- The order of pairs, and `sort_unstable`, whose result is the sorted list.
abbrev pub range_leb : Range → Range → Bool
range_leb (s, e) (a, b) = ltb s a || (s == a && leb e b)

unfoldable pub sort_insert : Range → List Range → List Range
sort_insert r [] = r ∷ []
sort_insert r (x ∷ xs) = if range_leb r x then r ∷ x ∷ xs else x ∷ sort_insert r xs

unfoldable pub sort : List Range → List Range
unfolding sort_insert
sort [] = []
sort (r ∷ rs) = sort_insert r (sort rs)

unfoldable pub add_range : List Range → ℕ → ℕ → List Range
unfolding scan sort
add_range filled start end =
    let (merged, out) = scan filled (start, end) [] in sort (out ++ merged ∷ [])

-- `contiguous`: the run from offset 0.
unfoldable pub contiguous : List Range → ℕ
contiguous [] = 0
contiguous ((s, e) ∷ rs) = if s == 0 then e else 0

-- Sorted from `lo` on, none empty, none touching the next.
abbrev pub AreRanges : ℕ → List Range → Type 0
AreRanges lo [] = Unit {0}
AreRanges lo ((s, e) ∷ rs) = (lo ≤ s) × (s < e) × AreRanges (e + 1) rs

-- No range ends behind `n`.
abbrev pub AreBelow : ℕ → List Range → Type 0
AreBelow n [] = Unit {0}
AreBelow n ((s, e) ∷ rs) = (e ≤ n) × AreBelow n rs
