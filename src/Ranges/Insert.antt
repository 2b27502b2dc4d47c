-- ===== src/Ranges/Insert.antt =====
-- `add_range` on a sorted list is an insertion by recursion, and keeps the list sorted.
use custom_built_network_ana.Base.{
  ℕ, ◌+◌, ◌≤◌, ◌<◌, min, max, List, [], ◌∷◌, ◌++◌, ◌≡◌, refl, sym, ap, ◌∙◌, inl, inr, arith, ltb,
  if◌then◌else◌, Bool-cases, tests, ltb→lt,
}
use custom_built_network_ana.Ranges.{
  Range, apart, merge, scan, sort_insert, sort, add_range, AreRanges, AreBelow,
}
use mathlib.Core.List.{append-nil, append_assoc}

-- The insertion that `add_range` amounts to.
unfoldable pub insert_range : Range → List Range → List Range
insert_range m [] = m ∷ []
insert_range m (r ∷ rs) =
    let behind = r ∷ insert_range m rs in
    let merged = insert_range (merge r m) rs in
    if ltb r.1 m.0 then behind else if ltb m.1 r.0 then m ∷ r ∷ rs else merged

-- What the loop leaves in `out` and in `merged`.
kept : List Range → Range → List Range
kept [] m = []
kept (r ∷ rs) m =
    let rest = kept rs (if apart r m then m else merge r m) in if apart r m then r ∷ rest else rest

last_merged : List Range → Range → Range
last_merged [] m = m
last_merged (r ∷ rs) m = last_merged rs (if apart r m then m else merge r m)

scan-kept :
    (rs : List Range) (m : Range) (out : List Range)
    → scan rs m out ≡ (last_merged rs m, out ++ kept rs m)
unfolding scan kept last_merged
scan-kept [] m out = ap (λ o. (m, o)) (sym (append-nil out))
scan-kept (r ∷ rs) m out = elim (Bool-cases (apart r m)) [
  | inl h ↦ rw h (scan-kept rs m (out ++ r ∷ []) ∙ rw append_assoc refl)
  | inr h ↦ rw h (scan-kept rs (merge r m) out)
]

pub AreRanges-mono : {lo hi : ℕ} (rs : List Range) → lo ≤ hi → AreRanges hi rs → AreRanges lo rs
AreRanges-mono [] h k = tt
AreRanges-mono ((s, e) ∷ rs) h (p, q, k) = (omega arith, q, k)

-- `add_range` keeps a sorted list of disjoint ranges so.
pub insert_range-AreRanges :
    (rs : List Range) (lo a b : ℕ)
    → AreRanges lo rs
    → lo ≤ a
    → a < b
    → AreRanges lo (insert_range (a, b) rs)
unfolding insert_range
insert_range-AreRanges [] lo a b h p q = (p, q, tt)
insert_range-AreRanges ((s, e) ∷ rs) lo a b (h, k, w) p q = ground (
  arith,
  insert_range-AreRanges rs (e + 1) a b w,
  insert_range-AreRanges rs lo (min a s) (max b e) (AreRanges-mono rs (omega arith) w),
)

pub insert_range-AreBelow :
    (rs : List Range) (n a b : ℕ) → AreBelow n rs → b ≤ n → AreBelow n (insert_range (a, b) rs)
unfolding insert_range
insert_range-AreBelow [] n a b h p = (p, tt)
insert_range-AreBelow ((s, e) ∷ rs) n a b (h, w) p =
    ground
      (arith, insert_range-AreBelow rs n a b w, insert_range-AreBelow rs n (min a s) (max b e) w)

-- A pair below a sorted list goes in front of it.
sort_insert-cons :
    (s e lo : ℕ) (rs : List Range) → AreRanges lo rs → s < lo → sort_insert (s, e) rs ≡ (s, e) ∷ rs
unfolding sort_insert
sort_insert-cons s e lo [] h k = refl
sort_insert-cons s e lo ((a, b) ∷ rs) (p, q, h) k = ground arith

-- A pair below a sorted list, sorted in from its end.
sort-concat :
    (rs : List Range) (lo a b : ℕ)
    → AreRanges lo rs
    → a < lo
    → sort (rs ++ (a, b) ∷ []) ≡ (a, b) ∷ rs
unfolding sort
sort-concat [] lo a b h k = refl
sort-concat ((s, e) ∷ rs) lo a b (p, q, h) k =
    ap (sort_insert (s, e)) (sort-concat rs (e + 1) a b h (omega arith))
    ∙ ground (arith, sort_insert-cons s e (e + 1) rs h)

-- Behind a gap the loop keeps everything.
kept_apart :
    (rs : List Range) (lo a b : ℕ)
    → AreRanges lo rs
    → b < lo
    → (kept rs (a, b) ≡ rs) × (last_merged rs (a, b) ≡ (a, b))
unfolding kept last_merged
kept_apart [] lo a b h k = (refl, refl)
kept_apart ((s, e) ∷ rs) lo a b (p, q, h) k =
    ground (arith, kept_apart rs (e + 1) a b h (omega arith))

sort-kept :
    (rs : List Range) (lo a b : ℕ)
    → AreRanges lo rs
    → a < b
    → sort (kept rs (a, b) ++ last_merged rs (a, b) ∷ []) ≡ insert_range (a, b) rs
unfolding kept last_merged insert_range sort
sort-kept [] lo a b h q = refl
sort-kept ((s, e) ∷ rs) lo a b (p, k, h) q = elim (Bool-cases (ltb e a)) [
  | inl behind ↦ rw behind (
      ap (sort_insert (s, e)) (sort-kept rs (e + 1) a b h q)
      ∙ sort_insert-cons s e (e + 1) _
          (insert_range-AreRanges rs (e + 1) a b h (omega (tests, ltb→lt e a behind)) q)
          (omega arith))
  | inr overlaps ↦ elim (Bool-cases (ltb b s)) [
    | inl before ↦
        let (same, last) = kept_apart rs (e + 1) a b h (omega (tests, ltb→lt b s before)) in
        rw (overlaps, before, same, last)
          (sort-concat ((s, e) ∷ rs) s a b (omega arith, k, h) (omega (tests, ltb→lt b s before)))
    | inr touches ↦
        rw (overlaps, touches) (sort-kept rs (e + 1) (min a s) (max b e) h (omega arith))
  ]
]

-- On a sorted, disjoint list and for a range that is not empty, `add_range` is that insertion.
pub add_range-insert_range :
    (rs : List Range) (a b : ℕ) → AreRanges 0 rs → a < b → add_range rs a b ≡ insert_range (a, b) rs
unfolding add_range
add_range-insert_range rs a b h q = rw (scan-kept rs (a, b) []) (sort-kept rs 0 a b h q)

-- `add_range` of a range that is not empty keeps a list that is sorted, disjoint and without two ranges
-- that touch so.
pub add_range-AreRanges :
    (rs : List Range) (a b : ℕ) → AreRanges 0 rs → a < b → AreRanges 0 (add_range rs a b)
add_range-AreRanges rs a b h q =
    rw (add_range-insert_range rs a b h q) (insert_range-AreRanges rs 0 a b h (omega arith) q)

pub add_range-AreBelow :
    (rs : List Range) (n a b : ℕ)
    → AreRanges 0 rs
    → a < b
    → AreBelow n rs
    → b ≤ n
    → AreBelow n (add_range rs a b)
add_range-AreBelow rs n a b h q k p =
    rw (add_range-insert_range rs a b h q) (insert_range-AreBelow rs n a b k p)
