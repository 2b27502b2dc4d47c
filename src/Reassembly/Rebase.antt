-- ===== src/Reassembly/Rebase.antt =====
-- Moving the start of a stream: the invariant holds, and every byte that stays in the window keeps its
-- sequence number.
use custom_built_network_ana.Base.{
  ℕ, zero, suc, ◌+◌, ◌-◌, ◌≤◌, ◌<◌, min, Option, none, some, List, [], ◌∷◌, ◌++◌, ◌≡◌, refl, ap,
  ◌∙◌, arith, if◌then◌else◌, length, get_or, take, replicate, length-append, length-replicate,
  length-take, take-min,
}
use custom_built_network_ana.Ranges.{Range, is_filled, AreRanges, AreBelow}
use custom_built_network_ana.Ranges.Insert.{AreRanges-mono}
use custom_built_network_ana.Buffered.{IsBuffered}
use custom_built_network_ana.Buffered.Invariant.{get_or-take}
use custom_built_network_ana.Reassembly.{
  max_stream_bytes, u32, wrapping_sub, Stream, shift_ranges, rebase,
}

shift_ranges-AreRanges :
    (delta lo : ℕ) (rs : List Range)
    → AreRanges lo rs
    → AreRanges (lo + delta) (shift_ranges delta rs)
unfolding shift_ranges
shift_ranges-AreRanges delta lo [] h = tt
shift_ranges-AreRanges delta lo ((s, e) ∷ rs) (p, q, h) = ground (
  arith,
  shift_ranges-AreRanges delta (e + 1) rs h,
  AreRanges-mono {lo = lo + delta} {hi = e + 1 + delta} (shift_ranges delta rs) (omega arith),
  AreRanges-mono {lo = min (e + delta) max_stream_bytes + 1} {hi = e + 1 + delta}
      (shift_ranges delta rs) (omega arith),
)

shift_ranges-AreBelow :
    (delta n m : ℕ) (rs : List Range)
    → AreBelow n rs
    → min (n + delta) max_stream_bytes ≤ m
    → AreBelow m (shift_ranges delta rs)
unfolding shift_ranges
shift_ranges-AreBelow delta n m [] h k = tt
shift_ranges-AreBelow delta n m ((s, e) ∷ rs) (p, h) k =
    ground (arith, shift_ranges-AreBelow delta n m rs h k)

length-shift_ranges : (delta : ℕ) (rs : List Range) → length (shift_ranges delta rs) ≤ length rs
unfolding shift_ranges
length-shift_ranges delta [] = omega arith
length-shift_ranges delta ((s, e) ∷ rs) = ground (arith, length-shift_ranges delta rs)

shift_ranges-is_filled :
    (delta i j : ℕ) (rs : List Range)
    → j ≡ i + delta
    → j < max_stream_bytes
    → is_filled (shift_ranges delta rs) j ≡ is_filled rs i
unfolding shift_ranges is_filled
shift_ranges-is_filled delta i j [] e h = refl
shift_ranges-is_filled delta i j ((s, t) ∷ rs) e h =
    ground (arith, shift_ranges-is_filled delta i j rs e h)

-- The length of the moved buffer.
length-rebase :
    (delta : ℕ) (s : Stream)
    → delta ≤ max_stream_bytes
    → length (rebase delta s).buffered.buf
      ≡ delta + min (length s.buffered.buf) (max_stream_bytes - delta)
unfolding rebase
length-rebase delta s h = omega (
  arith,
  length-append (replicate (min delta max_stream_bytes) 0)
      (take (min (length s.buffered.buf) (max_stream_bytes - delta)) s.buffered.buf),
  length-replicate {A = ℕ} (min delta max_stream_bytes) 0,
  length-take (min (length s.buffered.buf) (max_stream_bytes - delta)) s.buffered.buf,
)

pub rebase-IsBuffered :
    (delta : ℕ) (s : Stream)
    → delta ≤ max_stream_bytes
    → IsBuffered max_stream_bytes s.buffered
    → IsBuffered max_stream_bytes (rebase delta s).buffered
unfolding rebase
rebase-IsBuffered delta s h v = record {
  ranges =
      AreRanges-mono (shift_ranges delta s.buffered.filled) (omega arith)
        (shift_ranges-AreRanges delta 0 s.buffered.filled v.ranges);
  inside =
      shift_ranges-AreBelow delta (length s.buffered.buf) _ s.buffered.filled v.inside
        (omega (arith, length-rebase delta s h));
  bounded = omega (arith, length-rebase delta s h);
}

pub length-rebase_filled :
    (delta : ℕ) (s : Stream) → length (rebase delta s).buffered.filled ≤ length s.buffered.filled
unfolding rebase
length-rebase_filled delta s = length-shift_ranges delta s.buffered.filled

get_or-behind :
    (n i j : ℕ) (ys : List ℕ) → j ≡ n + i → get_or (replicate n 0 ++ ys) j 0 ≡ get_or ys i 0
get_or-behind zero i j ys e = ap (λ k. get_or ys k 0) (omega arith)
get_or-behind (suc n) i zero ys e = absurd (omega arith)
get_or-behind (suc n) i (suc j) ys e = get_or-behind n i j ys (omega arith)

get_or-kept :
    (n k i : ℕ) (xs : List ℕ)
    → k ≡ min n (length xs)
    → i < n
    → get_or (take k xs) i 0 ≡ get_or xs i 0
get_or-kept n k i xs e h = ap (λ ys. get_or ys i 0) (take-min n k xs e) ∙ get_or-take n i xs h

-- The byte that a stream holds at a sequence number.
unfoldable pub byte_at : Stream → ℕ → Option ℕ
byte_at s seq =
    let i = wrapping_sub seq s.base in
    if is_filled s.buffered.filled i then some (get_or s.buffered.buf i 0) else none

-- For sequence numbers below 2^32: a move of the start to a sequence number at most 16384 earlier keeps
-- every byte that still fits the window of 16384 bytes where it was in the sequence.
pub byte_at-rebase :
    (s : Stream) (seq q : ℕ)
    → s.base < u32
    → seq < u32
    → q < u32
    → wrapping_sub s.base seq ≤ max_stream_bytes
    → wrapping_sub q s.base + wrapping_sub s.base seq < max_stream_bytes
    → byte_at (record (rebase (wrapping_sub s.base seq) s) { base = seq }) q ≡ byte_at s q
unfolding byte_at rebase
byte_at-rebase s seq q hb hs hq near fits =
    let i = wrapping_sub q s.base in
    let d = wrapping_sub s.base seq in
    let buf = s.buffered.buf in
    let e : wrapping_sub q seq ≡ i + d = omega arith in
    let kept : get_or
          (replicate (min d max_stream_bytes) 0
            ++ take (min (length buf) (max_stream_bytes - d)) buf)
          (wrapping_sub q seq) 0
        ≡ get_or buf i 0 =
      get_or-behind (min d max_stream_bytes) i _ _ (omega arith)
      ∙ get_or-kept (max_stream_bytes - d) _ i buf (omega arith) (omega arith) in
    rw (shift_ranges-is_filled d i (wrapping_sub q seq) s.buffered.filled e (omega arith), kept)
      refl
