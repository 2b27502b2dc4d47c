-- ===== src/Buffered.antt =====
-- The buffer with its filled ranges, which `Stream` of crates/cbna-core/src/reassembly.rs and
-- `Datagram` of ip_reassembly.rs hold in the same words, with `cap` for MAX_STREAM_BYTES and
-- MAX_DATAGRAM_BYTES.
pub mod Bytes
pub mod Invariant
pub mod Whole
use custom_built_network_ana.Base.{
  ℕ, ◌+◌, ◌-◌, ◌≤◌, min, Bool, true, false, ◌||◌, not, List, [], ◌∷◌, ◌++◌, ltb, leb, ◌==◌,
  if◌then◌else◌, length, get_or, set, take, replicate,
}
use custom_built_network_ana.Ranges.{Range, is_filled, add_range, AreRanges, AreBelow}

pub record Buffered : Type 0 where
  pub buf : List ℕ
  pub filled : List Range

-- `if self.buf.len() < end { self.buf.resize(end, 0) }`
unfoldable pub grow : List ℕ → ℕ → List ℕ
grow buf end = if ltb (length buf) end then buf ++ replicate (end - length buf) 0 else buf

-- The loop over the payload, from offset `i` on, which keeps a byte that is there.
unfoldable pub write_bytes : List Range → ℕ → List ℕ → List ℕ → Bool → List ℕ × Bool
write_bytes filled i [] buf conflict = (buf, conflict)
write_bytes filled i (b ∷ bs) buf conflict =
    let there = is_filled filled i in
    let clash = not (get_or buf i 0 == b) in
    write_bytes filled (i + 1) bs (if there then buf else set buf i b)
      (if there then conflict || clash else conflict)

-- `write`: the new buffer, and whether a byte disagreed.
unfoldable pub write : ℕ → Buffered → ℕ → List ℕ → Buffered × Bool
unfolding write_bytes grow
write cap w offset payload =
    let end = min (offset + length payload) cap in
    let (buf, conflict) =
      write_bytes w.filled offset (take (end - offset) payload) (grow w.buf end) false in
    if leb end offset
    then (w, false)
    else (record { buf = buf; filled = add_range w.filled offset end }, conflict)

-- The ranges are sorted and disjoint, inside the buffer, and the buffer is within its cap.
pub record IsBuffered (cap : ℕ) (w : Buffered) : Type 0 where
  pub ranges : AreRanges 0 w.filled
  pub inside : AreBelow (length w.buf) w.filled
  pub bounded : length w.buf ≤ cap
