-- ===== src/IpReassembly/Bytes.antt =====
-- A write of bytes leaves a buffer of bytes.
use custom_built_network_ana.Base.{
  ℕ, zero, suc, ◌+◌, ◌-◌, ◌<◌, min, Bool, false, List, [], ◌∷◌, ◌++◌, ltb, leb, length, set,
  replicate, arith, on_if,
}
use custom_built_network_ana.Bytes.Ensures.{AreBytes, take-AreBytes}
use custom_built_network_ana.Ranges.{Range, is_filled}
use custom_built_network_ana.Buffered.{Buffered, grow, write_bytes, write}

set-AreBytes : (xs : List ℕ) (i b : ℕ) → b < 256 → AreBytes xs → AreBytes (set xs i b)
set-AreBytes [] i b h v = tt
set-AreBytes (x ∷ xs) zero b h (p, v) = (h, v)
set-AreBytes (x ∷ xs) (suc i) b h (p, v) = (p, set-AreBytes xs i b h v)

zeros-AreBytes : (n : ℕ) → AreBytes (replicate n 0)
zeros-AreBytes zero = tt
zeros-AreBytes (suc n) = (omega arith, zeros-AreBytes n)

append-AreBytes : (xs ys : List ℕ) → AreBytes xs → AreBytes ys → AreBytes (xs ++ ys)
append-AreBytes [] ys v w = w
append-AreBytes (x ∷ xs) ys (p, v) w = (p, append-AreBytes xs ys v w)

write_bytes-AreBytes :
    (filled : List Range) (i : ℕ) (bs buf : List ℕ) (c : Bool)
    → AreBytes bs
    → AreBytes buf
    → AreBytes (write_bytes filled i bs buf c).0
unfolding write_bytes
write_bytes-AreBytes filled i [] buf c h v = v
write_bytes-AreBytes filled i (b ∷ bs) buf c (p, h) v =
    write_bytes-AreBytes filled (i + 1) bs _ _ h
      (on_if AreBytes (is_filled filled i) buf (set buf i b) (λ _. v) λ _. set-AreBytes buf i b p v)

pub write-AreBytes :
    (cap : ℕ) (w : Buffered) (offset : ℕ) (payload : List ℕ)
    → AreBytes payload
    → AreBytes w.buf
    → AreBytes (write cap w offset payload).0.buf
unfolding write grow
write-AreBytes cap w offset payload h v =
    let end = min (offset + length payload) cap in
    on_if (λ (o : Buffered × Bool). AreBytes o.0.buf) (leb end offset) _ _ (λ _. v)
      λ _. write_bytes-AreBytes w.filled offset _ _ false (take-AreBytes (end - offset) payload h) (
        on_if AreBytes (ltb (length w.buf) end) _ _
          (λ _. append-AreBytes w.buf _ v (zeros-AreBytes (end - length w.buf))) λ _. v)
