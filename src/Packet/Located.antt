-- ===== src/Packet/Located.antt =====
-- A slice that lies in a buffer, and a slice cut from a slice.
use custom_built_network_ana.Base.{
  ℕ, zero, suc, ◌+◌, ◌-◌, ◌≤◌, List, [], ◌∷◌, ◌≡◌, refl, sym, ap, subst, ◌∙◌, arith, le→leb, length,
  take, drop, length-take, length-drop, drop-drop, drop-take, take-length-le,
}
use custom_built_network_ana.Bytes.{Slice}
use custom_built_network_ana.Bytes.Ensures.{AreBytes, take-AreBytes, drop-AreBytes}
use custom_built_network_ana.Packet.{get_range}

-- The bytes of the slice are those of the buffer from its start on.
pub record Located (buf : List ℕ) (s : Slice) : Type 0 where
  pub inside : s.start + length s.bytes ≤ length buf
  pub same : s.bytes ≡ take (length s.bytes) (drop s.start buf)

pub Located-AreBytes : {buf : List ℕ} {s : Slice} → Located buf s → AreBytes buf → AreBytes s.bytes
Located-AreBytes {buf} {s} l h =
    subst AreBytes (sym l.same) (take-AreBytes (length s.bytes) _ (drop-AreBytes s.start buf h))

take-take : (m n : ℕ) (xs : List ℕ) → m ≤ n → take m (take n xs) ≡ take m xs
take-take zero n xs h = refl
take-take (suc m) zero xs h = absurd (omega arith)
take-take (suc m) (suc n) [] h = refl
take-take (suc m) (suc n) (x ∷ xs) h = ap (◌∷◌ x) (take-take m n xs (omega arith))

pub Located-drop :
    (buf : List ℕ) (k : ℕ) → k ≤ length buf → Located buf (record { start = k; bytes = drop k buf })
Located-drop buf k h = record {
  inside = omega (arith, length-drop k buf);
  same = sym (take-length-le (length (drop k buf)) (drop k buf) (omega arith));
}

-- A slice of `n` bytes from `k` on, or of as many as there are.
pub Located-take :
    (buf : List ℕ) (k n : ℕ) (s : Slice)
    → k ≤ length buf
    → s.start ≡ k
    → s.bytes ≡ take n (drop k buf)
    → Located buf s
Located-take buf k n s h e b =
    let len : length s.bytes ≤ n = omega (arith, ap length b, length-take n (drop k buf)) in
    record {
      inside = omega (arith, ap length b, length-take n (drop k buf), length-drop k buf);
      same =
          sym (take-length-le (length s.bytes) s.bytes (omega arith))
          ∙ ap (take (length s.bytes)) b
          ∙ take-take (length s.bytes) n (drop k buf) len
          ∙ ap (λ j. take (length s.bytes) (drop j buf)) (sym e);
    }

pub Located-rest :
    (buf : List ℕ) (k : ℕ) (s : Slice)
    → k ≤ length buf
    → s.start ≡ k
    → s.bytes ≡ drop k buf
    → Located buf s
Located-rest buf k s h e b =
    Located-take buf k (length (drop k buf)) s h e
      (b ∙ sym (take-length-le (length (drop k buf)) (drop k buf) (omega arith)))

-- The place of a slice of a slice.
pub Located-trans :
    {buf : List ℕ} {s t : Slice}
    → Located buf s
    → Located s.bytes t
    → Located buf (record { start = s.start + t.start; bytes = t.bytes })
Located-trans {buf} {s} {t} l m = record {
  inside = omega (arith, l.inside, m.inside);
  same =
      m.same
      ∙ ap (λ b. take (length t.bytes) (drop t.start b)) l.same
      ∙ ap (take (length t.bytes)) (
          drop-take t.start (length s.bytes - t.start) (length s.bytes) (drop s.start buf)
            (omega (arith, m.inside)))
      ∙ take-take (length t.bytes) (length s.bytes - t.start) _ (omega (arith, m.inside))
      ∙ ap (take (length t.bytes)) (drop-drop t.start s.start (s.start + t.start) buf refl);
}

-- A range of the frame that is where the slice is gives its bytes back.
pub get_range-Located :
    (frame : List ℕ) (s : Slice)
    → Located frame s
    → get_range frame s.start (length s.bytes) ≡ s.bytes
unfolding get_range
get_range-Located frame s l =
    rw (le→leb (s.start + length s.bytes) (length frame) l.inside) (sym l.same)
