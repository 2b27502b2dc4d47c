-- ===== src/Buffered/Invariant.antt =====
-- `write` as a whole: it keeps the invariant, the first writer wins, the new bytes are in place, and
-- it reports exactly the disagreements.
use custom_built_network_ana.Base.{
  ℕ, zero, suc, ◌+◌, ◌-◌, ◌≤◌, ◌<◌, min, max, Bool, true, false, ◌||◌, List, [], ◌∷◌, ◌++◌, ◌≡◌,
  ◌↔◌, refl, sym, ◌∙◌, inl, inr, arith, leb, Bool-cases, leb→le, length, get_or, take, replicate,
  length-append, length-replicate, length-take,
}
use custom_built_network_ana.Ranges.{Range, is_filled, add_range, AreBelow, holds}
use custom_built_network_ana.Ranges.Insert.{add_range-AreRanges, add_range-AreBelow}
use custom_built_network_ana.Ranges.Cover.{add_range-is_filled}
use custom_built_network_ana.Buffered.{Buffered, grow, write_bytes, write, IsBuffered}
use custom_built_network_ana.Buffered.Bytes.{
  length-write_bytes, write_bytes_filled, write_bytes_new, conflict_agrees, agrees_conflict,
}

length-grow : (buf : List ℕ) (end : ℕ) → length (grow buf end) ≡ max (length buf) end
unfolding grow
length-grow buf end = ground (
  arith,
  length-append buf (replicate (end - length buf) 0),
  length-replicate {A = ℕ} (end - length buf) 0,
)

get_or-replicate : (n j : ℕ) → get_or {A = ℕ} (replicate n 0) j 0 ≡ 0
get_or-replicate zero j = refl
get_or-replicate (suc n) zero = refl
get_or-replicate (suc n) (suc j) = get_or-replicate n j

get_or-append : (xs : List ℕ) (n j : ℕ) → get_or (xs ++ replicate n 0) j 0 ≡ get_or xs j 0
get_or-append [] n j = get_or-replicate n j
get_or-append (x ∷ xs) n zero = refl
get_or-append (x ∷ xs) n (suc j) = get_or-append xs n j

get_or-grow : (buf : List ℕ) (end j : ℕ) → get_or (grow buf end) j 0 ≡ get_or buf j 0
unfolding grow
get_or-grow buf end j = ground (arith, get_or-append buf (end - length buf) j)

pub get_or-take : (n j : ℕ) (xs : List ℕ) → j < n → get_or (take n xs) j 0 ≡ get_or xs j 0
get_or-take zero j xs h = absurd (omega arith)
get_or-take (suc n) j [] h = refl
get_or-take (suc n) zero (x ∷ xs) h = refl
get_or-take (suc n) (suc j) (x ∷ xs) h = get_or-take n j xs (omega arith)

AreBelow-mono : (rs : List Range) (m n : ℕ) → m ≤ n → AreBelow m rs → AreBelow n rs
AreBelow-mono [] m n h k = tt
AreBelow-mono ((s, e) ∷ rs) m n h (p, k) = (omega arith, AreBelow-mono rs m n h k)

-- Where the payload ends in the buffer.
abbrev pub end_of : ℕ → ℕ → List ℕ → ℕ
end_of cap offset payload = min (offset + length payload) cap

-- What a write of `payload` at `offset` does.
pub record Written (cap : ℕ) (w : Buffered) (offset : ℕ) (payload : List ℕ) (out : Buffered × Bool)
    : Type 0 where
  pub valid : IsBuffered cap out.0
  pub first_wins : (j : ℕ) → is_filled w.filled j ≡ true → get_or out.0.buf j 0 ≡ get_or w.buf j 0
  pub new :
      (j k : ℕ)
      → j ≡ offset + k
      → k < length payload
      → j < cap
      → is_filled w.filled j ≡ false
      → get_or out.0.buf j 0 ≡ get_or payload k 0
  pub covers :
      (j : ℕ)
      → is_filled out.0.filled j
        ≡ (holds (offset, end_of cap offset payload) j || is_filled w.filled j)
  pub reports : (out.1 ≡ false) ↔ (
      (j k : ℕ)
      → j ≡ offset + k
      → k < length payload
      → j < cap
      → is_filled w.filled j ≡ true
      → get_or w.buf j 0 ≡ get_or payload k 0)

module _ (cap : ℕ) (w : Buffered) (offset : ℕ) (payload : List ℕ) (v : IsBuffered cap w) where
  abbrev end : ℕ
  end = end_of cap offset payload

  abbrev written : Buffered × Bool
  written =
      let (buf, conflict) =
        write_bytes w.filled offset (take (end - offset) payload) (grow w.buf end) false in
      (record { buf = buf; filled = add_range w.filled offset end }, conflict)

  abbrev part : List ℕ
  part = take (end - offset) payload

  abbrev room : List ℕ
  room = grow w.buf end

  length-part : length part ≡ end - offset
  length-part = omega (arith, length-take (end - offset) payload)

  length-written : length written.0.buf ≡ max (length w.buf) end
  length-written = length-write_bytes w.filled offset part room false ∙ length-grow w.buf end

  nothing : end ≤ offset → Written cap w offset payload (w, false)
  nothing h = record {
    valid = v;
    first_wins = λ j f. refl;
    new = λ j k e p q f. absurd (omega arith);
    covers = λ j. ground arith;
    reports = ((λ _ j k e p q f. absurd (omega arith)), λ _. refl);
  }

  something : offset < end → Written cap w offset payload written
  something h = record {
    valid = record {
      ranges = add_range-AreRanges w.filled offset end v.ranges h;
      inside = rw length-written (
          add_range-AreBelow w.filled _ offset end v.ranges h
            (AreBelow-mono w.filled _ _ (omega arith) v.inside) (omega arith));
      bounded = omega (arith, length-written, v.bounded);
    };
    first_wins = λ j f. write_bytes_filled w.filled offset j _ _ _ f ∙ get_or-grow w.buf end j;
    new = λ j k e p q f.
        write_bytes_new w.filled offset k j part room false e (omega (arith, length-part))
          (omega (arith, length-part, length-grow w.buf end)) f
        ∙ get_or-take (end - offset) k payload (omega arith);
    covers = λ j. add_range-is_filled w.filled offset end j v.ranges h;
    reports = (
      (λ r j k e p q f.
          sym (get_or-grow w.buf end j)
          ∙ conflict_agrees w.filled offset part room false r j k e (omega (arith, length-part)) f
          ∙ get_or-take (end - offset) k payload (omega arith)),
      λ agree. agrees_conflict w.filled offset part room false refl λ j k e p f.
          get_or-grow w.buf end j
          ∙ agree j k e (omega (arith, length-part)) (omega (arith, length-part)) f
          ∙ sym (get_or-take (end - offset) k payload (omega (arith, length-part))),
    );
  }

  -- A write into a buffer that is in order keeps it so. A byte that was there stays; one that was not takes the payload's
  -- value; exactly those offsets are filled besides, cut at the cap; and the report is true exactly
  -- if some byte of the payload differs from one that was there.
  pub write_lem : Written cap w offset payload (write cap w offset payload)
  unfolding write
  write_lem = elim (Bool-cases (leb end offset)) [
    | inl h ↦ rw h (nothing (leb→le end offset h))
    | inr h ↦ rw h (something (ground arith))
  ]
