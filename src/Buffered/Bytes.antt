-- ===== src/Buffered/Bytes.antt =====
-- What `write` does to each byte: the first writer wins, and a disagreement is reported.
use custom_built_network_ana.Base.{
  ℕ, zero, suc, ◌+◌, ◌≤◌, ◌<◌, Bool, true, false, List, [], ◌∷◌, ◌≡◌, refl, sym, ap, ◌∙◌, arith,
  if◌then◌else◌, length, get_or, set, length-set,
}
use custom_built_network_ana.Ranges.{Range, is_filled}
use custom_built_network_ana.Buffered.{write_bytes}

get_or-set_ne : (xs : List ℕ) (i j v : ℕ) → ¬ (i ≡ j) → get_or (set xs i v) j 0 ≡ get_or xs j 0
get_or-set_ne [] i j v h = refl
get_or-set_ne (x ∷ xs) zero zero v h = absurd (h refl)
get_or-set_ne (x ∷ xs) zero (suc j) v h = refl
get_or-set_ne (x ∷ xs) (suc i) zero v h = refl
get_or-set_ne (x ∷ xs) (suc i) (suc j) v h = get_or-set_ne xs i j v (λ e. h (ap suc e))

get_or-set_self : (xs : List ℕ) (i v : ℕ) → i < length xs → get_or (set xs i v) i 0 ≡ v
get_or-set_self [] i v h = absurd (omega arith)
get_or-set_self (x ∷ xs) zero v h = refl
get_or-set_self (x ∷ xs) (suc i) v h = get_or-set_self xs i v (omega arith)

-- The two ways of the loop for one byte.
abbrev kept : Bool → List ℕ → ℕ → ℕ → List ℕ
kept there buf i b = if there then buf else set buf i b

length-kept : (there : Bool) (buf : List ℕ) (i b : ℕ) → length (kept there buf i b) ≡ length buf
length-kept true buf i b = refl
length-kept false buf i b = length-set buf i b

kept_ne :
    (there : Bool) (buf : List ℕ) (i b j : ℕ)
    → ¬ (i ≡ j)
    → get_or (kept there buf i b) j 0 ≡ get_or buf j 0
kept_ne true buf i b j h = refl
kept_ne false buf i b j h = get_or-set_ne buf i j b h

pub length-write_bytes :
    (filled : List Range) (i : ℕ) (bs buf : List ℕ) (c : Bool)
    → length (write_bytes filled i bs buf c).0 ≡ length buf
unfolding write_bytes
length-write_bytes filled i [] buf c = refl
length-write_bytes filled i (b ∷ bs) buf c =
    length-write_bytes filled (i + 1) bs _ _ ∙ length-kept (is_filled filled i) buf i b

module _ (filled : List Range) where
  -- A byte before the payload's start is not touched.
  pub write_bytes_before :
      (i j : ℕ) (bs buf : List ℕ) (c : Bool)
      → j < i
      → get_or (write_bytes filled i bs buf c).0 j 0 ≡ get_or buf j 0
  unfolding write_bytes
  write_bytes_before i j [] buf c h = refl
  write_bytes_before i j (b ∷ bs) buf c h =
      write_bytes_before (i + 1) j bs _ _ (omega arith)
      ∙ kept_ne (is_filled filled i) buf i b j (omega arith)

  -- Nor is one behind its end.
  pub write_bytes_behind :
      (i j : ℕ) (bs buf : List ℕ) (c : Bool)
      → i + length bs ≤ j
      → get_or (write_bytes filled i bs buf c).0 j 0 ≡ get_or buf j 0
  unfolding write_bytes
  write_bytes_behind i j [] buf c h = refl
  write_bytes_behind i j (b ∷ bs) buf c h =
      write_bytes_behind (i + 1) j bs _ _ (omega arith)
      ∙ kept_ne (is_filled filled i) buf i b j (omega arith)

  -- Nor is a byte that was filled.
  pub write_bytes_filled :
      (i j : ℕ) (bs buf : List ℕ) (c : Bool)
      → is_filled filled j ≡ true
      → get_or (write_bytes filled i bs buf c).0 j 0 ≡ get_or buf j 0
  unfolding write_bytes
  write_bytes_filled i j [] buf c h = refl
  write_bytes_filled i j (b ∷ bs) buf c h =
      write_bytes_filled (i + 1) j bs _ _ h ∙ ground (arith, get_or-set_ne buf i j b)

  -- A byte that was not filled takes the payload's.
  pub write_bytes_new :
      (i k j : ℕ) (bs buf : List ℕ) (c : Bool)
      → j ≡ i + k
      → k < length bs
      → i + length bs ≤ length buf
      → is_filled filled j ≡ false
      → get_or (write_bytes filled i bs buf c).0 j 0 ≡ get_or bs k 0
  unfolding write_bytes
  write_bytes_new i k j [] buf c e h room f = absurd (omega arith)
  write_bytes_new i zero j (b ∷ bs) buf c e h room f =
      let same : i ≡ j = omega arith in
      write_bytes_before (i + 1) j bs _ _ (omega arith)
      ∙ rw (same, f) (get_or-set_self buf j b (omega arith))
  write_bytes_new i (suc k) j (b ∷ bs) buf c e h room f =
      write_bytes_new (i + 1) k j bs _ _ (omega arith) (omega arith)
        (omega (arith, length-kept (is_filled filled i) buf i b)) f

  conflict_start :
      (i : ℕ) (bs buf : List ℕ) (c : Bool) → (write_bytes filled i bs buf c).1 ≡ false → c ≡ false
  unfolding write_bytes
  conflict_start i [] buf c h = h
  conflict_start i (b ∷ bs) buf c h = ground (arith, conflict_start (i + 1) bs _ _ h)

  -- No report means that every byte that was there agrees.
  pub conflict_agrees :
      (i : ℕ) (bs buf : List ℕ) (c : Bool)
      → (write_bytes filled i bs buf c).1 ≡ false
      → (j k : ℕ) → j ≡ i + k
      → k < length bs
      → is_filled filled j ≡ true
      → get_or buf j 0 ≡ get_or bs k 0
  unfolding write_bytes
  conflict_agrees i [] buf c h j k e p f = absurd (omega arith)
  conflict_agrees i (b ∷ bs) buf c h j zero e p f =
      let same : i ≡ j = omega arith in ground (arith, conflict_start (i + 1) bs _ _ h)
  conflict_agrees i (b ∷ bs) buf c h j (suc k) e p f =
      sym (kept_ne (is_filled filled i) buf i b j (omega arith))
      ∙ conflict_agrees (i + 1) bs _ _ h j k (omega arith) (omega arith) f

  -- Where every byte that was there agrees, nothing is reported.
  pub agrees_conflict :
      (i : ℕ) (bs buf : List ℕ) (c : Bool)
      → c ≡ false
      → ((j k : ℕ)
          → j ≡ i + k
          → k < length bs
          → is_filled filled j ≡ true
          → get_or buf j 0 ≡ get_or bs k 0)
      → (write_bytes filled i bs buf c).1 ≡ false
  unfolding write_bytes
  agrees_conflict i [] buf c h agree = h
  agrees_conflict i (b ∷ bs) buf c h agree =
      agrees_conflict (i + 1) bs _ _ (ground (arith, agree i 0 (omega arith) (omega arith)))
        λ j k e p f.
          kept_ne (is_filled filled i) buf i b j (omega arith)
          ∙ agree j (suc k) (omega arith) (omega arith) f
