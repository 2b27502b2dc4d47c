-- ===== src/Bytes/Exact.antt =====
-- What each read returns, the shortfall included.
use custom_built_network_ana.Base.{
  ℕ, zero, suc, ◌+◌, ◌-◌, ◌/◌, ◌%◌, ◌≤◌, ◌<◌, List, [], ◌∷◌, ◌++◌, ◌≡◌, refl, sym, ap, ◌∙◌, arith,
  length, take, drop, lt→ltb, le→ltb, le→leb, length-append, length-drop, drop-drop,
}
use custom_built_network_ana.Error.{DecodeError, truncated, ok, err}
use custom_built_network_ana.Bytes.{
  Reader, Parser, ◌>>=◌, pure, lift, slice, here, remaining, need, advance, move, take_bytes, array,
  from_be, be_u16,
}
use custom_built_network_ana.Bytes.Ensures.{IsValid}

-- The links of a chain of reads.
module _ {ℓ κ} {A : Type ℓ} {B : Type κ} where
  pub then_ok :
      (p : Parser A) (f : A → Parser B) {r s : Reader} {a : A}
      → p r ≡ ok (a, s)
      → (p >>= f) r ≡ f a s
  unfolding ◌>>=◌
  then_ok p f e = rw (e, ◌>>=◌)

  pub then_err :
      (p : Parser A) (f : A → Parser B) {r : Reader} {x : DecodeError}
      → p r ≡ err x
      → (p >>= f) r ≡ err x
  unfolding ◌>>=◌
  then_err p f e = rw (e, ◌>>=◌)

need_enough : (n : ℕ) (r : Reader) → n ≤ remaining r → need n r ≡ ok (tt, r)
unfolding need
need_enough n r h = rw (le→ltb (remaining r) n h)

need_short :
    (n : ℕ) (r : Reader) → remaining r < n → need n r ≡ err (truncated r.layer n (remaining r))
unfolding need
need_short n r h = rw (lt→ltb (remaining r) n h)

slice_enough :
    (xs : List ℕ) (a b : ℕ) (r : Reader)
    → a ≤ b
    → b ≤ length xs
    → lift (slice xs a b) r ≡ ok (take (b - a) (drop a xs), r)
unfolding lift slice
slice_enough xs a b r h k = rw (le→leb a b h, le→leb b (length xs) k)

-- A read of `n` bytes returns exactly the next `n` bytes and moves past them.
pub take_bytes_enough :
    (n : ℕ) (r : Reader)
    → IsValid r
    → n ≤ remaining r
    → take_bytes n r ≡ ok (take n (drop r.pos r.buf), advance n r)
unfolding take_bytes here move pure
take_bytes_enough n r v h =
    then_ok _ _ (need_enough n r h)
    ∙ then_ok here _ refl
    ∙ then_ok _ _ (slice_enough r.buf r.pos (r.pos + n) r (omega arith) (omega (arith, v.within)))
    ∙ then_ok (move n) _ refl
    ∙ ap (λ k. ok (take k (drop r.pos r.buf), advance n r)) (omega arith)

-- A read that the buffer cannot serve names its layer, the bytes wanted and the bytes left.
pub take_bytes_short :
    (n : ℕ) (r : Reader)
    → remaining r < n
    → take_bytes n r ≡ err (truncated r.layer n (remaining r))
unfolding take_bytes
take_bytes_short n r h = then_err _ _ (need_short n r h)

pub take-append : (n : ℕ) (bs tail : List ℕ) → length bs ≡ n → take n (bs ++ tail) ≡ bs
take-append zero [] tail e = refl
take-append zero (b ∷ bs) tail e = absurd (omega arith)
take-append (suc n) [] tail e = absurd (omega arith)
take-append (suc n) (b ∷ bs) tail e = ap (◌∷◌ b) (take-append n bs tail (omega arith))

pub drop-append : (n : ℕ) (bs tail : List ℕ) → length bs ≡ n → drop n (bs ++ tail) ≡ tail
drop-append zero [] tail e = refl
drop-append zero (b ∷ bs) tail e = absurd (omega arith)
drop-append (suc n) [] tail e = absurd (omega arith)
drop-append (suc n) (b ∷ bs) tail e = drop-append n bs tail (omega arith)

module _ (r : Reader) (v : IsValid r) where
  -- The next bytes `bs` are read whole, if what lies behind the cursor begins with them.
  pub array_next :
      (n : ℕ) (bs tail : List ℕ)
      → length bs ≡ n
      → drop r.pos r.buf ≡ bs ++ tail
      → array n r ≡ ok (bs, advance n r)
  unfolding array
  array_next n bs tail len e =
      take_bytes_enough n r v
        (omega (arith, ap length e, length-append bs tail, length-drop r.pos r.buf))
      ∙ ap (λ b. ok (b, advance n r)) (ap (take n) e ∙ take-append n bs tail len)

  pub be_u16_next :
      (x : ℕ) (tail : List ℕ)
      → drop r.pos r.buf ≡ x / 256 ∷ x % 256 ∷ tail
      → be_u16 r ≡ ok (x, advance 2 r)
  unfolding be_u16 pure from_be
  be_u16_next x tail e =
      then_ok (array 2) _ (array_next 2 (x / 256 ∷ x % 256 ∷ []) tail refl e)
      ∙ ap (λ y. ok (y, advance 2 r)) (omega arith)

  pub advance-IsValid :
      (n : ℕ) (bs tail : List ℕ)
      → length bs ≡ n
      → drop r.pos r.buf ≡ bs ++ tail
      → IsValid (advance n r) × (drop (r.pos + n) r.buf ≡ tail)
  advance-IsValid n bs tail len e = (
    record {
      within = omega (arith, ap length e, length-append bs tail, length-drop r.pos r.buf, v.within);
      bytes = v.bytes;
    },
    sym (drop-drop n r.pos (r.pos + n) r.buf refl) ∙ ap (drop n) e ∙ drop-append n bs tail len,
  )
