-- ===== src/Bytes/Reads.antt =====
-- What each read of crates/cbna-core/src/bytes.rs returns, and how far it moves.
use custom_built_network_ana.Base.{
  ℕ, ◌+◌, ◌-◌, ◌*◌, ◌^◌, ◌≤◌, ◌<◌, min, String, List, [], ◌∷◌, ◌≡◌, refl, ap, ◌∙◌, inl, inr, arith,
  subst, tests, ltb, Bool-cases, length, get_or, take, drop, length-take, take-length-le, take-min,
  drop-take, length-drop, lt→ltb, le→leb,
}
use custom_built_network_ana.Bytes.{
  index, slice, Reader, ◌>>=◌, pure, lift, remaining, need, move, here, u8, peek_u8, take_bytes,
  array, from_be, be_u16, be_u24, be_u32, skip, peek_rest, rest, sub, limit, new,
}
use native.Mathlib.Nat.{pow-suc}
use custom_built_network_ana.Bytes.Ensures.{
  AreBytes, take-AreBytes, drop-AreBytes, get_or-lt, IsValid, Ensures, bind, bind_same, weaken,
  Moved, new-IsValid, pure_lem, returns, fails,
}

need_lem :
    (n : ℕ) (r : Reader)
    → IsValid r
    → Ensures (λ _ s. (r.pos + n ≤ length r.buf) × (s ≡ r)) (need n r)
unfolding need
need_lem n r v = elim (Bool-cases (ltb (remaining r) n)) [
  | inl short ↦ rw short fails
  | inr enough ↦ rw enough (returns v (omega tests, refl))
]

pub here_lem : (r : Reader) → IsValid r → Ensures (λ a s. (a ≡ r) × (s ≡ r)) (here r)
unfolding here
here_lem r v = returns v (refl, refl)

move_lem :
    (n : ℕ) (r : Reader)
    → IsValid r
    → r.pos + n ≤ length r.buf
    → Ensures (λ _ s. Moved n r s) (move n r)
unfolding move
move_lem n r v h =
    returns (record { within = h; bytes = v.bytes }) (record { buf = refl; pos = refl })

index_lem :
    (xs : List ℕ) (i : ℕ) (r : Reader)
    → IsValid r
    → i < length xs
    → Ensures (λ b s. (b ≡ get_or xs i 0) × (s ≡ r)) (lift (index xs i) r)
unfolding lift index
index_lem xs i r v h = rw (lt→ltb _ _ h) (returns v (refl, refl))

slice_lem :
    (xs : List ℕ) (a b : ℕ) (r : Reader)
    → IsValid r
    → a ≤ b
    → b ≤ length xs
    → Ensures (λ c s. (c ≡ take (b - a) (drop a xs)) × (s ≡ r)) (lift (slice xs a b) r)
unfolding lift slice
slice_lem xs a b r v h k = rw (le→leb _ _ h, le→leb _ _ k) (returns v (refl, refl))

pub u8_lem :
    (r : Reader)
    → IsValid r
    → Ensures (λ b s. (b < 256) × (b ≡ get_or r.buf r.pos 0) × Moved 1 r s) (u8 r)
unfolding u8
u8_lem r v = bind_same _ _ r v (need_lem 1 r v) λ _ room. bind_same _ _ r v (here_lem r v) λ t e.
    bind_same _ _ r v (index_lem t.buf t.pos r v (rw e (omega arith))) λ b e'.
      bind _ _ _ (move_lem 1 r v room)
        λ _ s w m. pure_lem b w (rw (e', e) (get_or-lt _ _ v.bytes), rw (e', e) refl, m)

pub peek_u8_lem :
    (r : Reader)
    → IsValid r
    → Ensures (λ b s. ((b < 256) × (b ≡ get_or r.buf r.pos 0)) × (s ≡ r)) (peek_u8 r)
unfolding peek_u8
peek_u8_lem r v = bind_same _ _ r v (need_lem 1 r v) λ _ room.
    bind_same _ _ r v (here_lem r v) λ t e.
      weaken (index_lem t.buf t.pos r v (rw e (omega arith)))
        λ b s w (e', same). ((rw (e', e) (get_or-lt _ _ v.bytes), rw (e', e) refl), same)

pub take_bytes_lem :
    (n : ℕ) (r : Reader)
    → IsValid r
    → Ensures
        (λ bs s. (length bs ≡ n) × (bs ≡ take n (drop r.pos r.buf)) × AreBytes bs × Moved n r s)
        (take_bytes n r)
unfolding take_bytes
take_bytes_lem n r v = bind_same _ _ r v (need_lem n r v) λ _ room.
    bind_same _ _ r v (here_lem r v) λ t e.
      bind_same _ _ r v (slice_lem t.buf t.pos (t.pos + n) r v (omega arith) (rw e room)) λ bs e'.
        bind _ _ _ (move_lem n r v room) λ _ s w m.
          let same : bs ≡ take n (drop r.pos r.buf) =
            e' ∙ rw e (ap (λ k. take k (drop r.pos r.buf)) (omega arith)) in
          pure_lem bs w (
            omega
                (arith, ap length same, length-take n (drop r.pos r.buf), length-drop r.pos r.buf),
            same,
            rw same (take-AreBytes n _ (drop-AreBytes r.pos _ v.bytes)),
            m,
          )

from_be-lt :
    (k acc : ℕ) (bs : List ℕ) → AreBytes bs → acc < k → from_be acc bs < k * 256 ^ length bs
unfolding from_be
from_be-lt k acc [] h p = omega arith
from_be-lt k acc (b ∷ bs) (q, h) p =
    rw pow-suc (omega (arith, from_be-lt (k * 256) (acc * 256 + b) bs h (omega arith)))

pub be_lem :
    (n : ℕ) (r : Reader)
    → IsValid r
    → Ensures
        (λ x s. (x < 256 ^ n) × (x ≡ from_be 0 (take n (drop r.pos r.buf))) × Moved n r s)
        ((array n >>= λ b. pure (from_be 0 b)) r)
unfolding array
be_lem n r v = bind _ _ _ (take_bytes_lem n r v) λ bs s w (len, e, h, m).
    pure_lem _ w
      (rw (← len) (omega (arith, from_be-lt 1 0 bs h (omega arith))), ap (from_be 0) e, m)

-- A 2-byte, a 3-byte and a 4-byte read, most significant byte first.
pub be_u16_lem :
    (r : Reader)
    → IsValid r
    → Ensures
        (λ x s. (x < 65536) × (x ≡ from_be 0 (take 2 (drop r.pos r.buf))) × Moved 2 r s)
        (be_u16 r)
unfolding be_u16
be_u16_lem r v = be_lem 2 r v

pub be_u24_lem :
    (r : Reader)
    → IsValid r
    → Ensures
        (λ x s. (x < 16777216) × (x ≡ from_be 0 (take 3 (drop r.pos r.buf))) × Moved 3 r s)
        (be_u24 r)
unfolding be_u24
be_u24_lem r v = be_lem 3 r v

pub be_u32_lem :
    (r : Reader)
    → IsValid r
    → Ensures
        (λ x s. (x < 4294967296) × (x ≡ from_be 0 (take 4 (drop r.pos r.buf))) × Moved 4 r s)
        (be_u32 r)
unfolding be_u32
be_u32_lem r v = be_lem 4 r v

pub array_lem :
    (n : ℕ) (r : Reader)
    → IsValid r
    → Ensures
        (λ bs s. (length bs ≡ n) × (bs ≡ take n (drop r.pos r.buf)) × AreBytes bs × Moved n r s)
        (array n r)
unfolding array
array_lem n r v = take_bytes_lem n r v

pub skip_lem : (n : ℕ) (r : Reader) → IsValid r → Ensures (λ _ s. Moved n r s) (skip n r)
unfolding skip
skip_lem n r v = bind_same _ _ r v (need_lem n r v) λ _ room. move_lem n r v room

pub peek_rest_lem :
    (r : Reader) → IsValid r → Ensures (λ bs s. (bs ≡ drop r.pos r.buf) × (s ≡ r)) (peek_rest r)
unfolding peek_rest
peek_rest_lem r v =
    weaken (slice_lem r.buf r.pos (length r.buf) r v v.within (omega arith)) λ bs s w (e, same).
      (e ∙ take-length-le (length r.buf - r.pos) _ (omega (arith, length-drop r.pos r.buf)), same)

-- `rest` hands over everything behind the cursor and leaves nothing.
pub rest_lem :
    (r : Reader)
    → IsValid r
    → Ensures
        (λ bs s. (bs.bytes ≡ drop r.pos r.buf) × (bs.start ≡ r.pos) × Moved (remaining r) r s)
        (rest r)
unfolding rest
rest_lem r v = bind_same _ _ r v (peek_rest_lem r v) λ bs e.
    bind_same _ _ r v (here_lem r v) λ t e'.
      bind _ _ _ (move_lem (remaining t) r v (rw e' (omega (arith, v.within))))
        λ _ s w m. pure_lem _ w (e, ap Reader.pos e', subst (λ u. Moved (remaining u) r s) e' m)

pub sub_lem :
    (n : ℕ) (layer : String) (r : Reader)
    → IsValid r
    → Ensures
        (λ t s.
          IsValid t
          × (t.buf ≡ take n (drop r.pos r.buf))
          × (t.pos ≡ 0)
          × (length t.buf ≡ n)
          × Moved n r s)
        (sub n layer r)
unfolding sub
sub_lem n layer r v =
    bind _ _ _ (take_bytes_lem n r v)
      λ bs s w (len, e, h, m). pure_lem _ w (new-IsValid bs layer h, e, refl, len, m)

-- The reader of `sub` is a new one, of the next bytes.
pub sub_new_lem :
    (n : ℕ) (layer : String) (r : Reader)
    → IsValid r
    → Ensures
        (λ t s. IsValid t × (t ≡ new (take n (drop r.pos r.buf)) layer) × Moved n r s)
        (sub n layer r)
unfolding sub
sub_new_lem n layer r v = bind _ _ _ (take_bytes_lem n r v) λ bs s w (len, e, h, m).
    pure_lem _ w (new-IsValid bs layer h, ap (λ (b : List ℕ). new b layer) e, m)

pub limit_lem :
    (n : ℕ) (r : Reader)
    → IsValid r
    → Ensures (λ _ s. (s.pos ≡ r.pos) × (drop s.pos s.buf ≡ take n (drop r.pos r.buf))) (limit n r)
unfolding limit
limit_lem n r v =
    returns
      (record {
        within = omega (arith, length-take (min (r.pos + n) (length r.buf)) r.buf, v.within);
        bytes = take-AreBytes _ r.buf v.bytes;
      })
      (
        refl,
        ap (drop r.pos) (take-min (r.pos + n) _ r.buf refl)
            ∙ drop-take r.pos n (r.pos + n) r.buf refl,
      )

-- A field that was read at `s`, found at its offset in the buffer of the reader the parser began with.
pub read_at :
    {r s : Reader} {m : ℕ} (n k x : ℕ)
    → Moved m r s
    → r.pos + m ≡ k
    → x ≡ from_be 0 (take n (drop s.pos s.buf))
    → x ≡ from_be 0 (take n (drop k r.buf))
read_at {r} {s} n k x m e h =
    h
    ∙ ap (λ p. from_be 0 (take n (drop p s.buf))) (m.pos ∙ e)
    ∙ ap (λ b. from_be 0 (take n (drop k b))) m.buf

-- The same of a single byte.
pub byte_at :
    {r s : Reader} {m : ℕ} (k x : ℕ)
    → Moved m r s
    → r.pos + m ≡ k
    → x ≡ get_or s.buf s.pos 0
    → x ≡ get_or r.buf k 0
byte_at {r} {s} k x m e h =
    h ∙ ap (λ p. get_or s.buf p 0) (m.pos ∙ e) ∙ ap (λ (b : List ℕ). get_or b k 0) m.buf

-- What lies behind the cursor, in a reader that began at the start of its buffer.
pub rest_at : {m : ℕ} {r s : Reader} → Moved m r s → r.pos ≡ 0 → drop s.pos s.buf ≡ drop m r.buf
rest_at {m} {r} {s} moved z =
    let e : s.pos ≡ m = omega (arith, moved.pos, z) in
    ap (λ p. drop p s.buf) e ∙ ap (drop m) moved.buf

-- `limit` cuts the buffer, and leaves the cursor.
pub limit_buf_lem :
    (n : ℕ) (r : Reader)
    → IsValid r
    → Ensures (λ _ s. (s.pos ≡ r.pos) × (s.buf ≡ take (r.pos + n) r.buf)) (limit n r)
unfolding limit
limit_buf_lem n r v =
    returns
      (record {
        within = omega (arith, length-take (min (r.pos + n) (length r.buf)) r.buf, v.within);
        bytes = take-AreBytes _ r.buf v.bytes;
      })
      (refl, take-min (r.pos + n) _ r.buf refl)
