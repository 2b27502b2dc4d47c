-- ===== src/Bytes.antt =====
-- crates/cbna-core/src/bytes.rs: the bounds-checked big-endian reader under every decoder.
-- A byte is a number below 256. A method that takes `&mut self` maps the reader to an outcome and the
-- new reader, so a chain of `?` is a `do` block.
pub mod Ensures
pub mod Reads
pub mod Exact
pub mod Loop
use custom_built_network_ana.Base.{
  ℕ, suc, ◌+◌, ◌-◌, ◌*◌, min, String, Bool, ◌&&◌, Option, none, some, List, [], ◌∷◌, ltb, leb, ◌==◌,
  if◌then◌else◌, length, get_or, take, drop,
}
use custom_built_network_ana.Error.{DecodeError, truncated, Outcome, ok, err, panic}

-- `buf[i]` and `buf[a..b]`, which panic out of range.
unfoldable pub index : List ℕ → ℕ → Outcome ℕ
index xs i = if ltb i (length xs) then ok (get_or xs i 0) else panic

unfoldable pub slice : List ℕ → ℕ → ℕ → Outcome (List ℕ)
slice xs a b = if leb a b && leb b (length xs) then ok (take (b - a) (drop a xs)) else panic

-- A subslice: where it starts in the buffer that it was cut from, and its bytes.
pub record Slice : Type 0 where
  pub start : ℕ
  pub bytes : List ℕ

-- `Reader<'a>`
pub record Reader : Type 0 where
  pub buf : List ℕ
  pub pos : ℕ
  pub layer : String

abbrev pub Parser {ℓ} : Type ℓ → Type ℓ
Parser A = Reader → Outcome (A × Reader)

-- `?` on an outcome.
abbrev pub and_then {ℓ κ} :
    {A : Type ℓ} {B : Type κ} → Outcome (A × Reader) → (A → Parser B) → Outcome (B × Reader)
and_then (ok (a, r)) f = f a r
and_then (err e) f = err e
and_then panic f = panic

-- `?` in a chain of calls.
infixl 5 ◌>>=◌ ◌>>◌
unfoldable pub ◌>>=◌ {ℓ κ} : {A : Type ℓ} {B : Type κ} → Parser A → (A → Parser B) → Parser B
◌>>=◌ p f r = and_then (p r) f

abbrev pub ◌>>◌ {ℓ} : {B : Type ℓ} → Parser (Unit {0}) → Parser B → Parser B
p >> q = p >>= λ _. q

unfoldable pub pure {ℓ} : {A : Type ℓ} → A → Parser A
pure a r = ok (a, r)

-- `if test { return Err(e) }`
unfoldable pub fail_if : Bool → DecodeError → Parser (Unit {0})
fail_if test e r = if test then err e else ok (tt, r)

-- A test between two ways to go on.
unfoldable pub branch {ℓ} : {A : Type ℓ} → Bool → Parser A → Parser A → Parser A
branch test p q r = if test then p r else q r

-- An index or a slice of some buffer, inside a chain.
unfoldable pub lift {ℓ} : {A : Type ℓ} → Outcome A → Parser A
lift o r = elim o [ ok a ↦ ok (a, r) | err e ↦ err e | panic ↦ panic ]

-- The outcome for a caller that drops the reader.
unfoldable pub eval {ℓ} : {A : Type ℓ} → Parser A → Reader → Outcome A
eval p r = elim (p r) [ ok (a, r') ↦ ok a | err e ↦ err e | panic ↦ panic ]

unfoldable pub new : List ℕ → String → Reader
new buf layer = record { buf = buf; pos = 0; layer = layer }

-- The subtraction does not go below 0, by `IsValid.within`.
abbrev pub remaining : Reader → ℕ
remaining r = length r.buf - r.pos

unfoldable pub position : Parser ℕ
position r = ok (r.pos, r)

pub is_empty : Reader → Bool
is_empty r = remaining r == 0

unfoldable pub need : ℕ → Parser (Unit {0})
need n r = if ltb (remaining r) n then err (truncated r.layer n (remaining r)) else ok (tt, r)

abbrev pub advance : ℕ → Reader → Reader
advance n r = record r { pos = r.pos + n }

-- `self.pos += n`
unfoldable pub move : ℕ → Parser (Unit {0})
move n r = ok (tt, advance n r)

unfoldable pub here : Parser Reader
here r = ok (r, r)

unfoldable pub u8 : Parser ℕ
unfolding need move lift index here pure
u8 = do need 1; r ← here; v ← lift (index r.buf r.pos); move 1; pure v

unfoldable pub peek_u8 : Parser ℕ
unfolding need lift index here
peek_u8 = do need 1; r ← here; lift (index r.buf r.pos)

-- `take`, and `array` with the length as an argument.
unfoldable pub take_bytes : ℕ → Parser (List ℕ)
unfolding need move lift slice here pure
take_bytes n = do need n; r ← here; s ← lift (slice r.buf r.pos (r.pos + n)); move n; pure s

unfoldable pub array : ℕ → Parser (List ℕ)
unfolding take_bytes
array n = take_bytes n

-- `from_be_bytes`
unfoldable pub from_be : ℕ → List ℕ → ℕ
from_be acc [] = acc
from_be acc (b ∷ bs) = from_be (acc * 256 + b) bs

unfoldable pub be_u16 : Parser ℕ
unfolding array from_be
be_u16 = do b ← array 2; pure (from_be 0 b)

unfoldable pub be_u24 : Parser ℕ
unfolding array from_be
be_u24 = do b ← array 3; pure (from_be 0 b)

unfoldable pub be_u32 : Parser ℕ
unfolding array from_be
be_u32 = do b ← array 4; pure (from_be 0 b)

unfoldable pub skip : ℕ → Parser (Unit {0})
unfolding need move
skip n = do need n; move n

unfoldable pub peek_rest : Parser (List ℕ)
unfolding lift slice
peek_rest r = lift (slice r.buf r.pos (length r.buf)) r

unfoldable pub rest : Parser Slice
unfolding peek_rest here move pure
rest = do s ← peek_rest; r ← here; move (remaining r); pure (record { start = r.pos; bytes = s })

unfoldable pub sub : ℕ → String → Parser Reader
unfolding take_bytes new pure
sub n layer = do s ← take_bytes n; pure (new s layer)

-- `&self.buf[..end]` with `end` at most the length.
unfoldable pub limit : ℕ → Parser (Unit {0})
limit n r = ok (tt, record r { buf = take (min (r.pos + n) (length r.buf)) r.buf })

-- `let Ok(x) = call else { … }`: a call that fails leaves the reader where it was.
abbrev pub or_none {ℓ} : {A : Type ℓ} → Outcome (A × Reader) → Reader → Outcome (Option A × Reader)
or_none (ok (a, s)) r = ok (some a, s)
or_none (err e) r = ok (none, r)
or_none panic r = panic

unfoldable pub attempt {ℓ} : {A : Type ℓ} → Parser A → Parser (Option A)
attempt p r = or_none (p r) r
