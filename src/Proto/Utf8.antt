-- ===== src/Proto/Utf8.antt =====
-- `String::from_utf8_lossy` and `str::from_utf8` of the standard library, on bytes: how the decoders of
-- crates/cbna-core/src/proto make texts.
use custom_built_network_ana.Base.{
  ℕ, zero, suc, Bool, true, false, not, ◌&&◌, List, [], ◌∷◌, ◌++◌, ltb, leb, ◌==◌, if◌then◌else◌,
  length, get_or, take, drop,
}

abbrev between : ℕ → ℕ → ℕ → Bool
between a b x = leb a x && leb x b

-- The second byte that may follow a first byte of a sequence of three or four.
second_of_three : ℕ → ℕ → Bool
second_of_three a b =
    if a == 224
    then between 160 191 b
    else if a == 237
    then between 128 159 b
    else between 128 191 b

second_of_four : ℕ → ℕ → Bool
second_of_four a b =
    if a == 240
    then between 144 191 b
    else if a == 244
    then between 128 143 b
    else between 128 191 b

-- The first character of a text: whether it is well formed, and the bytes that it or the ill-formed
-- part of it takes.
unfoldable pub first_char : List ℕ → Bool × ℕ
unfolding second_of_three second_of_four
first_char xs =
    let a = get_or xs 0 0 in
    let b = get_or xs 1 0 in
    let c = get_or xs 2 0 in
    let d = get_or xs 3 0 in
    if ltb a 128
    then (true, 1)
    else if between 194 223 a
    then if between 128 191 b then (true, 2) else (false, 1)
    else if between 224 239 a
    then if not (second_of_three a b)
      then (false, 1)
      else if between 128 191 c
      then (true, 3)
      else (false, 2)
    else if between 240 244 a
    then if not (second_of_four a b)
      then (false, 1)
      else if not (between 128 191 c)
      then (false, 2)
      else if between 128 191 d
      then (true, 4)
      else (false, 3)
    else (false, 1)

-- The rounds are bounded by the bytes, since each takes one at least.
unfoldable pub lossy_rounds : ℕ → List ℕ → List ℕ
unfolding first_char
lossy_rounds zero xs = []
lossy_rounds (suc fuel) [] = []
lossy_rounds (suc fuel) (x ∷ xs) =
    let (valid, n) = first_char (x ∷ xs) in
    let rest = lossy_rounds fuel (drop n (x ∷ xs)) in
    if valid then take n (x ∷ xs) ++ rest else 239 ∷ 191 ∷ 189 ∷ rest

unfoldable pub from_utf8_lossy : List ℕ → List ℕ
unfolding lossy_rounds
from_utf8_lossy xs = lossy_rounds (length xs) xs
