-- ===== src/Capture/Reads.antt =====
-- What `read_exact` and `skip` leave.
use custom_built_network_ana.Base.{
  ℕ, ◌+◌, ◌≤◌, Option, none, some, List, ◌≡◌, arith, length, leb→le, leb, on_if, length-take,
  length-drop,
}
use custom_built_network_ana.Bytes.Ensures.{AreBytes, take-AreBytes, drop-AreBytes}
use custom_built_network_ana.Capture.{read_exact, after_read, skip}

-- A read takes the bytes that it was asked for off the front, or finds too few.
pub data IsRead (n : ℕ) (bytes : List ℕ) : Option (List ℕ × List ℕ) → Type 0 where
  short : IsRead n bytes none
  whole :
      {bs left : List ℕ}
      → length bs ≡ n
      → n + length left ≡ length bytes
      → (AreBytes bytes → AreBytes bs × AreBytes left)
      → IsRead n bytes (some (bs, left))

pub read_exact_lem : (n : ℕ) (bytes : List ℕ) → IsRead n bytes (read_exact n bytes)
unfolding read_exact
read_exact_lem n bytes =
    on_if (IsRead n bytes) (leb n (length bytes)) _ none
      (λ t.
        let room : n ≤ length bytes = leb→le n (length bytes) t in
        whole (omega (arith, length-take n bytes, room)) (omega (arith, length-drop n bytes, room))
          λ m. (take-AreBytes n bytes m, drop-AreBytes n bytes m))
      λ _. short

pub data IsSkipped (n : ℕ) (bytes : List ℕ) : Option (List ℕ) → Type 0 where
  too_far : IsSkipped n bytes none
  past :
      {left : List ℕ}
      → n + length left ≡ length bytes
      → (AreBytes bytes → AreBytes left)
      → IsSkipped n bytes (some left)

after_read_lem :
    (n : ℕ) (bytes : List ℕ) {o : Option (List ℕ × List ℕ)}
    → IsRead n bytes o
    → IsSkipped n bytes (after_read o)
after_read_lem n bytes short = too_far
after_read_lem n bytes (whole e l m) = past l λ b. (m b).1

pub skip_lem : (n : ℕ) (bytes : List ℕ) → IsSkipped n bytes (skip n bytes)
unfolding skip
skip_lem n bytes = after_read_lem n bytes (read_exact_lem n bytes)
