-- ===== src/Ioc/Domain.antt =====
-- crates/cbna-core/src/ioc.rs: the shape of names and hashes.
use custom_built_network_ana.Base.{
  ℕ, ◌+◌, Bool, true, false, not, ◌&&◌, ◌||◌, Option, none, some, List, [], ◌∷◌, map, leb, ◌==◌,
  if◌then◌else◌, length,
}
use custom_built_network_ana.Proto.{Text}

unfoldable pub is_none {ℓ} : {A : Type ℓ} → List A → Bool
is_none [] = true
is_none (a ∷ rest) = false

unfoldable pub has : ℕ → Text → Bool
has c [] = false
has c (b ∷ bs) = b == c || has c bs

-- `split_once`
abbrev pub behind_byte : ℕ → Option (Text × Text) → Option (Text × Text)
behind_byte b none = none
behind_byte b (some (front, rest)) = some (b ∷ front, rest)

unfoldable pub split_once : ℕ → Text → Option (Text × Text)
split_once c [] = none
split_once c (b ∷ bs) =
    let further : Option (Text × Text) = behind_byte b (split_once c bs) in
    if b == c then some ([], bs) else further

abbrev pub lower : ℕ → ℕ
lower b = if leb 65 b && leb b 90 then b + 32 else b

-- `trim_end_matches('.')`
unfoldable pub trim_end_dots : Text → Text
trim_end_dots [] = []
trim_end_dots (b ∷ bs) =
    let rest : Text = trim_end_dots bs in if (b == 46) && is_none rest then [] else b ∷ rest

abbrev pub is_digit : ℕ → Bool
is_digit b = leb 48 b && leb b 57

abbrev pub is_hex : ℕ → Bool
is_hex b = is_digit b || (leb 65 b && leb b 70) || (leb 97 b && leb b 102)

abbrev pub is_alphanumeric : ℕ → Bool
is_alphanumeric b = is_digit b || (leb 65 b && leb b 90) || (leb 97 b && leb b 122)

unfoldable pub all_bytes : (ℕ → Bool) → Text → Bool
all_bytes p [] = true
all_bytes p (b ∷ bs) = p b && all_bytes p bs

unfoldable pub is_ja3 : Text → Bool
is_ja3 token = (length token == 32) && all_bytes is_hex token

unfoldable pub check_domain : Text → Option Text
check_domain d =
    if is_none d || not (has 46 d)
    then none
    else if not (all_bytes (λ b. is_alphanumeric b || b == 45 || b == 46) d)
    then none
    else some d

unfoldable pub normalise_domain : Text → Option Text
normalise_domain token = check_domain (map lower (trim_end_dots token))
