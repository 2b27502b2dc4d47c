-- ===== src/Net/ExtensionChain.antt =====
-- The chain of IPv6 extension headers that parse_ipv6 of crates/cbna-core/src/net.rs follows, described by the
-- bytes alone.
use custom_built_network_ana.Base.{
  ℕ, suc, ◌+◌, ◌*◌, ◌/◌, ◌%◌, ◌≤◌, true, ◌==◌, ◌⊎◌, get_or, List, ◌≡◌, take, drop,
}
use custom_built_network_ana.Bytes.{from_be}
use custom_built_network_ana.Net.{Extensions}

-- The numbers of the extension headers that are walked over.
abbrev pub IsOptions : ℕ → Type 0
IsOptions kind = (kind ≡ 0) ⊎ (kind ≡ 43) ⊎ (kind ≡ 60)

abbrev pub IsExtension : ℕ → Type 0
IsExtension kind = IsOptions kind ⊎ (kind ≡ 44) ⊎ (kind ≡ 51)

-- The variables behind a header at the offset `o` whose first byte names the next one.
abbrev pub passed : List ℕ → ℕ → Extensions → Extensions
passed buf o x = record x {
  next_header = get_or buf o 0;
  extension_headers = x.extension_headers + 1;
}

-- The variables behind a fragment header at the offset `o`.
abbrev pub fragment_at : List ℕ → ℕ → Extensions → Extensions
fragment_at buf o x = record {
  next_header = get_or buf o 0;
  extension_headers = x.extension_headers + 1;
  fragmented = true;
  fragment_offset = from_be 0 (take 2 (drop (o + 2) buf)) / 8 * 8;
  identification = from_be 0 (take 4 (drop (o + 4) buf));
  more_fragments = from_be 0 (take 2 (drop (o + 2) buf)) % 2 == 1;
}

-- The headers in `buf` from one offset to another, at most so many: options of 8 bytes and 8 for each that
-- their second byte counts, an authentication header of 8 and 4 for each, and fragment headers of 8, of which one
-- with an offset ends the walk, as any other header does.
pub data Chain (buf : List ℕ) : ℕ → Extensions → ℕ → Extensions → ℕ → Type 0 where
  no_rounds : {x : Extensions} {o : ℕ} → Chain buf 0 x o x o
  transport :
      {n : ℕ} {x : Extensions} {o : ℕ} → ¬ IsExtension x.next_header → Chain buf (suc n) x o x o
  options :
      {n o end : ℕ} {x y : Extensions}
      → IsOptions x.next_header
      → Chain buf n (passed buf o x) (o + 8 * (1 + get_or buf (o + 1) 0)) y end
      → Chain buf (suc n) x o y end
  authentication :
      {n o end : ℕ} {x y : Extensions}
      → x.next_header ≡ 51
      → Chain buf n (passed buf o x) (o + 4 * (2 + get_or buf (o + 1) 0)) y end
      → Chain buf (suc n) x o y end
  first_fragment :
      {n o end : ℕ} {x y : Extensions}
      → x.next_header ≡ 44
      → from_be 0 (take 2 (drop (o + 2) buf)) / 8 ≡ 0
      → Chain buf n (fragment_at buf o x) (o + 8) y end
      → Chain buf (suc n) x o y end
  later_fragment :
      {n o : ℕ} {x : Extensions}
      → x.next_header ≡ 44
      → 1 ≤ from_be 0 (take 2 (drop (o + 2) buf)) / 8
      → Chain buf (suc n) x o (fragment_at buf o x) (o + 8)
