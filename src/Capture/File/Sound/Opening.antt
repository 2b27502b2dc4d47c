-- ===== src/Capture/File/Sound/Opening.antt =====
-- Where the first packet of a capture file begins, and what its header says of the packets.
use custom_built_network_ana.Base.{
  ℕ, ◌+◌, ◌-◌, ◌*◌, ◌/◌, ◌%◌, ◌≤◌, Bool, true, false, ◌||◌, some, none, List, [], ◌∷◌, ◌≡◌, refl,
  sym, ap, ◌∙◌, arith, ◌==◌, ==_iff, leb, length, on_if, take, drop, take-drop-take, drop-drop,
  length-take, length-drop, leb→le, if◌then◌else◌, ◌⊎◌, inl, inr,
}
use custom_built_network_ana.Bytes.{from_be}
use custom_built_network_ana.Bytes.Ensures.{AreBytes, take-AreBytes, drop-AreBytes}
use custom_built_network_ana.Capture.{
  from_le, from_bytes, Result, success, failure, field, read_exact, after_read, skip,
}
use custom_built_network_ana.Packet.{ethernet, from_u32}
use custom_built_network_ana.Capture.File.{
  pcap, pcap_ng, FileSource, initial, with_header, read_pcap_header, is_block_length, skipped_to,
  section_of, in_byte_order, read_pcapng_section_header, by_magic, from_reader,
}

-- The word of four bytes at an offset, in the file's byte order.
abbrev pub word_at : Bool → ℕ → List ℕ → ℕ
word_at big_endian o bytes =
    if big_endian then from_be 0 (take 4 (drop o bytes)) else from_le (take 4 (drop o bytes))

-- A pcap file: its magic number tells the byte order and the unit of the timestamps, its link type stands
-- at 20, and the packets begin at 24.
pub record IsPcapStart (bytes : List ℕ) (src : FileSource) : Type 0 where
  pub format : src.format ≡ pcap
  pub magic :
      word_at src.big_endian 0 bytes ≡ (if src.nanosecond_ts then 0xA1B23C4D else 0xA1B2C3D4)
  pub link : src.link_type ≡ from_u32 (word_at src.big_endian 20 bytes)
  pub room : 24 ≤ length bytes
  pub left : src.reader ≡ drop 24 bytes

-- A pcapng file: a section header begins it, whose magic number tells the byte order, and the next block
-- begins where the length of the section header says.
pub record IsSectionStart (bytes : List ℕ) (src : FileSource) : Type 0 where
  pub format : src.format ≡ pcap_ng
  pub section : from_be 0 (take 4 bytes) ≡ 0x0A0D0D0A
  pub magic : word_at src.big_endian 8 bytes ≡ 0x1A2B3C4D
  pub link : src.link_type ≡ ethernet
  pub length_min : 12 ≤ word_at src.big_endian 4 bytes
  pub length_max : word_at src.big_endian 4 bytes ≤ 16777216
  pub room : word_at src.big_endian 4 bytes ≤ length bytes
  pub left : src.reader ≡ drop (word_at src.big_endian 4 bytes) bytes

-- Refused, or begun in one of the two formats.
abbrev pub IsBegun : List ℕ → Result FileSource → Type 0
IsBegun bytes (failure e) = Unit {0}
IsBegun bytes (success src) = IsPcapStart bytes src ⊎ IsSectionStart bytes src

-- The bytes of a word of 32 bits in the other order.
abbrev swap_bytes : ℕ → ℕ
swap_bytes n = n % 256 * 16777216 + n / 256 % 256 * 65536 + n / 65536 % 256 * 256 + n / 16777216

from_be-swap_bytes :
    (bs : List ℕ) → AreBytes bs → length bs ≡ 4 → from_be 0 bs ≡ swap_bytes (from_le bs)
unfolding from_be from_le
from_be-swap_bytes (w ∷ x ∷ y ∷ z ∷ []) (h, (k, (l, (m, _)))) e = omega arith
from_be-swap_bytes [] h e = absurd (omega arith)
from_be-swap_bytes (w ∷ []) h e = absurd (omega arith)
from_be-swap_bytes (w ∷ x ∷ []) h e = absurd (omega arith)
from_be-swap_bytes (w ∷ x ∷ y ∷ []) h e = absurd (omega arith)
from_be-swap_bytes (w ∷ x ∷ y ∷ z ∷ v ∷ bs) h e = absurd (omega arith)

module _ (bytes : List ℕ) (b : AreBytes bytes) where
  swapped :
      (o n k : ℕ)
      → o + 4 ≤ length bytes
      → from_le (take 4 (drop o bytes)) ≡ n
      → swap_bytes n ≡ k
      → from_be 0 (take 4 (drop o bytes)) ≡ k
  swapped o n k room e f =
      from_be-swap_bytes _ (take-AreBytes 4 _ (drop-AreBytes o bytes b))
        (omega (arith, length-take 4 (drop o bytes), length-drop o bytes))
      ∙ ap swap_bytes e
      ∙ f

  -- A field of a header of `n` bytes that was read behind the first `m` bytes.
  field_at :
      (big_endian : Bool) (o n m k : ℕ)
      → o + 4 ≤ n
      → k ≡ m + o
      → field big_endian o (take n (drop m bytes)) ≡ word_at big_endian k bytes
  unfolding field from_bytes
  field_at big_endian o n m k h e =
      ap (λ (bs : List ℕ). if big_endian then from_be 0 bs else from_le bs)
        (take-drop-take 4 o n (drop m bytes) h ∙ ap (take 4) (drop-drop o m k bytes e))

  pcap_lem :
      (big_endian nanosecond : Bool)
      → 4 ≤ length bytes
      → word_at big_endian 0 bytes ≡ (if nanosecond then 0xA1B23C4D else 0xA1B2C3D4)
      → IsBegun bytes (read_pcap_header big_endian nanosecond (drop 4 bytes))
  unfolding read_pcap_header read_exact with_header initial
  pcap_lem big_endian nanosecond room magic =
      on_if (λ o. IsBegun bytes (with_header big_endian nanosecond o))
        (leb 20 (length (drop 4 bytes))) (some (take 20 (drop 4 bytes), drop 20 (drop 4 bytes)))
        none
        (λ t. inl (record {
          format = refl;
          magic = magic;
          link = ap from_u32 (field_at big_endian 16 20 4 20 (omega arith) (omega arith));
          room = omega (arith, leb→le _ _ t, length-drop 4 bytes);
          left = drop-drop 20 4 24 bytes (omega arith);
        }))
        λ _. tt

  skipped_lem :
      (big_endian : Bool) (total : ℕ)
      → total ≡ word_at big_endian 4 bytes
      → is_block_length total ≡ true
      → 12 ≤ length bytes
      → from_be 0 (take 4 bytes) ≡ 0x0A0D0D0A
      → word_at big_endian 8 bytes ≡ 0x1A2B3C4D
      → IsBegun bytes (skipped_to big_endian (skip (total - 12) (drop 8 (drop 4 bytes))))
  unfolding skip read_exact skipped_to initial
  skipped_lem big_endian total same fits room section magic =
      let behind : drop 8 (drop 4 bytes) ≡ drop 12 bytes = drop-drop 8 4 12 bytes (omega arith) in
      let min : 12 ≤ total = ground (arith, fits) in
      let max : total ≤ 16777216 = ground (arith, fits) in
      let left = drop 8 (drop 4 bytes) in
      on_if (λ o. IsBegun bytes (skipped_to big_endian (after_read o)))
        (leb (total - 12) (length left)) (some (take (total - 12) left, drop (total - 12) left))
        none
        (λ t. inr (record {
          format = refl;
          section = section;
          magic = magic;
          link = refl;
          length_min = omega (arith, same, min);
          length_max = omega (arith, same, max);
          room =
              omega (arith, same, min, leb→le _ _ t, ap length behind, length-drop 12 bytes, room);
          left =
              ap (drop (total - 12)) behind
              ∙ drop-drop (total - 12) 12 total bytes (omega (arith, min))
              ∙ ap (λ k. drop k bytes) same;
        }))
        λ _. tt

  section_lem :
      (big_endian : Bool)
      → 12 ≤ length bytes
      → from_be 0 (take 4 bytes) ≡ 0x0A0D0D0A
      → word_at big_endian 8 bytes ≡ 0x1A2B3C4D
      → IsBegun bytes (section_of big_endian (take 8 (drop 4 bytes)) (drop 8 (drop 4 bytes)))
  unfolding section_of
  section_lem big_endian room section magic =
      let total = field big_endian 0 (take 8 (drop 4 bytes)) in
      on_if (IsBegun bytes) (is_block_length total) _ _
        (λ t.
          skipped_lem big_endian total (field_at big_endian 0 8 4 4 (omega arith) (omega arith)) t
            room section magic)
        λ _. tt

  byte_order_lem :
      12 ≤ length bytes
      → from_be 0 (take 4 bytes) ≡ 0x0A0D0D0A
      → IsBegun bytes (in_byte_order (some (take 8 (drop 4 bytes), drop 8 (drop 4 bytes))))
  unfolding in_byte_order
  byte_order_lem room section =
      let here : field false 4 (take 8 (drop 4 bytes)) ≡ from_le (take 4 (drop 8 bytes)) =
        field_at false 4 8 4 8 (omega arith) (omega arith) in
      let word = field false 4 (take 8 (drop 4 bytes)) in
      on_if (IsBegun bytes) (word == 439041101) _ _
        (λ t. section_lem false room section (sym here ∙ (==_iff word _).0 t))
        λ _.
          on_if (IsBegun bytes) (word == 1295788826) _ _
            (λ t.
              section_lem true room section (
                swapped 8 1295788826 439041101 room (sym here ∙ (==_iff word _).0 t) (omega arith)))
            λ _. tt

  pcapng_lem :
      4 ≤ length bytes
      → from_be 0 (take 4 bytes) ≡ 0x0A0D0D0A
      → IsBegun bytes (read_pcapng_section_header (drop 4 bytes))
  unfolding read_pcapng_section_header read_exact in_byte_order
  pcapng_lem room section =
      on_if (λ o. IsBegun bytes (in_byte_order o)) (leb 8 (length (drop 4 bytes)))
        (some (take 8 (drop 4 bytes), drop 8 (drop 4 bytes))) none
        (λ t. byte_order_lem (omega (arith, leb→le _ _ t, length-drop 4 bytes)) section) λ _. tt

  section_type :
      4 ≤ length bytes
      → (from_be 0 (take 4 bytes) == 168627466 || from_le (take 4 bytes) == 168627466) ≡ true
      → from_be 0 (take 4 bytes) ≡ 0x0A0D0D0A
  section_type room t = elim (either (from_be 0 (take 4 bytes)) (from_le (take 4 bytes)) t) [
    | inl e ↦ e
    | inr e ↦ swapped 0 168627466 168627466 room e (omega arith)
  ]
    where
      either :
          (x y : ℕ) → (x == 168627466 || y == 168627466) ≡ true → (x ≡ 168627466) ⊎ (y ≡ 168627466)
      either x y t = ground arith

  magic_lem : 4 ≤ length bytes → IsBegun bytes (by_magic (some (take 4 bytes, drop 4 bytes)))
  unfolding by_magic
  magic_lem room =
      let word = from_le (take 4 bytes) in
      on_if (IsBegun bytes) (word == 2712847316) _ _
        (λ t. pcap_lem false false room ((==_iff word _).0 t))
        λ _.
          on_if (IsBegun bytes) (word == 2712812621) _ _
            (λ t. pcap_lem false true room ((==_iff word _).0 t))
            λ _.
              on_if (IsBegun bytes) (word == 3569595041) _ _
                (λ t.
                  pcap_lem true false room
                    (swapped 0 3569595041 2712847316 room ((==_iff word _).0 t) (omega arith)))
                λ _.
                  on_if (IsBegun bytes) (word == 1295823521) _ _
                    (λ t.
                      pcap_lem true true room
                        (swapped 0 1295823521 2712812621 room ((==_iff word _).0 t) (omega arith)))
                    λ _.
                      on_if (IsBegun bytes)
                        (from_be 0 (take 4 bytes) == 168627466 || word == 168627466) _ _
                        (λ t. pcapng_lem room (section_type room t)) λ _. tt

  pub from_reader-IsBegun : IsBegun bytes (from_reader bytes)
  unfolding from_reader read_exact by_magic
  from_reader-IsBegun =
      on_if (λ o. IsBegun bytes (by_magic o)) (leb 4 (length bytes))
        (some (take 4 bytes, drop 4 bytes)) none (λ t. magic_lem (leb→le _ _ t)) λ _. tt
