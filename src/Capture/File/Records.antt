-- ===== src/Capture/File/Records.antt =====
-- A record that `PcapWriter` writes is read back.
use custom_built_network_ana.Base.{
  ℕ, ℤ, pos, negsuc, ◌+ℤ◌, ◌+◌, ◌-◌, ◌/◌, ◌%◌, ◌≤◌, ◌<◌, max, true, false, none, some, List, [],
  ◌++◌, ◌≡◌, refl, sym, ap, ◌∙◌, arith, leb, ltb, length, drop, if_true, if_false, length-append,
}
use custom_built_network_ana.Error.{ok}
use custom_built_network_ana.Bytes.Exact.{take-append, drop-append}
use custom_built_network_ana.Packet.{LinkType, Timestamp}
use custom_built_network_ana.Capture.{
  max_packet_bytes, RawPacket, raw_packet, timestamp, from_le, from_bytes, read_exact, field,
  le_u32,
}
use custom_built_network_ana.Capture.Writer.{as_u32, packet_bytes}
use custom_built_network_ana.Capture.File.{
  pcap, FileSource, Next, packet, with_data, pcap_record, with_record, next_pcap,
}
use custom_built_network_ana.Capture.File.Sections.{next_in, next_packet}

pub from_le-le_u32 : (x : ℕ) → x < 4294967296 → from_le (le_u32 x) ≡ x
unfolding from_le le_u32
from_le-le_u32 x h = omega arith

pub read_exact-append :
    (n : ℕ) (bs tail : List ℕ) → length bs ≡ n → read_exact n (bs ++ tail) ≡ some (bs, tail)
unfolding read_exact
read_exact-append n bs tail e =
    if_true (leb n (length (bs ++ tail))) none (ground (arith, e, length-append bs tail))
    ∙ ap (λ a. some (a, drop n (bs ++ tail))) (take-append n bs tail e)
    ∙ ap (λ b. some (bs, b)) (drop-append n bs tail e)

abbrev at : ℤ → ℕ → Timestamp
at secs nanos = record { secs = secs; nanos = nanos }

timestamp_lem : (n nanos : ℕ) → nanos < 1000000000 → timestamp (pos n) nanos ≡ at (pos n) nanos
unfolding timestamp ◌+ℤ◌
timestamp_lem n nanos h =
    let whole : nanos / 1000000000 ≡ 0 = omega arith in
    let rest : nanos % 1000000000 ≡ nanos = omega arith in
    let same : n + nanos / 1000000000 ≡ n = omega (arith, whole) in
    rw (same, rest)
      (ap (λ s. at s nanos)
        (if_true (leb 0 n) (negsuc (0 - n - 1)) (ground arith) ∙ ap pos (omega arith)))

-- What a record of the file can hold.
pub record IsWritable (p : RawPacket) : Type 0 where
  pub since : ℕ
  pub secs : p.meta.timestamp.secs ≡ pos since
  pub in_word : since < 4294967296
  pub nanos : p.meta.timestamp.nanos < 1000000000
  pub on_wire : length p.bytes ≤ p.meta.wire_len
  pub wire_len : p.meta.wire_len < 4294967296
  pub limit : length p.bytes ≤ max_packet_bytes

record_header : RawPacket → List ℕ
record_header p =
    le_u32 (as_u32 p.meta.timestamp.secs)
    ++ (le_u32 p.meta.timestamp.nanos ++ (le_u32 (length p.bytes) ++ le_u32 p.meta.wire_len))

packet_bytes-record_header :
    (p : RawPacket) (tail : List ℕ) → packet_bytes p ++ tail ≡ record_header p ++ (p.bytes ++ tail)
unfolding packet_bytes record_header le_u32
packet_bytes-record_header p tail = refl

length-record_header : (p : RawPacket) → length (record_header p) ≡ 16
unfolding record_header le_u32
length-record_header p = refl

-- The words of a record's header.
word_0 :
    (p : RawPacket)
    → field false 0 (record_header p) ≡ from_le (le_u32 (as_u32 p.meta.timestamp.secs))
unfolding field from_bytes record_header le_u32
word_0 p = refl

word_4 : (p : RawPacket) → field false 4 (record_header p) ≡ from_le (le_u32 p.meta.timestamp.nanos)
unfolding field from_bytes record_header le_u32
word_4 p = refl

word_8 : (p : RawPacket) → field false 8 (record_header p) ≡ from_le (le_u32 (length p.bytes))
unfolding field from_bytes record_header le_u32
word_8 p = refl

word_12 : (p : RawPacket) → field false 12 (record_header p) ≡ from_le (le_u32 p.meta.wire_len)
unfolding field from_bytes record_header le_u32
word_12 p = refl

-- A file of nanoseconds in this byte order, at some packet.
unfoldable pub reading : LinkType → ℕ → List ℕ → FileSource
reading link index left = record {
  format = pcap;
  reader = left;
  big_endian = false;
  nanosecond_ts = true;
  link_type = link;
  interfaces = [];
  index = index;
  finished = false;
}

-- The packet as the file numbers it.
abbrev pub renumbered : ℕ → RawPacket → RawPacket
renumbered index p = record {
  meta = record {
    index = index;
    timestamp = p.meta.timestamp;
    captured_len = length p.bytes;
    wire_len = p.meta.wire_len;
  };
  bytes = p.bytes;
}

as_u32_lem : (p : RawPacket) (w : IsWritable p) → as_u32 p.meta.timestamp.secs ≡ w.since
as_u32_lem p w = ap as_u32 w.secs ∙ omega (arith, w.in_word)

module _ (link : LinkType) (index : ℕ) (p : RawPacket) (w : IsWritable p) (old tail : List ℕ) where
  abbrev given : ℕ → Timestamp → Next × FileSource
  given wire_len t = (
    packet (record {
      meta = record {
        index = index;
        timestamp = t;
        captured_len = length p.bytes;
        wire_len = wire_len;
      };
      bytes = p.bytes;
    }),
    reading link index tail,
  )

  time_lem : timestamp (pos w.since) p.meta.timestamp.nanos ≡ p.meta.timestamp
  time_lem =
      timestamp_lem w.since p.meta.timestamp.nanos w.nanos
      ∙ ap (λ s. at s p.meta.timestamp.nanos) (sym w.secs)

  pcap_record_lem :
      pcap_record
        (reading link index old)
        w.since
        p.meta.timestamp.nanos
        (length p.bytes)
        p.meta.wire_len
        (p.bytes ++ tail)
      ≡ (packet (renumbered index p), reading link index tail)
  unfolding pcap_record with_data raw_packet reading
  pcap_record_lem =
      let wire : max p.meta.wire_len (length p.bytes) ≡ p.meta.wire_len =
        omega (arith, w.on_wire) in
      if_false (ltb max_packet_bytes (length p.bytes)) _ (ground (arith, w.limit))
      ∙ ap
          (with_data (reading link index old) w.since p.meta.timestamp.nanos (length p.bytes)
            p.meta.wire_len)
          (read_exact-append (length p.bytes) p.bytes tail refl)
      ∙ ap (λ n. given n (timestamp (pos w.since) p.meta.timestamp.nanos)) wire
      ∙ ap (given p.meta.wire_len) time_lem

-- A record is read back, and what is behind it is left.
pub packet_bytes-next_packet :
    (link : LinkType) (index : ℕ) (p : RawPacket) (tail : List ℕ)
    → IsWritable p
    → next_packet (reading link index (packet_bytes p ++ tail))
      ≡ ok (packet (renumbered (index + 1) p), reading link (index + 1) tail)
unfolding next_packet next_in next_pcap with_record reading
packet_bytes-next_packet link index p tail w =
    let bytes : List ℕ = packet_bytes p ++ tail in
    ap (λ o. ok (with_record (reading link index bytes) o))
      (ap (read_exact 16) (packet_bytes-record_header p tail)
        ∙ read_exact-append 16 (record_header p) (p.bytes ++ tail) (length-record_header p))
    ∙ ap ok (
        rw
          (
            word_0 p ∙ from_le-le_u32 _ (omega (arith, as_u32_lem p w, w.in_word)) ∙ as_u32_lem p w,
            word_4 p ∙ from_le-le_u32 _ (omega (arith, w.nanos)),
            word_8 p ∙ from_le-le_u32 _ (omega (arith, w.limit)),
            word_12 p ∙ from_le-le_u32 _ w.wire_len,
          )
          (pcap_record_lem link (index + 1) p w bytes tail))
