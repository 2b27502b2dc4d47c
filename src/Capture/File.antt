-- ===== src/Capture/File.antt =====
-- crates/cbna-capture/src/file.rs: `FileSource` over bytes in memory. The reader is the bytes that are left;
-- a read past their end leaves none. A panic is an index or a slice out of range, a quotient by 0, or the
-- loop over blocks out of rounds.
pub mod Blocks
pub mod Sections
pub mod Sound
pub mod Records
pub mod RoundTrip
use custom_built_network_ana.Base.{
  ℕ, zero, suc, pos, ◌+◌, ◌-◌, ◌%◌, max, Bool, true, false, not, ◌&&◌, ◌||◌, Option, none, some,
  List, [], ◌∷◌, ◌++◌, ltb, leb, ◌==◌, if◌then◌else◌, length, take, drop,
}
use custom_built_network_ana.Error.{Outcome, ok, err, panic, ◌>>=◌}
use custom_built_network_ana.Bytes.{from_be}
use custom_built_network_ana.Bytes.{slice}
use custom_built_network_ana.Packet.{LinkType, ethernet, from_u32, Timestamp}
use custom_built_network_ana.Capture.{
  CaptureError, unexpected_eof, unknown_format, malformed, implausible_length, max_packet_bytes,
  RawPacket, raw_packet, timestamp, from_micros, Result, success, failure, from_le, from_bytes,
  read_exact, skip, field,
}
use custom_built_network_ana.Capture.File.Blocks.{Interface, u32_at, parse_idb, parse_epb}

pub data FileFormat : Type 0 where
  pcap pcap_ng : FileFormat

-- `FileSource`
pub record FileSource : Type 0 where
  pub format : FileFormat
  pub reader : List ℕ
  pub big_endian : Bool
  pub nanosecond_ts : Bool
  pub link_type : LinkType
  pub interfaces : List Interface
  pub index : ℕ
  pub finished : Bool

-- `Option<Result<RawPacket, CaptureError>>`
pub data Next : Type 0 where
  end : Next
  packet : RawPacket → Next
  failed : CaptureError → Next

unfoldable pub finish : FileSource → List ℕ → FileSource
finish src left = record src { reader = left; finished = true }

unfoldable pub initial : FileFormat → List ℕ → FileSource
initial format reader = record {
  format = format;
  reader = reader;
  big_endian = false;
  nanosecond_ts = false;
  link_type = ethernet;
  interfaces = [];
  index = 0;
  finished = false;
}

unfoldable pub with_header : Bool → Bool → Option (List ℕ × List ℕ) → Result FileSource
unfolding initial field from_u32
with_header big_endian nanosecond none = failure unexpected_eof
with_header big_endian nanosecond (some (rest, left)) = success (record (initial pcap left) {
  big_endian = big_endian;
  nanosecond_ts = nanosecond;
  link_type = from_u32 (field big_endian 16 rest);
})

unfoldable pub read_pcap_header : Bool → Bool → List ℕ → Result FileSource
unfolding read_exact
read_pcap_header big_endian nanosecond bytes =
    with_header big_endian nanosecond (read_exact 20 bytes)

abbrev pub is_block_length : ℕ → Bool
is_block_length total_len = leb 12 total_len && leb total_len 16777216

unfoldable pub skipped_to : Bool → Option (List ℕ) → Result FileSource
unfolding initial
skipped_to big_endian none = failure unexpected_eof
skipped_to big_endian (some left) =
    success (record (initial pcap_ng left) { big_endian = big_endian })

unfoldable pub section_of : Bool → List ℕ → List ℕ → Result FileSource
unfolding skip field
section_of big_endian buf left =
    if is_block_length (field big_endian 0 buf)
    then skipped_to big_endian (skip (field big_endian 0 buf - 12) left)
    else failure malformed

unfoldable pub in_byte_order : Option (List ℕ × List ℕ) → Result FileSource
unfolding field
in_byte_order none = failure unexpected_eof
in_byte_order (some (buf, left)) =
    if field false 4 buf == 439041101
    then section_of false buf left
    else if field false 4 buf == 1295788826
    then section_of true buf left
    else failure malformed

unfoldable pub read_pcapng_section_header : List ℕ → Result FileSource
unfolding read_exact
read_pcapng_section_header bytes = in_byte_order (read_exact 8 bytes)

unfoldable pub by_magic : Option (List ℕ × List ℕ) → Result FileSource
unfolding from_le from_be read_pcap_header read_pcapng_section_header
by_magic none = failure unexpected_eof
by_magic (some (bytes, left)) =
    if from_le bytes == 2712847316
    then read_pcap_header false false left
    else if from_le bytes == 2712812621
    then read_pcap_header false true left
    else if from_le bytes == 3569595041
    then read_pcap_header true false left
    else if from_le bytes == 1295823521
    then read_pcap_header true true left
    else if from_be 0 bytes == 168627466 || from_le bytes == 168627466
    then read_pcapng_section_header left
    else failure (unknown_format (from_le bytes))

-- `from_reader_labelled`, on bytes: the first four choose the format.
unfoldable pub from_reader : List ℕ → Result FileSource
unfolding read_exact
from_reader bytes = by_magic (read_exact 4 bytes)

-- `next_pcap`, from the record's data on.
unfoldable pub with_data : FileSource → ℕ → ℕ → ℕ → ℕ → Option (List ℕ × List ℕ) → Next × FileSource
unfolding finish raw_packet timestamp from_micros
with_data src ts_sec ts_frac caplen wirelen none = (end, finish src [])
with_data src ts_sec ts_frac caplen wirelen (some (data_bytes, left)) = (
  packet (
      raw_packet src.index
        (if src.nanosecond_ts
          then timestamp (pos ts_sec) ts_frac
          else from_micros (pos ts_sec) ts_frac)
        (max wirelen caplen) data_bytes),
  record src { reader = left },
)

unfoldable pub pcap_record : FileSource → ℕ → ℕ → ℕ → ℕ → List ℕ → Next × FileSource
unfolding finish read_exact
pcap_record src ts_sec ts_frac caplen wirelen left =
    if ltb max_packet_bytes caplen
    then (failed (implausible_length src.index caplen max_packet_bytes), finish src left)
    else with_data src ts_sec ts_frac caplen wirelen (read_exact caplen left)

unfoldable pub with_record : FileSource → Option (List ℕ × List ℕ) → Next × FileSource
unfolding finish field
with_record src none = (end, finish src [])
with_record src (some (hdr, left)) =
    pcap_record (record src { index = src.index + 1 }) (field src.big_endian 0 hdr)
      (field src.big_endian 4 hdr) (field src.big_endian 8 hdr) (field src.big_endian 12 hdr) left

unfoldable pub next_pcap : FileSource → Next × FileSource
unfolding read_exact
next_pcap src = with_record src (read_exact 16 src.reader)
