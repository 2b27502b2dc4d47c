-- ===== src/Capture.antt =====
-- crates/cbna-capture/src: capture files. The reader is the bytes that are left of the file, as in
-- `FileSource::from_bytes`: a read past their end is the only I/O error.
pub mod Reads
pub mod Writer
pub mod File
pub mod Fuzz
pub mod IocList
use custom_built_network_ana.Base.{
  ℕ, ℤ, ◌+◌, ◌-◌, ◌*◌, ◌/◌, ◌%◌, ◌^◌, min, pos, ◌+ℤ◌, Bool, Option, none, some, List, [], ◌∷◌, ◌++◌,
  leb, if◌then◌else◌, length, take, drop,
}
use custom_built_network_ana.Bytes.{from_be}
use custom_built_network_ana.Packet.{Timestamp, PacketMeta}

-- `CaptureError`, without the texts of its messages.
pub data CaptureError : Type 0 where
  unexpected_eof : CaptureError
  unknown_format : ℕ → CaptureError
  malformed : CaptureError
  implausible_length : ℕ → ℕ → ℕ → CaptureError

-- `Result<T, CaptureError>`
pub data Result {ℓ} (A : Type ℓ) : Type ℓ where
  success : A → Result A
  failure : CaptureError → Result A

abbrev pub max_packet_bytes : ℕ
max_packet_bytes = 262144

pub record RawPacket : Type 0 where
  pub meta : PacketMeta
  pub bytes : List ℕ

-- `RawPacket::new`
unfoldable pub raw_packet : ℕ → Timestamp → ℕ → List ℕ → RawPacket
raw_packet index timestamp wire_len bytes = record {
  meta = record {
    index = index;
    timestamp = timestamp;
    captured_len = length bytes;
    wire_len = wire_len;
  };
  bytes = bytes;
}

-- `Timestamp::new`
unfoldable pub timestamp : ℤ → ℕ → Timestamp
unfolding ◌+ℤ◌
timestamp secs nanos = record {
  secs = secs +ℤ pos (nanos / 1000000000);
  nanos = nanos % 1000000000;
}

-- `Timestamp::from_micros`, whose product saturates at 32 bits.
unfoldable pub from_micros : ℤ → ℕ → Timestamp
unfolding timestamp
from_micros secs micros = timestamp secs (min (micros * 1000) 4294967295)

-- `from_le_bytes`
unfoldable pub from_le : List ℕ → ℕ
from_le [] = 0
from_le (b ∷ bs) = b + 256 * from_le bs

-- `from_le_bytes`, with `swap_bytes` in a big-endian file.
unfoldable pub from_bytes : Bool → List ℕ → ℕ
unfolding from_le from_be
from_bytes big_endian bs = if big_endian then from_be 0 bs else from_le bs

-- `read_exact`, which fails where the bytes do not suffice.
unfoldable pub read_exact : ℕ → List ℕ → Option (List ℕ × List ℕ)
read_exact n bytes = if leb n (length bytes) then some (take n bytes, drop n bytes) else none

-- `skip`, whose pieces of 4096 bytes make one read.
abbrev pub after_read : Option (List ℕ × List ℕ) → Option (List ℕ)
after_read none = none
after_read (some (bs, left)) = some left

unfoldable pub skip : ℕ → List ℕ → Option (List ℕ)
unfolding read_exact
skip n bytes = after_read (read_exact n bytes)

-- The word of a fixed array that starts at `o`.
unfoldable pub field : Bool → ℕ → List ℕ → ℕ
unfolding from_bytes
field big_endian o hdr = from_bytes big_endian (take 4 (drop o hdr))

-- `to_le_bytes`
unfoldable pub le_u16 : ℕ → List ℕ
le_u16 x = x % 256 ∷ x / 256 % 256 ∷ []

unfoldable pub le_u32 : ℕ → List ℕ
le_u32 x = x % 256 ∷ x / 256 % 256 ∷ x / 65536 % 256 ∷ x / 16777216 % 256 ∷ []
