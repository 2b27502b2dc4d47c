-- ===== src/Capture/Writer.antt =====
-- crates/cbna-capture/src/writer.rs: what is written of a capture file.
use custom_built_network_ana.Base.{ℕ, ℤ, pos, negsuc, ◌+◌, ◌-◌, ◌%◌, List, ◌++◌, length}
use custom_built_network_ana.Packet.{
  LinkType, null, ethernet, raw, linux_sll, linux_sll2, loop, other,
}
use custom_built_network_ana.Capture.{RawPacket, le_u16, le_u32}

abbrev pub pcap_magic_ns : ℕ
pcap_magic_ns = 2712812621

abbrev pub snaplen : ℕ
snaplen = 262144

unfoldable pub link_code : LinkType → ℕ
link_code null = 0
link_code ethernet = 1
link_code raw = 101
link_code loop = 108
link_code linux_sll = 113
link_code linux_sll2 = 276
link_code (other v) = v

-- `create`
unfoldable pub file_header : LinkType → List ℕ
unfolding le_u16 le_u32 link_code
file_header link_type =
    le_u32 pcap_magic_ns
    ++ (le_u16 2
        ++ (le_u16 4
            ++ (le_u32 0 ++ (le_u32 0 ++ (le_u32 snaplen ++ le_u32 (link_code link_type))))))

-- `secs as u32`
abbrev pub as_u32 : ℤ → ℕ
as_u32 (pos n) = n % 4294967296
as_u32 (negsuc n) = 4294967295 - n % 4294967296

-- The bytes that `write` adds.
unfoldable pub packet_bytes : RawPacket → List ℕ
unfolding le_u32
packet_bytes p =
    le_u32 (as_u32 p.meta.timestamp.secs)
    ++ (le_u32 p.meta.timestamp.nanos
        ++ (le_u32 (length p.bytes) ++ (le_u32 p.meta.wire_len ++ p.bytes)))

-- `PcapWriter`, with what is in the file.
pub record PcapWriter : Type 0 where
  pub out : List ℕ
  pub packets : ℕ
  pub bytes : ℕ

unfoldable pub create : LinkType → PcapWriter
create link_type = record { out = file_header link_type; packets = 0; bytes = 0 }

unfoldable pub write : PcapWriter → RawPacket → PcapWriter
write w p = record {
  out = w.out ++ packet_bytes p;
  packets = w.packets + 1;
  bytes = w.bytes + length p.bytes;
}
