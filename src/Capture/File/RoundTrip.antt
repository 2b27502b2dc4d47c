-- ===== src/Capture/File/RoundTrip.antt =====
-- A capture that `PcapWriter` writes is read back.
use custom_built_network_ana.Base.{
  ℕ, ◌+◌, ◌<◌, true, false, some, List, [], ◌∷◌, ◌++◌, ◌≡◌, refl, sym, ap, ◌∙◌, length,
  append_assoc, append_none,
}
use custom_built_network_ana.Error.{ok}
use custom_built_network_ana.Packet.{LinkType, from_u32}
use custom_built_network_ana.Capture.{
  RawPacket, success, from_le, from_bytes, read_exact, field, le_u16, le_u32,
}
use custom_built_network_ana.Capture.Writer.{
  pcap_magic_ns, snaplen, link_code, file_header, packet_bytes, PcapWriter, create, write,
}
use custom_built_network_ana.Capture.File.{
  FileSource, end, packet, initial, with_header, read_pcap_header, by_magic, from_reader,
  with_record, next_pcap, finish,
}
use custom_built_network_ana.Capture.File.Sections.{next_in, next_packet}
use custom_built_network_ana.Capture.File.Records.{
  from_le-le_u32, read_exact-append, IsWritable, reading, renumbered, packet_bytes-next_packet,
}

-- The packets that a file gives before it ends.
pub data Reads : FileSource → List RawPacket → Type 0 where
  no_more : {src left : FileSource} → next_packet src ≡ ok (end, left) → Reads src []
  one_more :
      {src left : FileSource} {p : RawPacket} {ps : List RawPacket}
      → next_packet src ≡ ok (packet p, left)
      → Reads left ps
      → Reads src (p ∷ ps)

abbrev pub numbered : ℕ → List RawPacket → List RawPacket
numbered index [] = []
numbered index (p ∷ ps) = renumbered (index + 1) p ∷ numbered (index + 1) ps

abbrev pub AreWritable : List RawPacket → Type 0
AreWritable [] = Unit {0}
AreWritable (p ∷ ps) = IsWritable p × AreWritable ps

abbrev records : List RawPacket → List ℕ
records [] = []
records (p ∷ ps) = packet_bytes p ++ records ps

ended_lem :
    (link : LinkType) (index : ℕ)
    → next_packet (reading link index []) ≡ ok (end, finish (reading link index []) [])
unfolding next_packet next_in next_pcap with_record reading read_exact finish
ended_lem link index = refl

read_back :
    (link : LinkType) (index : ℕ) (ps : List RawPacket)
    → AreWritable ps
    → Reads (reading link index (records ps)) (numbered index ps)
read_back link index [] h = no_more (ended_lem link index)
read_back link index (p ∷ ps) (w, h) =
    one_more (packet_bytes-next_packet link index p (records ps) w)
      (read_back link (index + 1) ps h)

-- The calls of `write`, in turn.
unfoldable pub write_all : PcapWriter → List RawPacket → PcapWriter
unfolding write
write_all w [] = w
write_all w (p ∷ ps) = write_all (write w p) ps

write_all-out : (w : PcapWriter) (ps : List RawPacket) → (write_all w ps).out ≡ w.out ++ records ps
unfolding write_all write
write_all-out w [] = sym (append_none w.out)
write_all-out w (p ∷ ps) =
    write_all-out (write w p) ps ∙ append_assoc w.out (packet_bytes p) (records ps)

length-file_header : (lt : LinkType) → length (file_header lt) ≡ 24
unfolding file_header le_u16 le_u32
length-file_header lt = refl

-- The header behind its first four bytes.
header_rest : LinkType → List ℕ
header_rest lt =
    le_u16 2 ++ (le_u16 4 ++ (le_u32 0 ++ (le_u32 0 ++ (le_u32 snaplen ++ le_u32 (link_code lt)))))

header_rest-with_header :
    (lt : LinkType) (tail : List ℕ)
    → link_code lt < 4294967296
    → with_header false true (some (header_rest lt, tail))
      ≡ success (reading (from_u32 (link_code lt)) 0 tail)
unfolding with_header initial reading field from_bytes header_rest le_u16 le_u32
header_rest-with_header lt tail h =
    ap (λ n. success (reading (from_u32 n) 0 tail)) (from_le-le_u32 (link_code lt) h)

length-header_rest : (lt : LinkType) → length (header_rest lt) ≡ 20
unfolding header_rest le_u16 le_u32
length-header_rest lt = refl

file_header-by_magic :
    (lt : LinkType) (tail : List ℕ)
    → by_magic (some (le_u32 pcap_magic_ns, header_rest lt ++ tail))
      ≡ read_pcap_header false true (header_rest lt ++ tail)
unfolding by_magic from_le le_u32
file_header-by_magic lt tail = refl

file_header-parts :
    (lt : LinkType) (tail : List ℕ)
    → file_header lt ++ tail ≡ le_u32 pcap_magic_ns ++ (header_rest lt ++ tail)
unfolding file_header header_rest le_u16 le_u32
file_header-parts lt tail = refl

length-magic : length (le_u32 pcap_magic_ns) ≡ 4
unfolding le_u32
length-magic = refl

file_header-from_reader :
    (lt : LinkType) (tail : List ℕ)
    → link_code lt < 4294967296
    → from_reader (file_header lt ++ tail) ≡ success (reading (from_u32 (link_code lt)) 0 tail)
unfolding from_reader read_pcap_header
file_header-from_reader lt tail h =
    ap (λ bytes. by_magic (read_exact 4 bytes)) (file_header-parts lt tail)
    ∙ ap by_magic (read_exact-append 4 (le_u32 pcap_magic_ns) (header_rest lt ++ tail) length-magic)
    ∙ file_header-by_magic lt tail
    ∙ ap (with_header false true)
        (read_exact-append 20 (header_rest lt) tail (length-header_rest lt))
    ∙ header_rest-with_header lt tail h

-- A capture that is written, of packets from 1970 to 2106 with a fraction below one second, that hold no
-- more bytes than were on the wire, fewer than 2 ^ 32, and no more than 262144, on a link whose code is a
-- word, opens, and reads as exactly these packets, numbered from 1, with the link that the code stands for.
pub create-Reads :
    (lt : LinkType) (ps : List RawPacket)
    → link_code lt < 4294967296
    → AreWritable ps
    → (src : FileSource) × (from_reader (write_all (create lt) ps).out ≡ success src)
      × (src.link_type ≡ from_u32 (link_code lt))
      × Reads src (numbered 0 ps)
unfolding create reading
create-Reads lt ps h w = (
  reading (from_u32 (link_code lt)) 0 (records ps),
  ap from_reader (write_all-out (create lt) ps) ∙ file_header-from_reader lt (records ps) h,
  refl,
  read_back (from_u32 (link_code lt)) 0 ps w,
)
