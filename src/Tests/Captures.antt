-- ===== src/Tests/Captures.antt =====
-- Capture files.
use custom_built_network_ana.Base.{ℕ, pos, List, [], ◌∷◌, ◌≤◌, ◌≡◌, refl, true, false, arith}
use custom_built_network_ana.Bytes.{from_be}
use custom_built_network_ana.Tests.{bytes, no_decoders}
use custom_built_network_ana.Packet.{ethernet, from_u32}
use custom_built_network_ana.Capture.{RawPacket, success}
use custom_built_network_ana.Capture.Writer.{create, link_code}
use custom_built_network_ana.Outcomes.Gives.{Gives}
use custom_built_network_ana.Capture.File.{FileSource, from_reader, pcap_ng}
use custom_built_network_ana.Capture.File.Sections.{next_packet}
use custom_built_network_ana.Capture.File.Sound.Packets.{bytes_left, IsAnswer}
use custom_built_network_ana.Capture.File.Sound.Answers.{next_packet-IsAnswer}
use custom_built_network_ana.Capture.File.Sound.Opening.{IsBegun}
use custom_built_network_ana.Capture.File.Sound.End.{
  IsOpened, from_reader-IsOpened, calls, calls-finished,
}
use custom_built_network_ana.Capture.File.Records.{IsWritable}
use custom_built_network_ana.Capture.File.RoundTrip.{Reads, numbered, write_all, create-Reads}
use custom_built_network_ana.Capture.Fuzz.{max_packets, capture_file}
use custom_built_network_ana.Capture.Fuzz.Sound.{capture_file-max_packets}

-- A pcapng section with an interface and a simple packet of four bytes.
abbrev blocks : List ℕ
blocks =
    1 ∷ 0 ∷ 0 ∷ 0 ∷ 20 ∷ 0 ∷ 0 ∷ 0 ∷ 1 ∷ 0 ∷ 0 ∷ 0 ∷ 0 ∷ 0 ∷ 4 ∷ 0 ∷ 20 ∷ 0 ∷ 0 ∷ 0 ∷ 3 ∷ 0 ∷ 0 ∷ 0
    ∷ 20 ∷ 0 ∷ 0 ∷ 0 ∷ 9 ∷ 0 ∷ 0 ∷ 0 ∷ 5 ∷ 6 ∷ 7 ∷ 8 ∷ 20 ∷ 0 ∷ 0 ∷ 0 ∷ []

abbrev section : List ℕ
section = 10 ∷ 13 ∷ 13 ∷ 10 ∷ 12 ∷ 0 ∷ 0 ∷ 0 ∷ 77 ∷ 60 ∷ 43 ∷ 26 ∷ blocks

abbrev source : FileSource
source = record {
  format = pcap_ng;
  reader = blocks;
  big_endian = false;
  nanosecond_ts = false;
  link_type = ethernet;
  interfaces = [];
  index = 0;
  finished = false;
}

next_packet-IsAnswer_example : Gives (IsAnswer 0 (bytes_left source)) (next_packet source)
next_packet-IsAnswer_example = next_packet-IsAnswer source (tt, bytes blocks refl)

from_reader-IsOpened_example :
    IsOpened 53 (from_reader section) × IsBegun section (from_reader section)
from_reader-IsOpened_example = from_reader-IsOpened section (bytes section refl)

calls-finished_example : Gives (λ (s : FileSource). s.finished ≡ true) (calls 41 source)
calls-finished_example = calls-finished 41 source (tt, bytes blocks refl) (omega arith)

capture_file-max_packets_example :
    Gives (λ k. k ≤ max_packets) (capture_file no_decoders (from_be 0) section)
capture_file-max_packets_example =
    capture_file-max_packets no_decoders (from_be 0) section (bytes section refl)

abbrev frame : RawPacket
frame = record {
  meta = record {
    index = 9;
    timestamp = record { secs = pos 1786365296; nanos = 500000000 };
    captured_len = 3;
    wire_len = 64;
  };
  bytes = 1 ∷ 2 ∷ 3 ∷ [];
}

create-Reads_example :
    (src : FileSource) × (from_reader (write_all (create ethernet) (frame ∷ frame ∷ [])).out
      ≡ success src)
    × (src.link_type ≡ from_u32 (link_code ethernet))
    × Reads src (numbered 0 (frame ∷ frame ∷ []))
unfolding link_code
create-Reads_example =
    let fits : IsWritable frame = record {
      since = 1786365296;
      secs = refl;
      in_word = omega arith;
      nanos = omega arith;
      on_wire = omega arith;
      wire_len = omega arith;
      limit = omega arith;
    } in
    create-Reads ethernet (frame ∷ frame ∷ []) (omega arith) (fits, (fits, tt))
