-- ===== src/Capture/Fuzz.antt =====
-- crates/cbna-capture/src/fuzz.rs, `capture_file`: a whole capture is read from memory and decoded. The
-- model returns how many packets it has seen.
pub mod Sound
use custom_built_network_ana.Base.{ℕ, zero, suc, ◌+◌, Bool, List, leb, if◌then◌else◌}
use custom_built_network_ana.Error.{Outcome, ok, panic, ◌>>=◌}
use custom_built_network_ana.Proto.{Decoders}
use custom_built_network_ana.Packet.{LinkType}
use custom_built_network_ana.Packet.Decoder.{decode}
use custom_built_network_ana.Capture.{RawPacket, Result, success, failure}
use custom_built_network_ana.Capture.File.{FileSource, Next, end, packet, failed, from_reader}
use custom_built_network_ana.Capture.File.Sections.{next_packet}

abbrev pub max_packets : ℕ
max_packets = 4096

module _ (decoders : Decoders) (from_ne_bytes : List ℕ → ℕ) (link : LinkType) where
  -- A round of the loop, after the call of `next_packet`.
  unfoldable pub on_next : (ℕ → FileSource → Outcome ℕ) → ℕ → Next × FileSource → Outcome ℕ
  unfolding ◌>>=◌ decode
  on_next again seen (end, src) = ok seen
  on_next again seen (failed e, src) = ok seen
  on_next again seen (packet p, src) =
      decode decoders from_ne_bytes p.meta p.bytes link >>= λ decoded.
      if leb max_packets (seen + 1) then ok (seen + 1) else again (seen + 1) src

  unfoldable pub packet_rounds : ℕ → ℕ → FileSource → Outcome ℕ
  unfolding ◌>>=◌ next_packet on_next
  packet_rounds zero seen src = panic
  packet_rounds (suc n) seen src = next_packet src >>= on_next (packet_rounds n) seen

-- The loop is left after 4096 packets.
unfoldable pub on_opened : Decoders → (List ℕ → ℕ) → Result FileSource → Outcome ℕ
unfolding packet_rounds
on_opened decoders from_ne_bytes (failure e) = ok 0
on_opened decoders from_ne_bytes (success src) =
    packet_rounds decoders from_ne_bytes src.link_type max_packets 0 src

unfoldable pub capture_file : Decoders → (List ℕ → ℕ) → List ℕ → Outcome ℕ
unfolding on_opened from_reader
capture_file decoders from_ne_bytes bytes = on_opened decoders from_ne_bytes (from_reader bytes)
