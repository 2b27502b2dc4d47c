-- ===== src/Tests/Frames.antt =====
-- `decode` at a concrete frame.
use custom_built_network_ana.Base.{pos, ℕ, List, [], ◌∷◌, ◌≡◌, refl}
use custom_built_network_ana.Error.{ok}
use custom_built_network_ana.Bytes.{from_be}
use custom_built_network_ana.Tests.{bytes, no_decoders}
use custom_built_network_ana.Packet.{DecodedPacket, PacketMeta, ethernet}
use custom_built_network_ana.Packet.Decoder.{decode}
use custom_built_network_ana.Packet.Layers.{IsInFrame}
use custom_built_network_ana.Packet.InFrame.{decode_total}

-- UDP over IPv4 over Ethernet, with padding behind the datagram.
abbrev frame : List ℕ
frame =
    1 ∷ 2 ∷ 3 ∷ 4 ∷ 5 ∷ 6 ∷ 7 ∷ 8 ∷ 9 ∷ 10 ∷ 11 ∷ 12 ∷ 8 ∷ 0 ∷ 69 ∷ 0 ∷ 0 ∷ 30 ∷ 0 ∷ 1 ∷ 0 ∷ 0 ∷ 64
    ∷ 17 ∷ 0 ∷ 0 ∷ 10 ∷ 0 ∷ 0 ∷ 1 ∷ 10 ∷ 0 ∷ 0 ∷ 2 ∷ 15 ∷ 160 ∷ 31 ∷ 64 ∷ 0 ∷ 10 ∷ 0 ∷ 0 ∷ 65 ∷ 66
    ∷ 0 ∷ 0 ∷ []

abbrev meta : PacketMeta
meta = record {
  index = 1;
  timestamp = record { secs = pos 0; nanos = 0 };
  captured_len = 46;
  wire_len = 46;
}

decode_total_example :
    (pkt : DecodedPacket) × (decode no_decoders (from_be 0) meta frame ethernet ≡ ok pkt)
    × IsInFrame frame pkt
decode_total_example = decode_total no_decoders (from_be 0) meta frame ethernet (bytes frame refl)
