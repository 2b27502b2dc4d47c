-- ===== src/Capture/Fuzz/Sound.antt =====
-- No capture file crashes the reader and the decoder behind it.
use custom_built_network_ana.Base.{
  ℕ, zero, suc, ◌+◌, ◌≤◌, ◌<◌, List, arith, leb, length, subst, sym,
}
use custom_built_network_ana.Bytes.Ensures.{AreBytes}
use custom_built_network_ana.Proto.{Decoders}
use custom_built_network_ana.Packet.{LinkType}
use custom_built_network_ana.Packet.Decoder.{decode}
use custom_built_network_ana.Packet.InFrame.{decode_total}
use custom_built_network_ana.Capture.{RawPacket, Result, success, failure}
use custom_built_network_ana.Outcomes.Gives.{Gives, gives, then-Gives, if_Gives}
use custom_built_network_ana.Capture.File.{FileSource, Next}
use custom_built_network_ana.Capture.File.Sections.{next_packet}
use custom_built_network_ana.Capture.File.Sound.Packets.{
  bytes_left, IsReady, IsAnswer, ended, gave, refused,
}
use custom_built_network_ana.Capture.File.Sound.Answers.{next_packet-IsAnswer}
use custom_built_network_ana.Capture.File.Sound.End.{IsOpened, from_reader-IsOpened}
use custom_built_network_ana.Capture.Fuzz.{
  max_packets, on_next, packet_rounds, on_opened, capture_file,
}

module _ (decoders : Decoders) (ne : List ℕ → ℕ) where
  decode-Gives :
      (link : LinkType) (p : RawPacket)
      → AreBytes p.bytes
      → Gives (λ _. Unit {0}) (decode decoders ne p.meta p.bytes link)
  decode-Gives link p b =
      let whole = decode_total decoders ne p.meta p.bytes link b in
      subst (Gives λ _. Unit {0}) (sym whole.1) (gives tt)

  module _ (link : LinkType) where
    on_next-Gives :
        (n seen index left : ℕ) (x : Next × FileSource)
        → IsAnswer index left x
        → seen < max_packets
        → ((src : FileSource)
            → IsReady src
            → seen + 1 < max_packets
            → Gives (λ k. k ≤ max_packets) (packet_rounds decoders ne link n (seen + 1) src))
        → Gives
            (λ k. k ≤ max_packets)
            (on_next decoders ne link (packet_rounds decoders ne link n) seen x)
    unfolding on_next
    on_next-Gives n seen index left _ (ended h f) l k = gives (omega (arith, l))
    on_next-Gives n seen index left _ (refused h i m) l k = gives (omega (arith, l))
    on_next-Gives n seen index left _ (gave {p} {src} h q i m) l k =
        then-Gives _ (decode decoders ne p.meta p.bytes link) _ (decode-Gives link p q.all_bytes)
          λ decoded _.
            if_Gives (leb max_packets (seen + 1)) _ _ (λ _. gives (omega (arith, l)))
              λ t. k src h (ground (arith, t))

    packet_rounds-Gives :
        (n seen : ℕ) (src : FileSource)
        → IsReady src
        → seen < max_packets
        → max_packets ≤ n + seen
        → Gives (λ k. k ≤ max_packets) (packet_rounds decoders ne link n seen src)
    unfolding packet_rounds
    packet_rounds-Gives zero seen src h l m = absurd (omega arith)
    packet_rounds-Gives (suc n) seen src h l m =
        then-Gives _ (next_packet src) _ (next_packet-IsAnswer src h) λ x a.
          on_next-Gives n seen src.index (bytes_left src) x a l
            λ s r o. packet_rounds-Gives n (seen + 1) s r o (omega (arith, m))

  on_opened-Gives :
      (n : ℕ) (r : Result FileSource)
      → IsOpened n r
      → Gives (λ k. k ≤ max_packets) (on_opened decoders ne r)
  unfolding on_opened
  on_opened-Gives n (failure e) h = gives (omega arith)
  on_opened-Gives n (success src) (h, i, l, _) =
      packet_rounds-Gives src.link_type max_packets 0 src h (omega arith) (omega arith)

  -- Reading any bytes as a capture file and decoding each packet of it ends without a panic, after 4096
  -- packets at most, for any application decoders and host byte order.
  pub capture_file-max_packets :
      (bytes : List ℕ)
      → AreBytes bytes
      → Gives (λ k. k ≤ max_packets) (capture_file decoders ne bytes)
  unfolding capture_file
  capture_file-max_packets bytes b =
      on_opened-Gives (suc (length bytes)) _ (from_reader-IsOpened bytes b).0
