-- ===== src/Packet/Decoder.antt =====
-- crates/cbna-core/src/packet.rs, `decode` and the functions below it. A slice is placed in the frame,
-- so `offset_in` is its start. A frame that does not parse is a packet with a warning.
use custom_built_network_ana.Base.{
  ℕ, ◌+◌, ◌/◌, Bool, true, false, not, ◌||◌, none, some, List, [], ◌∷◌, ltb, ◌==◌, if◌then◌else◌,
  length, take, drop,
}
use custom_built_network_ana.Error.{Outcome, ok, err, panic}
use custom_built_network_ana.Bytes.{Slice, from_be}
use custom_built_network_ana.Link.{
  Ethernet, Arp, parse_ethernet, parse_arp, ethertype_ipv4, ethertype_arp, ethertype_ipv6,
}
use custom_built_network_ana.Net.{
  Ipv4, Ipv6, Icmp, parse_ipv4, parse_ipv6, parse_icmp, proto_tcp, proto_udp, proto_icmp,
  proto_icmpv6,
}
use custom_built_network_ana.Transport.{Tcp, Udp, parse_tcp, parse_udp}
use custom_built_network_ana.Proto.{Decoders}
use custom_built_network_ana.Packet.{
  LinkType, null, ethernet, raw, linux_sll, linux_sll2, loop, other, PacketMeta, NetworkLayer, ipv4,
  ipv6, arp, no_network, tcp, udp, icmp, no_transport, no_app, of_error, text, unknown_family,
  unsupported_link, DecodedPacket, warn,
}
use custom_built_network_ana.Packet.App.{app_from_payload}

module _ (decoders : Decoders) where
  -- The arms of `decode_transport`, on what the header's parser returned.
  unfoldable pub on_tcp :
      DecodedPacket → Slice → Bool → Outcome (Tcp × Slice) → Outcome DecodedPacket
  on_tcp pkt l4 decode_app_layer (ok (t, body)) = ok (record pkt {
    transport = tcp t;
    payload_len = length body.bytes;
    payload_offset = l4.start + body.start;
    app =
        if decode_app_layer
        then app_from_payload decoders (t.src_port, t.dst_port) body.bytes true
        else pkt.app;
  })
  on_tcp pkt l4 decode_app_layer (err e) = ok (warn pkt (of_error e))
  on_tcp pkt l4 decode_app_layer panic = panic

  unfoldable pub on_udp :
      DecodedPacket → Slice → Bool → Outcome (Udp × Slice) → Outcome DecodedPacket
  on_udp pkt l4 decode_app_layer (ok (u, body)) = ok (record pkt {
    transport = udp u;
    payload_len = length body.bytes;
    payload_offset = l4.start + body.start;
    app =
        if decode_app_layer
        then app_from_payload decoders (u.src_port, u.dst_port) body.bytes false
        else pkt.app;
  })
  on_udp pkt l4 decode_app_layer (err e) = ok (warn pkt (of_error e))
  on_udp pkt l4 decode_app_layer panic = panic

  unfoldable pub on_icmp : DecodedPacket → Outcome Icmp → Outcome DecodedPacket
  on_icmp pkt (ok i) = ok (record pkt { transport = icmp i; payload_len = i.payload_len })
  on_icmp pkt (err e) = ok (warn pkt (of_error e))
  on_icmp pkt panic = panic

  -- `l4` is placed in the frame.
  unfoldable pub decode_transport : DecodedPacket → ℕ → Slice → Bool → Outcome DecodedPacket
  unfolding on_tcp on_udp on_icmp
  decode_transport pkt protocol l4 decode_app_layer =
      if protocol == proto_tcp
      then on_tcp pkt l4 decode_app_layer (parse_tcp l4.bytes)
      else if protocol == proto_udp
      then on_udp pkt l4 decode_app_layer (parse_udp l4.bytes)
      else if protocol == proto_icmp || protocol == proto_icmpv6
      then on_icmp pkt (parse_icmp l4.bytes (protocol == proto_icmpv6))
      else ok (record pkt { payload_len = length l4.bytes })

  -- What both IP arms of `decode_network` do with the payload, placed in the frame.
  unfoldable pub decode_ip :
      DecodedPacket → NetworkLayer → ℕ → Bool → ℕ → Slice → Outcome DecodedPacket
  decode_ip pkt layer protocol fragmented fragment_offset l4 =
      let pkt' = record pkt {
        ip_payload = if fragmented then some (l4.start, length l4.bytes) else pkt.ip_payload;
        network = layer;
      } in
      if fragment_offset == 0
      then decode_transport pkt' protocol l4 (not fragmented)
      else ok (record pkt' { payload_len = length l4.bytes })

  unfoldable pub on_ipv4 : DecodedPacket → Slice → Outcome (Ipv4 × Slice) → Outcome DecodedPacket
  on_ipv4 pkt l3 (ok (ip, body)) =
      decode_ip pkt (ipv4 ip) ip.protocol ip.fragmented ip.fragment_offset
        (record { start = l3.start + body.start; bytes = body.bytes })
  on_ipv4 pkt l3 (err e) = ok (warn pkt (of_error e))
  on_ipv4 pkt l3 panic = panic

  unfoldable pub on_ipv6 : DecodedPacket → Slice → Outcome (Ipv6 × Slice) → Outcome DecodedPacket
  on_ipv6 pkt l3 (ok (ip, body)) =
      decode_ip pkt (ipv6 ip) ip.next_header ip.fragmented ip.fragment_offset
        (record { start = l3.start + body.start; bytes = body.bytes })
  on_ipv6 pkt l3 (err e) = ok (warn pkt (of_error e))
  on_ipv6 pkt l3 panic = panic

  unfoldable pub on_arp : DecodedPacket → Outcome Arp → Outcome DecodedPacket
  on_arp pkt (ok a) = ok (record pkt { network = arp a })
  on_arp pkt (err e) = ok (warn pkt (of_error e))
  on_arp pkt panic = panic

  -- `l3` is placed in the frame.
  unfoldable pub decode_network : DecodedPacket → ℕ → Slice → Outcome DecodedPacket
  unfolding on_ipv4 on_ipv6 on_arp decode_ip
  decode_network pkt ethertype l3 =
      if ethertype == ethertype_ipv4
      then on_ipv4 pkt l3 (parse_ipv4 l3.bytes)
      else if ethertype == ethertype_ipv6
      then on_ipv6 pkt l3 (parse_ipv6 l3.bytes)
      else if ethertype == ethertype_arp
      then on_arp pkt (parse_arp l3.bytes)
      else ok pkt

  -- `match link_type` for a link header of `n` bytes, and the type found behind it.
  abbrev after_header : DecodedPacket → List ℕ → ℕ → ℕ → Outcome DecodedPacket
  after_header pkt bytes n ethertype =
      decode_network pkt ethertype (record { start = n; bytes = drop n bytes })

  unfoldable pub on_ethernet : DecodedPacket → Outcome (Ethernet × Slice) → Outcome DecodedPacket
  on_ethernet pkt (ok (eth, body)) =
      decode_network (record pkt { link = some eth }) eth.ethertype body
  on_ethernet pkt (err e) = ok (warn pkt (of_error e))
  on_ethernet pkt panic = panic

  -- Headerless IP: the family is the version nibble.
  unfoldable pub decode_raw : DecodedPacket → List ℕ → Outcome DecodedPacket
  decode_raw pkt [] = ok (warn pkt (text "raw link: unrecognised IP version"))
  decode_raw pkt (b ∷ bs) =
      if b / 16 == 4
      then after_header pkt (b ∷ bs) 0 ethertype_ipv4
      else if b / 16 == 6
      then after_header pkt (b ∷ bs) 0 ethertype_ipv6
      else ok (warn pkt (text "raw link: unrecognised IP version"))

  -- The loopback header is an address family in the byte order of the host, `from_ne_bytes`.
  unfoldable pub decode_loopback : (List ℕ → ℕ) → DecodedPacket → List ℕ → Outcome DecodedPacket
  decode_loopback from_ne_bytes pkt bytes =
      let af = from_ne_bytes (take 4 bytes) in
      if ltb (length bytes) 4
      then ok (warn pkt (text "loopback header: truncated"))
      else if af == 2
      then after_header pkt bytes 4 ethertype_ipv4
      else if af == 24 || af == 28 || af == 30
      then after_header pkt bytes 4 ethertype_ipv6
      else ok (warn pkt (unknown_family af))

  unfoldable pub decode_link :
      (List ℕ → ℕ) → LinkType → DecodedPacket → List ℕ → Outcome DecodedPacket
  unfolding on_ethernet decode_raw decode_loopback
  decode_link ne ethernet pkt bytes = on_ethernet pkt (parse_ethernet bytes)
  decode_link ne raw pkt bytes = decode_raw pkt bytes
  decode_link ne null pkt bytes = decode_loopback ne pkt bytes
  decode_link ne loop pkt bytes = decode_loopback ne pkt bytes
  decode_link ne linux_sll pkt bytes =
      if ltb (length bytes) 16
      then ok (warn pkt (text "linux cooked header: truncated"))
      else after_header pkt bytes 16 (from_be 0 (take 2 (drop 14 bytes)))
  decode_link ne linux_sll2 pkt bytes =
      if ltb (length bytes) 20
      then ok (warn pkt (text "linux cooked v2 header: truncated"))
      else after_header pkt bytes 20 (from_be 0 (take 2 bytes))
  decode_link ne (other v) pkt bytes = ok (warn pkt (unsupported_link v))

  -- `decode`
  unfoldable pub decode : (List ℕ → ℕ) → PacketMeta → List ℕ → LinkType → Outcome DecodedPacket
  unfolding decode_link
  decode from_ne_bytes meta bytes link_type =
      decode_link from_ne_bytes link_type
        (record {
          meta = meta;
          link = none;
          network = no_network;
          transport = no_transport;
          app = no_app;
          payload_len = 0;
          payload_offset = 0;
          ip_payload = none;
          warnings = [];
        })
        bytes
