-- ===== src/Packet.antt =====
-- crates/cbna-core/src/packet.rs: a captured frame and its layers.
pub mod App
pub mod Decoder
pub mod Located
pub mod Slices
pub mod Layers
pub mod InFrame
use custom_built_network_ana.Base.{
  ℕ, ℤ, ◌+◌, ◌≤◌, String, Bool, ◌||◌, Option, none, some, List, [], ◌∷◌, ◌++◌, leb, ◌==◌,
  if◌then◌else◌, length, take, drop,
}
use custom_built_network_ana.Error.{DecodeError}
use custom_built_network_ana.Link.{Ethernet, Arp}
use custom_built_network_ana.Net.{Ipv4, Ipv6, Icmp, IpAddr, v4, v6}
use custom_built_network_ana.Transport.{Tcp, Udp}
use custom_built_network_ana.Proto.{DnsMessage, HttpMessage, TlsHello}

pub data LinkType : Type 0 where
  null ethernet raw linux_sll linux_sll2 loop : LinkType
  other : ℕ → LinkType

unfoldable pub from_u32 : ℕ → LinkType
from_u32 v =
    if v == 0
    then null
    else if v == 1
    then ethernet
    else if v == 12 || v == 14 || v == 101
    then raw
    else if v == 108
    then loop
    else if v == 113
    then linux_sll
    else if v == 276
    then linux_sll2
    else other v

-- `Timestamp`, with the seconds from 1970 on.
pub record Timestamp : Type 0 where
  pub secs : ℤ
  pub nanos : ℕ

pub record PacketMeta : Type 0 where
  pub index : ℕ
  pub timestamp : Timestamp
  pub captured_len : ℕ
  pub wire_len : ℕ

pub data NetworkLayer : Type 0 where
  ipv4 : Ipv4 → NetworkLayer
  ipv6 : Ipv6 → NetworkLayer
  arp : Arp → NetworkLayer
  no_network : NetworkLayer

pub data TransportLayer : Type 0 where
  tcp : Tcp → TransportLayer
  udp : Udp → TransportLayer
  icmp : Icmp → TransportLayer
  no_transport : TransportLayer

pub data AppLayer : Type 0 where
  dns : DnsMessage → AppLayer
  http : HttpMessage → AppLayer
  tls : TlsHello → AppLayer
  no_app : AppLayer

-- A warning, before it is rendered.
pub data Warning : Type 0 where
  of_error : DecodeError → Warning
  text : String → Warning
  unknown_family : ℕ → Warning
  unsupported_link : ℕ → Warning

pub record DecodedPacket : Type 0 where
  pub meta : PacketMeta
  pub link : Option Ethernet
  pub network : NetworkLayer
  pub transport : TransportLayer
  pub app : AppLayer
  pub payload_len : ℕ
  pub payload_offset : ℕ
  pub ip_payload : Option (ℕ × ℕ)
  pub warnings : List Warning

-- `frame.get(off..end).unwrap_or(&[])`
unfoldable pub get_range : List ℕ → ℕ → ℕ → List ℕ
get_range frame off len = if leb (off + len) (length frame) then take len (drop off frame) else []

unfoldable pub payload : DecodedPacket → List ℕ → List ℕ
payload pkt frame = get_range frame pkt.payload_offset pkt.payload_len

unfoldable pub fragment_range : Option (ℕ × ℕ) → List ℕ → List ℕ
fragment_range none frame = []
fragment_range (some (off, len)) frame = get_range frame off len

unfoldable pub fragment_bytes : DecodedPacket → List ℕ → List ℕ
unfolding fragment_range
fragment_bytes pkt frame = fragment_range pkt.ip_payload frame

unfoldable pub network_src : NetworkLayer → Option IpAddr
network_src (ipv4 h) = some (v4 h.src)
network_src (ipv6 h) = some (v6 h.src)
network_src _ = none

unfoldable pub network_dst : NetworkLayer → Option IpAddr
network_dst (ipv4 h) = some (v4 h.dst)
network_dst (ipv6 h) = some (v6 h.dst)
network_dst _ = none

unfoldable pub network_protocol : NetworkLayer → Option ℕ
network_protocol (ipv4 h) = some h.protocol
network_protocol (ipv6 h) = some h.next_header
network_protocol _ = none

unfoldable pub transport_ports : TransportLayer → Option (ℕ × ℕ)
transport_ports (tcp t) = some (t.src_port, t.dst_port)
transport_ports (udp u) = some (u.src_port, u.dst_port)
transport_ports _ = none

abbrev pub src_ip : DecodedPacket → Option IpAddr
src_ip pkt = network_src pkt.network

abbrev pub dst_ip : DecodedPacket → Option IpAddr
dst_ip pkt = network_dst pkt.network

abbrev pub ip_protocol : DecodedPacket → Option ℕ
ip_protocol pkt = network_protocol pkt.network

abbrev pub ports : DecodedPacket → Option (ℕ × ℕ)
ports pkt = transport_ports pkt.transport

abbrev pub warn : DecodedPacket → Warning → DecodedPacket
warn pkt w = record pkt { warnings = pkt.warnings ++ w ∷ [] }
