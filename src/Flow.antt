-- ===== src/Flow.antt =====
-- crates/cbna-core/src/flow.rs: the canonical key that both directions of a conversation share.
pub mod Canonical
use custom_built_network_ana.Base.{
  ℕ, Bool, true, false, ◌&&◌, ◌||◌, Option, none, some, List, [], ◌∷◌, ltb, leb, ◌==◌,
  if◌then◌else◌,
}
use custom_built_network_ana.Net.{IpAddr, v4, v6}
use custom_built_network_ana.Packet.{DecodedPacket, src_ip, dst_ip, ip_protocol, ports}

-- The derived order of addresses: by variant, then by octets.
unfoldable pub octets_eq : List ℕ → List ℕ → Bool
octets_eq [] [] = true
octets_eq (x ∷ xs) (y ∷ ys) = x == y && octets_eq xs ys
octets_eq _ _ = false

unfoldable pub octets_lt : List ℕ → List ℕ → Bool
octets_lt [] [] = false
octets_lt [] (y ∷ ys) = true
octets_lt (x ∷ xs) [] = false
octets_lt (x ∷ xs) (y ∷ ys) = ltb x y || (x == y && octets_lt xs ys)

unfoldable pub ip_eq : IpAddr → IpAddr → Bool
unfolding octets_eq
ip_eq (v4 a) (v4 b) = octets_eq a b
ip_eq (v6 a) (v6 b) = octets_eq a b
ip_eq _ _ = false

unfoldable pub ip_lt : IpAddr → IpAddr → Bool
unfolding octets_lt
ip_lt (v4 a) (v4 b) = octets_lt a b
ip_lt (v4 a) (v6 b) = true
ip_lt (v6 a) (v4 b) = false
ip_lt (v6 a) (v6 b) = octets_lt a b

-- `(src_ip, src_port) <= (dst_ip, dst_port)`
unfoldable pub endpoint_leb : IpAddr → ℕ → IpAddr → ℕ → Bool
endpoint_leb a p b q = ip_lt a b || (ip_eq a b && leb p q)

pub record FlowKey : Type 0 where
  pub a_ip : IpAddr
  pub a_port : ℕ
  pub b_ip : IpAddr
  pub b_port : ℕ
  pub protocol : ℕ

pub data Direction : Type 0 where
  a_to_b b_to_a : Direction

unfoldable pub canonical : IpAddr → ℕ → IpAddr → ℕ → ℕ → FlowKey × Direction
canonical src_ip src_port dst_ip dst_port protocol =
    if endpoint_leb src_ip src_port dst_ip dst_port
    then (
      record {
        a_ip = src_ip;
        a_port = src_port;
        b_ip = dst_ip;
        b_port = dst_port;
        protocol = protocol;
      },
      a_to_b,
    )
    else (
      record {
        a_ip = dst_ip;
        a_port = dst_port;
        b_ip = src_ip;
        b_port = src_port;
        protocol = protocol;
      },
      b_to_a,
    )

abbrev key_of :
    Option IpAddr → Option IpAddr → Option ℕ → Option (ℕ × ℕ) → Option (FlowKey × Direction)
key_of (some src) (some dst) (some protocol) (some (sp, dp)) =
    some (canonical src sp dst dp protocol)
key_of (some src) (some dst) (some protocol) none = some (canonical src 0 dst 0 protocol)
key_of (some src) (some dst) none ps = none
key_of (some src) none protocol ps = none
key_of none dst protocol ps = none

unfoldable pub from_packet : DecodedPacket → Option (FlowKey × Direction)
from_packet pkt = key_of (src_ip pkt) (dst_ip pkt) (ip_protocol pkt) (ports pkt)

direction_eq : Direction → Direction → Bool
direction_eq a_to_b a_to_b = true
direction_eq b_to_a b_to_a = true
direction_eq _ _ = false

-- The derived equality of a stream's key.
abbrev pub StreamKey : Type 0
StreamKey = FlowKey × Direction

unfoldable pub key_eq : StreamKey → StreamKey → Bool
unfolding ip_eq direction_eq
key_eq (k, d) (j, e) =
    ip_eq k.a_ip j.a_ip
    && k.a_port == j.a_port
    && ip_eq k.b_ip j.b_ip
    && k.b_port == j.b_port
    && k.protocol == j.protocol
    && direction_eq d e

-- The derived equality of a flow's key.
unfoldable pub flow_eq : FlowKey → FlowKey → Bool
unfolding ip_eq
flow_eq k j =
    ip_eq k.a_ip j.a_ip
    && k.a_port == j.a_port
    && ip_eq k.b_ip j.b_ip
    && k.b_port == j.b_port
    && k.protocol == j.protocol
