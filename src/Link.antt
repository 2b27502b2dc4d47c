-- ===== src/Link.antt =====
-- crates/cbna-core/src/link.rs: Ethernet II with stacked VLAN tags, and ARP.
pub mod Headers
use custom_built_network_ana.Base.{
  ℕ, zero, suc, ◌/◌, ◌%◌, String, Bool, true, false, not, ◌&&◌, ◌||◌, Option, none, some, List, [],
  ◌∷◌, ◌++◌, ◌==◌, if◌then◌else◌, bit_and, get_or,
}
use custom_built_network_ana.Error.{malformed, Outcome}
use custom_built_network_ana.Bytes.{
  Slice, Parser, ◌>>=◌, ◌>>◌, pure, branch, fail_if, eval, new, u8, array, be_u16, rest,
}

abbrev pub ethertype_ipv4 : ℕ
ethertype_ipv4 = 0x0800

abbrev pub ethertype_arp : ℕ
ethertype_arp = 0x0806

abbrev pub ethertype_ipv6 : ℕ
ethertype_ipv6 = 0x86DD

abbrev ethertype_vlan : ℕ
ethertype_vlan = 0x8100

abbrev ethertype_qinq : ℕ
ethertype_qinq = 0x88A8

abbrev ethertype_qinq_legacy : ℕ
ethertype_qinq_legacy = 0x9100

-- The six bytes of a MAC address.
abbrev pub MacAddr : Type 0
MacAddr = List ℕ

-- Group bit set: broadcast or multicast delivery.
is_multicast : MacAddr → Bool
is_multicast mac = not (bit_and (get_or mac 0 0) 0x01 == 0)

is_locally_administered : MacAddr → Bool
is_locally_administered mac = not (bit_and (get_or mac 0 0) 0x02 == 0)

pub record VlanTag : Type 0 where
  pub tpid : ℕ
  pub priority : ℕ
  pub dei : Bool
  pub vid : ℕ

pub record Ethernet : Type 0 where
  pub dst : MacAddr
  pub src : MacAddr
  pub ethertype : ℕ
  pub vlans : List VlanTag

unfoldable pub is_vlan : ℕ → Bool
is_vlan ethertype =
    ethertype == ethertype_vlan || ethertype == ethertype_qinq || ethertype == ethertype_qinq_legacy

-- One tag, from the two bytes behind its type.
unfoldable pub vlan_tag : ℕ → ℕ → VlanTag
vlan_tag tpid tci = record {
  tpid = tpid;
  priority = tci / 8192;
  dei = tci / 4096 % 2 == 1;
  vid = tci % 4096;
}

-- The loop over at most `rounds` stacked tags, with the type and the tags so far.
unfoldable pub vlan_loop : ℕ → ℕ → List VlanTag → Parser (ℕ × List VlanTag)
vlan_loop zero ethertype vlans = pure (ethertype, vlans)
vlan_loop (suc rounds) ethertype vlans =
    branch (is_vlan ethertype)
      (do
        tci ← be_u16
        inner ← be_u16
        vlan_loop rounds inner (vlans ++ vlan_tag ethertype tci ∷ []))
      (pure (ethertype, vlans))

unfoldable pub ethernet_parser : Parser (Ethernet × Slice)
ethernet_parser = do
  dst ← array 6
  src ← array 6
  outer ← be_u16
  (ethertype, vlans) ← vlan_loop 3 outer []
  payload ← rest
  pure (record { dst = dst; src = src; ethertype = ethertype; vlans = vlans }, payload)

unfoldable pub parse_ethernet : List ℕ → Outcome (Ethernet × Slice)
parse_ethernet buf = eval ethernet_parser (new buf "ethernet")

pub data ArpOp : Type 0 where
  request reply : ArpOp
  other : ℕ → ArpOp

pub record Arp : Type 0 where
  pub op : ArpOp
  pub sender_mac : MacAddr
  pub sender_ip : List ℕ
  pub target_mac : MacAddr
  pub target_ip : List ℕ

unfoldable pub arp_op : ℕ → ArpOp
arp_op op = if op == 1 then request else if op == 2 then reply else other op

-- Only the Ethernet/IPv4 binding is decoded.
unfoldable pub arp_parser : Parser Arp
arp_parser = do
  htype ← be_u16
  ptype ← be_u16
  hlen ← u8
  plen ← u8
  op ← be_u16
  fail_if (not (htype == 1) || not (ptype == ethertype_ipv4) || not (hlen == 6) || not (plen == 4))
      (malformed "arp" "only ethernet/ipv4 hardware bindings are decoded")
  sender_mac ← array 6
  sender_ip ← array 4
  target_mac ← array 6
  target_ip ← array 4
  pure (record {
    op = arp_op op;
    sender_mac = sender_mac;
    sender_ip = sender_ip;
    target_mac = target_mac;
    target_ip = target_ip;
  })

unfoldable pub parse_arp : List ℕ → Outcome Arp
parse_arp buf = eval arp_parser (new buf "arp")

-- `ethertype_name`
ethertype_name : ℕ → String
ethertype_name et =
    if et == ethertype_ipv4
    then "IPv4"
    else if et == ethertype_arp
    then "ARP"
    else if et == ethertype_ipv6
    then "IPv6"
    else if et == 0x8847 || et == 0x8848
    then "MPLS"
    else if et == 0x88CC
    then "LLDP"
    else if et == 0x8863 || et == 0x8864
    then "PPPoE"
    else if et == 0x8035
    then "RARP"
    else "unknown"
