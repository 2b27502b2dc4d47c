-- ===== src/Packet/Slices.antt =====
-- A parser's payload lies in the bytes that the parser was given.
use custom_built_network_ana.Base.{
  ℕ, ◌+◌, ◌-◌, ◌*◌, List, refl, subst, inl, inr, arith, ltb, Bool-cases, tests, ltb→lt, ltb→le,
  length,
}
use custom_built_network_ana.Bytes.{Slice}
use custom_built_network_ana.Link.{Ethernet}
use custom_built_network_ana.Link.Headers.{IsEthernet}
use custom_built_network_ana.Net.{Ipv4, Ipv6}
use custom_built_network_ana.Net.Ipv4Header.{IsIpv4}
use custom_built_network_ana.Net.Ipv6Header.{IsIpv6, in_sight}
use custom_built_network_ana.Transport.{Tcp, Udp}
use custom_built_network_ana.Transport.Headers.{IsTcp, IsUdp}
use custom_built_network_ana.Packet.Located.{Located, Located-take, Located-rest, Located-trans}

pub IsTcp-Located : {buf : List ℕ} {t : Tcp} {s : Slice} → IsTcp buf t s → Located buf s
IsTcp-Located {buf} {t} {s} h =
    Located-rest buf (4 * t.data_offset) s h.header h.start_is h.payload_is

pub IsUdp-Located : {buf : List ℕ} {u : Udp} {s : Slice} → IsUdp buf u s → Located buf s
IsUdp-Located {buf} {u} {s} h = elim (Bool-cases (ltb u.length 8)) [
  | inl short ↦
      Located-rest buf 8 s h.header h.start_is (h.insane (omega (tests, ltb→lt u.length 8 short)))
  | inr long ↦
      Located-take buf 8 (u.length - 8) s h.header h.start_is (h.sane (ltb→le u.length 8 long))
]

pub IsIpv4-Located : {buf : List ℕ} {ip : Ipv4} {s : Slice} → IsIpv4 buf ip s → Located buf s
IsIpv4-Located {buf} {ip} {s} h = elim (Bool-cases (ltb ip.header_len ip.total_len)) [
  | inl cut ↦ Located-take buf ip.header_len _ s h.header h.start_is (h.trimmed (ltb→lt _ _ cut))
  | inr uncut ↦
      Located-rest buf ip.header_len s h.header h.start_is (h.untrimmed (ltb→le _ _ uncut))
]

pub IsEthernet-Located :
    {buf : List ℕ} {eth : Ethernet} {s : Slice} → IsEthernet buf eth s → Located buf s
IsEthernet-Located {buf} {eth} {s} h =
    Located-rest buf (14 + 4 * length eth.vlans) s h.header h.start_is h.payload_is

in_sight-Located :
    (n : ℕ) (buf : List ℕ) → Located buf (record { start = 0; bytes = in_sight n buf })
in_sight-Located n buf = elim (Bool-cases (ltb 0 n)) [
  | inl cut ↦ Located-take buf 0 (40 + n) _ (omega arith) refl (rw cut refl)
  | inr uncut ↦ Located-rest buf 0 _ (omega arith) refl (rw uncut refl)
]

pub IsIpv6-Located : {buf : List ℕ} {ip : Ipv6} {s : Slice} → IsIpv6 buf ip s → Located buf s
IsIpv6-Located {buf} {ip} {s} h =
    let all = in_sight-Located ip.payload_len buf in
    let part =
      Located-rest (in_sight ip.payload_len buf) s.start s h.header_max refl h.payload_is in
    subst (λ k. Located buf (record { start = k; bytes = s.bytes })) (omega arith)
      (Located-trans all part)
