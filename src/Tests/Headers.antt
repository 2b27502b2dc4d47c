-- ===== src/Tests/Headers.antt =====
-- The header parsers at concrete bytes.
use custom_built_network_ana.Base.{ℕ, ◌<◌, false, ◌&&◌, ◌==◌, List, [], ◌∷◌, ◌≡◌, refl, arith}
use custom_built_network_ana.Tests.{bytes}
use custom_built_network_ana.Bytes.{Slice, new, remaining}
use custom_built_network_ana.Bytes.Ensures.{Yields, new-IsValid}
use custom_built_network_ana.Transport.{Udp, parse_tcp, parse_udp, walk_options, default_options}
use custom_built_network_ana.Transport.Headers.{IsTcp, IsUdp, parse_tcp_lem, parse_udp_lem}
use custom_built_network_ana.Error.{ok}
use custom_built_network_ana.Transport.Accepts.{parse_udp-accepts}
use custom_built_network_ana.Transport.Options.{walk_options_fuel}
use custom_built_network_ana.Net.{IpAddr, v4, parse_ipv6, parse_icmp}
use custom_built_network_ana.Net.Ipv4Header.{IsIcmp, parse_icmp_lem}
use custom_built_network_ana.Net.Ipv6Header.{IsIpv6, parse_ipv6_lem}
use custom_built_network_ana.Link.{parse_ethernet, parse_arp}
use custom_built_network_ana.Link.Headers.{IsEthernet, IsArp, parse_ethernet_lem, parse_arp_lem}
use custom_built_network_ana.Flow.{canonical, ip_eq}
use custom_built_network_ana.Flow.Canonical.{canonical_swap, reversed, sender}

abbrev udp_bytes : List ℕ
udp_bytes = 0 ∷ 53 ∷ 16 ∷ 0 ∷ 0 ∷ 10 ∷ 0 ∷ 0 ∷ 7 ∷ 8 ∷ 9 ∷ []

parse_udp_lem_example : Yields (λ x. IsUdp udp_bytes x.0 x.1) (parse_udp udp_bytes)
parse_udp_lem_example = parse_udp_lem udp_bytes (bytes udp_bytes refl)

parse_udp-accepts_example :
    (x : Udp × Slice) × (parse_udp udp_bytes ≡ ok x) × IsUdp udp_bytes x.0 x.1
parse_udp-accepts_example = parse_udp-accepts udp_bytes (bytes udp_bytes refl) (omega arith)

-- A SYN with an MSS option of 1460, and one byte behind the header.
abbrev tcp_bytes : List ℕ
tcp_bytes =
    4 ∷ 210 ∷ 0 ∷ 80 ∷ 0 ∷ 0 ∷ 3 ∷ 232 ∷ 0 ∷ 0 ∷ 0 ∷ 0 ∷ 96 ∷ 2 ∷ 255 ∷ 255 ∷ 0 ∷ 0 ∷ 0 ∷ 0 ∷ 2 ∷ 4
    ∷ 5 ∷ 180 ∷ 65 ∷ []

parse_tcp_lem_example : Yields (λ x. IsTcp tcp_bytes x.0 x.1) (parse_tcp tcp_bytes)
parse_tcp_lem_example = parse_tcp_lem tcp_bytes (bytes tcp_bytes refl)

abbrev option_bytes : List ℕ
option_bytes = 1 ∷ 2 ∷ 4 ∷ 5 ∷ 180 ∷ 0 ∷ []

options_short : (n : ℕ) → 6 < n → remaining (new option_bytes "tcp options") < n
unfolding new
options_short n h = omega arith

walk_options_fuel_example :
    walk_options 7 default_options (new option_bytes "tcp options")
    ≡ walk_options 20 default_options (new option_bytes "tcp options")
walk_options_fuel_example =
    walk_options_fuel 7 20 default_options (new option_bytes "tcp options")
      (new-IsValid option_bytes "tcp options" (bytes option_bytes refl))
      (options_short 7 (omega arith)) (options_short 20 (omega arith))

abbrev ipv4_bytes : List ℕ
ipv4_bytes =
    69 ∷ 0 ∷ 0 ∷ 22 ∷ 0 ∷ 1 ∷ 0 ∷ 0 ∷ 64 ∷ 17 ∷ 0 ∷ 0 ∷ 10 ∷ 0 ∷ 0 ∷ 1 ∷ 10 ∷ 0 ∷ 0 ∷ 2 ∷ 7 ∷ 8 ∷ 0
    ∷ 0 ∷ []

abbrev ipv6_bytes : List ℕ
ipv6_bytes =
    96 ∷ 0 ∷ 0 ∷ 0 ∷ 0 ∷ 12 ∷ 44 ∷ 64 ∷ 32 ∷ 1 ∷ 0 ∷ 0 ∷ 0 ∷ 0 ∷ 0 ∷ 0 ∷ 0 ∷ 0 ∷ 0 ∷ 0 ∷ 0 ∷ 0 ∷ 0
    ∷ 1 ∷ 32 ∷ 1 ∷ 0 ∷ 0 ∷ 0 ∷ 0 ∷ 0 ∷ 0 ∷ 0 ∷ 0 ∷ 0 ∷ 0 ∷ 0 ∷ 0 ∷ 0 ∷ 2 ∷ 17 ∷ 0 ∷ 0 ∷ 1 ∷ 0 ∷ 0
    ∷ 0 ∷ 9 ∷ 1 ∷ 2 ∷ 3 ∷ 4 ∷ []

parse_ipv6_lem_example : Yields (λ x. IsIpv6 ipv6_bytes x.0 x.1) (parse_ipv6 ipv6_bytes)
parse_ipv6_lem_example = parse_ipv6_lem ipv6_bytes (bytes ipv6_bytes refl)

abbrev icmp_bytes : List ℕ
icmp_bytes = 8 ∷ 0 ∷ 0 ∷ 0 ∷ 0 ∷ 1 ∷ 0 ∷ 2 ∷ 97 ∷ 98 ∷ []

parse_icmp_lem_example : Yields (IsIcmp icmp_bytes false) (parse_icmp icmp_bytes false)
parse_icmp_lem_example = parse_icmp_lem icmp_bytes false (bytes icmp_bytes refl)

abbrev ethernet_bytes : List ℕ
ethernet_bytes =
    1 ∷ 2 ∷ 3 ∷ 4 ∷ 5 ∷ 6 ∷ 7 ∷ 8 ∷ 9 ∷ 10 ∷ 11 ∷ 12 ∷ 129 ∷ 0 ∷ 0 ∷ 5 ∷ 8 ∷ 0 ∷ 99 ∷ []

parse_ethernet_lem_example :
    Yields (λ x. IsEthernet ethernet_bytes x.0 x.1) (parse_ethernet ethernet_bytes)
parse_ethernet_lem_example = parse_ethernet_lem ethernet_bytes (bytes ethernet_bytes refl)

abbrev arp_bytes : List ℕ
arp_bytes =
    0 ∷ 1 ∷ 8 ∷ 0 ∷ 6 ∷ 4 ∷ 0 ∷ 1 ∷ 2 ∷ 0 ∷ 0 ∷ 0 ∷ 0 ∷ 1 ∷ 10 ∷ 0 ∷ 0 ∷ 1 ∷ 0 ∷ 0 ∷ 0 ∷ 0 ∷ 0 ∷ 0
    ∷ 10 ∷ 0 ∷ 0 ∷ 2 ∷ []

parse_arp_lem_example : Yields (IsArp arp_bytes) (parse_arp arp_bytes)
parse_arp_lem_example = parse_arp_lem arp_bytes (bytes arp_bytes refl)

abbrev here : IpAddr
here = v4 (10 ∷ 0 ∷ 0 ∷ 1 ∷ [])

abbrev there : IpAddr
there = v4 (10 ∷ 0 ∷ 0 ∷ 2 ∷ [])

canonical_swap_example :
    ((canonical there 80 here 5000 6).0 ≡ (canonical here 5000 there 80 6).0)
    × ((ip_eq there here && 80 == 5000) ≡ false
        → (canonical here 5000 there 80 6).1 ≡ reversed (canonical there 80 here 5000 6).1)
    × (sender (canonical there 80 here 5000 6) ≡ (there, 80))
canonical_swap_example = canonical_swap there here 80 5000 6
