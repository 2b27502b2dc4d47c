-- ===== src/Net.antt =====
-- crates/cbna-core/src/net.rs: the IPv4 and IPv6 headers, ICMP, and the addresses that are not
-- globally routable.
pub mod Ipv4Header
pub mod Flags
pub mod ExtensionChain
pub mod ExtensionWalk
pub mod Ipv6Header
use custom_built_network_ana.Base.{
  ℕ, zero, suc, ◌+◌, ◌-◌, ◌*◌, ◌/◌, ◌%◌, String, Bool, true, false, not, ◌&&◌, ◌||◌, Option, none,
  some, List, [], ◌∷◌, ◌==◌, ltb, leb, if◌then◌else◌, bit_and, get_or,
}
use custom_built_network_ana.Error.{malformed, Outcome}
use custom_built_network_ana.Bytes.{
  Slice, Reader, Parser, ◌>>=◌, ◌>>◌, pure, branch, fail_if, eval, new, remaining, here, u8, array,
  be_u16, be_u32, skip, limit, rest,
}

-- `proto_num`
abbrev pub proto_hopopt : ℕ
proto_hopopt = 0

abbrev pub proto_icmp : ℕ
proto_icmp = 1

abbrev pub proto_tcp : ℕ
proto_tcp = 6

abbrev pub proto_udp : ℕ
proto_udp = 17

abbrev pub proto_ipv6_route : ℕ
proto_ipv6_route = 43

abbrev pub proto_ipv6_frag : ℕ
proto_ipv6_frag = 44

abbrev pub proto_ah : ℕ
proto_ah = 51

abbrev pub proto_icmpv6 : ℕ
proto_icmpv6 = 58

abbrev pub proto_ipv6_opts : ℕ
proto_ipv6_opts = 60

-- `word & mask != 0`
abbrev pub any_set : ℕ → ℕ → Bool
any_set word mask = not (bit_and word mask == 0)

pub record Ipv4 : Type 0 where
  pub src : List ℕ
  pub dst : List ℕ
  pub protocol : ℕ
  pub ttl : ℕ
  pub dscp : ℕ
  pub ecn : ℕ
  pub identification : ℕ
  pub dont_fragment : Bool
  pub more_fragments : Bool
  pub fragment_offset : ℕ
  pub total_len : ℕ
  pub header_len : ℕ
  pub checksum : ℕ
  pub fragmented : Bool

-- The payload is cut only where the total length exceeds the header's.
unfoldable pub ipv4_limit : ℕ → ℕ → Parser (Unit {0})
ipv4_limit total_len header_len =
    branch (ltb header_len total_len) (limit (total_len - header_len)) (pure tt)

unfoldable pub ipv4_parser : Parser (Ipv4 × Slice)
ipv4_parser = do
  vhl ← u8
  fail_if (not (vhl / 16 == 4)) (malformed "ipv4" "version nibble is not 4")
  let ihl = vhl % 16
  fail_if (ltb ihl 5) (malformed "ipv4" "IHL below the 20-byte minimum")
  tos ← u8
  total_len ← be_u16
  identification ← be_u16
  flags_frag ← be_u16
  ttl ← u8
  protocol ← u8
  checksum ← be_u16
  src ← array 4
  dst ← array 4
  skip (ihl * 4 - 20)
  ipv4_limit total_len (ihl * 4)
  payload ← rest
  let more_fragments = any_set flags_frag 0x2000
  let fragment_offset = flags_frag % 8192 * 8
  pure (
    record {
      src = src;
      dst = dst;
      protocol = protocol;
      ttl = ttl;
      dscp = tos / 4;
      ecn = tos % 4;
      identification = identification;
      dont_fragment = any_set flags_frag 0x4000;
      more_fragments = more_fragments;
      fragment_offset = fragment_offset;
      total_len = total_len;
      header_len = ihl * 4;
      checksum = checksum;
      fragmented = more_fragments || ltb 0 fragment_offset;
    },
    payload,
  )

unfoldable pub parse_ipv4 : List ℕ → Outcome (Ipv4 × Slice)
parse_ipv4 buf = eval ipv4_parser (new buf "ipv4")

pub record Ipv6 : Type 0 where
  pub src : List ℕ
  pub dst : List ℕ
  pub next_header : ℕ
  pub hop_limit : ℕ
  pub traffic_class : ℕ
  pub flow_label : ℕ
  pub payload_len : ℕ
  pub extension_headers : ℕ
  pub fragmented : Bool
  pub fragment_offset : ℕ
  pub identification : ℕ
  pub more_fragments : Bool

-- The variables of the walk over the extension headers.
pub record Extensions : Type 0 where
  pub next_header : ℕ
  pub extension_headers : ℕ
  pub fragmented : Bool
  pub fragment_offset : ℕ
  pub identification : ℕ
  pub more_fragments : Bool

abbrev pub no_extensions : ℕ → Extensions
no_extensions next_header = record {
  next_header = next_header;
  extension_headers = 0;
  fragmented = false;
  fragment_offset = 0;
  identification = 0;
  more_fragments = false;
}

-- How a round of the walk ends.
pub data Walk : Type 0 where
  stop : Extensions → Walk
  more : Extensions → Walk

-- HOPOPT, IPV6_ROUTE and IPV6_OPTS, whose length counts 8-octet units beyond the first.
unfoldable pub option_header : Extensions → Parser Walk
option_header x = do
  nh ← u8
  len ← u8
  skip (6 + len * 8)
  pure (more (record x { next_header = nh; extension_headers = x.extension_headers + 1 }))

-- IPV6_FRAG; behind a later fragment there is no transport header.
unfoldable pub fragment_header : Extensions → Parser Walk
fragment_header x = do
  nh ← u8
  skip 1
  off_flags ← be_u16
  identification ← be_u32
  let fragment_offset = off_flags / 8 * 8
  let x' = record x {
    next_header = nh;
    extension_headers = x.extension_headers + 1;
    fragmented = true;
    fragment_offset = fragment_offset;
    identification = identification;
    more_fragments = any_set off_flags 0x0001;
  }
  pure (if ltb 0 fragment_offset then stop x' else more x')

-- AH, whose whole length is (len + 2) * 4.
unfoldable pub authentication_header : Extensions → Parser Walk
authentication_header x = do
  nh ← u8
  len ← u8
  skip (len * 4 + 6)
  pure (more (record x { next_header = nh; extension_headers = x.extension_headers + 1 }))

unfoldable pub extension_step : Extensions → Parser Walk
extension_step x =
    branch
      (x.next_header == proto_hopopt
        || x.next_header == proto_ipv6_route
        || x.next_header == proto_ipv6_opts)
      (option_header x)
      (branch (x.next_header == proto_ipv6_frag) (fragment_header x)
        (branch (x.next_header == proto_ah) (authentication_header x) (pure (stop x))))

unfoldable pub walk_on : (Extensions → Parser Extensions) → Walk → Parser Extensions
walk_on again (stop x) = pure x
walk_on again (more x) = again x

-- `for _ in 0..16`, with the rounds left.
unfoldable pub walk_extensions : ℕ → Extensions → Parser Extensions
walk_extensions zero x = pure x
walk_extensions (suc rounds) x = extension_step x >>= walk_on (walk_extensions rounds)

unfoldable pub ipv6_limit : ℕ → Parser (Unit {0})
ipv6_limit payload_len = branch (ltb 0 payload_len) (limit payload_len) (pure tt)

unfoldable pub ipv6_parser : Parser (Ipv6 × Slice)
ipv6_parser = do
  vtf ← be_u32
  fail_if (not (vtf / 268435456 == 6)) (malformed "ipv6" "version nibble is not 6")
  payload_len ← be_u16
  next_header ← u8
  hop_limit ← u8
  src ← array 16
  dst ← array 16
  ipv6_limit payload_len
  x ← walk_extensions 16 (no_extensions next_header)
  payload ← rest
  pure (
    record {
      src = src;
      dst = dst;
      next_header = x.next_header;
      hop_limit = hop_limit;
      traffic_class = vtf / 1048576 % 256;
      flow_label = vtf % 1048576;
      payload_len = payload_len;
      extension_headers = x.extension_headers;
      fragmented = x.fragmented;
      fragment_offset = x.fragment_offset;
      identification = x.identification;
      more_fragments = x.more_fragments;
    },
    payload,
  )

unfoldable pub parse_ipv6 : List ℕ → Outcome (Ipv6 × Slice)
parse_ipv6 buf = eval ipv6_parser (new buf "ipv6")

pub record Icmp : Type 0 where
  pub icmp_type : ℕ
  pub code : ℕ
  pub checksum : ℕ
  pub echo_id : Option ℕ
  pub echo_seq : Option ℕ
  pub v6 : Bool
  pub payload_len : ℕ

-- `is_echo`, and the test of `parse_icmp`.
unfoldable pub is_echo : Bool → ℕ → Bool
is_echo v6 icmp_type =
    if v6 then icmp_type == 128 || icmp_type == 129 else icmp_type == 0 || icmp_type == 8

unfoldable pub echo_fields : Bool → Parser (Option ℕ × Option ℕ)
echo_fields echo =
    branch echo (do id ← be_u16; seq ← be_u16; pure (some id, some seq)) (pure (none, none))

unfoldable pub icmp_parser : Bool → Parser Icmp
icmp_parser v6 = do
  icmp_type ← u8
  code ← u8
  checksum ← be_u16
  (echo_id, echo_seq) ← echo_fields (is_echo v6 icmp_type)
  r ← here
  pure (record {
    icmp_type = icmp_type;
    code = code;
    checksum = checksum;
    echo_id = echo_id;
    echo_seq = echo_seq;
    v6 = v6;
    payload_len = remaining r;
  })

unfoldable pub parse_icmp : List ℕ → Bool → Outcome Icmp
parse_icmp buf v6 = eval (icmp_parser v6) (new buf (if v6 then "icmpv6" else "icmp"))

-- `IpAddr`, with the octets of the address.
pub data IpAddr : Type 0 where
  v4 : List ℕ → IpAddr
  v6 : List ℕ → IpAddr

abbrev octet : List ℕ → ℕ → ℕ
octet o i = get_or o i 0

-- The octets are all the one given, but for the last.
all_but_last : ℕ → ℕ → List ℕ → Bool
all_but_last b last [] = true
all_but_last b last (x ∷ []) = x == last
all_but_last b last (x ∷ y ∷ xs) = x == b && all_but_last b last (y ∷ xs)

-- `is_private` of a v4 address joins the standard library's private, loopback, link-local, broadcast
-- and unspecified addresses.
unfoldable pub is_private : IpAddr → Bool
unfolding all_but_last
is_private (v4 o) =
    octet o 0 == 10
    || (octet o 0 == 172 && leb 16 (octet o 1) && leb (octet o 1) 31)
    || (octet o 0 == 192 && octet o 1 == 168)
    || octet o 0 == 127
    || (octet o 0 == 169 && octet o 1 == 254)
    || all_but_last 255 255 o
    || all_but_last 0 0 o
is_private (v6 o) =
    all_but_last 0 1 o
    || all_but_last 0 0 o
    || bit_and (octet o 0) 0xFE == 0xFC
    || (octet o 0 == 0xFE && bit_and (octet o 1) 0xC0 == 0x80)
