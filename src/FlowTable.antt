-- ===== src/FlowTable.antt =====
-- crates/cbna-core/src/flow.rs: the conversations and what is counted for each. A `BTreeSet` of texts is
-- a list without repeats, whose order nothing reads; a time sample is kept as the timestamp that
-- `as_secs_f64` makes a float of.
pub mod Bounds
pub mod Totals
pub mod Client
use custom_built_network_ana.Base.{
  ℕ, ltb_ℤ, ◌+◌, bit_or, Bool, true, false, not, ◌&&◌, ◌||◌, Option, none, some, List, [], ◌∷◌,
  ◌++◌, ltb, leb, ◌==◌, if◌then◌else◌, length, lookup, insert,
}
use custom_built_network_ana.Net.{IpAddr, is_private, proto_tcp}
use custom_built_network_ana.Transport.{has, rst_flag, is_syn_only}
use custom_built_network_ana.Proto.{
  Text, DnsQuestion, HttpMessage, TlsHello, TlsHelloKind, client, server,
}
use custom_built_network_ana.Packet.{
  Timestamp, TransportLayer, tcp, udp, icmp, no_transport, AppLayer, dns, http, tls, no_app,
  DecodedPacket,
}
use custom_built_network_ana.Flow.{FlowKey, Direction, a_to_b, b_to_a, octets_eq, from_packet}
use custom_built_network_ana.Flow.Canonical.{flow_Eq}

abbrev pub max_timestamp_samples : ℕ
max_timestamp_samples = 8192

-- The derived order of timestamps.
unfoldable pub time_lt : Timestamp → Timestamp → Bool
time_lt s t = ltb_ℤ s.secs t.secs || (not (ltb_ℤ t.secs s.secs) && ltb s.nanos t.nanos)

-- A set of texts.
unfoldable pub contains : Text → List Text → Bool
contains x [] = false
contains x (y ∷ ys) = octets_eq x y || contains x ys

unfoldable pub set_insert : Text → List Text → List Text
unfolding contains
set_insert x xs = if contains x xs then xs else x ∷ xs

-- `if set.len() < cap { set.insert(x) }`
unfoldable pub insert_capped : ℕ → Text → List Text → List Text
unfolding set_insert
insert_capped cap x xs = if ltb (length xs) cap then set_insert x xs else xs

abbrev pub insert_option : ℕ → Option Text → List Text → List Text
insert_option cap none xs = xs
insert_option cap (some x) xs = insert_capped cap x xs

unfoldable pub insert_names : List DnsQuestion → List Text → List Text
unfolding insert_capped
insert_names [] names = names
insert_names (q ∷ qs) names = insert_names qs (insert_capped 256 q.name names)

pub record DirectionStats : Type 0 where
  pub packets : ℕ
  pub bytes : ℕ
  pub payload_bytes : ℕ
  pub tcp_flags_seen : ℕ
  pub timestamps : List Timestamp
  pub samples_truncated : Bool

abbrev pub no_stats : DirectionStats
no_stats = record {
  packets = 0;
  bytes = 0;
  payload_bytes = 0;
  tcp_flags_seen = 0;
  timestamps = [];
  samples_truncated = false;
}

abbrev pub see_flags : TransportLayer → ℕ → ℕ
see_flags (tcp t) seen = bit_or seen t.flags
see_flags _ seen = seen

-- `DirectionStats::observe`
unfoldable pub observe_stats : DirectionStats → DecodedPacket → DirectionStats
observe_stats s pkt =
    let sampled = ltb (length s.timestamps) max_timestamp_samples in
    record {
      packets = s.packets + 1;
      bytes = s.bytes + pkt.meta.wire_len;
      payload_bytes = s.payload_bytes + pkt.payload_len;
      tcp_flags_seen = see_flags pkt.transport s.tcp_flags_seen;
      timestamps = if sampled then s.timestamps ++ pkt.meta.timestamp ∷ [] else s.timestamps;
      samples_truncated = if sampled then s.samples_truncated else true;
    }

pub record Flow : Type 0 where
  pub key : FlowKey
  pub first_seen : Timestamp
  pub last_seen : Timestamp
  pub a_stats : DirectionStats
  pub b_stats : DirectionStats
  pub protocols : List Text
  pub sni : Option Text
  pub ja3 : Option Text
  pub tls_version : Option ℕ
  pub http_hosts : List Text
  pub user_agents : List Text
  pub dns_names : List Text
  pub cleartext_credentials : Bool
  pub saw_handshake : Bool
  pub initiator : Direction

unfoldable pub new : FlowKey → Timestamp → Direction → Flow
new key ts initiator = record {
  key = key;
  first_seen = ts;
  last_seen = ts;
  a_stats = no_stats;
  b_stats = no_stats;
  protocols = [];
  sni = none;
  ja3 = none;
  tls_version = none;
  http_hosts = [];
  user_agents = [];
  dns_names = [];
  cleartext_credentials = false;
  saw_handshake = false;
  initiator = initiator;
}

unfoldable pub packets : Flow → ℕ
packets f = f.a_stats.packets + f.b_stats.packets

unfoldable pub bytes : Flow → ℕ
bytes f = f.a_stats.bytes + f.b_stats.bytes

-- The names of the protocols, as bytes.
abbrev pub dns_text : Text
dns_text = 100 ∷ 110 ∷ 115 ∷ []

abbrev pub http_text : Text
http_text = 104 ∷ 116 ∷ 116 ∷ 112 ∷ []

abbrev pub tls_text : Text
tls_text = 116 ∷ 108 ∷ 115 ∷ []

abbrev pub or_set {ℓ} : {A : Type ℓ} → Option A → Option A → Option A
or_set none b = b
or_set (some a) b = some a

abbrev pub is_server : TlsHelloKind → Bool
is_server server = true
is_server client = false

abbrev pub is_none {ℓ} : {A : Type ℓ} → Option A → Bool
is_none none = true
is_none (some a) = false

unfoldable pub record_http : Flow → HttpMessage → Flow
unfolding insert_capped set_insert
record_http f h = record f {
  protocols = set_insert http_text f.protocols;
  http_hosts = insert_option 64 h.host f.http_hosts;
  user_agents = insert_option 16 h.user_agent f.user_agents;
  cleartext_credentials = h.has_authorization || f.cleartext_credentials;
}

unfoldable pub record_tls : Flow → TlsHello → Flow
unfolding set_insert
record_tls f t = record f {
  protocols = set_insert tls_text f.protocols;
  sni = or_set f.sni t.sni;
  ja3 = if is_none f.ja3 && not (is_server t.kind) then some t.ja3_md5 else f.ja3;
  tls_version =
      if is_server t.kind || is_none f.tls_version
      then some t.negotiated_version
      else f.tls_version;
}

-- `Flow::record_app`
unfoldable pub record_app : Flow → AppLayer → Flow
unfolding record_http record_tls insert_names set_insert
record_app f (dns d) = record f {
  protocols = set_insert dns_text f.protocols;
  dns_names = insert_names d.questions f.dns_names;
}
record_app f (http h) = record_http f h
record_app f (tls t) = record_tls f t
record_app f no_app = f

-- The update of a bare SYN.
unfoldable pub see_syn : Flow → Direction → TransportLayer → Flow
see_syn f dir (tcp t) =
    if is_syn_only t.flags
    then record f { initiator = if f.saw_handshake then f.initiator else dir; saw_handshake = true }
    else f
see_syn f dir _ = f

-- The update of `first_seen` and `last_seen`.
unfoldable pub see_time : Flow → Timestamp → Flow
unfolding time_lt
see_time f ts = record f {
  first_seen = if time_lt ts f.first_seen then ts else f.first_seen;
  last_seen = if time_lt f.last_seen ts then ts else f.last_seen;
}

-- `flow.stats_mut(dir).observe(pkt)`
unfoldable pub see_stats : Flow → Direction → DecodedPacket → Flow
unfolding observe_stats
see_stats f a_to_b pkt = record f { a_stats = observe_stats f.a_stats pkt }
see_stats f b_to_a pkt = record f { b_stats = observe_stats f.b_stats pkt }

-- What `FlowTable::observe` does to a flow.
unfoldable pub observe_flow : Flow → Direction → DecodedPacket → Flow
unfolding see_time see_syn see_stats record_app
observe_flow f dir pkt =
    record_app (see_stats (see_syn (see_time f pkt.meta.timestamp) dir pkt.transport) dir pkt)
      pkt.app

pub record FlowTable : Type 0 where
  pub flows : List (FlowKey × Flow)

unfoldable pub empty : FlowTable
empty = record { flows = [] }

abbrev pub or_new : FlowKey → Timestamp → Direction → Option Flow → Flow
or_new key ts dir none = new key ts dir
or_new key ts dir (some f) = f

unfoldable pub observe_key :
    FlowTable → DecodedPacket → Option (FlowKey × Direction) → FlowTable × Option FlowKey
unfolding new observe_flow
observe_key table pkt none = (table, none)
observe_key table pkt (some (key, dir)) =
    let f = or_new key pkt.meta.timestamp dir (lookup key table.flows) in
    (record { flows = insert key (observe_flow f dir pkt) table.flows }, some key)

-- `FlowTable::observe`
unfoldable pub observe : FlowTable → DecodedPacket → FlowTable × Option FlowKey
unfolding observe_key
observe table pkt = observe_key table pkt (from_packet pkt)

record_found : FlowTable → FlowKey → Option Flow → AppLayer → FlowTable
unfolding record_app
record_found table key none app = table
record_found table key (some f) app = record { flows = insert key (record_app f app) table.flows }

-- `FlowTable::record_app`
unfoldable pub record_message : FlowTable → FlowKey → AppLayer → FlowTable
unfolding record_found
record_message table key app = record_found table key (lookup key table.flows) app
