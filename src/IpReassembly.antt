-- ===== src/IpReassembly.antt =====
-- crates/cbna-core/src/ip_reassembly.rs: fragments of an IP datagram put together. The slice
-- `&dg.buf[..total]` panics where `total` is behind the buffer's end.
pub mod Bytes
pub mod Push
use custom_built_network_ana.Base.{
  ℕ, ◌+◌, Bool, true, false, not, ◌&&◌, ◌||◌, Option, none, some, List, [], ltb, leb, ◌==◌,
  if◌then◌else◌, length, take, lookup, insert,
}
use custom_built_network_ana.Error.{Outcome, ok, err, panic}
use custom_built_network_ana.Bytes.{Slice}
use custom_built_network_ana.Proto.{Decoders}
use custom_built_network_ana.Ranges.{contiguous}
use custom_built_network_ana.Buffered
use custom_built_network_ana.Buffered.{Buffered}
use custom_built_network_ana.Net.{
  IpAddr, Icmp, parse_icmp, proto_tcp, proto_udp, proto_icmp, proto_icmpv6,
}
use custom_built_network_ana.Transport.{Tcp, Udp, parse_tcp, parse_udp}
use custom_built_network_ana.Packet.{
  NetworkLayer, ipv4, ipv6, TransportLayer, tcp, udp, icmp, no_transport, AppLayer, no_app,
  DecodedPacket, fragment_bytes, src_ip, dst_ip, ip_protocol,
}
use custom_built_network_ana.Packet.App.{app_from_payload}
use custom_built_network_ana.Fragment.{FragKey, frag_Eq}

abbrev pub max_datagram_bytes : ℕ
max_datagram_bytes = 65535

abbrev pub max_tracked_datagrams : ℕ
max_tracked_datagrams = 1024

abbrev pub max_ranges : ℕ
max_ranges = 16

pub record IpReassemblyStats : Type 0 where
  pub reassembled : ℕ
  pub dropped_datagrams : ℕ
  pub conflicting_overlaps : ℕ

pub record FragInfo : Type 0 where
  pub key : FragKey
  pub offset : ℕ
  pub more_fragments : Bool

-- The `?` of `Option`.
infixl 1 ◌>>=◌
abbrev ◌>>=◌ {ℓ κ} : {A : Type ℓ} {B : Type κ} → Option A → (A → Option B) → Option B
none >>= f = none
some a >>= f = f a

-- The `match` on the network layer: identification, offset and MF of a fragment.
unfoldable pub fragment_of : NetworkLayer → Option (ℕ × ℕ × Bool)
fragment_of (ipv4 h) =
    if h.fragmented then some (h.identification, h.fragment_offset, h.more_fragments) else none
fragment_of (ipv6 h) =
    if h.fragmented then some (h.identification, h.fragment_offset, h.more_fragments) else none
fragment_of _ = none

unfoldable pub frag_info : DecodedPacket → Option FragInfo
unfolding fragment_of
frag_info pkt = do
  src ← src_ip pkt
  dst ← dst_ip pkt
  protocol ← ip_protocol pkt
  (id, offset, more) ← fragment_of pkt.network
  some (record {
    key = record { src = src; dst = dst; protocol = protocol; id = id };
    offset = offset;
    more_fragments = more;
  })

pub record Datagram : Type 0 where
  pub buffered : Buffered
  pub total_len : Option ℕ
  pub fragments : ℕ
  pub done : Bool

abbrev pub no_bytes : Buffered
no_bytes = record { buf = []; filled = [] }

abbrev pub new : Datagram
new = record { buffered = no_bytes; total_len = none; fragments = 0; done = false }

unfoldable pub finish : Datagram → Datagram
finish dg = record dg { done = true; buffered = no_bytes }

-- `get_or_insert`
abbrev pub get_or_insert : Option ℕ → ℕ → Option ℕ
get_or_insert none n = some n
get_or_insert (some m) n = some m

pub record IpReassembler : Type 0 where
  pub datagrams : List (FragKey × Datagram)
  pub stats : IpReassemblyStats

unfoldable pub empty : IpReassembler
empty = record {
  datagrams = [];
  stats = record { reassembled = 0; dropped_datagrams = 0; conflicting_overlaps = 0 };
}

abbrev pub tracked : IpReassembler → ℕ
tracked r = length r.datagrams

abbrev pub store : IpReassembler → FragKey → Datagram → IpReassembler
store r key dg = record r { datagrams = insert key dg r.datagrams }

abbrev pub count_conflict : Bool → IpReassemblyStats → IpReassemblyStats
count_conflict conflict stats =
    if conflict
    then record stats { conflicting_overlaps = stats.conflicting_overlaps + 1 }
    else stats

-- `Datagram::write`
unfoldable pub write : Datagram → ℕ → List ℕ → Datagram × Bool
write dg offset body =
    let (w, conflict) = Buffered.write max_datagram_bytes dg.buffered offset body in
    (record dg { buffered = w }, conflict)

-- The datagram with one fragment more.
unfoldable pub add_fragment : Datagram → FragInfo → List ℕ → Datagram × Bool
unfolding write
add_fragment dg info bytes =
    let (w, conflict) = write dg info.offset bytes in
    let total =
      if info.more_fragments
      then dg.total_len
      else get_or_insert dg.total_len (info.offset + length bytes) in
    (record w { total_len = total; fragments = w.fragments + 1 }, conflict)

module _ (decoders : Decoders) where
  unfoldable pub of_tcp : Outcome (Tcp × Slice) → Outcome (TransportLayer × AppLayer)
  of_tcp (ok (t, body)) =
      ok (tcp t, app_from_payload decoders (t.src_port, t.dst_port) body.bytes true)
  of_tcp (err e) = ok (no_transport, no_app)
  of_tcp panic = panic

  unfoldable pub of_udp : Outcome (Udp × Slice) → Outcome (TransportLayer × AppLayer)
  of_udp (ok (u, body)) =
      ok (udp u, app_from_payload decoders (u.src_port, u.dst_port) body.bytes false)
  of_udp (err e) = ok (no_transport, no_app)
  of_udp panic = panic

  unfoldable pub of_icmp : Outcome Icmp → Outcome (TransportLayer × AppLayer)
  of_icmp (ok i) = ok (icmp i, no_app)
  of_icmp (err e) = ok (no_transport, no_app)
  of_icmp panic = panic

  unfoldable pub decode_datagram : ℕ → List ℕ → Outcome (TransportLayer × AppLayer)
  unfolding of_tcp of_udp of_icmp
  decode_datagram protocol buf =
      if protocol == proto_tcp
      then of_tcp (parse_tcp buf)
      else if protocol == proto_udp
      then of_udp (parse_udp buf)
      else if protocol == proto_icmp || protocol == proto_icmpv6
      then of_icmp (parse_icmp buf (protocol == proto_icmpv6))
      else ok (no_transport, no_app)

  -- The packet made of a datagram that is complete.
  unfoldable pub rebuilt : DecodedPacket → TransportLayer × AppLayer → DecodedPacket
  rebuilt pkt (transport, app) = record {
    meta = pkt.meta;
    link = none;
    network = pkt.network;
    transport = transport;
    app = app;
    payload_len = 0;
    payload_offset = 0;
    ip_payload = none;
    warnings = [];
  }

  unfoldable pub on_decoded :
      IpReassembler
      → FragKey
      → Datagram
      → DecodedPacket
      → Outcome (TransportLayer × AppLayer)
      → IpReassembler × Outcome (Option DecodedPacket)
  unfolding rebuilt finish
  on_decoded r key dg pkt (ok layers) = (
    record (store r key (finish dg)) {
      stats = record r.stats { reassembled = r.stats.reassembled + 1 };
    },
    ok (some (rebuilt pkt layers)),
  )
  on_decoded r key dg pkt (err e) = (store r key dg, err e)
  on_decoded r key dg pkt panic = (store r key dg, panic)

  -- From `let total = dg.total_len?` on.
  unfoldable pub complete :
      IpReassembler
      → FragKey
      → Datagram
      → DecodedPacket
      → Option ℕ
      → IpReassembler × Outcome (Option DecodedPacket)
  unfolding decode_datagram on_decoded contiguous
  complete r key dg pkt none = (store r key dg, ok none)
  complete r key dg pkt (some total) =
      if total == 0 || ltb (contiguous dg.buffered.filled) total
      then (store r key dg, ok none)
      else if leb total (length dg.buffered.buf)
      then on_decoded r key dg pkt (decode_datagram key.protocol (take total dg.buffered.buf))
      else (store r key dg, panic)

  -- For a datagram in the table.
  unfoldable pub on_fragment :
      IpReassembler
      → Datagram
      → FragInfo
      → DecodedPacket
      → List ℕ
      → IpReassembler × Outcome (Option DecodedPacket)
  unfolding add_fragment complete finish
  on_fragment r dg info pkt bytes =
      let (dg', conflict) = add_fragment dg info bytes in
      let r' = record r { stats = count_conflict conflict r.stats } in
      if dg.done
      then (store r info.key dg, ok none)
      else if ltb max_ranges (length dg'.buffered.filled)
      then (store r' info.key (finish dg'), ok none)
      else complete r' info.key dg' pkt dg'.total_len

  -- The table takes a new datagram only while it has room.
  unfoldable pub on_datagram :
      IpReassembler
      → Option Datagram
      → FragInfo
      → DecodedPacket
      → List ℕ
      → IpReassembler × Outcome (Option DecodedPacket)
  unfolding on_fragment
  on_datagram r (some dg) info pkt bytes = on_fragment r dg info pkt bytes
  on_datagram r none info pkt bytes =
      let stats = record r.stats { dropped_datagrams = r.stats.dropped_datagrams + 1 } in
      if leb max_tracked_datagrams (tracked r)
      then (record r { stats = stats }, ok none)
      else on_fragment r new info pkt bytes

  unfoldable pub push_fragment :
      IpReassembler
      → DecodedPacket
      → List ℕ
      → Option FragInfo
      → IpReassembler × Outcome (Option DecodedPacket)
  unfolding on_datagram
  push_fragment r pkt frame none = (r, ok none)
  push_fragment r pkt frame (some info) =
      if leb max_datagram_bytes info.offset
      then (r, ok none)
      else on_datagram r (lookup info.key r.datagrams) info pkt (fragment_bytes pkt frame)

  -- `IpReassembler::push`
  unfoldable pub push :
      IpReassembler → DecodedPacket → List ℕ → IpReassembler × Outcome (Option DecodedPacket)
  unfolding push_fragment
  push r pkt frame = push_fragment r pkt frame (frag_info pkt)
