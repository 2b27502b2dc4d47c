-- ===== src/FlowTable/Bounds.antt =====
-- What a flow keeps stays within the caps of the source.
use custom_built_network_ana.Base.{
  ℕ, ◌+◌, ◌≤◌, true, false, Option, none, some, List, [], ◌∷◌, ◌≡◌, refl, inl, inr, arith, length,
  length-append, on_if, Option-cases, lookup, AllValues, AllValues-insert, AllValues-lookup,
}
use custom_built_network_ana.Transport.{is_syn_only}
use custom_built_network_ana.Proto.{Text, DnsQuestion}
use custom_built_network_ana.Packet.{
  Timestamp, TransportLayer, tcp, udp, icmp, no_transport, AppLayer, dns, http, tls, no_app,
  DecodedPacket,
}
use custom_built_network_ana.Flow.{FlowKey, Direction, a_to_b, b_to_a, from_packet}
use custom_built_network_ana.Flow.Canonical.{flow_Eq}
use custom_built_network_ana.FlowTable.{
  set_insert, insert_capped, insert_option, insert_names, DirectionStats, observe_stats, Flow, new,
  record_http, record_tls, record_app, see_syn, see_time, see_stats, observe_flow, FlowTable,
  or_new, observe_key, observe,
}

-- A direction has a time sample for each of its packets, up to 8192, and is marked as truncated
-- exactly if it has more packets.
pub record IsStats (s : DirectionStats) : Type 0 where
  pub few : length s.timestamps ≤ 8192
  pub whole : s.samples_truncated ≡ false → length s.timestamps ≡ s.packets
  pub cut : s.samples_truncated ≡ true → 8192 + 1 ≤ s.packets
  pub sampled : length s.timestamps ≤ s.packets

pub record IsFlow (f : Flow) : Type 0 where
  pub a_stats : IsStats f.a_stats
  pub b_stats : IsStats f.b_stats
  pub names : length f.dns_names ≤ 256
  pub hosts : length f.http_hosts ≤ 64
  pub agents : length f.user_agents ≤ 16

length-insert_capped :
    (cap : ℕ) (x : Text) (xs : List Text) → length xs ≤ cap → length (insert_capped cap x xs) ≤ cap
unfolding insert_capped set_insert
length-insert_capped cap x xs h = ground arith

length-insert_option :
    (cap : ℕ) (o : Option Text) (xs : List Text)
    → length xs ≤ cap
    → length (insert_option cap o xs) ≤ cap
length-insert_option cap none xs h = h
length-insert_option cap (some x) xs h = length-insert_capped cap x xs h

length-insert_names :
    (qs : List DnsQuestion) (names : List Text)
    → length names ≤ 256
    → length (insert_names qs names) ≤ 256
unfolding insert_names
length-insert_names [] names h = h
length-insert_names (q ∷ qs) names h =
    length-insert_names qs _ (length-insert_capped 256 q.name names h)

observe_stats-IsStats :
    (s : DirectionStats) (pkt : DecodedPacket) → IsStats s → IsStats (observe_stats s pkt)
unfolding observe_stats
observe_stats-IsStats s pkt v = record {
  few = ground (arith, length-append s.timestamps (pkt.meta.timestamp ∷ []), v.few);
  whole = λ e. ground (arith, length-append s.timestamps (pkt.meta.timestamp ∷ []), v.whole, e);
  cut = λ e. ground (arith, v.cut, v.sampled, v.whole, v.few, e);
  sampled = ground (arith, length-append s.timestamps (pkt.meta.timestamp ∷ []), v.sampled);
}

new-IsFlow : (key : FlowKey) (ts : Timestamp) (dir : Direction) → IsFlow (new key ts dir)
unfolding new
new-IsFlow key ts dir = record {
  a_stats = record {
    few = omega arith;
    whole = λ e. refl;
    cut = λ e. ground (arith, e);
    sampled = omega arith;
  };
  b_stats = record {
    few = omega arith;
    whole = λ e. refl;
    cut = λ e. ground (arith, e);
    sampled = omega arith;
  };
  names = omega arith;
  hosts = omega arith;
  agents = omega arith;
}

record_app-IsFlow : (f : Flow) (app : AppLayer) → IsFlow f → IsFlow (record_app f app)
unfolding record_app record_http record_tls
record_app-IsFlow f (dns d) v = record {
  a_stats = v.a_stats;
  b_stats = v.b_stats;
  names = length-insert_names d.questions f.dns_names v.names;
  hosts = v.hosts;
  agents = v.agents;
}
record_app-IsFlow f (http h) v = record {
  a_stats = v.a_stats;
  b_stats = v.b_stats;
  names = v.names;
  hosts = length-insert_option 64 h.host f.http_hosts v.hosts;
  agents = length-insert_option 16 h.user_agent f.user_agents v.agents;
}
record_app-IsFlow f (tls t) v = record {
  a_stats = v.a_stats;
  b_stats = v.b_stats;
  names = v.names;
  hosts = v.hosts;
  agents = v.agents;
}
record_app-IsFlow f no_app v = v

see_time-IsFlow : (f : Flow) (ts : Timestamp) → IsFlow f → IsFlow (see_time f ts)
unfolding see_time
see_time-IsFlow f ts v = record {
  a_stats = v.a_stats;
  b_stats = v.b_stats;
  names = v.names;
  hosts = v.hosts;
  agents = v.agents;
}

see_syn-IsFlow :
    (f : Flow) (dir : Direction) (t : TransportLayer) → IsFlow f → IsFlow (see_syn f dir t)
unfolding see_syn
see_syn-IsFlow f dir (tcp t) v =
    on_if IsFlow (is_syn_only t.flags) _ f
      (λ _. record {
        a_stats = v.a_stats;
        b_stats = v.b_stats;
        names = v.names;
        hosts = v.hosts;
        agents = v.agents;
      })
      λ _. v
see_syn-IsFlow f dir (udp u) v = v
see_syn-IsFlow f dir (icmp i) v = v
see_syn-IsFlow f dir no_transport v = v

see_stats-IsFlow :
    (f : Flow) (dir : Direction) (pkt : DecodedPacket) → IsFlow f → IsFlow (see_stats f dir pkt)
unfolding see_stats
see_stats-IsFlow f a_to_b pkt v = record {
  a_stats = observe_stats-IsStats f.a_stats pkt v.a_stats;
  b_stats = v.b_stats;
  names = v.names;
  hosts = v.hosts;
  agents = v.agents;
}
see_stats-IsFlow f b_to_a pkt v = record {
  a_stats = v.a_stats;
  b_stats = observe_stats-IsStats f.b_stats pkt v.b_stats;
  names = v.names;
  hosts = v.hosts;
  agents = v.agents;
}

observe_flow-IsFlow :
    (f : Flow) (dir : Direction) (pkt : DecodedPacket) → IsFlow f → IsFlow (observe_flow f dir pkt)
unfolding observe_flow
observe_flow-IsFlow f dir pkt v = record_app-IsFlow _ pkt.app (
    see_stats-IsFlow _ dir pkt
      (see_syn-IsFlow _ dir pkt.transport (see_time-IsFlow f pkt.meta.timestamp v)))

observe_key-IsFlow :
    (table : FlowTable) (pkt : DecodedPacket) (key : Option (FlowKey × Direction))
    → AllValues IsFlow table.flows
    → AllValues IsFlow (observe_key table pkt key).0.flows
unfolding observe_key
observe_key-IsFlow table pkt none v = v
observe_key-IsFlow table pkt (some (key, dir)) v = AllValues-insert IsFlow key _ table.flows v (
    observe_flow-IsFlow (or_new key pkt.meta.timestamp dir (lookup key table.flows)) dir pkt
      (elim (Option-cases (lookup key table.flows)) [
        | inl e ↦ rw e (new-IsFlow key pkt.meta.timestamp dir)
        | inr (f, e) ↦ rw e (AllValues-lookup IsFlow key table.flows f v e)
      ]))

-- On a table whose flows are within the caps, `observe` keeps every flow within the caps: 8192 time samples for each direction, one for each packet
-- until there are more packets and then the direction is marked as truncated, 256 DNS names, 64
-- HTTP hosts and 16 user agents.
pub observe-IsFlow :
    (table : FlowTable) (pkt : DecodedPacket)
    → AllValues IsFlow table.flows
    → AllValues IsFlow (observe table pkt).0.flows
unfolding observe
observe-IsFlow table pkt v = observe_key-IsFlow table pkt (from_packet pkt) v
