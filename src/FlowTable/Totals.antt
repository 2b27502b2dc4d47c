-- ===== src/FlowTable/Totals.antt =====
-- What the flows count together is what was observed.
use custom_built_network_ana.Base.{
  ℕ, ◌+◌, ◌*◌, Option, none, some, List, [], ◌∷◌, ◌≡◌, refl, inl, inr, arith, on_if, Option-cases,
  lookup, insert,
}
use custom_built_network_ana.Transport.{is_syn_only}
use custom_built_network_ana.Packet.{
  Timestamp, TransportLayer, tcp, udp, icmp, no_transport, AppLayer, dns, http, tls, no_app,
  DecodedPacket,
}
use custom_built_network_ana.Flow.{FlowKey, Direction, a_to_b, b_to_a, from_packet}
use custom_built_network_ana.Flow.Canonical.{flow_Eq}
use custom_built_network_ana.FlowTable.{
  observe_stats, Flow, new, packets, bytes, record_http, record_tls, record_app, see_syn, see_time,
  see_stats, observe_flow, FlowTable, observe_key, observe,
}

-- The sum of a count over the table.
abbrev pub total : (Flow → ℕ) → List (FlowKey × Flow) → ℕ
total g [] = 0
total g ((k, f) ∷ m) = g f + total g m

total-insert_new :
    (g : Flow → ℕ) (k : FlowKey) (f : Flow) (m : List (FlowKey × Flow))
    → lookup k m ≡ none
    → total g (insert k f m) ≡ total g m + g f
unfolding lookup insert
total-insert_new g k f [] h = omega arith
total-insert_new g k f ((j, w) ∷ m) h = ground (arith, total-insert_new g k f m)

total-insert_old :
    (g : Flow → ℕ) (k : FlowKey) (f w : Flow) (m : List (FlowKey × Flow))
    → lookup k m ≡ some w
    → total g (insert k f m) + g w ≡ total g m + g f
unfolding lookup insert
total-insert_old g k f w [] h = cc
total-insert_old g k f w ((j, x) ∷ m) h = ground (arith, total-insert_old g k f w m)

-- The counters of a flow, which only `see_stats` changes.
abbrev Counts : Flow → Flow → Type 0
Counts f g = (packets g ≡ packets f) × (bytes g ≡ bytes f)

record_app-Counts : (f : Flow) (app : AppLayer) → Counts f (record_app f app)
unfolding record_app record_http record_tls packets bytes
record_app-Counts f (dns d) = (refl, refl)
record_app-Counts f (http h) = (refl, refl)
record_app-Counts f (tls t) = (refl, refl)
record_app-Counts f no_app = (refl, refl)

see_time-Counts : (f : Flow) (ts : Timestamp) → Counts f (see_time f ts)
unfolding see_time packets bytes
see_time-Counts f ts = (refl, refl)

see_syn-Counts : (f : Flow) (dir : Direction) (t : TransportLayer) → Counts f (see_syn f dir t)
unfolding see_syn packets bytes
see_syn-Counts f dir (tcp t) =
    on_if (Counts f) (is_syn_only t.flags) _ f (λ _. (refl, refl)) λ _. (refl, refl)
see_syn-Counts f dir (udp u) = (refl, refl)
see_syn-Counts f dir (icmp i) = (refl, refl)
see_syn-Counts f dir no_transport = (refl, refl)

abbrev Counted : DecodedPacket → Flow → Flow → Type 0
Counted pkt f g = (packets g ≡ packets f + 1) × (bytes g ≡ bytes f + pkt.meta.wire_len)

see_stats-Counted :
    (f : Flow) (dir : Direction) (pkt : DecodedPacket) → Counted pkt f (see_stats f dir pkt)
unfolding see_stats observe_stats packets bytes
see_stats-Counted f a_to_b pkt = (omega arith, omega arith)
see_stats-Counted f b_to_a pkt = (omega arith, omega arith)

observe_flow-Counted :
    (f : Flow) (dir : Direction) (pkt : DecodedPacket) → Counted pkt f (observe_flow f dir pkt)
unfolding observe_flow
observe_flow-Counted f dir pkt =
    let timed = see_time f pkt.meta.timestamp in
    let synned = see_syn timed dir pkt.transport in
    let a = see_time-Counts f pkt.meta.timestamp in
    let b = see_syn-Counts timed dir pkt.transport in
    let c = see_stats-Counted synned dir pkt in
    let d = record_app-Counts (see_stats synned dir pkt) pkt.app in
    (omega (arith, a.0, b.0, c.0, d.0), omega (arith, a.1, b.1, c.1, d.1))

-- Whether a packet belongs to a flow.
abbrev pub counted : Option (FlowKey × Direction) → ℕ
counted none = 0
counted (some k) = 1

abbrev Totals : FlowTable → DecodedPacket → ℕ → FlowTable → Type 0
Totals before pkt n after =
    (total packets after.flows ≡ total packets before.flows + n)
    × (total bytes after.flows ≡ total bytes before.flows + n * pkt.meta.wire_len)

new_empty :
    (key : FlowKey) (ts : Timestamp) (dir : Direction)
    → (packets (new key ts dir) ≡ 0) × (bytes (new key ts dir) ≡ 0)
unfolding new packets bytes
new_empty key ts dir = (refl, refl)

observe_key-Totals :
    (table : FlowTable) (pkt : DecodedPacket) (key : Option (FlowKey × Direction))
    → Totals table pkt (counted key) (observe_key table pkt key).0
unfolding observe_key
observe_key-Totals table pkt none = (omega arith, omega arith)
observe_key-Totals table pkt (some (key, dir)) =
    let ts = pkt.meta.timestamp in
    elim (Option-cases (lookup key table.flows)) [
      | inl e ↦
          let c = observe_flow-Counted (new key ts dir) dir pkt in
          let f = observe_flow (new key ts dir) dir pkt in
          let z = new_empty key ts dir in
          rw e (
            omega (arith, c.0, z.0, total-insert_new packets key f table.flows e),
            omega (arith, c.1, z.1, total-insert_new bytes key f table.flows e),
          )
      | inr (w, e) ↦
          let c = observe_flow-Counted w dir pkt in
          let f = observe_flow w dir pkt in
          rw e (
            omega (arith, c.0, total-insert_old packets key f w table.flows e),
            omega (arith, c.1, total-insert_old bytes key f w table.flows e),
          )
    ]

-- Over all flows together, `observe` counts a packet that has a key once and with its length on the
-- wire, in a new flow or in an old one, and a packet without a key not at all.
pub observe-total :
    (table : FlowTable) (pkt : DecodedPacket)
    → let n = counted (from_packet pkt) in
      let after = (observe table pkt).0 in
      (total packets after.flows ≡ total packets table.flows + n)
      × (total bytes after.flows ≡ total bytes table.flows + n * pkt.meta.wire_len)
unfolding observe
observe-total table pkt = observe_key-Totals table pkt (from_packet pkt)
