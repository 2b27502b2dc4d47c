-- ===== src/FlowTable/Client.antt =====
-- crates/cbna-core/src/flow.rs, `Flow::client_direction` and what is read off it: who opened a conversation.
use custom_built_network_ana.Base.{
  ℕ, Bool, true, false, ◌&&◌, ◌||◌, Option, none, some, ◌≡◌, refl, ap, ◌∙◌, ltb, leb, ◌==◌,
  if◌then◌else◌,
}
use custom_built_network_ana.Net.{IpAddr, is_private, proto_tcp}
use custom_built_network_ana.Transport.{Tcp, has, rst_flag, is_syn_only}
use custom_built_network_ana.Service.{service_name}
use custom_built_network_ana.Packet.{
  tcp, AppLayer, dns, http, tls, no_app, DecodedPacket, Timestamp,
}
use custom_built_network_ana.Flow.{Direction, a_to_b, b_to_a}
use custom_built_network_ana.Flow.Canonical.{sender}
use custom_built_network_ana.FlowTable.{
  DirectionStats, Flow, record_app, record_http, record_tls, see_syn, see_time, see_stats,
  observe_flow,
}

abbrev pub is_some {ℓ} : {A : Type ℓ} → Option A → Bool
is_some none = false
is_some (some a) = true

unfoldable pub client_direction : Flow → Direction
unfolding service_name
client_direction f =
    let tcp = f.key.protocol == proto_tcp in
    let a = is_some (service_name f.key.a_port tcp) in
    let b = is_some (service_name f.key.b_port tcp) in
    let higher = if ltb f.key.b_port f.key.a_port then a_to_b else b_to_a in
    if f.saw_handshake || f.key.a_port == f.key.b_port
    then f.initiator
    else if a
    then if b then higher else b_to_a
    else if b
    then a_to_b
    else higher

abbrev client_of : Flow → Direction → IpAddr × ℕ
client_of f a_to_b = (f.key.a_ip, f.key.a_port)
client_of f b_to_a = (f.key.b_ip, f.key.b_port)

abbrev server_of : Flow → Direction → IpAddr × ℕ
server_of f a_to_b = (f.key.b_ip, f.key.b_port)
server_of f b_to_a = (f.key.a_ip, f.key.a_port)

abbrev client_stats_of : Flow → Direction → DirectionStats
client_stats_of f a_to_b = f.a_stats
client_stats_of f b_to_a = f.b_stats

abbrev server_stats_of : Flow → Direction → DirectionStats
server_stats_of f a_to_b = f.b_stats
server_stats_of f b_to_a = f.a_stats

unfoldable pub client : Flow → IpAddr × ℕ
client f = client_of f (client_direction f)

unfoldable pub server : Flow → IpAddr × ℕ
server f = server_of f (client_direction f)

unfoldable pub client_stats : Flow → DirectionStats
client_stats f = client_stats_of f (client_direction f)

unfoldable pub server_stats : Flow → DirectionStats
server_stats f = server_stats_of f (client_direction f)

pub data FlowScope : Type 0 where
  internal outbound inbound external : FlowScope

unfoldable pub scope : Flow → FlowScope
scope f =
    let c = is_private (client f).0 in
    let s = is_private (server f).0 in
    if c then (if s then internal else outbound) else if s then inbound else external

unfoldable pub is_unanswered_syn : Flow → Bool
is_unanswered_syn f =
    f.key.protocol == proto_tcp
    && f.saw_handshake
    && (server_stats f).packets == 0
    && leb (client_stats f).packets 4

unfoldable pub was_reset : Flow → Bool
was_reset f = has f.a_stats.tcp_flags_seen rst_flag || has f.b_stats.tcp_flags_seen rst_flag

-- What decides the client of a flow with a handshake.
abbrev Opened : Flow → Direction → Flow → Type 0
Opened f dir g = (g.key ≡ f.key) × (g.initiator ≡ dir) × (g.saw_handshake ≡ true)

abbrev Same : Flow → Flow → Type 0
Same f g = (g.key ≡ f.key) × (g.initiator ≡ f.initiator) × (g.saw_handshake ≡ f.saw_handshake)

see_stats-Same : (f : Flow) (dir : Direction) (pkt : DecodedPacket) → Same f (see_stats f dir pkt)
unfolding see_stats
see_stats-Same f a_to_b pkt = (refl, refl, refl)
see_stats-Same f b_to_a pkt = (refl, refl, refl)

record_app-Same : (f : Flow) (app : AppLayer) → Same f (record_app f app)
unfolding record_app record_http record_tls
record_app-Same f (dns d) = (refl, refl, refl)
record_app-Same f (http h) = (refl, refl, refl)
record_app-Same f (tls t) = (refl, refl, refl)
record_app-Same f no_app = (refl, refl, refl)

see_syn-Opened :
    (f : Flow) (dir : Direction) (t : Tcp)
    → is_syn_only t.flags ≡ true
    → f.saw_handshake ≡ false
    → Opened f dir (see_syn f dir (tcp t))
unfolding see_syn
see_syn-Opened f dir t h k = rw (h, k) (refl, refl, refl)

see_time-Same : (f : Flow) (ts : Timestamp) → Same f (see_time f ts)
unfolding see_time
see_time-Same f ts = (refl, refl, refl)

client_direction-handshake : (g : Flow) → g.saw_handshake ≡ true → client_direction g ≡ g.initiator
unfolding client_direction
client_direction-handshake g h = rw h refl

client_of-sender :
    (f g : Flow) (dir : Direction) → g.key ≡ f.key → client_of g dir ≡ sender (f.key, dir)
client_of-sender f g a_to_b e = ap (λ k. sender (k, a_to_b)) e
client_of-sender f g b_to_a e = ap (λ k. sender (k, b_to_a)) e

client-Opened :
    (f : Flow) (dir : Direction) (g : Flow) → Opened f dir g → client g ≡ sender (f.key, dir)
unfolding client
client-Opened f dir g (k, i, h) =
    ap (client_of g) (client_direction-handshake g h ∙ i) ∙ client_of-sender f g dir k

Same-trans : (f g h : Flow) → Same f g → Same g h → Same f h
Same-trans f g h (a, b, c) (x, y, z) = (x ∙ a, y ∙ b, z ∙ c)

-- The first bare SYN of a flow settles who the client is: whatever the flow had guessed before, its client is then
-- the sender of the SYN.
pub client-observe_flow :
    (f : Flow) (dir : Direction) (pkt : DecodedPacket) (t : Tcp)
    → pkt.transport ≡ tcp t
    → is_syn_only t.flags ≡ true
    → f.saw_handshake ≡ false
    → client (observe_flow f dir pkt) ≡ sender (f.key, dir)
unfolding observe_flow
client-observe_flow f dir pkt t e h k =
    let timed = see_time f pkt.meta.timestamp in
    let synned = see_syn timed dir pkt.transport in
    let last = see_stats synned dir pkt in
    let a = see_time-Same f pkt.meta.timestamp in
    let same =
      Same-trans synned last (record_app last pkt.app) (see_stats-Same synned dir pkt)
        (record_app-Same last pkt.app) in
    let opened : Opened timed dir synned = rw e (see_syn-Opened timed dir t h (a.2 ∙ k)) in
    client-Opened f dir _ (same.0 ∙ opened.0 ∙ a.0, same.1 ∙ opened.1, same.2 ∙ opened.2)
