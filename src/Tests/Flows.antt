-- ===== src/Tests/Flows.antt =====
-- The flow table at concrete packets.
use custom_built_network_ana.Base.{pos, ◌+◌, ◌*◌, false, none, [], ◌∷◌, ◌≡◌, refl, AllValues}
use custom_built_network_ana.Net.{v4, Ipv4}
use custom_built_network_ana.Transport.{Tcp, default_options, is_syn_only}
use custom_built_network_ana.Packet.{DecodedPacket, tcp, ipv4, no_app}
use custom_built_network_ana.Flow.{FlowKey, a_to_b, b_to_a, from_packet}
use custom_built_network_ana.Flow.Canonical.{flow_Eq, sender}
use custom_built_network_ana.FlowTable.{Flow, empty, new, packets, bytes, observe, observe_flow}
use custom_built_network_ana.FlowTable.Bounds.{IsFlow, observe-IsFlow}
use custom_built_network_ana.FlowTable.Totals.{total, counted, observe-total}
use custom_built_network_ana.FlowTable.Client.{client, client-observe_flow}

abbrev syn : Tcp
syn = record {
  src_port = 4000;
  dst_port = 80;
  seq = 1000;
  ack = 0;
  flags = 2;
  window = 100;
  checksum = 0;
  urgent = 0;
  data_offset = 5;
  options = default_options;
}

abbrev header : Ipv4
header = record {
  src = 10 ∷ 0 ∷ 0 ∷ 1 ∷ [];
  dst = 10 ∷ 0 ∷ 0 ∷ 2 ∷ [];
  protocol = 6;
  ttl = 64;
  dscp = 0;
  ecn = 0;
  identification = 7;
  dont_fragment = false;
  more_fragments = false;
  fragment_offset = 0;
  total_len = 40;
  header_len = 20;
  checksum = 0;
  fragmented = false;
}

abbrev opening : DecodedPacket
opening = record {
  meta = record {
    index = 1;
    timestamp = record { secs = pos 9; nanos = 0 };
    captured_len = 54;
    wire_len = 54;
  };
  link = none;
  network = ipv4 header;
  transport = tcp syn;
  app = no_app;
  payload_len = 0;
  payload_offset = 54;
  ip_payload = none;
  warnings = [];
}

abbrev first_key : FlowKey
first_key = record {
  a_ip = v4 (10 ∷ 0 ∷ 0 ∷ 1 ∷ []);
  a_port = 4000;
  b_ip = v4 (10 ∷ 0 ∷ 0 ∷ 2 ∷ []);
  b_port = 80;
  protocol = 6;
}

observe-IsFlow_example : AllValues IsFlow (observe empty opening).0.flows
unfolding empty
observe-IsFlow_example = observe-IsFlow empty opening tt

observe-total_example :
    (total packets (observe empty opening).0.flows
      ≡ total packets empty.flows + counted (from_packet opening))
    × (total bytes (observe empty opening).0.flows
        ≡ total bytes empty.flows + counted (from_packet opening) * 54)
observe-total_example = observe-total empty opening

-- A flow whose first packet came from the other side.
abbrev guessed : Flow
guessed = new first_key (record { secs = pos 8; nanos = 0 }) b_to_a

client-observe_flow_example :
    client (observe_flow guessed a_to_b opening) ≡ sender (first_key, a_to_b)
unfolding new is_syn_only
client-observe_flow_example = client-observe_flow guessed a_to_b opening syn refl refl refl
