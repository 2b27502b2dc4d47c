-- ===== src/IpReassembly/Push.antt =====
-- What `IpReassembler::push` keeps and returns.
use custom_built_network_ana.Base.{
  ℕ, ◌+◌, ◌≤◌, ◌<◌, max, Bool, true, false, ◌||◌, Option, none, some, List, [], ◌∷◌, ◌≡◌, ◌↔◌, refl,
  ◌∙◌, inl, inr, arith, ltb, leb, ◌==◌, length, on_if, Option-cases, lookup, insert, AllValues,
  AllValues-insert, AllValues-lookup, length-insert_new, length-insert_old,
}
use custom_built_network_ana.Error.{Outcome, ok}
use custom_built_network_ana.Proto.{Decoders}
use custom_built_network_ana.Bytes.{Slice}
use custom_built_network_ana.Bytes.Ensures.{
  AreBytes, take-AreBytes, drop-AreBytes, Yields, yields, fails,
}
use custom_built_network_ana.Ranges.{contiguous, is_filled}
use custom_built_network_ana.Ranges.Cover.{contiguous_lem, contiguous-le}
use custom_built_network_ana.Buffered.{IsBuffered}
use custom_built_network_ana.Buffered.Invariant.{write_lem}
use custom_built_network_ana.Buffered.Whole.{filled-contiguous}
use custom_built_network_ana.Transport.{Tcp, Udp}
use custom_built_network_ana.Transport.Headers.{parse_tcp_lem, parse_udp_lem}
use custom_built_network_ana.Net.{Icmp, proto_tcp, proto_udp, proto_icmp, proto_icmpv6}
use custom_built_network_ana.Net.Ipv4Header.{parse_icmp_lem}
use custom_built_network_ana.Packet.{
  TransportLayer, AppLayer, DecodedPacket, get_range, fragment_range, fragment_bytes,
}
use custom_built_network_ana.Fragment.{FragKey, frag_Eq}
use custom_built_network_ana.IpReassembly.{
  max_datagram_bytes, max_ranges, max_tracked_datagrams, FragInfo, Datagram, no_bytes, new, finish,
  IpReassembler, tracked, store, count_conflict, add_fragment, of_tcp, of_udp, of_icmp,
  decode_datagram, on_decoded, complete, on_fragment, on_datagram, push_fragment, push, frag_info,
}
use custom_built_network_ana.IpReassembly.Bytes.{write-AreBytes}

-- The buffer of a datagram is in order, within 65535 bytes, and released once it is done.
pub record IsDatagram (dg : Datagram) : Type 0 where
  pub buffered : IsBuffered max_datagram_bytes dg.buffered
  pub bytes : AreBytes dg.buffered.buf
  pub short : length dg.buffered.filled ≤ max_ranges
  pub released : dg.done ≡ true → dg.buffered ≡ no_bytes

abbrev pub returned : Option DecodedPacket → ℕ
returned none = 0
returned (some p) = 1

-- After a call that does not panic: every datagram is in order, the table holds at most `room`, and a
-- packet that is returned is counted. `n` is the count before.
pub record Rebuilt (n room : ℕ) (out : IpReassembler × Outcome (Option DecodedPacket))
    : Type 0 where
  pub datagrams : AllValues IsDatagram out.0.datagrams
  pub result :
      (o : Option DecodedPacket) × (out.1 ≡ ok o) × (out.0.stats.reassembled ≡ n + returned o)
  pub grows : tracked out.0 ≤ room

new-IsDatagram : IsDatagram new
new-IsDatagram = record {
  buffered = record { ranges = tt; inside = tt; bounded = omega arith };
  bytes = tt;
  short = omega arith;
  released = λ e. refl;
}

finish-IsDatagram : (dg : Datagram) → IsDatagram (finish dg)
unfolding finish
finish-IsDatagram dg = record {
  buffered = record { ranges = tt; inside = tt; bounded = omega arith };
  bytes = tt;
  short = omega arith;
  released = λ e. refl;
}

get_range-AreBytes :
    (frame : List ℕ) (off len : ℕ) → AreBytes frame → AreBytes (get_range frame off len)
unfolding get_range
get_range-AreBytes frame off len h =
    on_if AreBytes (leb (off + len) (length frame)) _ _
      (λ _. take-AreBytes len _ (drop-AreBytes off frame h)) λ _. tt

fragment_range-AreBytes :
    (o : Option (ℕ × ℕ)) (frame : List ℕ) → AreBytes frame → AreBytes (fragment_range o frame)
unfolding fragment_range
fragment_range-AreBytes none frame h = tt
fragment_range-AreBytes (some (off, len)) frame h = get_range-AreBytes frame off len h

length-insert_any :
    (k : FragKey) (v w : Datagram) (m : List (FragKey × Datagram))
    → length (insert k v m) ≡ length (insert k w m)
unfolding insert
length-insert_any k v w [] = refl
length-insert_any k v w ((j, x) ∷ m) = ground (arith, length-insert_any k v w m)

reassembled-count_conflict :
    (c : Bool) (r : IpReassembler) → (count_conflict c r.stats).reassembled ≡ r.stats.reassembled
reassembled-count_conflict c r =
    on_if (λ t. t.reassembled ≡ r.stats.reassembled) c _ r.stats (λ _. refl) λ _. refl

module _ (decoders : Decoders) where
  abbrev Decodes : Outcome (TransportLayer × AppLayer) → Type 0
  Decodes o = (layers : TransportLayer × AppLayer) × (o ≡ ok layers)

  of_tcp_lem :
      {P : Tcp × Slice → Type 0} (o : Outcome (Tcp × Slice))
      → Yields P o
      → Decodes (of_tcp decoders o)
  unfolding of_tcp
  of_tcp_lem _ (yields h) = (_, refl)
  of_tcp_lem _ fails = (_, refl)

  of_udp_lem :
      {P : Udp × Slice → Type 0} (o : Outcome (Udp × Slice))
      → Yields P o
      → Decodes (of_udp decoders o)
  unfolding of_udp
  of_udp_lem _ (yields h) = (_, refl)
  of_udp_lem _ fails = (_, refl)

  of_icmp_lem : {P : Icmp → Type 0} (o : Outcome Icmp) → Yields P o → Decodes (of_icmp decoders o)
  unfolding of_icmp
  of_icmp_lem _ (yields h) = (_, refl)
  of_icmp_lem _ fails = (_, refl)

  -- Whatever the bytes of a datagram are, it decodes to layers.
  pub decode_datagram_lem :
      (protocol : ℕ) (buf : List ℕ)
      → AreBytes buf
      → (layers : TransportLayer × AppLayer) × (decode_datagram decoders protocol buf ≡ ok layers)
  unfolding decode_datagram
  decode_datagram_lem protocol buf h =
      on_if Decodes (protocol == proto_tcp) _ _ (λ _. of_tcp_lem _ (parse_tcp_lem buf h))
        λ _.
          on_if Decodes (protocol == proto_udp) _ _ (λ _. of_udp_lem _ (parse_udp_lem buf h))
            λ _.
              on_if Decodes (protocol == proto_icmp || protocol == proto_icmpv6) _ _
                (λ _. of_icmp_lem _ (parse_icmp_lem buf (protocol == proto_icmpv6) h))
                λ _. (_, refl)

module _ (decoders : Decoders) (n room : ℕ) (pkt : DecodedPacket) (key : FragKey) where
  -- A table into which a datagram under the key may go.
  record IsReady (r : IpReassembler) : Type 0 where
    datagrams : AllValues IsDatagram r.datagrams
    count : r.stats.reassembled ≡ n
    fits : length (insert key new r.datagrams) ≤ room

  store-Rebuilt :
      (r : IpReassembler) (dg : Datagram)
      → IsReady r
      → IsDatagram dg
      → Rebuilt n room (store r key dg, ok none)
  store-Rebuilt r dg v w = record {
    datagrams = AllValues-insert IsDatagram key dg r.datagrams v.datagrams w;
    result = (none, refl, omega (arith, v.count));
    grows = omega (arith, v.fits, length-insert_any key dg new r.datagrams);
  }

  on_decoded-Rebuilt :
      (r : IpReassembler) (dg : Datagram) (o : Outcome (TransportLayer × AppLayer))
      → IsReady r
      → IsDatagram dg
      → (layers : TransportLayer × AppLayer) × (o ≡ ok layers)
      → Rebuilt n room (on_decoded decoders r key dg pkt o)
  unfolding on_decoded
  on_decoded-Rebuilt r dg o v w (layers, e) =
      let released = store-Rebuilt r (finish dg) v (finish-IsDatagram dg) in
      rw e record {
        datagrams = released.datagrams;
        result = (some _, refl, omega (arith, v.count));
        grows = released.grows;
      }

  complete-Rebuilt :
      (r : IpReassembler) (dg : Datagram) (total : Option ℕ)
      → IsReady r
      → IsDatagram dg
      → Rebuilt n room (complete decoders r key dg pkt total)
  unfolding complete
  complete-Rebuilt r dg none v w = store-Rebuilt r dg v w
  complete-Rebuilt r dg (some total) v w =
      let run = contiguous dg.buffered.filled in
      on_if (Rebuilt n room) (total == 0 || ltb run total) _ _ (λ _. store-Rebuilt r dg v w)
        λ whole.
          on_if (Rebuilt n room) (leb total (length dg.buffered.buf)) _ _
            (λ _. on_decoded-Rebuilt r dg _ v w (
              decode_datagram_lem decoders key.protocol _
                (take-AreBytes total dg.buffered.buf w.bytes)))
            λ long.
              absurd
                (ground (arith, whole, long, contiguous-le dg.buffered.filled _ w.buffered.inside))

  on_fragment-Rebuilt :
      (r : IpReassembler) (dg : Datagram) (info : FragInfo) (bytes : List ℕ)
      → info.key ≡ key
      → AreBytes bytes
      → IsReady r
      → IsDatagram dg
      → Rebuilt n room (on_fragment decoders r dg info pkt bytes)
  unfolding on_fragment add_fragment
  on_fragment-Rebuilt r dg info bytes same h v w =
      let out = add_fragment dg info bytes in
      let dg' = out.0 in
      let r' = record r { stats = count_conflict out.1 r.stats } in
      let ready : IsReady r' = record {
        datagrams = v.datagrams;
        count = reassembled-count_conflict out.1 r ∙ v.count;
        fits = v.fits;
      } in
      rw same (
        on_if (Rebuilt n room) dg.done _ _ (λ _. store-Rebuilt r dg v w)
          λ going.
            on_if (Rebuilt n room) (ltb max_ranges (length dg'.buffered.filled)) _ _
              (λ _. store-Rebuilt r' (finish dg') ready (finish-IsDatagram dg'))
              λ few. complete-Rebuilt r' dg' dg'.total_len ready record {
                buffered =
                    (write_lem max_datagram_bytes dg.buffered info.offset bytes w.buffered).valid;
                bytes = write-AreBytes max_datagram_bytes dg.buffered info.offset bytes h w.bytes;
                short = ground (arith, few);
                released = λ e. absurd (cc);
              })

module _ (decoders : Decoders) (r : IpReassembler) (pkt : DecodedPacket)
    (v : AllValues IsDatagram r.datagrams) where
  abbrev Kept : IpReassembler × Outcome (Option DecodedPacket) → Type 0
  Kept = Rebuilt r.stats.reassembled (max (tracked r) max_tracked_datagrams)

  unchanged : Kept (r, ok none)
  unchanged = record { datagrams = v; result = (none, refl, omega arith); grows = omega arith }

  on_datagram-Rebuilt :
      (info : FragInfo) (bytes : List ℕ)
      → AreBytes bytes
      → Kept (on_datagram decoders r (lookup info.key r.datagrams) info pkt bytes)
  unfolding on_datagram
  on_datagram-Rebuilt info bytes h = elim (Option-cases (lookup info.key r.datagrams)) [
    | inl e ↦ rw e (
        on_if Kept (leb max_tracked_datagrams (tracked r)) _ _
          (λ _. record { datagrams = v; result = (none, refl, omega arith); grows = omega arith })
          λ few.
            on_fragment-Rebuilt decoders _ _ pkt info.key r new info bytes refl h
              (record {
                datagrams = v;
                count = refl;
                fits = ground (arith, few, length-insert_new info.key new r.datagrams e);
              })
              new-IsDatagram)
    | inr (dg, e) ↦ rw e (
        on_fragment-Rebuilt decoders _ _ pkt info.key r dg info bytes refl h
          (record {
            datagrams = v;
            count = refl;
            fits = omega (arith, length-insert_old info.key new dg r.datagrams e);
          })
          (AllValues-lookup IsDatagram info.key r.datagrams dg v e))
  ]

  push_fragment-Rebuilt :
      (frame : List ℕ) (info : Option FragInfo)
      → AreBytes frame
      → Kept (push_fragment decoders r pkt frame info)
  unfolding push_fragment fragment_bytes
  push_fragment-Rebuilt frame none h = unchanged
  push_fragment-Rebuilt frame (some info) h =
      on_if Kept (leb max_datagram_bytes info.offset) _ _ (λ _. unchanged)
        λ _. on_datagram-Rebuilt info _ (fragment_range-AreBytes pkt.ip_payload frame h)

  -- On a table whose datagrams are in order: `push` of any packet over any frame of bytes never slices out of range: it returns nothing, or a
  -- packet that it counts. It keeps every datagram in order (its buffer within 65535 bytes and 16
  -- ranges, and empty once it is done), and the table does not grow past 1024 datagrams unless it
  -- already was.
  pub push-Rebuilt :
      (frame : List ℕ)
      → AreBytes frame
      → Rebuilt r.stats.reassembled
          (max (tracked r) max_tracked_datagrams)
          (push decoders r pkt frame)
  unfolding push
  push-Rebuilt frame h = push_fragment-Rebuilt frame (frag_info pkt) h

-- No hole below `total`, which is not 0.
abbrev pub IsWhole : Datagram → ℕ → Type 0
IsWhole dg total = (0 < total) × ((i : ℕ) → i < total → is_filled dg.buffered.filled i ≡ true)

abbrev pub returns_packet : IpReassembler × Outcome (Option DecodedPacket) → Bool
returns_packet (r, ok (some p)) = true
returns_packet _ = false

on_decoded-returns :
    (decoders : Decoders) (r : IpReassembler) (key : FragKey) (dg : Datagram) (pkt : DecodedPacket)
    (o : Outcome (TransportLayer × AppLayer))
    → (layers : TransportLayer × AppLayer) × (o ≡ ok layers)
    → returns_packet (on_decoded decoders r key dg pkt o) ≡ true
unfolding on_decoded
on_decoded-returns decoders r key dg pkt o (layers, e) = rw e refl

-- A datagram that is in order, with a known length, is given out exactly if the length is not 0 and every offset below it
-- is filled.
pub complete_iff :
    (decoders : Decoders) (r : IpReassembler) (key : FragKey) (dg : Datagram) (pkt : DecodedPacket)
    (total : ℕ)
    → IsDatagram dg
    → (returns_packet (complete decoders r key dg pkt (some total)) ≡ true) ↔ IsWhole dg total
unfolding complete
complete_iff decoders r key dg pkt total v =
    let rs = dg.buffered.filled in
    (
      on_if (λ out. returns_packet out ≡ true → IsWhole dg total)
          (total == 0 || ltb (contiguous rs) total) _ _ (λ _ no. ground (arith, no))
          λ t _. (
            ground (arith, t),
            λ i k. (contiguous_lem rs v.buffered.ranges).0 i (ground (arith, t)),
          ),
      λ (some_bytes, all).
          let reach = filled-contiguous rs total v.buffered.ranges all in
          on_if (λ out. returns_packet out ≡ true) (total == 0 || ltb (contiguous rs) total) _ _
            (λ t. absurd (ground (arith, t, reach)))
            λ _.
              on_if (λ out. returns_packet out ≡ true) (leb total (length dg.buffered.buf)) _ _
                (λ _. on_decoded-returns decoders r key dg pkt _ (
                  decode_datagram_lem decoders key.protocol _
                    (take-AreBytes total dg.buffered.buf v.bytes)))
                λ long. absurd (ground (arith, long, reach, contiguous-le rs _ v.buffered.inside)),
    )
