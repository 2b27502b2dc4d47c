-- ===== src/Packet/InFrame.antt =====
-- `decode` returns a packet for every frame, and what it records lies in that frame.
use custom_built_network_ana.Base.{
  ℕ, ◌/◌, ◌≤◌, Bool, true, false, not, ◌||◌, some, List, [], ◌∷◌, ◌≡◌, refl, ◌∙◌, inl, inr, arith,
  ltb, ◌==◌, if◌then◌else◌, Bool-cases, ltb→le, length, take, drop,
}
use custom_built_network_ana.Error.{Outcome, ok}
use custom_built_network_ana.Bytes.{Slice}
use custom_built_network_ana.Bytes.Ensures.{AreBytes, Yields, yields, fails}
use custom_built_network_ana.Link.{Ethernet, Arp, ethertype_ipv4, ethertype_ipv6}
use custom_built_network_ana.Link.Headers.{IsEthernet, parse_ethernet_lem, parse_arp_lem}
use custom_built_network_ana.Net.{Ipv4, Ipv6}
use custom_built_network_ana.Net.Ipv4Header.{IsIpv4, parse_ipv4_lem}
use custom_built_network_ana.Net.Ipv6Header.{IsIpv6, parse_ipv6_lem}
use custom_built_network_ana.Proto.{Decoders}
use custom_built_network_ana.Packet.{
  LinkType, null, ethernet, raw, linux_sll, linux_sll2, loop, other, PacketMeta, NetworkLayer,
  DecodedPacket, warn, text, unknown_family,
}
use custom_built_network_ana.Packet.Decoder.{
  decode_ip, on_ipv4, on_ipv6, on_arp, decode_network, on_ethernet, decode_raw, decode_loopback,
  decode_link, decode,
}
use custom_built_network_ana.Packet.Located.{Located, Located-AreBytes, Located-drop, Located-trans}
use custom_built_network_ana.Packet.Slices.{IsIpv4-Located, IsIpv6-Located, IsEthernet-Located}
use custom_built_network_ana.Packet.Layers.{
  RangeIn, IsInFrame, Returns, returns, Returns-ok, IsFresh, stays, on_if, decode_transport_lem,
}

module _ (decoders : Decoders) (frame : List ℕ) (bytes : AreBytes frame) where
  abbrev Decoded : Outcome DecodedPacket → Type 0
  Decoded o = Returns (IsInFrame frame) o

  module _ (pkt : DecodedPacket) (fresh : IsFresh frame pkt) where
    keeps :
        (p : DecodedPacket)
        → p.payload_offset ≡ pkt.payload_offset
        → p.payload_len ≡ pkt.payload_len
        → p.ip_payload ≡ pkt.ip_payload
        → Decoded (ok p)
    keeps p a b c = returns (stays decoders frame bytes pkt p fresh a b c)

    choice :
        (b : Bool) (x y : Outcome DecodedPacket)
        → Decoded x
        → Decoded y
        → Decoded (if b then x else y)
    choice = on_if decoders frame bytes pkt fresh

    range_in :
        (b : Bool) (l4 : Slice)
        → Located frame l4
        → RangeIn frame (if b then some (l4.start, length l4.bytes) else pkt.ip_payload)
    range_in true l4 l = l.inside
    range_in false l4 l = fresh.fragment

    freshened :
        (p : DecodedPacket)
        → p.payload_offset ≡ pkt.payload_offset
        → p.payload_len ≡ pkt.payload_len
        → RangeIn frame p.ip_payload
        → IsFresh frame p
    freshened p a b c = record { offset = a ∙ fresh.offset; len = b ∙ fresh.len; fragment = c }

    decode_ip_lem :
        (layer : NetworkLayer) (protocol : ℕ) (fragmented : Bool) (offset : ℕ) (l4 : Slice)
        → Located frame l4
        → Decoded (decode_ip decoders pkt layer protocol fragmented offset l4)
    unfolding decode_ip
    decode_ip_lem layer protocol fragmented offset l4 l =
        let fresh' = freshened _ refl refl (range_in fragmented l4 l) in
        choice _ _ _
          (decode_transport_lem decoders frame bytes _ fresh' protocol l4 (not fragmented) l)
          (returns (record {
            payload = omega (arith, l.inside, fresh.offset);
            fragment = range_in fragmented l4 l;
          }))

    on_ipv4_lem :
        (l3 : Slice) (o : Outcome (Ipv4 × Slice))
        → Located frame l3
        → Yields (λ x. IsIpv4 l3.bytes x.0 x.1) o
        → Decoded (on_ipv4 decoders pkt l3 o)
    unfolding on_ipv4
    on_ipv4_lem l3 _ l (yields h) = decode_ip_lem _ _ _ _ _ (Located-trans l (IsIpv4-Located h))
    on_ipv4_lem l3 _ l fails = keeps _ refl refl refl

    on_ipv6_lem :
        (l3 : Slice) (o : Outcome (Ipv6 × Slice))
        → Located frame l3
        → Yields (λ x. IsIpv6 l3.bytes x.0 x.1) o
        → Decoded (on_ipv6 decoders pkt l3 o)
    unfolding on_ipv6
    on_ipv6_lem l3 _ l (yields h) = decode_ip_lem _ _ _ _ _ (Located-trans l (IsIpv6-Located h))
    on_ipv6_lem l3 _ l fails = keeps _ refl refl refl

    on_arp_lem : {P : Arp → Type 0} (o : Outcome Arp) → Yields P o → Decoded (on_arp decoders pkt o)
    unfolding on_arp
    on_arp_lem _ (yields h) = keeps _ refl refl refl
    on_arp_lem _ fails = keeps _ refl refl refl

    decode_network_lem :
        (ethertype : ℕ) (l3 : Slice)
        → Located frame l3
        → Decoded (decode_network decoders pkt ethertype l3)
    unfolding decode_network
    decode_network_lem ethertype l3 l =
        let b = Located-AreBytes l bytes in
        choice _ _ _ (on_ipv4_lem l3 _ l (parse_ipv4_lem l3.bytes b)) (
          choice _ _ _ (on_ipv6_lem l3 _ l (parse_ipv6_lem l3.bytes b))
            (choice _ _ _ (on_arp_lem _ (parse_arp_lem l3.bytes b)) (keeps _ refl refl refl)))

  module _ (pkt : DecodedPacket) (fresh : IsFresh frame pkt) where
    -- Behind a link header of `n` bytes.
    after_lem :
        (n ethertype : ℕ)
        → n ≤ length frame
        → Decoded
            (decode_network decoders pkt ethertype (record { start = n; bytes = drop n frame }))
    after_lem n ethertype h = decode_network_lem pkt fresh ethertype _ (Located-drop frame n h)

    on_ethernet_lem :
        (o : Outcome (Ethernet × Slice))
        → Yields (λ x. IsEthernet frame x.0 x.1) o
        → Decoded (on_ethernet decoders pkt o)
    unfolding on_ethernet
    on_ethernet_lem _ (yields h) =
        let fresh' = freshened pkt fresh _ refl refl fresh.fragment in
        decode_network_lem _ fresh' _ _ (IsEthernet-Located h)
    on_ethernet_lem _ fails = keeps pkt fresh _ refl refl refl

module _ (decoders : Decoders) where
  abbrev Total : List ℕ → Outcome DecodedPacket → Type 0
  Total frame = Returns (IsInFrame frame)

  decode_raw_lem :
      (frame : List ℕ)
      → AreBytes frame
      → (pkt : DecodedPacket) → IsFresh frame pkt
      → Total frame (decode_raw decoders pkt frame)
  unfolding decode_raw
  decode_raw_lem [] h pkt fresh = keeps decoders [] h pkt fresh _ refl refl refl
  decode_raw_lem (b ∷ bs) h pkt fresh =
      choice decoders (b ∷ bs) h pkt fresh (b / 16 == 4) _ _
        (after_lem decoders (b ∷ bs) h pkt fresh 0 ethertype_ipv4 (omega arith))
        (choice decoders (b ∷ bs) h pkt fresh (b / 16 == 6) _ _
          (after_lem decoders (b ∷ bs) h pkt fresh 0 ethertype_ipv6 (omega arith))
          (keeps decoders (b ∷ bs) h pkt fresh (warn pkt (text "raw link: unrecognised IP version"))
            refl refl refl))

  module _ (frame : List ℕ) (h : AreBytes frame) (pkt : DecodedPacket)
      (fresh : IsFresh frame pkt) where
    pick :
        (b : Bool) (x y : Outcome DecodedPacket)
        → Total frame x
        → Total frame y
        → Total frame (if b then x else y)
    pick = choice decoders frame h pkt fresh

    warned :
        (p : DecodedPacket)
        → p.payload_offset ≡ pkt.payload_offset
        → p.payload_len ≡ pkt.payload_len
        → p.ip_payload ≡ pkt.ip_payload
        → Total frame (ok p)
    warned = keeps decoders frame h pkt fresh

    -- A link header of `n` bytes, whose length was tested.
    tested :
        (n ethertype : ℕ) (w : DecodedPacket)
        → Total frame (ok w)
        → Total frame (
            if ltb (length frame) n
            then ok w
            else decode_network decoders pkt ethertype (record { start = n; bytes = drop n frame }))
    tested n ethertype w k = elim (Bool-cases (ltb (length frame) n)) [
      | inl short ↦ rw short k
      | inr long ↦
          rw long (after_lem decoders frame h pkt fresh n ethertype (ltb→le (length frame) n long))
    ]

    decode_loopback_lem : (ne : List ℕ → ℕ) → Total frame (decode_loopback decoders ne pkt frame)
    unfolding decode_loopback
    decode_loopback_lem ne = elim (Bool-cases (ltb (length frame) 4)) [
      | inl short ↦ rw short (warned _ refl refl refl)
      | inr long ↦ rw long (
          let behind =
            λ (et : ℕ). after_lem decoders frame h pkt fresh 4 et (ltb→le (length frame) 4 long) in
          let af = ne (take 4 frame) in
          pick (af == 2) _ _ (behind ethertype_ipv4) (
            pick (af == 24 || af == 28 || af == 30) _ _ (behind ethertype_ipv6)
              (warned (warn pkt (unknown_family af)) refl refl refl)))
    ]

    decode_link_lem :
        (ne : List ℕ → ℕ) (link_type : LinkType)
        → Total frame (decode_link decoders ne link_type pkt frame)
    unfolding decode_link
    decode_link_lem ne ethernet =
        on_ethernet_lem decoders frame h pkt fresh _ (parse_ethernet_lem frame h)
    decode_link_lem ne raw = decode_raw_lem frame h pkt fresh
    decode_link_lem ne null = decode_loopback_lem ne
    decode_link_lem ne loop = decode_loopback_lem ne
    decode_link_lem ne linux_sll = tested 16 _ _ (warned _ refl refl refl)
    decode_link_lem ne linux_sll2 = tested 20 _ _ (warned _ refl refl refl)
    decode_link_lem ne (other v) = warned _ refl refl refl

  -- Decoding never fails and never indexes out of range: every frame of bytes, on every link type and
  -- for any application decoders and host byte order, gives a packet, and the payload and the fragment
  -- that the packet names lie in the frame.
  pub decode_total :
      (ne : List ℕ → ℕ) (meta : PacketMeta) (frame : List ℕ) (link_type : LinkType)
      → AreBytes frame
      → (pkt : DecodedPacket) × (decode decoders ne meta frame link_type ≡ ok pkt)
        × IsInFrame frame pkt
  unfolding decode
  decode_total ne meta frame link_type h =
      Returns-ok (
        decode_link_lem frame h _ (record { offset = refl; len = refl; fragment = tt }) ne
          link_type)
