-- ===== src/Packet/Layers.antt =====
-- What the transport layer of `decode` records lies in the frame.
use custom_built_network_ana.Base.{
  ℕ, ◌+◌, ◌≤◌, Bool, true, false, Option, none, some, List, ◌≡◌, refl, sym, subst, inl, inr, arith,
  ◌==◌, if◌then◌else◌, Bool-cases, length,
}
use custom_built_network_ana.Error.{Outcome, ok}
use custom_built_network_ana.Bytes.{Slice}
use custom_built_network_ana.Bytes.Ensures.{AreBytes, Yields, yields, fails}
use custom_built_network_ana.Net.{Icmp, is_echo, proto_icmpv6}
use custom_built_network_ana.Net.Ipv4Header.{IsIcmp, parse_icmp_lem}
use custom_built_network_ana.Transport.{Tcp, Udp}
use custom_built_network_ana.Transport.Headers.{IsTcp, IsUdp, parse_tcp_lem, parse_udp_lem}
use custom_built_network_ana.Proto.{Decoders}
use custom_built_network_ana.Packet.{DecodedPacket}
use custom_built_network_ana.Packet.Decoder.{on_tcp, on_udp, on_icmp, decode_transport}
use custom_built_network_ana.Packet.Located.{Located, Located-AreBytes, Located-trans}
use custom_built_network_ana.Packet.Slices.{IsTcp-Located, IsUdp-Located}

abbrev pub RangeIn : List ℕ → Option (ℕ × ℕ) → Type 0
RangeIn frame none = Unit {0}
RangeIn frame (some (off, len)) = off + len ≤ length frame

-- The payload and the fragment that the packet names lie in the frame.
pub record IsInFrame (frame : List ℕ) (pkt : DecodedPacket) : Type 0 where
  pub payload : pkt.payload_offset + pkt.payload_len ≤ length frame
  pub fragment : RangeIn frame pkt.ip_payload

-- The call returns, and its value has the property.
pub data Returns {ℓ} {A : Type ℓ} (Q : A → Type 0) : Outcome A → Type ℓ where
  returns : {a : A} → Q a → Returns Q (ok a)

pub Returns-ok {ℓ} :
    {A : Type ℓ} {Q : A → Type 0} {o : Outcome A} → Returns Q o → (a : A) × (o ≡ ok a) × Q a
Returns-ok (returns {a} q) = (a, refl, q)

-- No payload has been found yet.
pub record IsFresh (frame : List ℕ) (pkt : DecodedPacket) : Type 0 where
  pub offset : pkt.payload_offset ≡ 0
  pub len : pkt.payload_len ≡ 0
  pub fragment : RangeIn frame pkt.ip_payload

module _ (decoders : Decoders) (frame : List ℕ) (bytes : AreBytes frame) where
  abbrev pub Good : Outcome DecodedPacket → Type 0
  Good = Returns (IsInFrame frame)

  -- A layer that does not parse leaves a warning.
  pub stays :
      (pkt p : DecodedPacket)
      → IsFresh frame pkt
      → p.payload_offset ≡ pkt.payload_offset
      → p.payload_len ≡ pkt.payload_len
      → p.ip_payload ≡ pkt.ip_payload
      → IsInFrame frame p
  stays pkt p f a b c = record {
    payload = omega (arith, f.offset, f.len, a, b);
    fragment = subst (RangeIn frame) (sym c) f.fragment;
  }

  module _ (pkt : DecodedPacket) (fresh : IsFresh frame pkt) where
    on_tcp_lem :
        (l4 : Slice) (flag : Bool) (o : Outcome (Tcp × Slice))
        → Located frame l4
        → Yields (λ x. IsTcp l4.bytes x.0 x.1) o
        → Good (on_tcp decoders pkt l4 flag o)
    unfolding on_tcp
    on_tcp_lem l4 flag _ l (yields h) =
        returns (record {
          payload = (Located-trans l (IsTcp-Located h)).inside;
          fragment = fresh.fragment;
        })
    on_tcp_lem l4 flag _ l fails = returns (stays pkt _ fresh refl refl refl)

    on_udp_lem :
        (l4 : Slice) (flag : Bool) (o : Outcome (Udp × Slice))
        → Located frame l4
        → Yields (λ x. IsUdp l4.bytes x.0 x.1) o
        → Good (on_udp decoders pkt l4 flag o)
    unfolding on_udp
    on_udp_lem l4 flag _ l (yields h) =
        returns (record {
          payload = (Located-trans l (IsUdp-Located h)).inside;
          fragment = fresh.fragment;
        })
    on_udp_lem l4 flag _ l fails = returns (stays pkt _ fresh refl refl refl)

    on_icmp_lem :
        (l4 : Slice) (v6 : Bool) (o : Outcome Icmp)
        → Located frame l4
        → Yields (IsIcmp l4.bytes v6) o
        → Good (on_icmp decoders pkt o)
    unfolding on_icmp
    on_icmp_lem l4 v6 _ l (yields {a = i} h) = returns (record {
      payload = elim (Bool-cases (is_echo v6 i.icmp_type)) [
        | inl e ↦ omega (arith, h.echo e, l.inside, fresh.offset)
        | inr e ↦ omega (arith, h.no_echo e, l.inside, fresh.offset)
      ];
      fragment = fresh.fragment;
    })
    on_icmp_lem l4 v6 _ l fails = returns (stays pkt _ fresh refl refl refl)

    pub on_if :
        (b : Bool) (x y : Outcome DecodedPacket) → Good x → Good y → Good (if b then x else y)
    on_if true x y h k = h
    on_if false x y h k = k

    pub decode_transport_lem :
        (protocol : ℕ) (l4 : Slice) (flag : Bool)
        → Located frame l4
        → Good (decode_transport decoders pkt protocol l4 flag)
    unfolding decode_transport
    decode_transport_lem protocol l4 flag l =
        let b = Located-AreBytes l bytes in
        on_if _ _ _ (on_tcp_lem l4 flag _ l (parse_tcp_lem l4.bytes b)) (
          on_if _ _ _ (on_udp_lem l4 flag _ l (parse_udp_lem l4.bytes b)) (
            on_if _ _ _
              (on_icmp_lem l4 _ _ l (parse_icmp_lem l4.bytes (protocol == proto_icmpv6) b))
              (returns (record {
                payload = omega (arith, l.inside, fresh.offset);
                fragment = fresh.fragment;
              }))))
