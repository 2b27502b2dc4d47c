-- ===== src/Flow/Canonical.antt =====
-- The canonical key does not depend on which side sent the packet, and equality of keys is decided.
use custom_built_network_ana.Base.{
  ℕ, true, false, ◌&&◌, ◌||◌, not, List, [], ◌∷◌, ◌≡◌, ◌↔◌, refl, arith, ◌==◌, Eq,
}
use custom_built_network_ana.Net.{IpAddr, v4, v6}
use custom_built_network_ana.Flow.{
  flow_eq, octets_eq, octets_lt, ip_eq, ip_lt, endpoint_leb, Direction, a_to_b, b_to_a, canonical,
  StreamKey, key_eq, FlowKey,
}

pub octets_eq_iff : (a b : List ℕ) → (octets_eq a b ≡ true) ↔ (a ≡ b)
unfolding octets_eq
octets_eq_iff (x ∷ a) (y ∷ b) = ground (arith, octets_eq_iff a b)
octets_eq_iff _ _ = ground arith

-- Exactly one of the three holds.
octets_compare : (a b : List ℕ) → octets_lt b a ≡ not (octets_lt a b || octets_eq a b)
unfolding octets_eq octets_lt
octets_compare [] [] = refl
octets_compare [] (y ∷ b) = refl
octets_compare (x ∷ a) [] = refl
octets_compare (x ∷ a) (y ∷ b) = ground (arith, octets_compare a b)

octets_irrefl : (a b : List ℕ) → octets_eq a b ≡ true → octets_lt a b ≡ false
unfolding octets_eq octets_lt
octets_irrefl (x ∷ a) (y ∷ b) h = ground (arith, octets_irrefl a b)
octets_irrefl [] [] h = refl
octets_irrefl _ _ h = cc

octets_eq_sym : (a b : List ℕ) → octets_eq a b ≡ octets_eq b a
unfolding octets_eq
octets_eq_sym (x ∷ a) (y ∷ b) = ground (arith, octets_eq_sym a b)
octets_eq_sym [] [] = refl
octets_eq_sym [] (y ∷ b) = refl
octets_eq_sym (x ∷ a) [] = refl

pub ip_eq_iff : (a b : IpAddr) → (ip_eq a b ≡ true) ↔ (a ≡ b)
unfolding ip_eq
ip_eq_iff (v4 a) (v4 b) = ground (arith, octets_eq_iff a b)
ip_eq_iff (v6 a) (v6 b) = ground (arith, octets_eq_iff a b)
ip_eq_iff _ _ = ground arith

ip_compare : (a b : IpAddr) → ip_lt b a ≡ not (ip_lt a b || ip_eq a b)
unfolding ip_eq ip_lt
ip_compare (v4 a) (v4 b) = octets_compare a b
ip_compare (v6 a) (v6 b) = octets_compare a b
ip_compare (v4 a) (v6 b) = refl
ip_compare (v6 a) (v4 b) = refl

ip_irrefl : (a b : IpAddr) → ip_eq a b ≡ true → ip_lt a b ≡ false
unfolding ip_eq ip_lt
ip_irrefl (v4 a) (v4 b) h = octets_irrefl a b h
ip_irrefl (v6 a) (v6 b) h = octets_irrefl a b h
ip_irrefl _ _ h = cc

ip_eq_sym : (a b : IpAddr) → ip_eq a b ≡ ip_eq b a
unfolding ip_eq
ip_eq_sym (v4 a) (v4 b) = octets_eq_sym a b
ip_eq_sym (v6 a) (v6 b) = octets_eq_sym a b
ip_eq_sym (v4 a) (v6 b) = refl
ip_eq_sym (v6 a) (v4 b) = refl

abbrev pub reversed : Direction → Direction
reversed a_to_b = b_to_a
reversed b_to_a = a_to_b

-- The endpoint that sent, by the key and the direction.
abbrev pub sender : StreamKey → IpAddr × ℕ
sender (k, a_to_b) = (k.a_ip, k.a_port)
sender (k, b_to_a) = (k.b_ip, k.b_port)

-- A packet and its answer have one key, and between two different endpoints opposite directions; the
-- key and the direction name the sender.
pub canonical_swap :
    (src dst : IpAddr) (sp dp protocol : ℕ)
    → let there = canonical src sp dst dp protocol in
      let back = canonical dst dp src sp protocol in
      (there.0 ≡ back.0)
      × ((ip_eq src dst && sp == dp) ≡ false → back.1 ≡ reversed there.1)
      × (sender there ≡ (src, sp))
unfolding canonical endpoint_leb
canonical_swap src dst sp dp protocol = ground (
  arith,
  ip_compare src dst,
  ip_eq_sym src dst,
  ip_irrefl src dst,
  ip_irrefl dst src,
  ip_eq_iff src dst,
)

pub key_eq_iff : (a b : StreamKey) → (key_eq a b ≡ true) ↔ (a ≡ b)
unfolding key_eq
key_eq_iff (k, d) (j, e) = ground (arith, ip_eq_iff k.a_ip j.a_ip, ip_eq_iff k.b_ip j.b_ip)

instance abbrev pub key_Eq : Eq StreamKey
key_Eq = record { beq = key_eq; beq_iff = key_eq_iff }

pub flow_eq_iff : (a b : FlowKey) → (flow_eq a b ≡ true) ↔ (a ≡ b)
unfolding flow_eq
flow_eq_iff k j = ground (arith, ip_eq_iff k.a_ip j.a_ip, ip_eq_iff k.b_ip j.b_ip)

instance abbrev pub flow_Eq : Eq FlowKey
flow_Eq = record { beq = flow_eq; beq_iff = flow_eq_iff }
