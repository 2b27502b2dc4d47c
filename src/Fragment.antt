-- ===== src/Fragment.antt =====
-- crates/cbna-core/src/ip_reassembly.rs, the key of a datagram, with the equality that its map uses.
use custom_built_network_ana.Base.{ℕ, Bool, true, ◌&&◌, ◌≡◌, ◌↔◌, arith, ◌==◌, Eq}
use custom_built_network_ana.Net.{IpAddr}
use custom_built_network_ana.Flow.{ip_eq}
use custom_built_network_ana.Flow.Canonical.{ip_eq_iff}

pub record FragKey : Type 0 where
  pub src : IpAddr
  pub dst : IpAddr
  pub protocol : ℕ
  pub id : ℕ

unfoldable pub frag_eq : FragKey → FragKey → Bool
unfolding ip_eq
frag_eq k j = ip_eq k.src j.src && ip_eq k.dst j.dst && k.protocol == j.protocol && k.id == j.id

pub frag_eq_iff : (k j : FragKey) → (frag_eq k j ≡ true) ↔ (k ≡ j)
unfolding frag_eq
frag_eq_iff k j = ground (arith, ip_eq_iff k.src j.src, ip_eq_iff k.dst j.dst)

instance abbrev pub frag_Eq : Eq FragKey
frag_Eq = record { beq = frag_eq; beq_iff = frag_eq_iff }
