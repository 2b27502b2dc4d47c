-- ===== src/Link/Headers.antt =====
-- What the Ethernet and the ARP parser return, and that they never read out of range.
use custom_built_network_ana.Base.{
  ℕ, zero, suc, ◌+◌, ◌-◌, ◌*◌, ◌/◌, ◌%◌, ◌≤◌, ◌<◌, ◌==◌, true, false, List, [], ◌∷◌, ◌++◌, ◌≡◌,
  refl, sym, ap, ◌∙◌, arith, length, length-append, append_none, append_assoc, subst, take, drop,
}
use custom_built_network_ana.Bytes.{Slice, Reader, new, from_be}
use custom_built_network_ana.Bytes.Ensures.{
  AreBytes, IsValid, Ensures, Yields, bind, bind_same, on_test, weaken, eval_lem, Moved,
  Moved-trans, pure_lem, new-IsValid, fail_if_lem,
}
use custom_built_network_ana.Bytes.Reads.{u8_lem, array_lem, be_u16_lem, rest_lem, rest_at, read_at}
use custom_built_network_ana.Link.{
  VlanTag, Ethernet, is_vlan, vlan_tag, vlan_loop, ethernet_parser, parse_ethernet, Arp, arp_op,
  arp_parser, parse_arp, ethertype_ipv4,
}

-- A tag's fields have their widths, and its type is one of the three VLAN types.
abbrev pub AreTags : List VlanTag → Type 0
AreTags [] = Unit {0}
AreTags (t ∷ ts) = (is_vlan t.tpid ≡ true) × (t.priority < 8) × (t.vid < 4096) × AreTags ts

AreTags-concat :
    (ts : List VlanTag) (tpid tci : ℕ)
    → AreTags ts
    → is_vlan tpid ≡ true
    → tci < 65536
    → AreTags (ts ++ vlan_tag tpid tci ∷ [])
unfolding vlan_tag
AreTags-concat [] tpid tci h k p = (k, omega arith, omega arith, tt)
AreTags-concat (t ∷ ts) tpid tci (a, b, c, h) k p = (a, b, c, AreTags-concat ts tpid tci h k p)

abbrev pub u16_at : List ℕ → ℕ → ℕ
u16_at buf o = from_be 0 (take 2 (drop o buf))

-- The tags are those of the bytes from the offset `o` on, each of four bytes: its type, and then a word of
-- its priority in three bits, one bit of drop eligibility and its id in twelve. The type `et` follows them.
abbrev pub ReadsTags : List ℕ → ℕ → List VlanTag → ℕ → Type 0
ReadsTags buf o [] et = et ≡ u16_at buf o
ReadsTags buf o (t ∷ ts) et =
    (t.tpid ≡ u16_at buf o)
    × (t.priority ≡ u16_at buf (o + 2) / 8192)
    × (t.dei ≡ (u16_at buf (o + 2) / 4096 % 2 == 1))
    × (t.vid ≡ u16_at buf (o + 2) % 4096)
    × ReadsTags buf (o + 4) ts et

-- The tags behind those before, read from the two bytes before `r` on.
record Appended (et : ℕ) (before : List VlanTag) (r : Reader) (out : ℕ × List VlanTag)
    : Type 0 where
  new_tags : List VlanTag
  appended : out.1 ≡ before ++ new_tags
  reads : (o : ℕ) → r.pos ≡ o + 2 → et ≡ u16_at r.buf o → ReadsTags r.buf o new_tags out.0

none-Appended : (et : ℕ) (before : List VlanTag) (r : Reader) → Appended et before r (et, before)
none-Appended et before r = record {
  new_tags = [];
  appended = sym (append_none before);
  reads = λ o p e. e;
}

one-Appended :
    (et tci inner : ℕ) (before : List VlanTag) (r s : Reader) (out : ℕ × List VlanTag)
    → tci ≡ u16_at r.buf r.pos
    → inner ≡ u16_at r.buf (r.pos + 2)
    → Moved 4 r s
    → Appended inner (before ++ vlan_tag et tci ∷ []) s out
    → Appended et before r out
unfolding vlan_tag
one-Appended et tci inner before r s out e e' m a = record {
  new_tags = vlan_tag et tci ∷ a.new_tags;
  appended = a.appended ∙ append_assoc before (vlan_tag et tci ∷ []) a.new_tags;
  reads = λ o p h.
      let word : tci ≡ u16_at r.buf (o + 2) = e ∙ ap (u16_at r.buf) p in
      let next : r.pos + 2 ≡ o + 4 = omega arith in
      let behind : inner ≡ u16_at s.buf (o + 4) =
        e' ∙ ap (u16_at r.buf) next ∙ ap (λ (b : List ℕ). u16_at b (o + 4)) (sym m.buf) in
      (
        h,
        ap (λ w. w / 8192) word,
        ap (λ w. w / 4096 % 2 == 1) word,
        ap (λ w. w % 4096) word,
        subst (λ (b : List ℕ). ReadsTags b (o + 4) a.new_tags out.0) m.buf
            (a.reads (o + 4) (omega (arith, m.pos, p)) behind),
      );
}

-- After the loop: each tag took four bytes, and a tag left unread means that the rounds are used up.
record Untagged (rounds et : ℕ) (before : List VlanTag) (r : Reader) (out : ℕ × List VlanTag)
    (s : Reader) : Type 0 where
  moved : Moved (4 * (length out.1 - length before)) r s
  more : length before ≤ length out.1
  most : length out.1 ≤ length before + rounds
  tags : AreTags out.1
  appended : Appended et before r out
  ends : length out.1 < length before + rounds → is_vlan out.0 ≡ false

vlan_loop_lem :
    (rounds et : ℕ) (vlans : List VlanTag) (r : Reader)
    → IsValid r
    → AreTags vlans
    → Ensures (Untagged rounds et vlans r) (vlan_loop rounds et vlans r)
unfolding vlan_loop
vlan_loop_lem zero et vlans r v h = pure_lem _ v (record {
  moved = record { buf = refl; pos = omega arith };
  more = omega arith;
  most = omega arith;
  tags = h;
  appended = none-Appended et vlans r;
  ends = λ p. absurd (omega arith);
})
vlan_loop_lem (suc rounds) et vlans r v h =
    on_test _ _ _ r
      (λ tagged. bind _ _ _ (be_u16_lem r v) λ tci r1 v1 (b1, e1, m1).
        bind _ _ _ (be_u16_lem r1 v1) λ inner r2 v2 (_, e2, n2).
          let m2 = Moved-trans 4 m1 n2 refl in
          let longer = length-append vlans (vlan_tag et tci ∷ []) in
          weaken (vlan_loop_lem rounds inner _ r2 v2 (AreTags-concat vlans et tci h tagged b1))
            λ out s w u. record {
              moved = Moved-trans _ m2 u.moved (omega (arith, longer, u.more));
              more = omega (arith, longer, u.more);
              most = omega (arith, longer, u.most);
              tags = u.tags;
              appended =
                  one-Appended et tci inner vlans r r2 out e1
                    (read_at 2 (r.pos + 2) inner m1 refl e2) m2 u.appended;
              ends = λ p. u.ends (omega (arith, longer));
            })
      λ plain. pure_lem _ v (record {
        moved = record { buf = refl; pos = omega arith };
        more = omega arith;
        most = omega arith;
        tags = h;
        appended = none-Appended et vlans r;
        ends = λ p. plain;
      })

-- An Ethernet header is its addresses, at most three tags of four bytes each, all read at their offsets,
-- and the type behind them; the payload is what follows.
pub record IsEthernet (buf : List ℕ) (eth : Ethernet) (payload : Slice) : Type 0 where
  pub dst : eth.dst ≡ take 6 buf
  pub src : eth.src ≡ take 6 (drop 6 buf)
  pub most : length eth.vlans ≤ 3
  pub tags : AreTags eth.vlans
  pub reads : ReadsTags buf 12 eth.vlans eth.ethertype
  pub ends : length eth.vlans < 3 → is_vlan eth.ethertype ≡ false
  pub header : 14 + 4 * length eth.vlans ≤ length buf
  pub start_is : payload.start ≡ 14 + 4 * length eth.vlans
  pub payload_is : payload.bytes ≡ drop (14 + 4 * length eth.vlans) buf

ethernet_parser_lem :
    (r : Reader)
    → IsValid r
    → r.pos ≡ 0
    → Ensures (λ x _. IsEthernet r.buf x.0 x.1) (ethernet_parser r)
unfolding ethernet_parser
ethernet_parser_lem r v z = bind _ _ _ (array_lem 6 r v) λ dst r1 v1 (_, e1, _, m1).
    bind _ _ _ (array_lem 6 r1 v1) λ src r2 v2 (_, e2, _, n2).
      let m2 = Moved-trans 12 m1 n2 refl in
      bind _ _ _ (be_u16_lem r2 v2) λ outer r3 v3 (_, e3, n3).
        let m3 = Moved-trans 14 m2 n3 refl in
        bind _ _ _ (vlan_loop_lem 3 outer [] r3 v3 tt) λ x r4 v4 u.
          let m4 = Moved-trans (14 + 4 * length x.1) m3 u.moved (omega arith) in
          bind _ _ _ (rest_lem r4 v4) λ payload r5 v5 (e5, at, _). pure_lem _ v5 (record {
            dst = e1 ∙ ap (λ p. take 6 (drop p r.buf)) z;
            src = e2 ∙ ap (take 6) (rest_at m1 z);
            most = omega (arith, u.most);
            tags = u.tags;
            reads =
                subst (λ (b : List ℕ). ReadsTags b 12 x.1 x.0) m3.buf
                  (subst (λ (ts : List VlanTag). ReadsTags r3.buf 12 ts x.0)
                    (sym u.appended.appended)
                    (u.appended.reads 12 (omega (arith, m3.pos, z)) (
                      read_at 2 12 outer m2 (omega arith) e3
                      ∙ ap (λ (b : List ℕ). u16_at b 12) (sym m3.buf))));
            ends = λ p. u.ends (omega arith);
            header = omega (arith, v4.within, ap length m4.buf, m4.pos);
            start_is = omega (arith, at, m4.pos);
            payload_is = e5 ∙ rest_at m4 z;
          })

-- A frame of any bytes is either refused with an error, or its addresses, the contents of its tags, the
-- type behind them and its payload are those of its bytes.
pub parse_ethernet_lem :
    (buf : List ℕ) → AreBytes buf → Yields (λ x. IsEthernet buf x.0 x.1) (parse_ethernet buf)
unfolding parse_ethernet new
parse_ethernet_lem buf h =
    eval_lem ethernet_parser _ (ethernet_parser_lem _ (new-IsValid buf "ethernet" h) refl)
      (λ _ _ _ q. q)

-- An ARP message carries its four addresses at their offsets, in the Ethernet/IPv4 binding.
pub record IsArp (buf : List ℕ) (arp : Arp) : Type 0 where
  pub hardware : from_be 0 (take 2 buf) ≡ 1
  pub protocol : from_be 0 (take 2 (drop 2 buf)) ≡ ethertype_ipv4
  pub op : arp.op ≡ arp_op (from_be 0 (take 2 (drop 6 buf)))
  pub sender_mac : arp.sender_mac ≡ take 6 (drop 8 buf)
  pub sender_ip : arp.sender_ip ≡ take 4 (drop 14 buf)
  pub target_mac : arp.target_mac ≡ take 6 (drop 18 buf)
  pub target_ip : arp.target_ip ≡ take 4 (drop 24 buf)

arp_parser_lem :
    (r : Reader) → IsValid r → r.pos ≡ 0 → Ensures (λ x _. IsArp r.buf x) (arp_parser r)
unfolding arp_parser
arp_parser_lem r v z = bind _ _ _ (be_u16_lem r v) λ htype r1 v1 (_, e1, m1).
    bind _ _ _ (be_u16_lem r1 v1) λ ptype r2 v2 (_, e2, n2).
      let m2 = Moved-trans 4 m1 n2 refl in
      bind _ _ _ (u8_lem r2 v2) λ hlen r3 v3 (_, _, n3).
        let m3 = Moved-trans 5 m2 n3 refl in
        bind _ _ _ (u8_lem r3 v3) λ plen r4 v4 (_, _, n4).
          let m4 = Moved-trans 6 m3 n4 refl in
          bind _ _ _ (be_u16_lem r4 v4) λ op r5 v5 (_, e5, n5).
            let m5 = Moved-trans 8 m4 n5 refl in
            bind_same _ _ r5 v5 (fail_if_lem _ _ r5 v5) λ _ bound.
              bind _ _ _ (array_lem 6 r5 v5) λ smac r6 v6 (_, e6, _, n6).
                let m6 = Moved-trans 14 m5 n6 refl in
                bind _ _ _ (array_lem 4 r6 v6) λ sip r7 v7 (_, e7, _, n7).
                  let m7 = Moved-trans 18 m6 n7 refl in
                  bind _ _ _ (array_lem 6 r7 v7) λ tmac r8 v8 (_, e8, _, n8).
                    let m8 = Moved-trans 24 m7 n8 refl in
                    bind _ _ _ (array_lem 4 r8 v8) λ tip r9 v9 (_, e9, _, n9).
                      let first : htype ≡ 1 = ground arith in
                      let second : ptype ≡ ethertype_ipv4 = ground arith in
                      pure_lem _ v9 (record {
                        hardware =
                            ap (λ p. from_be 0 (take 2 (drop p r.buf))) (sym z) ∙ sym e1 ∙ first;
                        protocol =
                            ap (λ b. from_be 0 (take 2 b)) (sym (rest_at m1 z)) ∙ sym e2 ∙ second;
                        op = ap arp_op (e5 ∙ ap (λ b. from_be 0 (take 2 b)) (rest_at m4 z));
                        sender_mac = e6 ∙ ap (take 6) (rest_at m5 z);
                        sender_ip = e7 ∙ ap (take 4) (rest_at m6 z);
                        target_mac = e8 ∙ ap (take 6) (rest_at m7 z);
                        target_ip = e9 ∙ ap (take 4) (rest_at m8 z);
                      })

-- An ARP message of any bytes is either refused with an error or read at these offsets.
pub parse_arp_lem : (buf : List ℕ) → AreBytes buf → Yields (IsArp buf) (parse_arp buf)
unfolding parse_arp new
parse_arp_lem buf h =
    eval_lem arp_parser _ (arp_parser_lem _ (new-IsValid buf "arp" h) refl) (λ _ _ _ q. q)
