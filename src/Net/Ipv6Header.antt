-- ===== src/Net/Ipv6Header.antt =====
-- What the IPv6 parser returns, and that it never reads out of range.
use custom_built_network_ana.Base.{
  ℕ, ◌+◌, ◌*◌, ◌/◌, ◌%◌, ◌≤◌, ◌<◌, false, subst, get_or, List, ◌≡◌, refl, sym, ap, ◌∙◌, arith,
  length, take, drop, ltb, if◌then◌else◌,
}
use custom_built_network_ana.Bytes.{Slice, Reader, new, from_be}
use custom_built_network_ana.Bytes.Ensures.{
  AreBytes, IsValid, Ensures, Yields, bind, bind_same, on_test, weaken, eval_lem, Moved-trans,
  pure_lem, new-IsValid, fail_if_lem,
}
use custom_built_network_ana.Bytes.Reads.{
  u8_lem, array_lem, be_u16_lem, be_u32_lem, limit_buf_lem, rest_lem, rest_at, read_at, byte_at,
}
use custom_built_network_ana.Net.ExtensionChain.{Chain}
use custom_built_network_ana.Net.ExtensionWalk.{IsSound, walk_extensions_lem}
use custom_built_network_ana.Net.{
  Ipv6, Extensions, no_extensions, ipv6_limit, ipv6_parser, parse_ipv6,
}

-- The bytes that the payload length leaves in sight; zero means all.
abbrev pub in_sight : ℕ → List ℕ → List ℕ
in_sight payload_len buf = if ltb 0 payload_len then take (40 + payload_len) buf else buf

abbrev pub extensions_of : Ipv6 → Extensions
extensions_of ip = record {
  next_header = ip.next_header;
  extension_headers = ip.extension_headers;
  fragmented = ip.fragmented;
  fragment_offset = ip.fragment_offset;
  identification = ip.identification;
  more_fragments = ip.more_fragments;
}

-- The fields of the fixed header are those of its bits. The payload is what follows it and the chain of at
-- most 16 extension headers of 8 bytes or more, none of it beyond the payload length, and the chain gives the
-- next header and the fragment fields.
pub record IsIpv6 (buf : List ℕ) (ip : Ipv6) (payload : Slice) : Type 0 where
  pub src : ip.src ≡ take 16 (drop 8 buf)
  pub dst : ip.dst ≡ take 16 (drop 24 buf)
  pub payload_len : ip.payload_len ≡ from_be 0 (take 2 (drop 4 buf))
  pub version : from_be 0 (take 4 buf) / 268435456 ≡ 6
  pub traffic_class : ip.traffic_class ≡ from_be 0 (take 4 buf) / 1048576 % 256
  pub flow_label : ip.flow_label ≡ from_be 0 (take 4 buf) % 1048576
  pub hop_limit : ip.hop_limit ≡ get_or buf 7 0
  pub chain :
      Chain
        (in_sight ip.payload_len buf)
        16
        (no_extensions (get_or buf 6 0))
        40
        (extensions_of ip)
        payload.start
  pub header_min : 40 + 8 * ip.extension_headers ≤ payload.start
  pub header_max : payload.start ≤ length (in_sight ip.payload_len buf)
  pub headers_max : ip.extension_headers ≤ 16
  pub payload_is : payload.bytes ≡ drop payload.start (in_sight ip.payload_len buf)
  pub whole :
      ip.fragmented ≡ false
      → (ip.fragment_offset ≡ 0) × (ip.identification ≡ 0) × (ip.more_fragments ≡ false)
  pub offset_max : ip.fragment_offset < 65536
  pub offset_unit : ip.fragment_offset % 8 ≡ 0

ipv6_limit_lem :
    (n : ℕ) (r : Reader)
    → IsValid r
    → r.pos ≡ 40
    → Ensures (λ _ s. (s.pos ≡ 40) × (s.buf ≡ in_sight n r.buf)) (ipv6_limit n r)
unfolding ipv6_limit
ipv6_limit_lem n r v z =
    on_test _ _ _ r
      (λ h.
        weaken (limit_buf_lem n r v)
          λ _ s _ (p, b). (p ∙ z, rw h (b ∙ ap (λ k. take (k + n) r.buf) z)))
      λ h. pure_lem _ v (z, rw h refl)

-- A chain with each of its arguments replaced by an equal one.
moved_chain :
    {buf buf' : List ℕ} {n k k' o o' end end' : ℕ} {y : Extensions}
    → Chain buf n (no_extensions k) o y end
    → buf ≡ buf'
    → k ≡ k'
    → o ≡ o'
    → end ≡ end'
    → Chain buf' n (no_extensions k') o' y end'
moved_chain {buf} {buf'} {n} {k} {k'} {o} {o'} {end} {end'} {y} c e f g h =
    subst (λ p. Chain buf' n (no_extensions k') o' y p) h
      (subst (λ p. Chain buf' n (no_extensions k') p y end) g
        (subst (λ b. Chain buf' n (no_extensions b) o y end) f
          (subst (λ (xs : List ℕ). Chain xs n (no_extensions k) o y end) e c)))

ipv6_parser_lem :
    (r : Reader) → IsValid r → r.pos ≡ 0 → Ensures (λ x _. IsIpv6 r.buf x.0 x.1) (ipv6_parser r)
unfolding ipv6_parser
ipv6_parser_lem r v z = bind _ _ _ (be_u32_lem r v) λ vtf r1 v1 (_, e1, m1).
    bind_same _ _ r1 v1 (fail_if_lem _ _ r1 v1) λ _ version.
      bind _ _ _ (be_u16_lem r1 v1) λ len r2 v2 (_, e2, n2).
        let m2 = Moved-trans 6 m1 n2 refl in
        bind _ _ _ (u8_lem r2 v2) λ nh r3 v3 (_, e3, n3).
          let m3 = Moved-trans 7 m2 n3 refl in
          bind _ _ _ (u8_lem r3 v3) λ hops r4 v4 (_, e4, n4).
            let m4 = Moved-trans 8 m3 n4 refl in
            bind _ _ _ (array_lem 16 r4 v4) λ src r5 v5 (_, e5, _, n5).
              let m5 = Moved-trans 24 m4 n5 refl in
              bind _ _ _ (array_lem 16 r5 v5) λ dst r6 v6 (_, e6, _, n6).
                let m6 = Moved-trans 40 m5 n6 refl in
                bind _ _ _ (ipv6_limit_lem len r6 v6 (omega (arith, m6.pos))) λ _ r7 v7 (p7, b7).
                  bind _ _ _ (walk_extensions_lem 16 (no_extensions nh) r7 v7 none)
                    λ x r8 v8 (w, c). bind _ _ _ (rest_lem r8 v8) λ payload r9 v9 (e9, at, _).
                      let sight : r8.buf ≡ in_sight len r.buf =
                        w.buf ∙ b7 ∙ ap (in_sight len) m6.buf in
                      let word = e1 ∙ ap (λ p. from_be 0 (take 4 (drop p r.buf))) z in
                      let seen : r7.buf ≡ in_sight len r.buf = b7 ∙ ap (in_sight len) m6.buf in
                      let first = byte_at 6 nh m2 (omega arith) e3 in
                      pure_lem _ v9 (record {
                        version = ground (arith, version, word);
                        traffic_class = ap (λ w. w / 1048576 % 256) word;
                        flow_label = ap (λ w. w % 1048576) word;
                        hop_limit = byte_at 7 hops m3 (omega arith) e4;
                        chain = moved_chain c seen first p7 (sym at);
                        src = e5 ∙ ap (take 16) (rest_at m4 z);
                        dst = e6 ∙ ap (take 16) (rest_at m5 z);
                        payload_len = read_at 2 4 len m1 (omega arith) e2;
                        header_min = omega (arith, w.size, p7, at);
                        header_max = omega (arith, v8.within, ap length sight, at);
                        headers_max = omega (arith, w.most);
                        payload_is =
                            e9
                            ∙ ap (drop r8.pos) sight
                            ∙ ap (λ k. drop k (in_sight len r.buf)) (sym at);
                        whole = w.sound.whole;
                        offset_max = w.sound.offset_max;
                        offset_unit = w.sound.offset_unit;
                      })
  where
    none : {nh : ℕ} → IsSound (no_extensions nh)
    none = record {
      whole = λ _. (refl, refl, refl);
      offset_max = omega arith;
      offset_unit = omega arith;
    }

-- An IPv6 datagram of any bytes is either refused with an error, or every field of the fixed header is the
-- one of its bits, the walk over at most 16 extension headers gives the next header, the fragment fields and
-- the payload's start, and the payload ends where the payload length says, unless that is 0.
pub parse_ipv6_lem :
    (buf : List ℕ) → AreBytes buf → Yields (λ x. IsIpv6 buf x.0 x.1) (parse_ipv6 buf)
unfolding parse_ipv6 new
parse_ipv6_lem buf h =
    eval_lem ipv6_parser _ (ipv6_parser_lem _ (new-IsValid buf "ipv6" h) refl) (λ _ _ _ q. q)
