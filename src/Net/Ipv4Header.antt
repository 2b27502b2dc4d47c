-- ===== src/Net/Ipv4Header.antt =====
-- What the IPv4 and the ICMP parser return, and that they never read out of range.
use custom_built_network_ana.Base.{
  ℕ, ◌+◌, ◌-◌, ◌*◌, ◌/◌, ◌%◌, ◌≤◌, ◌<◌, Bool, true, false, ◌||◌, ◌==◌, Option, none, some, ltb, ◌⊎◌,
  inl, inr, get_or, List, ◌≡◌, refl, ap, ◌∙◌, arith, length, take, drop, tests, ltb→lt, ltb→le,
}
use custom_built_network_ana.Bytes.{Slice, Reader, new, from_be}
use custom_built_network_ana.Bytes.Ensures.{
  AreBytes, IsValid, Ensures, Yields, bind, bind_same, on_test, weaken, eval_lem, Moved,
  Moved-trans, pure_lem, new-IsValid, fail_if_lem,
}
use custom_built_network_ana.Bytes.Reads.{
  here_lem, u8_lem, array_lem, be_u16_lem, skip_lem, limit_lem, rest_lem, rest_at, read_at, byte_at,
}
use custom_built_network_ana.Net.Flags.{any_set_13, any_set_14}
use custom_built_network_ana.Net.{
  Ipv4, ipv4_limit, ipv4_parser, parse_ipv4, Icmp, is_echo, echo_fields, icmp_parser, parse_icmp,
}

-- Every field of the header is the one of its bits, and the payload is what the lengths leave.
pub record IsIpv4 (buf : List ℕ) (ip : Ipv4) (payload : Slice) : Type 0 where
  pub version : get_or buf 0 0 / 16 ≡ 4
  pub header_len : ip.header_len ≡ 4 * (get_or buf 0 0 % 16)
  pub dscp : ip.dscp ≡ get_or buf 1 0 / 4
  pub ecn : ip.ecn ≡ get_or buf 1 0 % 4
  pub dont_fragment : ip.dont_fragment ≡ (from_be 0 (take 2 (drop 6 buf)) / 16384 % 2 == 1)
  pub more_fragments : ip.more_fragments ≡ (from_be 0 (take 2 (drop 6 buf)) / 8192 % 2 == 1)
  pub fragment_offset : ip.fragment_offset ≡ 8 * (from_be 0 (take 2 (drop 6 buf)) % 8192)
  pub ttl : ip.ttl ≡ get_or buf 8 0
  pub protocol : ip.protocol ≡ get_or buf 9 0
  pub checksum : ip.checksum ≡ from_be 0 (take 2 (drop 10 buf))
  pub header_min : 20 ≤ ip.header_len
  pub header_max : ip.header_len ≤ 60
  pub header : ip.header_len ≤ length buf
  pub total_len : ip.total_len ≡ from_be 0 (take 2 (drop 2 buf))
  pub identification : ip.identification ≡ from_be 0 (take 2 (drop 4 buf))
  pub src : ip.src ≡ take 4 (drop 12 buf)
  pub dst : ip.dst ≡ take 4 (drop 16 buf)
  pub offset_max : ip.fragment_offset < 65536
  pub offset_unit : ip.fragment_offset % 8 ≡ 0
  pub part : ip.fragmented ≡ true → (1 ≤ ip.fragment_offset) ⊎ (ip.more_fragments ≡ true)
  pub whole : ip.fragmented ≡ false → (ip.fragment_offset ≡ 0) × (ip.more_fragments ≡ false)
  pub start_is : payload.start ≡ ip.header_len
  pub trimmed :
      ip.header_len < ip.total_len
      → payload.bytes ≡ take (ip.total_len - ip.header_len) (drop ip.header_len buf)
  pub untrimmed : ip.total_len ≤ ip.header_len → payload.bytes ≡ drop ip.header_len buf

ipv4_limit_lem :
    (t n : ℕ) (r : Reader)
    → IsValid r
    → Ensures
        (λ _ s.
          (n < t → drop s.pos s.buf ≡ take (t - n) (drop r.pos r.buf))
          × (t ≤ n → drop s.pos s.buf ≡ drop r.pos r.buf)
          × (s.pos ≡ r.pos))
        (ipv4_limit t n r)
unfolding ipv4_limit
ipv4_limit_lem t n r v =
    on_test _ _ _ r
      (λ h.
        weaken (limit_lem (t - n) r v)
          λ _ s _ (p, e). ((λ _. e), (λ k. absurd (omega (tests, ltb→lt n t h))), p))
      λ h. pure_lem _ v ((λ k. absurd (omega (tests, ltb→le n t h))), (λ _. refl), refl)

part_of : (more : Bool) (offset : ℕ) → (more || ltb 0 offset) ≡ true → (1 ≤ offset) ⊎ (more ≡ true)
part_of true offset h = inr refl
part_of false offset h = inl (omega (tests, h))

ipv4_parser_lem :
    (r : Reader) → IsValid r → r.pos ≡ 0 → Ensures (λ x _. IsIpv4 r.buf x.0 x.1) (ipv4_parser r)
unfolding ipv4_parser
ipv4_parser_lem r v z = bind _ _ _ (u8_lem r v) λ vhl r1 v1 (b1, e1, m1).
    bind_same _ _ r1 v1 (fail_if_lem _ _ r1 v1) λ _ version.
      bind_same _ _ r1 v1 (fail_if_lem _ _ r1 v1) λ _ long.
        bind _ _ _ (u8_lem r1 v1) λ tos r2 v2 (_, e2, n2).
          let m2 = Moved-trans 2 m1 n2 refl in
          bind _ _ _ (be_u16_lem r2 v2) λ total r3 v3 (_, e3, n3).
            let m3 = Moved-trans 4 m2 n3 refl in
            bind _ _ _ (be_u16_lem r3 v3) λ ident r4 v4 (_, e4, n4).
              let m4 = Moved-trans 6 m3 n4 refl in
              bind _ _ _ (be_u16_lem r4 v4) λ flags r5 v5 (b5, e5, n5).
                let m5 = Moved-trans 8 m4 n5 refl in
                bind _ _ _ (u8_lem r5 v5) λ ttl r6 v6 (_, e6, n6).
                  let m6 = Moved-trans 9 m5 n6 refl in
                  bind _ _ _ (u8_lem r6 v6) λ proto r7 v7 (_, e7, n7).
                    let m7 = Moved-trans 10 m6 n7 refl in
                    bind _ _ _ (be_u16_lem r7 v7) λ sum r8 v8 (_, e8, n8).
                      let m8 = Moved-trans 12 m7 n8 refl in
                      bind _ _ _ (array_lem 4 r8 v8) λ src r9 v9 (_, e9, _, n9).
                        let m9 = Moved-trans 16 m8 n9 refl in
                        bind _ _ _ (array_lem 4 r9 v9) λ dst r10 v10 (_, e10, _, n10).
                          let m10 = Moved-trans 20 m9 n10 refl in
                          let enough = ltb→le (vhl % 16) 5 long in
                          bind _ _ _ (skip_lem (vhl % 16 * 4 - 20) r10 v10) λ _ r11 v11 n11.
                            let m11 = Moved-trans (vhl % 16 * 4) m10 n11 (omega arith) in
                            bind _ _ _ (ipv4_limit_lem total (vhl % 16 * 4) r11 v11)
                              λ _ r12 v12 (cut, uncut, same).
                                bind _ _ _ (rest_lem r12 v12) λ payload r13 v13 (e, at, _).
                                  let first = e1 ∙ ap (λ p. get_or r.buf p 0) z in
                                  let second = byte_at 1 tos m1 (omega arith) e2 in
                                  let word = read_at 2 6 flags m4 (omega arith) e5 in
                                  pure_lem _ v13 (record {
                                    version = ground (arith, version, first);
                                    header_len = omega (arith, first);
                                    dscp = ap (λ b. b / 4) second;
                                    ecn = ap (λ b. b % 4) second;
                                    dont_fragment =
                                        any_set_14 flags b5 ∙ ap (λ w. w / 16384 % 2 == 1) word;
                                    more_fragments =
                                        any_set_13 flags b5 ∙ ap (λ w. w / 8192 % 2 == 1) word;
                                    fragment_offset = omega (arith, word);
                                    ttl = byte_at 8 ttl m5 (omega arith) e6;
                                    protocol = byte_at 9 proto m6 (omega arith) e7;
                                    checksum = read_at 2 10 sum m7 (omega arith) e8;
                                    header_min = omega arith;
                                    header_max = omega arith;
                                    header = omega (arith, v11.within, ap length m11.buf, m11.pos);
                                    total_len = read_at 2 2 total m2 (omega arith) e3;
                                    identification = read_at 2 4 ident m3 (omega arith) e4;
                                    src = e9 ∙ ap (take 4) (rest_at m8 z);
                                    dst = e10 ∙ ap (take 4) (rest_at m9 z);
                                    offset_max = omega arith;
                                    offset_unit = omega arith;
                                    part = λ h. part_of _ _ h;
                                    whole = λ h. ground arith;
                                    start_is = omega (arith, at, same, m11.pos);
                                    trimmed = λ h.
                                        e
                                        ∙ cut h
                                        ∙ ap (take (total - vhl % 16 * 4)) (rest_at m11 z);
                                    untrimmed = λ h. e ∙ uncut h ∙ rest_at m11 z;
                                  })

pub parse_ipv4_lem :
    (buf : List ℕ) → AreBytes buf → Yields (λ x. IsIpv4 buf x.0 x.1) (parse_ipv4 buf)
unfolding parse_ipv4 new
parse_ipv4_lem buf h =
    eval_lem ipv4_parser _ (ipv4_parser_lem _ (new-IsValid buf "ipv4" h) refl) (λ _ _ _ q. q)

-- An ICMP message's fields stand at their offsets, its identifier and its sequence number only in an
-- echo; its payload is what the header, of 8 bytes for an echo and of 4 else, leaves.
pub record IsIcmp (buf : List ℕ) (v6 : Bool) (icmp : Icmp) : Type 0 where
  pub version : icmp.v6 ≡ v6
  pub checksum : icmp.checksum ≡ from_be 0 (take 2 (drop 2 buf))
  pub icmp_type : icmp.icmp_type ≡ get_or buf 0 0
  pub code : icmp.code ≡ get_or buf 1 0
  pub echo_id :
      is_echo v6 icmp.icmp_type ≡ true → icmp.echo_id ≡ some (from_be 0 (take 2 (drop 4 buf)))
  pub echo_seq :
      is_echo v6 icmp.icmp_type ≡ true → icmp.echo_seq ≡ some (from_be 0 (take 2 (drop 6 buf)))
  pub no_ids : is_echo v6 icmp.icmp_type ≡ false → (icmp.echo_id ≡ none) × (icmp.echo_seq ≡ none)
  pub echo : is_echo v6 icmp.icmp_type ≡ true → icmp.payload_len + 8 ≡ length buf
  pub no_echo : is_echo v6 icmp.icmp_type ≡ false → icmp.payload_len + 4 ≡ length buf

-- What the fields of an echo are, in a message whose first four bytes lie before `r`.
record AreEchoFields (b : Bool) (r : Reader) (x : Option ℕ × Option ℕ) (s : Reader) : Type 0 where
  long : b ≡ true → Moved 4 r s
  short : b ≡ false → s ≡ r
  id : b ≡ true → x.0 ≡ some (from_be 0 (take 2 (drop r.pos r.buf)))
  seq : b ≡ true → x.1 ≡ some (from_be 0 (take 2 (drop (r.pos + 2) r.buf)))
  no_ids : b ≡ false → (x.0 ≡ none) × (x.1 ≡ none)

echo_fields_lem :
    (b : Bool) (r : Reader) → IsValid r → Ensures (AreEchoFields b r) (echo_fields b r)
unfolding echo_fields
echo_fields_lem b r v =
    on_test _ _ _ r
      (λ h. bind _ _ _ (be_u16_lem r v) λ id r1 v1 (_, e1, m1).
        bind _ _ _ (be_u16_lem r1 v1) λ seq r2 v2 (_, e2, n2). pure_lem _ v2 (record {
          long = λ _. Moved-trans 4 m1 n2 refl;
          short = λ k. absurd (cc);
          id = λ _. ap some e1;
          seq = λ _. ap some (read_at 2 (r.pos + 2) seq m1 refl e2);
          no_ids = λ k. absurd (cc);
        }))
      λ h. pure_lem _ v (record {
        long = λ k. absurd (cc);
        short = λ _. refl;
        id = λ k. absurd (cc);
        seq = λ k. absurd (cc);
        no_ids = λ _. (refl, refl);
      })

icmp_parser_lem :
    (v6 : Bool) (r : Reader)
    → IsValid r
    → r.pos ≡ 0
    → Ensures (λ x _. IsIcmp r.buf v6 x) (icmp_parser v6 r)
unfolding icmp_parser
icmp_parser_lem v6 r v z = bind _ _ _ (u8_lem r v) λ kind r1 v1 (_, e1, m1).
    bind _ _ _ (u8_lem r1 v1) λ code r2 v2 (_, e2, n2).
      let m2 = Moved-trans 2 m1 n2 refl in
      bind _ _ _ (be_u16_lem r2 v2) λ sum r3 v3 (_, e3, n3).
        let m3 = Moved-trans 4 m2 n3 refl in
        bind _ _ _ (echo_fields_lem (is_echo v6 kind) r3 v3) λ x r4 v4 f.
          bind_same _ _ r4 v4 (here_lem r4 v4) λ t e. pure_lem _ v4 (record {
            version = refl;
            checksum = read_at 2 2 sum m2 (omega arith) e3;
            icmp_type = e1 ∙ ap (λ p. get_or r.buf p 0) z;
            code = byte_at 1 code m1 (omega arith) e2;
            echo_id = λ h. f.id h ∙ ap (λ b. some (from_be 0 (take 2 b))) (rest_at m3 z);
            echo_seq = λ h.
                let six : r3.pos + 2 ≡ 6 = omega (arith, m3.pos, z) in
                f.seq h
                ∙ ap (λ p. some (from_be 0 (take 2 (drop p r3.buf)))) six
                ∙ ap (λ (b : List ℕ). some (from_be 0 (take 2 (drop 6 b)))) m3.buf;
            no_ids = f.no_ids;
            echo = λ h.
                let m4 = Moved-trans 8 m3 (f.long h) refl in
                rw e (omega (arith, v4.within, ap length m4.buf, m4.pos));
            no_echo = λ h. rw (e, f.short h) (omega (arith, v3.within, ap length m3.buf, m3.pos));
          })

-- An ICMP message of any bytes is either refused with an error, or every field is the one at its offset
-- and the payload's length is what the header leaves.
pub parse_icmp_lem :
    (buf : List ℕ) (v6 : Bool) → AreBytes buf → Yields (IsIcmp buf v6) (parse_icmp buf v6)
unfolding parse_icmp new
parse_icmp_lem buf v6 h =
    eval_lem (icmp_parser v6) _ (icmp_parser_lem v6 _ (new-IsValid buf _ h) refl) (λ _ _ _ q. q)
