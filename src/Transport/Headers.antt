-- ===== src/Transport/Headers.antt =====
-- What the TCP and the UDP parser return, and that they never read out of range.
use custom_built_network_ana.Base.{
  ℕ, ◌-◌, ◌*◌, ◌/◌, ◌%◌, ◌≤◌, ◌<◌, List, ◌≡◌, refl, sym, ap, subst, ◌∙◌, arith, length, drop, take,
  tests, ltb→le, leb→le,
}
use custom_built_network_ana.Error.{Outcome, ok}
use custom_built_network_ana.Bytes.{Slice, Reader, from_be, new, eval}
use custom_built_network_ana.Bytes.Ensures.{
  AreBytes, IsValid, Ensures, Yields, yields, fails, bind, bind_same, on_test, weaken, eval_lem,
  Moved, pure_lem, new-IsValid, fail_if_lem, lift_lem, Moved-trans,
}
use custom_built_network_ana.Bytes.Reads.{
  be_u16_lem, be_u32_lem, sub_new_lem, rest_lem, limit_lem, read_at, rest_at,
}
use custom_built_network_ana.Transport.{
  Tcp, TcpOptions, default_options, Udp, parse_tcp_options, tcp_options, tcp_parser, parse_tcp,
  udp_limit, udp_parser, parse_udp,
}
use custom_built_network_ana.Transport.Options.{walk_options_lem}

parse_tcp_options_lem : (r : Reader) → IsValid r → Ensures (λ _ _. Unit {0}) (parse_tcp_options r)
unfolding parse_tcp_options
parse_tcp_options_lem r v = weaken (walk_options_lem _ _ r v) λ _ _ _ _. tt

-- The options that `n` bytes behind the fixed header hold.
pub data AreOptions (n : ℕ) (buf : List ℕ) (o : TcpOptions) : Type 0 where
  no_options : n ≡ 0 → o ≡ default_options → AreOptions n buf o
  some_options :
      1 ≤ n
      → eval parse_tcp_options (new (take n (drop 20 buf)) "tcp options") ≡ ok o
      → AreOptions n buf o

result : {A : Type 0} {P : A → Type 0} (o : Outcome A) → Yields P o → Yields (λ a. o ≡ ok a) o
result _ (yields q) = yields refl
result _ fails = fails

tcp_options_lem :
    (n : ℕ) (r : Reader) (buf : List ℕ)
    → IsValid r
    → drop r.pos r.buf ≡ drop 20 buf
    → Ensures (λ o s. AreOptions n buf o × Moved n r s) (tcp_options n r)
unfolding tcp_options
tcp_options_lem n r buf v same =
    on_test _ _ _ r
      (λ h. bind _ _ _ (sub_new_lem n "tcp options" r v) λ t s w (vt, e, m).
        weaken (lift_lem s w _ (result _ (eval_lem _ t (parse_tcp_options_lem t vt) λ _ _ _ _. tt)))
          λ o u _ (p, e'). (
            some_options (omega (tests, h)) (
                ap (λ (b : List ℕ). eval parse_tcp_options (new (take n b) "tcp options"))
                  (sym same)
                ∙ ap (eval parse_tcp_options) (sym e)
                ∙ p),
            subst (Moved n r) (sym e') m,
          ))
      λ h.
        let none : n ≡ 0 = omega (tests, ltb→le 0 n h) in
        pure_lem _ v (no_options none refl, record { buf = refl; pos = omega arith })

-- The fields of a TCP header are read big-endian at their offsets, the data offset and the flags from
-- the high four and the low eight bits of one word; the options are those of the bytes between the fixed
-- header and the payload, and the payload is what follows them.
pub record IsTcp (buf : List ℕ) (tcp : Tcp) (payload : Slice) : Type 0 where
  pub src_port : tcp.src_port ≡ from_be 0 (take 2 buf)
  pub dst_port : tcp.dst_port ≡ from_be 0 (take 2 (drop 2 buf))
  pub seq : tcp.seq ≡ from_be 0 (take 4 (drop 4 buf))
  pub seq_max : tcp.seq < 4294967296
  pub ack : tcp.ack ≡ from_be 0 (take 4 (drop 8 buf))
  pub data_offset : tcp.data_offset ≡ from_be 0 (take 2 (drop 12 buf)) / 4096
  pub flags : tcp.flags ≡ from_be 0 (take 2 (drop 12 buf)) % 256
  pub window : tcp.window ≡ from_be 0 (take 2 (drop 14 buf))
  pub checksum : tcp.checksum ≡ from_be 0 (take 2 (drop 16 buf))
  pub urgent : tcp.urgent ≡ from_be 0 (take 2 (drop 18 buf))
  pub options : AreOptions (4 * tcp.data_offset - 20) buf tcp.options
  pub offset_min : 5 ≤ tcp.data_offset
  pub offset_max : tcp.data_offset < 16
  pub header : 4 * tcp.data_offset ≤ length buf
  pub start_is : payload.start ≡ 4 * tcp.data_offset
  pub payload_is : payload.bytes ≡ drop (4 * tcp.data_offset) buf

tcp_parser_lem :
    (r : Reader) → IsValid r → r.pos ≡ 0 → Ensures (λ x _. IsTcp r.buf x.0 x.1) (tcp_parser r)
unfolding tcp_parser
tcp_parser_lem r v z = bind _ _ _ (be_u16_lem r v) λ src r1 v1 (b1, e1, m1).
    bind _ _ _ (be_u16_lem r1 v1) λ dst r2 v2 (b2, e2, n2).
      let m2 = Moved-trans 4 m1 n2 refl in
      bind _ _ _ (be_u32_lem r2 v2) λ seq r3 v3 (b3, e3, n3).
        let m3 = Moved-trans 8 m2 n3 refl in
        bind _ _ _ (be_u32_lem r3 v3) λ ack r4 v4 (b4, e4, n4).
          let m4 = Moved-trans 12 m3 n4 refl in
          bind _ _ _ (be_u16_lem r4 v4) λ off r5 v5 (b5, e5, n5).
            let m5 = Moved-trans 14 m4 n5 refl in
            bind_same _ _ r5 v5 (fail_if_lem _ _ r5 v5) λ _ long.
              bind _ _ _ (be_u16_lem r5 v5) λ window r6 v6 (b6, e6, n6).
                let m6 = Moved-trans 16 m5 n6 refl in
                bind _ _ _ (be_u16_lem r6 v6) λ checksum r7 v7 (b7, e7, n7).
                  let m7 = Moved-trans 18 m6 n7 refl in
                  bind _ _ _ (be_u16_lem r7 v7) λ urgent r8 v8 (b8, e8, n8).
                    let m8 = Moved-trans 20 m7 n8 refl in
                    bind _ _ _ (tcp_options_lem (off / 4096 * 4 - 20) r8 r.buf v8 (rest_at m8 z))
                      λ options r9 v9 (o9, n9).
                        let enough = ltb→le (off / 4096) 5 long in
                        let m9 = Moved-trans (4 * (off / 4096)) m8 n9 (omega arith) in
                        bind _ _ _ (rest_lem r9 v9) λ payload r10 v10 (e, at, _).
                          pure_lem _ v10 (record {
                            src_port = e1 ∙ ap (λ p. from_be 0 (take 2 (drop p r.buf))) z;
                            dst_port = read_at 2 2 dst m1 (omega arith) e2;
                            seq = read_at 4 4 seq m2 (omega arith) e3;
                            seq_max = b3;
                            ack = read_at 4 8 ack m3 (omega arith) e4;
                            data_offset = ap (λ w. w / 4096) (read_at 2 12 off m4 (omega arith) e5);
                            flags = ap (λ w. w % 256) (read_at 2 12 off m4 (omega arith) e5);
                            window = read_at 2 14 window m5 (omega arith) e6;
                            checksum = read_at 2 16 checksum m6 (omega arith) e7;
                            urgent = read_at 2 18 urgent m7 (omega arith) e8;
                            options = subst (λ n. AreOptions n r.buf options) (omega arith) o9;
                            offset_min = enough;
                            offset_max = omega arith;
                            header = omega (arith, v9.within, ap length m9.buf, m9.pos);
                            start_is = omega (arith, at, m9.pos);
                            payload_is = e ∙ rest_at m9 z;
                          })

-- A TCP segment of any bytes is either refused with an error, or its header fields, its options and its
-- payload are those of its bytes; the parser never indexes out of range.
pub parse_tcp_lem : (buf : List ℕ) → AreBytes buf → Yields (λ x. IsTcp buf x.0 x.1) (parse_tcp buf)
unfolding parse_tcp new
parse_tcp_lem buf h =
    eval_lem tcp_parser _ (tcp_parser_lem _ (new-IsValid buf "tcp" h) refl) (λ _ _ _ q. q)

-- The payload of a UDP datagram ends where its length field says, if that is sane.
pub record IsUdp (buf : List ℕ) (udp : Udp) (payload : Slice) : Type 0 where
  pub src_port : udp.src_port ≡ from_be 0 (take 2 buf)
  pub dst_port : udp.dst_port ≡ from_be 0 (take 2 (drop 2 buf))
  pub checksum : udp.checksum ≡ from_be 0 (take 2 (drop 6 buf))
  pub length_is : udp.length ≡ from_be 0 (take 2 (drop 4 buf))
  pub header : 8 ≤ length buf
  pub start_is : payload.start ≡ 8
  pub sane : 8 ≤ udp.length → payload.bytes ≡ take (udp.length - 8) (drop 8 buf)
  pub insane : udp.length < 8 → payload.bytes ≡ drop 8 buf

udp_limit_lem :
    (n : ℕ) (r : Reader)
    → IsValid r
    → Ensures
        (λ _ s.
          (8 ≤ n → drop s.pos s.buf ≡ take (n - 8) (drop r.pos r.buf))
          × (n < 8 → drop s.pos s.buf ≡ drop r.pos r.buf)
          × (s.pos ≡ r.pos))
        (udp_limit n r)
unfolding udp_limit
udp_limit_lem n r v =
    on_test _ _ _ r
      (λ h.
        weaken (limit_lem (n - 8) r v)
          λ _ s _ (p, e). ((λ _. e), (λ k. absurd (omega (tests, leb→le 8 n h))), p))
      λ h. pure_lem _ v ((λ k. absurd (ground arith)), (λ _. refl), refl)

udp_parser_lem :
    (r : Reader) → IsValid r → r.pos ≡ 0 → Ensures (λ x _. IsUdp r.buf x.0 x.1) (udp_parser r)
unfolding udp_parser
udp_parser_lem r v z = bind _ _ _ (be_u16_lem r v) λ src r1 v1 (b1, e1, m1).
    bind _ _ _ (be_u16_lem r1 v1) λ dst r2 v2 (b2, e2, n2).
      let m2 = Moved-trans 4 m1 n2 refl in
      bind _ _ _ (be_u16_lem r2 v2) λ len r3 v3 (b3, e3, n3).
        let m3 = Moved-trans 6 m2 n3 refl in
        bind _ _ _ (be_u16_lem r3 v3) λ checksum r4 v4 (b4, e4, n4).
          let m4 = Moved-trans 8 m3 n4 refl in
          bind _ _ _ (udp_limit_lem len r4 v4) λ _ r5 v5 (sane, insane, same).
            bind _ _ _ (rest_lem r5 v5) λ payload r6 v6 (e, at, _). pure_lem _ v6 (record {
              src_port = e1 ∙ ap (λ p. from_be 0 (take 2 (drop p r.buf))) z;
              dst_port = read_at 2 2 dst m1 (omega arith) e2;
              checksum = read_at 2 6 checksum m3 (omega arith) e4;
              length_is = read_at 2 4 len m2 (omega arith) e3;
              header = omega (arith, v4.within, ap length m4.buf, m4.pos);
              start_is = omega (arith, at, same, m4.pos);
              sane = λ h. e ∙ sane h ∙ ap (take (len - 8)) (rest_at m4 z);
              insane = λ h. e ∙ insane h ∙ rest_at m4 z;
            })

-- A UDP datagram of any bytes is either refused with an error or read as its header says.
pub parse_udp_lem : (buf : List ℕ) → AreBytes buf → Yields (λ x. IsUdp buf x.0 x.1) (parse_udp buf)
unfolding parse_udp new
parse_udp_lem buf h =
    eval_lem udp_parser _ (udp_parser_lem _ (new-IsValid buf "udp" h) refl) (λ _ _ _ q. q)
