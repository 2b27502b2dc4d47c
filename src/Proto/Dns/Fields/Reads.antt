-- ===== src/Proto/Dns/Fields/Reads.antt =====
-- What the fixed fields hold, and how many bytes they take.
use custom_built_network_ana.Base.{
  ℕ, ◌+◌, ◌≤◌, ◌<◌, List, ◌≡◌, refl, ap, ◌∙◌, arith, length, take, drop,
}
use custom_built_network_ana.Bytes.{Reader, from_be, new}
use custom_built_network_ana.Bytes.Ensures.{
  AreBytes, IsValid, Ensures, Yields, bind, pure_lem, eval_lem, Moved-trans, new-IsValid,
}
use custom_built_network_ana.Bytes.Reads.{be_u16_lem, be_u32_lem, take_bytes_lem, read_at}
use custom_built_network_ana.Proto.Dns.Fields.{
  Header, RecordFields, header_parser, question_parser, record_parser, read_header, read_question,
  read_fields,
}

-- The two bytes at an offset, most significant first.
abbrev pub u16_at : List ℕ → ℕ → ℕ
u16_at buf k = from_be 0 (take 2 (drop k buf))

pub record IsHeader (buf : List ℕ) (h : Header) : Type 0 where
  pub transaction_id : h.transaction_id ≡ u16_at buf 0
  pub flags : h.flags ≡ u16_at buf 2
  pub qdcount : h.qdcount ≡ u16_at buf 4
  pub ancount : h.ancount ≡ u16_at buf 6
  pub nscount : h.nscount ≡ u16_at buf 8
  pub arcount : h.arcount ≡ u16_at buf 10
  pub whole : 12 ≤ length buf
  pub small : h.flags < 65536

header_parser_lem :
    (r : Reader) → IsValid r → r.pos ≡ 0 → Ensures (λ h _. IsHeader r.buf h) (header_parser r)
unfolding header_parser
header_parser_lem r v z = bind _ _ _ (be_u16_lem r v) λ a r1 v1 (_, e1, m1).
    bind _ _ _ (be_u16_lem r1 v1) λ b r2 v2 (p2, e2, n2).
      let m2 = Moved-trans 4 m1 n2 refl in
      bind _ _ _ (be_u16_lem r2 v2) λ c r3 v3 (_, e3, n3).
        let m3 = Moved-trans 6 m2 n3 refl in
        bind _ _ _ (be_u16_lem r3 v3) λ d r4 v4 (_, e4, n4).
          let m4 = Moved-trans 8 m3 n4 refl in
          bind _ _ _ (be_u16_lem r4 v4) λ e r5 v5 (_, e5, n5).
            let m5 = Moved-trans 10 m4 n5 refl in
            bind _ _ _ (be_u16_lem r5 v5) λ f r6 v6 (_, e6, n6).
              let m6 = Moved-trans 12 m5 n6 refl in
              pure_lem _ v6 (record {
                transaction_id = e1 ∙ ap (λ p. from_be 0 (take 2 (drop p r.buf))) z;
                flags = read_at 2 2 b m1 (omega (arith, z)) e2;
                qdcount = read_at 2 4 c m2 (omega (arith, z)) e3;
                ancount = read_at 2 6 d m3 (omega (arith, z)) e4;
                nscount = read_at 2 8 e m4 (omega (arith, z)) e5;
                arcount = read_at 2 10 f m5 (omega (arith, z)) e6;
                whole = omega (arith, v6.within, ap length m6.buf, m6.pos, z);
                small = p2;
              })

pub read_header_lem : (buf : List ℕ) → AreBytes buf → Yields (IsHeader buf) (read_header buf)
unfolding read_header new
read_header_lem buf h =
    eval_lem header_parser _ (header_parser_lem _ (new-IsValid buf "dns" h) refl) (λ _ _ _ q. q)

question_parser_lem :
    (r : Reader) → IsValid r → r.pos ≡ 0 → Ensures (λ _ _. 4 ≤ length r.buf) (question_parser r)
unfolding question_parser
question_parser_lem r v z = bind _ _ _ (be_u16_lem r v) λ a r1 v1 (_, e1, m1).
    bind _ _ _ (be_u16_lem r1 v1) λ b r2 v2 (_, e2, n2).
      let m2 = Moved-trans 4 m1 n2 refl in
      pure_lem _ v2 (omega (arith, v2.within, ap length m2.buf, m2.pos, z))

pub read_question_lem :
    (buf : List ℕ) → AreBytes buf → Yields (λ _. 4 ≤ length buf) (read_question buf)
unfolding read_question new
read_question_lem buf h =
    eval_lem question_parser _ (question_parser_lem _ (new-IsValid buf "dns question" h) refl)
      (λ _ _ _ q. q)

abbrev IsFields : List ℕ → RecordFields → Type 0
IsFields buf f = (10 + length f.rdata ≤ length buf) × AreBytes f.rdata

record_parser_lem :
    (r : Reader) → IsValid r → r.pos ≡ 0 → Ensures (λ f _. IsFields r.buf f) (record_parser r)
unfolding record_parser
record_parser_lem r v z = bind _ _ _ (be_u16_lem r v) λ a r1 v1 (_, e1, m1).
    bind _ _ _ (be_u16_lem r1 v1) λ b r2 v2 (_, e2, n2).
      let m2 = Moved-trans 4 m1 n2 refl in
      bind _ _ _ (be_u32_lem r2 v2) λ c r3 v3 (_, e3, n3).
        let m3 = Moved-trans 8 m2 n3 refl in
        bind _ _ _ (be_u16_lem r3 v3) λ d r4 v4 (_, e4, n4).
          let m4 = Moved-trans 10 m3 n4 refl in
          bind _ _ _ (take_bytes_lem d r4 v4) λ bs r5 v5 (len, e5, h, n5).
            let m5 = Moved-trans (10 + d) m4 n5 refl in
            pure_lem _ v5 (omega (arith, v5.within, ap length m5.buf, m5.pos, z, len), h)

pub read_fields_lem :
    (buf : List ℕ)
    → AreBytes buf
    → Yields
        (λ (f : RecordFields). (10 + length f.rdata ≤ length buf) × AreBytes f.rdata)
        (read_fields buf)
unfolding read_fields new
read_fields_lem buf h =
    eval_lem record_parser _ (record_parser_lem _ (new-IsValid buf "dns record" h) refl)
      (λ _ _ _ q. q)
