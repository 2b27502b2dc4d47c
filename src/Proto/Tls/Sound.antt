-- ===== src/Proto/Tls/Sound.antt =====
-- Parsing a hello message never panics, and keeps what the record says.
pub mod Extensions
use custom_built_network_ana.Base.{
  ℕ, suc, ◌+◌, ◌-◌, ◌/◌, ◌≤◌, ◌<◌, min, max, Bool, true, false, not, Option, none, some, List, [],
  ◌∷◌, ◌++◌, ◌≡◌, refl, sym, ap, ◌∙◌, arith, leb, ◌==◌, length, get_or, take, drop, subst, ==_iff,
}
use custom_built_network_ana.Bytes.{
  Reader, Parser, ◌>>=◌, pure, branch, lift, eval, new, remaining, here, attempt, peek_u8, u8,
  be_u16, be_u24, skip, sub, from_be,
}
use custom_built_network_ana.Bytes.Ensures.{
  AreBytes, IsValid, Ensures, Yields, bind, bind_same, bind_attempt, on_test, weaken, eval_lem,
  Moved, Moved-trans, pure_lem, lift_lem, new-IsValid,
}
use custom_built_network_ana.Bytes.Reads.{
  u8_lem, peek_u8_lem, be_u16_lem, be_u24_lem, skip_lem, sub_lem, here_lem, read_at, rest_at,
}
use custom_built_network_ana.Bytes.Loop.{Round, stop, more, loop, Keeps, loop_lem}
use custom_built_network_ana.Proto.{TlsHello, TlsHelloKind, client, server}
use custom_built_network_ana.Proto.Tls.{
  no_extensions, with_sni, with_alpn, unwrap_or, store, keep_extension, on_extension,
  extension_round, read_extensions, cipher_suites, hello, read_hello, handshake, record_parser,
  hello_parser, parse_strict,
}
use custom_built_network_ana.Proto.Tls.Lists.{
  is_grease, read_sni, read_alpn, read_groups, read_points, read_supported_versions,
}
use custom_built_network_ana.Proto.Tls.Lists.Known.{
  AreKnown, AreKnown-append, sub_loop_lem, read_ciphers_lem, read_sni_lem, read_alpn_lem,
  read_groups_lem, read_points_lem, read_supported_versions_lem,
}
use custom_built_network_ana.Proto.Tls.Sound.Extensions.{IsExtensions, read_extensions_lem}

-- A client offers suites, GREASE left out; a server chooses one.
abbrev pub AreSuites : TlsHelloKind → List ℕ → Type 0
AreSuites client suites = AreKnown suites
AreSuites server suites = length suites ≡ 1

cipher_suites_lem :
    (kind : TlsHelloKind) (r : Reader)
    → IsValid r
    → Ensures (λ cs _. AreSuites kind cs) (cipher_suites kind r)
unfolding cipher_suites
cipher_suites_lem client r v = bind _ _ r (be_u16_lem r v) λ n s w _.
    bind _ _ s (read_ciphers_lem n s w) λ cs s' w' (known, _).
      bind _ _ s' (u8_lem s' w')
        λ k t x _. bind _ _ t (skip_lem k t x) λ _ t' x' _. pure_lem _ x' known
cipher_suites_lem server r v =
    bind _ _ r (be_u16_lem r v)
      λ suite s w _. bind _ _ s (skip_lem 1 s w) λ _ s' w' _. pure_lem _ w' refl

-- The two bytes at an offset, most significant first.
abbrev pub u16_at : List ℕ → ℕ → ℕ
u16_at buf k = from_be 0 (take 2 (drop k buf))

abbrev pub code_of : TlsHelloKind → ℕ
code_of client = 1
code_of server = 2

-- A hello message of a record's fragment.
pub record IsHello (version : ℕ) (whole : Bool) (fragment : List ℕ) (h : TlsHello) : Type 0 where
  pub kind : get_or fragment 0 0 ≡ code_of h.kind
  pub record_version : h.record_version ≡ version
  pub complete : h.complete ≡ whole
  pub negotiated : u16_at fragment 4 ≤ h.negotiated_version
  pub suites : AreSuites h.kind h.cipher_suites
  pub extensions : AreKnown h.extensions
  pub session : h.session_id_len < 256

abbrev pub IsFound : ℕ → Bool → List ℕ → Option TlsHello → Type 0
IsFound record_version complete fragment none = Unit {0}
IsFound record_version complete fragment (some h) = IsHello record_version complete fragment h

module _ (md5 : List ℕ → List ℕ) (record_version : ℕ) (complete : Bool) where
  read_hello_lem :
      (kind : TlsHelloKind) (r s : Reader)
      → IsValid s
      → r.pos ≡ 0
      → Moved 1 r s
      → get_or r.buf 0 0 ≡ code_of kind
      → Ensures
          (λ x _. IsFound record_version complete r.buf x)
          (read_hello md5 record_version complete kind s)
  unfolding read_hello hello no_extensions
  read_hello_lem kind r s v z m1 code = bind _ _ s (be_u24_lem s v) λ len s2 v2 (_, _, n2).
      let m2 = Moved-trans 4 m1 n2 refl in
      bind _ _ s2 (be_u16_lem s2 v2) λ legacy s3 v3 (_, e3, n3).
        bind _ _ s3 (skip_lem 32 s3 v3) λ _ s4 v4 _.
          bind _ _ s4 (u8_lem s4 v4) λ id s5 v5 (small, _, _).
            bind _ _ s5 (skip_lem id s5 v5) λ _ s6 v6 _.
              bind _ _ s6 (cipher_suites_lem kind s6 v6) λ suites s7 v7 are.
                bind _ _ s7
                  (read_extensions_lem legacy kind (no_extensions legacy) s7 v7
                    (record { extensions = tt; groups = tt; version = omega arith }))
                  λ e s8 v8 i. pure_lem _ v8 (record {
                    kind = code;
                    record_version = refl;
                    complete = refl;
                    negotiated =
                        omega (arith, i.version, read_at 2 4 legacy m2 (omega (arith, z)) e3);
                    suites = are;
                    extensions = i.extensions;
                    session = small;
                  })

  handshake_lem :
      (r : Reader)
      → IsValid r
      → r.pos ≡ 0
      → Ensures
          (λ x _. IsFound record_version complete r.buf x)
          (handshake md5 record_version complete r)
  unfolding handshake
  handshake_lem r v z = bind _ _ r (u8_lem r v) λ msg_type s w (_, e, m).
      let first : msg_type ≡ get_or r.buf 0 0 = e ∙ ap (λ p. get_or r.buf p 0) z in
      on_test _ _ _ s (λ t. read_hello_lem client r s w z m (sym first ∙ (==_iff msg_type 1).0 t))
        λ _.
          on_test _ _ _ s
            (λ t. read_hello_lem server r s w z m (sym first ∙ (==_iff msg_type 2).0 t))
            λ _. pure_lem _ w tt

-- What the record carries of the handshake.
abbrev pub fragment_of : List ℕ → List ℕ
fragment_of payload = take (min (u16_at payload 3) (length payload - 5)) (drop 5 payload)

-- What is found in a record, if anything: its version, whether all of it is there, and the hello message.
abbrev pub IsFoundIn : List ℕ → Option TlsHello → Type 0
IsFoundIn payload x =
    IsFound (u16_at payload 1) (leb (u16_at payload 3) (length payload - 5)) (fragment_of payload) x

IsFound-at :
    (x : Option TlsHello) {v v' : ℕ} {c c' : Bool} {f f' : List ℕ}
    → v ≡ v'
    → c ≡ c'
    → f ≡ f'
    → IsFound v c f x
    → IsFound v' c' f' x
IsFound-at x {v'} {c} {c'} {f} a b e h =
    subst (λ z. IsFound v' c' z x) e
      (subst (λ z. IsFound v' z f x) b (subst (λ z. IsFound z c f x) a h))

module _ (md5 : List ℕ → List ℕ) where
  record_parser_lem :
      (r : Reader)
      → IsValid r
      → r.pos ≡ 0
      → Ensures (λ x _. IsFoundIn r.buf x) (record_parser md5 r)
  unfolding record_parser
  record_parser_lem r v z = bind _ _ r (skip_lem 1 r v) λ _ s1 v1 m1.
      bind _ _ s1 (be_u16_lem s1 v1) λ version s2 v2 (_, e2, n2).
        let m2 = Moved-trans 3 m1 n2 refl in
        bind _ _ s2 (be_u16_lem s2 v2) λ len s3 v3 (_, e3, n3).
          let m3 = Moved-trans 5 m2 n3 refl in
          bind_same _ _ s3 v3 (here_lem s3 v3) λ t e.
            bind _ _ s3 (sub_lem (min len (remaining t)) "tls handshake" s3 v3)
              λ d s4 v4 (vd, ed, zd, _, _).
                let first : version ≡ u16_at r.buf 1 =
                  read_at 2 1 version m1 (omega (arith, z)) e2 in
                let size : len ≡ u16_at r.buf 3 = read_at 2 3 len m2 (omega (arith, z)) e3 in
                let left : remaining t ≡ length r.buf - 5 =
                  ap remaining e ∙ omega (arith, ap length m3.buf, m3.pos, z) in
                let rest : drop s3.pos s3.buf ≡ drop 5 r.buf = rest_at m3 z in
                let fragment : d.buf ≡ fragment_of r.buf =
                  ed
                  ∙ ap (λ n. take n (drop s3.pos s3.buf)) (omega (arith, size, left))
                  ∙ ap (take (min (u16_at r.buf 3) (length r.buf - 5))) rest in
                let whole : leb len (remaining t) ≡ leb (u16_at r.buf 3) (length r.buf - 5) =
                  rw (size, left) refl in
                weaken
                  (lift_lem s4 v4 _ (
                    eval_lem (handshake md5 version (leb len (remaining t))) d
                      (handshake_lem md5 version (leb len (remaining t)) d vd zd) (λ _ _ _ q. q)))
                  λ x _ _ (q, _). IsFound-at x first whole fragment q

  hello_parser_lem :
      (r : Reader) → IsValid r → r.pos ≡ 0 → Ensures (λ x _. IsFoundIn r.buf x) (hello_parser md5 r)
  unfolding hello_parser
  hello_parser_lem r v z =
      bind_same _ _ r v (peek_u8_lem r v)
        λ b _. on_test _ _ _ r (λ _. pure_lem _ v tt) λ _. record_parser_lem r v z

  -- Parsing any bytes as a TLS record ends and never indexes out of range, for any function in the place of
  -- MD5: it is an error, no hello message, or one with the record's version, complete just if the record is
  -- all there, of the kind that the handshake's first byte says. The negotiated version is no lower than the
  -- legacy version, neither the extensions nor a client's cipher suites have a GREASE value, and a server
  -- has one suite.
  pub parse_strict-IsFoundIn :
      (payload : List ℕ) → AreBytes payload → Yields (IsFoundIn payload) (parse_strict md5 payload)
  unfolding parse_strict new
  parse_strict-IsFoundIn payload b =
      eval_lem (hello_parser md5) _ (hello_parser_lem _ (new-IsValid payload "tls record" b) refl)
        (λ _ _ _ q. q)
