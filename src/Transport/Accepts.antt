-- ===== src/Transport/Accepts.antt =====
-- crates/cbna-core/src/transport.rs, `parse_udp`: which datagrams it accepts.
use custom_built_network_ana.Base.{
  ℕ, ◌+◌, ◌-◌, ◌≤◌, List, ◌≡◌, refl, ◌∙◌, arith, leb, length, take, drop, min, le→leb, length-take,
  on_if,
}
use custom_built_network_ana.Error.{Outcome, ok}
use custom_built_network_ana.Bytes.{
  Slice, Reader, Parser, pure, branch, limit, rest, eval, new, advance, array, from_be, be_u16,
  peek_rest, lift, slice, here, move, remaining,
}
use custom_built_network_ana.Bytes.Ensures.{Yields-ok, AreBytes, IsValid, new-IsValid}
use custom_built_network_ana.Bytes.Exact.{then_ok, take_bytes_enough}
use custom_built_network_ana.Transport.{Udp, udp_limit, udp_parser, parse_udp}
use custom_built_network_ana.Transport.Headers.{IsUdp, parse_udp_lem}

be_u16_enough :
    (r : Reader)
    → IsValid r
    → 2 ≤ remaining r
    → (x : ℕ) × (be_u16 r ≡ ok (x, advance 2 r)) × IsValid (advance 2 r)
unfolding be_u16 pure array
be_u16_enough r v h = (
  _,
  then_ok (array 2) (λ b. pure (from_be 0 b)) (take_bytes_enough 2 r v h),
  record { within = omega (arith, v.within); bytes = v.bytes },
)

peek_rest_enough :
    (r : Reader)
    → r.pos ≤ length r.buf
    → peek_rest r ≡ ok (take (length r.buf - r.pos) (drop r.pos r.buf), r)
unfolding peek_rest slice lift
peek_rest_enough r h =
    rw (le→leb r.pos (length r.buf) h, le→leb (length r.buf) (length r.buf) (omega arith)) refl

rest_enough :
    (r : Reader) → r.pos ≤ length r.buf → (a : Slice) × (s : Reader) × (rest r ≡ ok (a, s))
unfolding rest here move pure
rest_enough r h = (
  _,
  _,
  then_ok peek_rest _ (peek_rest_enough r h)
      ∙ then_ok here _ refl
      ∙ then_ok (move (remaining r)) _ refl,
)

udp_limit_enough :
    (n : ℕ) (r : Reader)
    → r.pos ≤ length r.buf
    → (s : Reader) × (udp_limit n r ≡ ok (tt, s)) × (s.pos ≤ length s.buf)
unfolding udp_limit branch limit pure
udp_limit_enough n r h =
    on_if
      (λ (o : Outcome (Unit {0} × Reader)).
        (s : Reader) × (o ≡ ok (tt, s)) × (s.pos ≤ length s.buf))
      (leb 8 n) _ _
      (λ _. (_, refl, omega (arith, length-take (min (r.pos + (n - 8)) (length r.buf)) r.buf)))
      λ _. (r, refl, h)

udp_parser_enough :
    (r : Reader)
    → IsValid r
    → 8 ≤ remaining r
    → (a : Udp × Slice) × (s : Reader) × (udp_parser r ≡ ok (a, s))
unfolding udp_parser pure
udp_parser_enough r v h =
    let (a, e1, v1) = be_u16_enough r v (omega arith) in
    let (b, e2, v2) = be_u16_enough (advance 2 r) v1 (omega arith) in
    let (n, e3, v3) = be_u16_enough (advance 2 (advance 2 r)) v2 (omega arith) in
    let (c, e4, v4) = be_u16_enough (advance 2 (advance 2 (advance 2 r))) v3 (omega arith) in
    let (s, e5, w) =
      udp_limit_enough n (advance 2 (advance 2 (advance 2 (advance 2 r)))) v4.within in
    let (body, t, e6) = rest_enough s w in
    (
      _,
      t,
      then_ok be_u16 _ e1
          ∙ then_ok be_u16 _ e2
          ∙ then_ok be_u16 _ e3
          ∙ then_ok be_u16 _ e4
          ∙ then_ok (udp_limit n) _ e5
          ∙ then_ok rest _ e6,
    )

eval_ok :
    (p : Parser (Udp × Slice)) (r : Reader)
    → (a : Udp × Slice) × (s : Reader) × (p r ≡ ok (a, s))
    → (a : Udp × Slice) × (eval p r ≡ ok a)
unfolding eval
eval_ok p r (a, s, e) = (a, rw (e, eval) refl)

-- A datagram of 8 bytes or more is accepted, whatever its length field says, and it is read as its
-- header says.
pub parse_udp-accepts :
    (buf : List ℕ)
    → AreBytes buf
    → 8 ≤ length buf
    → (x : Udp × Slice) × (parse_udp buf ≡ ok x) × IsUdp buf x.0 x.1
unfolding parse_udp new
parse_udp-accepts buf v h =
    let (x, e) =
      eval_ok udp_parser _
        (udp_parser_enough (new buf "udp") (new-IsValid buf "udp" v) (omega arith)) in
    (x, e, Yields-ok (parse_udp_lem buf v) e)
