-- ===== src/Net/ExtensionWalk.antt =====
-- The walk over the IPv6 extension headers of crates/cbna-core/src/net.rs follows their chain.
use custom_built_network_ana.Base.{
  ℕ, zero, suc, ◌+◌, ◌-◌, ◌*◌, ◌/◌, ◌%◌, ◌≤◌, ◌<◌, Bool, true, false, ◌||◌, ◌==◌, subst, get_or,
  List, ◌≡◌, refl, sym, ap, ◌∙◌, arith, take, drop, ltb, if◌then◌else◌,
}
use custom_built_network_ana.Bytes.{Reader, from_be, pure}
use custom_built_network_ana.Bytes.Ensures.{
  IsValid, Ensures, bind, on_test, weaken, Moved, Moved-trans, pure_lem,
}
use custom_built_network_ana.Bytes.Reads.{
  u8_lem, be_u16_lem, be_u32_lem, skip_lem, read_at, byte_at,
}
use custom_built_network_ana.Net.Flags.{any_set_0}
use custom_built_network_ana.Net.ExtensionChain.{
  IsOptions, IsExtension, passed, fragment_at, Chain, no_rounds, transport, options, authentication,
  first_fragment, later_fragment,
}
use custom_built_network_ana.Net.{
  any_set, Extensions, Walk, stop, more, option_header, fragment_header, authentication_header,
  extension_step, walk_on, walk_extensions,
}

-- A datagram that is not fragmented has no fragment fields; an offset is a multiple of 8 in 16 bits.
pub record IsSound (x : Extensions) : Type 0 where
  pub whole :
      x.fragmented ≡ false
      → (x.fragment_offset ≡ 0) × (x.identification ≡ 0) × (x.more_fragments ≡ false)
  pub offset_max : x.fragment_offset < 65536
  pub offset_unit : x.fragment_offset % 8 ≡ 0

-- At most `rounds` headers were walked, of 8 bytes each at least.
pub record Walked (rounds : ℕ) (x : Extensions) (r : Reader) (y : Extensions) (s : Reader)
    : Type 0 where
  pub buf : s.buf ≡ r.buf
  pub more : x.extension_headers ≤ y.extension_headers
  pub most : y.extension_headers ≤ x.extension_headers + rounds
  pub size : r.pos + 8 * (y.extension_headers - x.extension_headers) ≤ s.pos
  pub sound : IsSound y

abbrev Round : Extensions → Reader → Walk → Reader → Type 0
Round x r (stop y) s = Walked 1 x r y s × ((n : ℕ) → Chain r.buf (suc n) x r.pos y s.pos)
Round x r (more y) s =
    Walked 1 x r y s
    × ((n : ℕ) (z : Extensions) (end : ℕ)
        → Chain r.buf n y s.pos z end
        → Chain r.buf (suc n) x r.pos z end)

-- A header that changes no fragment field.
next_lem :
    (x : Extensions) (nh n : ℕ) (r s : Reader)
    → IsValid s
    → IsSound x
    → Moved n r s
    → 8 ≤ n
    → nh ≡ get_or r.buf r.pos 0
    → ((k : ℕ) (z : Extensions) (end : ℕ)
        → Chain r.buf k (passed r.buf r.pos x) (r.pos + n) z end
        → Chain r.buf (suc k) x r.pos z end)
    → Ensures
        (Round x r)
        (pure (more (record x { next_header = nh; extension_headers = x.extension_headers + 1 })) s)
next_lem x nh n r s w h m k e step = pure_lem _ w (
  record {
    buf = m.buf;
    more = omega arith;
    most = omega arith;
    size = omega (arith, m.pos);
    sound = record { whole = h.whole; offset_max = h.offset_max; offset_unit = h.offset_unit };
  },
  λ j z end c. step j z end (
      subst (λ p. Chain r.buf j (passed r.buf r.pos x) p z end) m.pos
        (subst
          (λ b.
            Chain r.buf j
              (record x { next_header = b; extension_headers = x.extension_headers + 1 }) s.pos z
              end)
          e c)),
)

IsOptions-kind : (k : ℕ) → (k == 0 || k == 43 || k == 60) ≡ true → IsOptions k
IsOptions-kind k h = ground arith

other_kind :
    (k : ℕ)
    → (k == 0 || k == 43 || k == 60) ≡ false
    → (k == 44) ≡ false
    → (k == 51) ≡ false
    → ¬ IsExtension k
other_kind k h p q = ground arith

module _ (x : Extensions) (r : Reader) (v : IsValid r) (h : IsSound x) where
  option_header_lem : IsOptions x.next_header → Ensures (Round x r) (option_header x r)
  unfolding option_header
  option_header_lem kind = bind _ _ _ (u8_lem r v) λ nh r1 v1 (_, e1, m1).
      bind _ _ _ (u8_lem r1 v1) λ len r2 v2 (_, e2, n2).
        let m2 = Moved-trans 2 m1 n2 refl in
        let second : len ≡ get_or r.buf (r.pos + 1) 0 = byte_at (r.pos + 1) len m1 refl e2 in
        bind _ _ _ (skip_lem (6 + len * 8) r2 v2) λ _ r3 v3 n3.
          next_lem x nh (8 + len * 8) r r3 v3 h (Moved-trans (8 + len * 8) m2 n3 (omega arith))
            (omega arith) e1
            λ j z end c.
              options kind (
                subst (λ p. Chain r.buf j (passed r.buf r.pos x) p z end) (omega (arith, second)) c)

  authentication_header_lem : x.next_header ≡ 51 → Ensures (Round x r) (authentication_header x r)
  unfolding authentication_header
  authentication_header_lem kind = bind _ _ _ (u8_lem r v) λ nh r1 v1 (_, e1, m1).
      bind _ _ _ (u8_lem r1 v1) λ len r2 v2 (_, e2, n2).
        let m2 = Moved-trans 2 m1 n2 refl in
        let second : len ≡ get_or r.buf (r.pos + 1) 0 = byte_at (r.pos + 1) len m1 refl e2 in
        bind _ _ _ (skip_lem (len * 4 + 6) r2 v2) λ _ r3 v3 n3.
          next_lem x nh (8 + len * 4) r r3 v3 h (Moved-trans (8 + len * 4) m2 n3 (omega arith))
            (omega arith) e1
            λ j z end c.
              authentication kind (
                subst (λ p. Chain r.buf j (passed r.buf r.pos x) p z end) (omega (arith, second)) c)

  -- The variables that a fragment header gives, from its three fields.
  abbrev fragment : ℕ → ℕ → ℕ → Extensions
  fragment nh off id = record {
    next_header = nh;
    extension_headers = x.extension_headers + 1;
    fragmented = true;
    fragment_offset = off / 8 * 8;
    identification = id;
    more_fragments = any_set off 0x0001;
  }

  fragment_same :
      (nh off id : ℕ)
      → nh ≡ get_or r.buf r.pos 0
      → off < 65536
      → off ≡ from_be 0 (take 2 (drop (r.pos + 2) r.buf))
      → id ≡ from_be 0 (take 4 (drop (r.pos + 4) r.buf))
      → fragment nh off id ≡ fragment_at r.buf r.pos x
  fragment_same nh off id e h e' e'' =
      ap (λ b. fragment b off id) e
      ∙ ap (λ (m : Bool). record (fragment (get_or r.buf r.pos 0) off id) { more_fragments = m })
          (any_set_0 off h)
      ∙ ap (λ w. parts w id) e'
      ∙ ap (parts (from_be 0 (take 2 (drop (r.pos + 2) r.buf)))) e''
    where
      parts : ℕ → ℕ → Extensions
      parts w id = record {
        next_header = get_or r.buf r.pos 0;
        extension_headers = x.extension_headers + 1;
        fragmented = true;
        fragment_offset = w / 8 * 8;
        identification = id;
        more_fragments = w % 2 == 1;
      }

  either :
      (b : Bool) (off : ℕ) (y : Extensions) (s : Reader)
      → x.next_header ≡ 44
      → b ≡ ltb 0 (off / 8 * 8)
      → off ≡ from_be 0 (take 2 (drop (r.pos + 2) r.buf))
      → y ≡ fragment_at r.buf r.pos x
      → s.pos ≡ r.pos + 8
      → Walked 1 x r y s
      → Round x r (if b then stop y else more y) s
  either true off y s kind t e same at w = (
    w,
    λ n.
        subst (λ p. Chain r.buf (suc n) x r.pos y p) (sym at)
          (subst (λ z. Chain r.buf (suc n) x r.pos z (r.pos + 8)) (sym same)
            (later_fragment kind (later off _ (sym t) e))),
  )
    where
      later : (off k : ℕ) → ltb 0 (off / 8 * 8) ≡ true → off ≡ k → 1 ≤ k / 8
      later off k t e = ground (arith, t, e)
  either false off y s kind t e same at w = (
    w,
    λ n z end c. first_fragment kind (first off _ (sym t) e) (
        subst (λ p. Chain r.buf n (fragment_at r.buf r.pos x) p z end) at
          (subst (λ u. Chain r.buf n u s.pos z end) same c)),
  )
    where
      first : (off k : ℕ) → ltb 0 (off / 8 * 8) ≡ false → off ≡ k → k / 8 ≡ 0
      first off k t e = ground (arith, t, e)

  fragment_header_lem : x.next_header ≡ 44 → Ensures (Round x r) (fragment_header x r)
  unfolding fragment_header
  fragment_header_lem kind = bind _ _ _ (u8_lem r v) λ nh r1 v1 (_, e1, m1).
      bind _ _ _ (skip_lem 1 r1 v1) λ _ r2 v2 n2.
        let m2 = Moved-trans 2 m1 n2 refl in
        bind _ _ _ (be_u16_lem r2 v2) λ off r3 v3 (b3, e3, n3).
          let m3 = Moved-trans 4 m2 n3 refl in
          bind _ _ _ (be_u32_lem r3 v3) λ id r4 v4 (_, e4, n4).
            let m4 = Moved-trans 8 m3 n4 refl in
            let word = read_at 2 (r.pos + 2) off m2 refl e3 in
            pure_lem _ v4 (
              either _ off _ r4 kind refl word
                (fragment_same nh off id e1 b3 word (read_at 4 (r.pos + 4) id m3 refl e4)) m4.pos
                (record {
                  buf = m4.buf;
                  more = omega arith;
                  most = omega arith;
                  size = omega (arith, m4.pos);
                  sound = record {
                    whole = λ k. absurd (cc);
                    offset_max = omega arith;
                    offset_unit = omega arith;
                  };
                }))

  extension_step_lem : Ensures (Round x r) (extension_step x r)
  unfolding extension_step
  extension_step_lem =
      on_test _ _ _ r (λ t. option_header_lem (IsOptions-kind x.next_header t))
        λ no_options.
          on_test _ _ _ r (λ t. fragment_header_lem (ground arith))
            λ no_fragment.
              on_test _ _ _ r (λ t. authentication_header_lem (ground arith))
                λ no_ah. pure_lem _ v (
                  record {
                    buf = refl;
                    more = omega arith;
                    most = omega arith;
                    size = omega arith;
                    sound = h;
                  },
                  λ n. transport (other_kind x.next_header no_options no_fragment no_ah),
                )

-- What `rounds` rounds of the walk come to.
abbrev pub Walks : ℕ → Extensions → Reader → Extensions → Reader → Type 0
Walks rounds x r y s = Walked rounds x r y s × Chain r.buf rounds x r.pos y s.pos

walk_on_lem :
    (rounds : ℕ) (x : Extensions) (r : Reader) (w : Walk) (s : Reader)
    → IsValid s
    → Round x r w s
    → ((y : Extensions) → IsSound y → Ensures (Walks rounds y s) (walk_extensions rounds y s))
    → Ensures (Walks (suc rounds) x r) (walk_on (walk_extensions rounds) w s)
unfolding walk_on
walk_on_lem rounds x r (stop y) s v (a, ends) ih = pure_lem _ v (
  record {
    buf = a.buf;
    more = a.more;
    most = omega (arith, a.most);
    size = a.size;
    sound = a.sound;
  },
  ends rounds,
)
walk_on_lem rounds x r (more y) s v (a, step) ih = weaken (ih y a.sound) λ z t _ (b, c). (
  record {
    buf = b.buf ∙ a.buf;
    more = omega (arith, a.more, b.more);
    most = omega (arith, a.most, b.most);
    size = omega (arith, a.size, b.size, a.more, b.more);
    sound = b.sound;
  },
  step rounds z t.pos (subst (λ (buf : List ℕ). Chain buf rounds y s.pos z t.pos) a.buf c),
)

pub walk_extensions_lem :
    (rounds : ℕ) (x : Extensions) (r : Reader)
    → IsValid r
    → IsSound x
    → Ensures (Walks rounds x r) (walk_extensions rounds x r)
unfolding walk_extensions
walk_extensions_lem zero x r v h = pure_lem _ v (
  record { buf = refl; more = omega arith; most = omega arith; size = omega arith; sound = h },
  no_rounds,
)
walk_extensions_lem (suc rounds) x r v h =
    bind _ _ _ (extension_step_lem x r v h)
      λ w s u a. walk_on_lem rounds x r w s u a (λ y k. walk_extensions_lem rounds y s u k)
