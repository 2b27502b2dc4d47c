-- ===== src/Capture/File/Sound/Block.antt =====
-- The blocks of a pcapng section are read without a panic.
use custom_built_network_ana.Base.{
  ℕ, zero, suc, ◌+◌, ◌*◌, ◌/◌, ◌≤◌, ◌<◌, Bool, ◌&&◌, List, [], ◌∷◌, ◌++◌, ◌≡◌, refl, arith, ltb,
  leb, ◌==◌, length, on_if, subst,
}
use custom_built_network_ana.Bytes.{index, slice}
use custom_built_network_ana.Bytes.Ensures.{AreBytes}
use custom_built_network_ana.Capture.{
  max_packet_bytes, RawPacket, raw_packet, Result, success, failure, timestamp,
}
use custom_built_network_ana.Outcomes.Gives.{
  Gives, gives, then-Gives, index-Gives, slice-Gives, if_Gives,
}
use custom_built_network_ana.Capture.File.Blocks.{
  Interface, u32_from, u16_from, u32_at, u16_at, resolution_of, OptionRound, leave, go_on,
  next_option, option_value, option_round, after_option, options, parse_idb, resolution_at,
  epb_packet, epb_body, parse_epb,
}

abbrev Any {ℓ} : {A : Type ℓ} → A → Type 0
Any a = Unit {0}

u32_from-Gives : (big_endian : Bool) (b : List ℕ) → length b ≡ 4 → Gives Any (u32_from big_endian b)
unfolding u32_from
u32_from-Gives big_endian b e =
    then-Gives _ (index b 0) _ (index-Gives b 0 (omega (arith, e))) λ _ _.
      then-Gives _ (index b 1) _ (index-Gives b 1 (omega (arith, e))) λ _ _.
        then-Gives _ (index b 2) _ (index-Gives b 2 (omega (arith, e)))
          λ _ _. then-Gives _ (index b 3) _ (index-Gives b 3 (omega (arith, e))) λ _ _. gives tt

u16_from-Gives : (big_endian : Bool) (b : List ℕ) → length b ≡ 2 → Gives Any (u16_from big_endian b)
unfolding u16_from
u16_from-Gives big_endian b e =
    then-Gives _ (index b 0) _ (index-Gives b 0 (omega (arith, e)))
      λ _ _. then-Gives _ (index b 1) _ (index-Gives b 1 (omega (arith, e))) λ _ _. gives tt

pub u32_at-Gives :
    (big_endian : Bool) (body : List ℕ) (o : ℕ)
    → o + 4 ≤ length body
    → Gives Any (u32_at big_endian body o)
unfolding u32_at
u32_at-Gives big_endian body o h =
    then-Gives _ (slice body o (o + 4)) _ (slice-Gives body o (o + 4) (omega arith) h)
      λ b (e, _). u32_from-Gives big_endian b (omega (arith, e))

u16_at-Gives :
    (big_endian : Bool) (body : List ℕ) (o : ℕ)
    → o + 2 ≤ length body
    → Gives Any (u16_at big_endian body o)
unfolding u16_at
u16_at-Gives big_endian body o h =
    then-Gives _ (slice body o (o + 2)) _ (slice-Gives body o (o + 2) (omega arith) h)
      λ b (e, _). u16_from-Gives big_endian b (omega (arith, e))

-- A round that goes on began inside the body, and goes on behind where it began.
abbrev Moves : List ℕ → ℕ → OptionRound → Type 0
Moves body off (leave resolution) = Unit {0}
Moves body off (go_on next resolution) = (off < length body) × (off < next)

next_option-Moves :
    (body : List ℕ) (code len off resolution : ℕ)
    → off < length body
    → Moves body off (next_option code len off resolution)
next_option-Moves body code len off resolution h =
    on_if (Moves body off) (code == 0) (leave resolution)
      (go_on (off + 4 + (len + 3) / 4 * 4) resolution) (λ _. tt) λ _. (h, omega arith)

option_value-Gives :
    (body : List ℕ) (off code len resolution : ℕ)
    → off + 4 + len ≤ length body
    → Gives (Moves body off) (option_value body off code len resolution)
unfolding option_value
option_value-Gives body off code len resolution h =
    if_Gives ((code == 9) && (len == 1)) _ _
      (λ t.
        let one : len ≡ 1 = ground (arith, t) in
        then-Gives _ (index body (off + 4)) _ (index-Gives body (off + 4) (omega (arith, one, h)))
          λ byte _.
            gives (next_option-Moves body code len off (resolution_of byte) (omega (arith, h))))
      λ _. gives (next_option-Moves body code len off resolution (omega (arith, h)))

option_round-Gives :
    (big_endian : Bool) (body : List ℕ) (off resolution : ℕ)
    → Gives (Moves body off) (option_round big_endian body off resolution)
unfolding option_round
option_round-Gives big_endian body off resolution =
    if_Gives (leb (off + 4) (length body)) _ _
      (λ t.
        let room : off + 4 ≤ length body = ground (arith, t) in
        then-Gives _ (u16_at big_endian body off) _
          (u16_at-Gives big_endian body off (omega (arith, room)))
          λ code _.
            then-Gives _ (u16_at big_endian body (off + 2)) _
              (u16_at-Gives big_endian body (off + 2) (omega (arith, room)))
              λ len _.
                if_Gives (ltb (length body) (off + 4 + len)) _ _ (λ _. gives tt)
                  λ u. option_value-Gives body off code len resolution (ground (arith, u)))
      λ _. gives tt

after_option-Gives :
    (n : ℕ) (big_endian : Bool) (body : List ℕ) (off : ℕ) (r : OptionRound)
    → length body < suc n + off
    → Moves body off r
    → ((next resolution : ℕ)
        → 0 < n
        → length body < n + next
        → Gives Any (options n big_endian body next resolution))
    → Gives Any (after_option (options n big_endian body) r)
unfolding after_option
after_option-Gives n big_endian body off (leave resolution) h m k = gives tt
after_option-Gives n big_endian body off (go_on next resolution) h (p, q) k =
    k next resolution (omega arith) (omega arith)

options-Gives :
    (n : ℕ) (big_endian : Bool) (body : List ℕ) (off resolution : ℕ)
    → 0 < n
    → length body < n + off
    → Gives Any (options n big_endian body off resolution)
unfolding options
options-Gives zero big_endian body off resolution h k = absurd (omega arith)
options-Gives (suc n) big_endian body off resolution h k =
    then-Gives _ (option_round big_endian body off resolution) _
      (option_round-Gives big_endian body off resolution)
      λ r m. after_option-Gives n big_endian body off r k m (options-Gives n big_endian body)

-- A section's interface has a resolution that can divide.
abbrev pub HasResolution : Result Interface → Type 0
HasResolution (success iface) = 0 < iface.ts_resolution
HasResolution (failure e) = Unit {0}

pub parse_idb-Gives :
    (big_endian : Bool) (body : List ℕ) → Gives HasResolution (parse_idb big_endian body)
unfolding parse_idb
parse_idb-Gives big_endian body =
    if_Gives (ltb (length body) 8) _ _ (λ _. gives tt)
      λ t.
        let room : 8 ≤ length body = ground (arith, t) in
        then-Gives _ (u16_at big_endian body 0) _
          (u16_at-Gives big_endian body 0 (omega (arith, room)))
          λ link _.
            then-Gives _ (options (suc (length body)) big_endian body 8 1000000) _
              (options-Gives (suc (length body)) big_endian body 8 1000000 (omega arith)
                (omega arith))
              λ resolution _. gives (ground arith)

-- Every interface has.
abbrev pub HaveResolution : List Interface → Type 0
HaveResolution [] = Unit {0}
HaveResolution (i ∷ is) = (0 < i.ts_resolution) × HaveResolution is

resolution_at_lem : (is : List Interface) (id : ℕ) → HaveResolution is → 0 < resolution_at is id
unfolding resolution_at
resolution_at_lem [] id h = omega arith
resolution_at_lem (i ∷ is) zero (p, q) = p
resolution_at_lem (i ∷ is) (suc id) (p, q) = resolution_at_lem is id q

pub HaveResolution-append :
    (is : List Interface) (i : Interface)
    → HaveResolution is
    → 0 < i.ts_resolution
    → HaveResolution (is ++ i ∷ [])
HaveResolution-append [] i h p = (p, tt)
HaveResolution-append (j ∷ is) i (q, h) p = (q, HaveResolution-append is i h p)

-- A packet counts the bytes that it holds, no more of them than were on the wire or than a block has.
pub record IsPacket (index : ℕ) (p : RawPacket) : Type 0 where
  pub counted : p.meta.index ≡ index
  pub captured : p.meta.captured_len ≡ length p.bytes
  pub on_wire : length p.bytes ≤ p.meta.wire_len
  pub limit : length p.bytes ≤ 16777200
  pub all_bytes : AreBytes p.bytes
  pub nanos : p.meta.timestamp.nanos < 1000000000

abbrev pub IsResult : ℕ → Result RawPacket → Type 0
IsResult index (success p) = IsPacket index p
IsResult index (failure e) = Unit {0}

epb_packet-Gives :
    (resolution ticks index wire_len : ℕ) (bytes : List ℕ)
    → 0 < resolution
    → length bytes ≤ max_packet_bytes
    → AreBytes bytes
    → Gives (IsResult index) (epb_packet resolution ticks index wire_len (length bytes) bytes)
unfolding epb_packet timestamp raw_packet
epb_packet-Gives resolution ticks index wire_len bytes h k b =
    if_Gives (resolution == 0) _ _ (λ t. absurd (ground arith))
      λ _. gives (record {
        counted = refl;
        captured = refl;
        on_wire = omega arith;
        limit = omega (arith, k);
        all_bytes = b;
        nanos = omega arith;
      })

epb_body-Gives :
    (is : List Interface) (index : ℕ) (body : List ℕ) (id high low cap_len wire_len : ℕ)
    → HaveResolution is
    → AreBytes body
    → Gives (IsResult index) (epb_body is index body id high low cap_len wire_len)
unfolding epb_body
epb_body-Gives is index body id high low cap_len wire_len h b =
    if_Gives (ltb max_packet_bytes cap_len) _ _ (λ _. gives tt)
      λ t.
        if_Gives (ltb (length body) (20 + cap_len)) _ _ (λ _. gives tt)
          λ u.
            then-Gives _ (slice body 20 (20 + cap_len)) _
              (slice-Gives body 20 (20 + cap_len) (omega arith) (ground (arith, u)))
              λ bytes (e, m).
                let len : cap_len ≡ length bytes = omega (arith, e) in
                rw len (
                  epb_packet-Gives (resolution_at is id) (high * 4294967296 + low) index wire_len
                    bytes (resolution_at_lem is id h) (ground (arith, t, len)) (m b))

-- The index that an enhanced packet block leaves is that of its packet.
abbrev pub IsParsed : ℕ → Result RawPacket × ℕ → Type 0
IsParsed index (failure e, next) = next ≤ suc index
IsParsed index (success p, next) = IsPacket (suc index) p × (next ≡ suc index)

IsParsed-made :
    (index : ℕ) (r : Result RawPacket) → IsResult (index + 1) r → IsParsed index (r, index + 1)
IsParsed-made index (success p) h = (subst (λ i. IsPacket i p) (omega arith) h, omega arith)
IsParsed-made index (failure e) h = omega arith

pub parse_epb-Gives :
    (big_endian : Bool) (is : List Interface) (index : ℕ) (body : List ℕ)
    → HaveResolution is
    → AreBytes body
    → Gives (IsParsed index) (parse_epb big_endian is index body)
unfolding parse_epb
parse_epb-Gives big_endian is index body h b =
    if_Gives (ltb (length body) 20) _ _ (λ _. gives (omega arith))
      λ t.
        let room : 20 ≤ length body = ground (arith, t) in
        then-Gives _ (u32_at big_endian body 0) _
          (u32_at-Gives big_endian body 0 (omega (arith, room)))
          λ id _.
            then-Gives _ (u32_at big_endian body 4) _
              (u32_at-Gives big_endian body 4 (omega (arith, room)))
              λ high _.
                then-Gives _ (u32_at big_endian body 8) _
                  (u32_at-Gives big_endian body 8 (omega (arith, room)))
                  λ low _.
                    then-Gives _ (u32_at big_endian body 12) _
                      (u32_at-Gives big_endian body 12 (omega (arith, room)))
                      λ cap_len _.
                        then-Gives _ (u32_at big_endian body 16) _
                          (u32_at-Gives big_endian body 16 (omega (arith, room)))
                          λ wire_len _.
                            then-Gives _ (epb_body is (index + 1) body id high low cap_len wire_len)
                              _
                              (epb_body-Gives is (index + 1) body id high low cap_len wire_len h b)
                              λ r e. gives (IsParsed-made index r e)
