-- ===== src/Capture/File/Blocks.antt =====
-- crates/cbna-capture/src/file.rs: the blocks of a pcapng section. A slice of a block's body out of range,
-- and a loop out of rounds, is a panic.
use custom_built_network_ana.Base.{
  ℕ, zero, suc, ◌+◌, ◌-◌, ◌*◌, ◌/◌, ◌%◌, ◌^◌, min, max, bit_and, ℤ, pos, negsuc, Bool, not, ◌&&◌,
  List, [], ◌∷◌, ltb, leb, ◌==◌, if◌then◌else◌, length,
}
use custom_built_network_ana.Error.{Outcome, ok, panic, ◌>>=◌}
use custom_built_network_ana.Bytes.{index, slice}
use custom_built_network_ana.Packet.{LinkType, from_u32}
use custom_built_network_ana.Capture.{
  malformed, implausible_length, max_packet_bytes, RawPacket, raw_packet, timestamp, Result,
  success, failure, from_bytes,
}

-- `Interface`
pub record Interface : Type 0 where
  pub link_type : LinkType
  pub ts_resolution : ℕ

-- `u32_from` and `u16_from`
unfoldable pub u32_from : Bool → List ℕ → Outcome ℕ
unfolding ◌>>=◌ index from_bytes
u32_from big_endian b = index b 0 >>= λ b0. index b 1 >>= λ b1.
    index b 2 >>= λ b2. index b 3 >>= λ b3. ok (from_bytes big_endian (b0 ∷ b1 ∷ b2 ∷ b3 ∷ []))

unfoldable pub u16_from : Bool → List ℕ → Outcome ℕ
unfolding ◌>>=◌ index from_bytes
u16_from big_endian b =
    index b 0 >>= λ b0. index b 1 >>= λ b1. ok (from_bytes big_endian (b0 ∷ b1 ∷ []))

-- `self.u32_from(&body[a..b])`
unfoldable pub u32_at : Bool → List ℕ → ℕ → Outcome ℕ
unfolding ◌>>=◌ slice u32_from
u32_at big_endian body o = slice body o (o + 4) >>= u32_from big_endian

unfoldable pub u16_at : Bool → List ℕ → ℕ → Outcome ℕ
unfolding ◌>>=◌ slice u16_from
u16_at big_endian body o = slice body o (o + 2) >>= u16_from big_endian

-- `2u64.saturating_pow` and `10u64.checked_pow`
unfoldable pub resolution_of : ℕ → ℕ
resolution_of byte =
    let exp : ℕ = bit_and byte 127 in
    let ten : ℕ = 10 ^ min exp 18 in
    if not (bit_and byte 128 == 0)
    then min (2 ^ min exp 63) 18446744073709551615
    else if ltb ten 18446744073709551616
    then ten
    else 1000000

-- What a round of the options' loop comes to: the loop is left with a resolution, or goes on at an offset.
pub data OptionRound : Type 0 where
  leave : ℕ → OptionRound
  go_on : ℕ → ℕ → OptionRound

-- The end of a round, with the resolution as it is then.
abbrev pub next_option : ℕ → ℕ → ℕ → ℕ → OptionRound
next_option code len off resolution =
    if code == 0 then leave resolution else go_on (off + 4 + (len + 3) / 4 * 4) resolution

unfoldable pub option_value : List ℕ → ℕ → ℕ → ℕ → ℕ → Outcome OptionRound
unfolding ◌>>=◌ index resolution_of
option_value body off code len resolution =
    if (code == 9) && (len == 1)
    then (index body (off + 4) >>= λ byte. ok (next_option code len off (resolution_of byte)))
    else ok (next_option code len off resolution)

unfoldable pub option_round : Bool → List ℕ → ℕ → ℕ → Outcome OptionRound
unfolding ◌>>=◌ u16_at
option_round big_endian body off resolution =
    if leb (off + 4) (length body)
    then (u16_at big_endian body off >>= λ code. u16_at big_endian body (off + 2) >>= λ len.
        if ltb (length body) (off + 4 + len)
        then ok (leave resolution)
        else option_value body off code len resolution)
    else ok (leave resolution)

unfoldable pub after_option : (ℕ → ℕ → Outcome ℕ) → OptionRound → Outcome ℕ
after_option go (leave resolution) = ok resolution
after_option go (go_on off resolution) = go off resolution

-- The loop over the options: each round that goes on moves by 4 bytes at least.
unfoldable pub options : ℕ → Bool → List ℕ → ℕ → ℕ → Outcome ℕ
unfolding ◌>>=◌ option_round after_option
options zero big_endian body off resolution = panic
options (suc n) big_endian body off resolution =
    option_round big_endian body off resolution >>= after_option (options n big_endian body)

unfoldable pub parse_idb : Bool → List ℕ → Outcome (Result Interface)
unfolding ◌>>=◌ u16_at options from_u32
parse_idb big_endian body =
    if ltb (length body) 8
    then ok (failure malformed)
    else (u16_at big_endian body 0 >>= λ link.
        options (suc (length body)) big_endian body 8 1000000 >>= λ resolution. ok (
          success (record {
            link_type = from_u32 link;
            ts_resolution = if resolution == 0 then 1000000 else resolution;
          })))

-- `as i64`
unfoldable pub as_i64 : ℕ → ℤ
as_i64 n = if ltb n 9223372036854775808 then pos n else negsuc (18446744073709551615 - n)

-- `.get(id).map(|i| i.ts_resolution).unwrap_or(1_000_000)`
unfoldable pub resolution_at : List Interface → ℕ → ℕ
resolution_at [] id = 1000000
resolution_at (i ∷ is) zero = i.ts_resolution
resolution_at (i ∷ is) (suc id) = resolution_at is id

-- The packet of a block, whose quotients panic where the resolution is 0.
unfoldable pub epb_packet : ℕ → ℕ → ℕ → ℕ → ℕ → List ℕ → Outcome (Result RawPacket)
unfolding as_i64 timestamp raw_packet
epb_packet resolution ticks index wire_len cap_len bytes =
    if resolution == 0
    then panic
    else ok (
        success (
          raw_packet index
            (timestamp (as_i64 (ticks / resolution))
              (ticks % resolution * 1000000000 / resolution % 4294967296))
            (max wire_len cap_len) bytes))

-- The tests of `parse_epb` after its fields, with the index of the packet.
unfoldable pub epb_body :
    List Interface → ℕ → List ℕ → ℕ → ℕ → ℕ → ℕ → ℕ → Outcome (Result RawPacket)
unfolding ◌>>=◌ slice resolution_at epb_packet
epb_body interfaces index body id high low cap_len wire_len =
    if ltb max_packet_bytes cap_len
    then ok (failure (implausible_length index cap_len max_packet_bytes))
    else if ltb (length body) (20 + cap_len)
    then ok (failure malformed)
    else (slice body 20 (20 + cap_len) >>= λ bytes.
        epb_packet (resolution_at interfaces id) (high * 4294967296 + low) index wire_len cap_len
          bytes)

-- `parse_epb`, with the index that it leaves.
unfoldable pub parse_epb : Bool → List Interface → ℕ → List ℕ → Outcome (Result RawPacket × ℕ)
unfolding ◌>>=◌ u32_at epb_body
parse_epb big_endian interfaces index body =
    if ltb (length body) 20
    then ok (failure malformed, index)
    else (u32_at big_endian body 0 >>= λ id. u32_at big_endian body 4 >>= λ high.
        u32_at big_endian body 8 >>= λ low. u32_at big_endian body 12 >>= λ cap_len.
        u32_at big_endian body 16 >>= λ wire_len.
        epb_body interfaces (index + 1) body id high low cap_len wire_len >>= λ result.
        ok (result, index + 1))
