-- ===== src/Capture/File/Sections.antt =====
-- crates/cbna-capture/src/file.rs: the loop over the blocks of a pcapng file, and the choice of the format.
use custom_built_network_ana.Base.{
  ℕ, zero, suc, pos, ◌+◌, ◌-◌, ◌%◌, max, false, not, ◌||◌, Option, none, some, List, [], ◌∷◌, ◌++◌,
  ltb, leb, ◌==◌, if◌then◌else◌, length,
}
use custom_built_network_ana.Error.{Outcome, ok, panic, ◌>>=◌}
use custom_built_network_ana.Bytes.{slice}
use custom_built_network_ana.Packet.{LinkType}
use custom_built_network_ana.Capture.{
  unexpected_eof, malformed, RawPacket, raw_packet, Result, success, failure, read_exact, skip,
  field,
}
use custom_built_network_ana.Capture.File.Blocks.{Interface, u32_at, parse_idb, parse_epb}
use custom_built_network_ana.Capture.File.{
  FileFormat, pcap, pcap_ng, FileSource, Next, end, packet, failed, finish, is_block_length,
  next_pcap,
}

-- What a round of the loop over blocks comes to.
pub data BlockRound : Type 0 where
  return : Next → FileSource → BlockRound
  continue : FileSource → BlockRound

-- A section header among the blocks.
unfoldable pub on_section : FileSource → List ℕ → BlockRound
unfolding field
on_section src body = continue (record src {
  big_endian = if leb 4 (length body) then field false 0 body == 1295788826 else src.big_endian;
  interfaces = [];
})

unfoldable pub first_link : List Interface → LinkType → LinkType → LinkType
first_link [] link old = link
first_link (i ∷ is) link old = old

unfoldable pub on_interface : FileSource → Result Interface → BlockRound
unfolding first_link
on_interface src (success iface) = continue (record src {
  link_type = first_link src.interfaces iface.link_type src.link_type;
  interfaces = src.interfaces ++ iface ∷ [];
})
on_interface src (failure e) = return (failed e) src

unfoldable pub on_enhanced : FileSource → Result RawPacket → ℕ → BlockRound
unfolding finish
on_enhanced src (success p) index = return (packet p) (record src { index = index })
on_enhanced src (failure e) index =
    return (failed e) (finish (record src { index = index }) src.reader)

-- A simple packet block: the original length, and what is left of the body.
unfoldable pub on_simple : FileSource → List ℕ → Outcome BlockRound
unfolding ◌>>=◌ u32_at slice raw_packet
on_simple src body =
    if ltb (length body) 4
    then ok (continue src)
    else (u32_at src.big_endian body 0 >>= λ orig_len. slice body 4 (length body) >>= λ bytes. ok (
        return
          (packet (
            raw_packet (src.index + 1) (record { secs = pos 0; nanos = 0 })
              (max orig_len (length bytes)) bytes))
          (record src { index = src.index + 1 })))

unfoldable pub on_block : FileSource → ℕ → List ℕ → Outcome BlockRound
unfolding ◌>>=◌ on_section parse_idb parse_epb on_simple
on_block src block_type body =
    if block_type == 168627466
    then ok (on_section src body)
    else if block_type == 1
    then (parse_idb src.big_endian body >>= λ result. ok (on_interface src result))
    else if block_type == 6
    then (parse_epb src.big_endian src.interfaces src.index body >>= λ parsed.
        ok (on_enhanced src parsed.0 parsed.1))
    else if block_type == 3
    then on_simple src body
    else ok (continue src)

-- The trailing length, whose absence is reported, unlike that of the body.
unfoldable pub with_trailer : FileSource → ℕ → List ℕ → Option (List ℕ) → Outcome BlockRound
unfolding finish on_block
with_trailer src block_type body none = ok (return (failed unexpected_eof) (finish src []))
with_trailer src block_type body (some left) =
    on_block (record src { reader = left }) block_type body

unfoldable pub with_body : FileSource → ℕ → Option (List ℕ × List ℕ) → Outcome BlockRound
unfolding finish skip
with_body src block_type none = ok (return end (finish src []))
with_body src block_type (some (body, left)) = with_trailer src block_type body (skip 4 left)

unfoldable pub block_of : FileSource → ℕ → ℕ → List ℕ → Outcome BlockRound
unfolding finish read_exact
block_of src block_type total_len left =
    if not (is_block_length total_len) || not (total_len % 4 == 0)
    then ok (return (failed malformed) (finish src left))
    else with_body src block_type (read_exact (total_len - 12) left)

unfoldable pub with_head : FileSource → Option (List ℕ × List ℕ) → Outcome BlockRound
unfolding finish field
with_head src none = ok (return end (finish src []))
with_head src (some (head, left)) =
    block_of src (field src.big_endian 0 head) (field src.big_endian 4 head) left

-- One round of `next_pcapng`.
unfoldable pub block_round : FileSource → Outcome BlockRound
unfolding read_exact
block_round src = with_head src (read_exact 8 src.reader)

abbrev pub after_block :
    (FileSource → Outcome (Next × FileSource)) → BlockRound → Outcome (Next × FileSource)
after_block go (return next src) = ok (next, src)
after_block go (continue src) = go src

-- The loop of `next_pcapng`.
unfoldable pub block_rounds : ℕ → FileSource → Outcome (Next × FileSource)
unfolding ◌>>=◌ block_round
block_rounds zero src = panic
block_rounds (suc n) src = block_round src >>= after_block (block_rounds n)

-- Each round that goes on takes 12 bytes at least, so the bytes that are left bound the rounds.
unfoldable pub next_pcapng : FileSource → Outcome (Next × FileSource)
unfolding block_rounds
next_pcapng src = block_rounds (suc (length src.reader)) src

unfoldable pub next_in : FileFormat → FileSource → Outcome (Next × FileSource)
unfolding next_pcap next_pcapng
next_in pcap src = ok (next_pcap src)
next_in pcap_ng src = next_pcapng src

unfoldable pub next_packet : FileSource → Outcome (Next × FileSource)
next_packet src = if src.finished then ok (end, src) else next_in src.format src
