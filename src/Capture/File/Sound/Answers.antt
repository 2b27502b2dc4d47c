-- ===== src/Capture/File/Sound/Answers.antt =====
-- `next_packet` on either format.
use custom_built_network_ana.Base.{
  ℕ, zero, suc, ◌+◌, ◌-◌, ◌%◌, ◌≤◌, ◌<◌, max, false, not, ◌||◌, Option, List, ◌≡◌, refl, arith, pos,
  ltb, ◌==◌, length, ap, subst, sym, if_false,
}
use custom_built_network_ana.Bytes.{slice}
use custom_built_network_ana.Bytes.Ensures.{AreBytes}
use custom_built_network_ana.Capture.{RawPacket, raw_packet, Result, success, failure}
use custom_built_network_ana.Outcomes.Gives.{
  Gives, gives, then-Gives, weaken-Gives, slice-Gives, if_Gives,
}
use custom_built_network_ana.Capture.Reads.{
  IsRead, short, whole, read_exact_lem, IsSkipped, too_far, past, skip_lem,
}
use custom_built_network_ana.Capture.File.{
  FileFormat, pcap, pcap_ng, FileSource, Next, finish, is_block_length,
}
use custom_built_network_ana.Capture.File.Blocks.{Interface, u32_at, parse_idb, parse_epb}
use custom_built_network_ana.Capture.File.Sections.{
  BlockRound, return, continue, on_section, on_interface, on_enhanced, on_simple, on_block,
  with_trailer, with_body, block_of, with_head, block_round, after_block, block_rounds, next_pcapng,
  next_in, next_packet,
}
use custom_built_network_ana.Capture.File.Sound.Block.{
  IsPacket, HaveResolution-append, HasResolution, parse_idb-Gives, IsParsed, parse_epb-Gives,
  u32_at-Gives,
}
use custom_built_network_ana.Capture.File.Sound.Packets.{
  bytes_left, bytes_left_le, IsReady, IsAnswer, ended, gave, refused, raw_packet-IsPacket,
  next_pcap_lem,
}

IsAnswer-weaken :
    (index small large : ℕ) (x : Next × FileSource)
    → small ≤ large
    → IsAnswer index small x
    → IsAnswer index large x
IsAnswer-weaken index small large _ k (ended h f) = ended h f
IsAnswer-weaken index small large _ k (gave h p i l) = gave h p i (omega (arith, l, k))
IsAnswer-weaken index small large _ k (refused h i l) = refused h i (omega (arith, l, k))

-- What a round over a block leaves.
data IsRound (index left : ℕ) : BlockRound → Type 0 where
  returned :
      {next : Next} {src : FileSource}
      → IsAnswer index left (next, src)
      → IsRound index left (return next src)
  continued :
      {src : FileSource}
      → IsReady src
      → src.index ≡ index
      → suc (length src.reader) < left
      → IsRound index left (continue src)

-- A block has been read, and so many bytes were left before it.
module _ (left : ℕ) (src : FileSource) (h : IsReady src) (l : suc (length src.reader) < left) where
  behind : (record_src : FileSource) → record_src.reader ≡ src.reader → bytes_left record_src < left
  behind s e = omega (arith, bytes_left_le s, l, ap length e)

  on_interface_lem :
      (r : Result Interface) → HasResolution r → IsRound src.index left (on_interface src r)
  unfolding on_interface
  on_interface_lem (success iface) p =
      continued (HaveResolution-append src.interfaces iface h.0 p, h.1) refl l
  on_interface_lem (failure e) p = returned (refused h (omega arith) (behind src refl))

  on_enhanced_lem :
      (r : Result RawPacket × ℕ)
      → IsParsed src.index r
      → IsRound src.index left (on_enhanced src r.0 r.1)
  unfolding on_enhanced finish
  on_enhanced_lem (success p, next) (q, e) =
      returned (gave h q e (behind (record src { index = next }) refl))
  on_enhanced_lem (failure x, next) e = returned (refused h e (omega (arith, l)))

  on_simple_lem :
      (body : List ℕ)
      → length body ≤ 16777204
      → AreBytes body
      → Gives (IsRound src.index left) (on_simple src body)
  unfolding on_simple
  on_simple_lem body k b =
      if_Gives (ltb (length body) 4) _ _ (λ _. gives (continued h refl l))
        λ t.
          let room : 4 ≤ length body = ground (arith, t) in
          let one_more : src.index + 1 ≡ suc src.index = omega arith in
          then-Gives _ (u32_at src.big_endian body 0) _
            (u32_at-Gives src.big_endian body 0 (omega (arith, room)))
            λ orig_len _.
              then-Gives _ (slice body 4 (length body)) _
                (slice-Gives body 4 (length body) room (omega arith))
                λ bytes (e, m). gives (
                  returned (
                    gave h
                      (subst
                        (λ i. IsPacket (suc src.index) (
                          raw_packet i (record { secs = pos 0; nanos = 0 })
                            (max orig_len (length bytes)) bytes))
                        (sym one_more)
                        (raw_packet-IsPacket (suc src.index) (record { secs = pos 0; nanos = 0 })
                          (max orig_len (length bytes)) bytes (omega arith) (omega arith)
                          (omega (arith, e, k)) (m b)))
                      (omega arith) (behind (record src { index = src.index + 1 }) refl)))

  on_block_lem :
      (block_type : ℕ) (body : List ℕ)
      → length body ≤ 16777204
      → AreBytes body
      → Gives (IsRound src.index left) (on_block src block_type body)
  unfolding on_block on_section
  on_block_lem block_type body k b =
      if_Gives (block_type == 168627466) _ _ (λ _. gives (continued (tt, h.1) refl l))
        λ _.
          if_Gives (block_type == 1) _ _
            (λ _.
              then-Gives _ (parse_idb src.big_endian body) _ (parse_idb-Gives src.big_endian body)
                λ r p. gives (on_interface_lem r p))
            λ _.
              if_Gives (block_type == 6) _ _
                (λ _.
                  then-Gives _ (parse_epb src.big_endian src.interfaces src.index body) _
                    (parse_epb-Gives src.big_endian src.interfaces src.index body h.0 b)
                    λ r p. gives (on_enhanced_lem r p))
                λ _.
                  if_Gives (block_type == 3) _ _ (λ _. on_simple_lem body k b)
                    λ _. gives (continued h refl l)

module _ (left : ℕ) (src : FileSource) (h : IsReady src) where
  with_trailer_lem :
      (block_type : ℕ) (body bytes : List ℕ) (o : Option (List ℕ))
      → IsSkipped 4 bytes o
      → length body ≤ 16777204
      → AreBytes body
      → length bytes < left
      → AreBytes bytes
      → Gives (IsRound src.index left) (with_trailer src block_type body o)
  unfolding with_trailer finish
  with_trailer_lem block_type body bytes _ too_far k d l b =
      gives (returned (refused (h.0, tt) (omega arith) (omega (arith, l))))
  with_trailer_lem block_type body bytes _ (past {left = rest} e m) k d l b =
      on_block_lem left (record src { reader = rest }) (h.0, m b) (omega (arith, e, l)) block_type
        body k d

  with_body_lem :
      (block_type n : ℕ) (bytes : List ℕ) (o : Option (List ℕ × List ℕ))
      → IsRead n bytes o
      → n ≤ 16777204
      → length bytes < left
      → AreBytes bytes
      → Gives (IsRound src.index left) (with_body src block_type o)
  unfolding with_body finish
  with_body_lem block_type n bytes _ short k l b = gives (returned (ended (h.0, tt) refl))
  with_body_lem block_type n bytes _ (whole {bs} {left = rest} e m d) k l b =
      with_trailer_lem block_type bs rest _ (skip_lem 4 rest) (omega (arith, e, k)) (d b).0
        (omega (arith, m, l)) (d b).1

  block_of_lem :
      (block_type total_len : ℕ) (bytes : List ℕ)
      → length bytes < left
      → AreBytes bytes
      → 0 < left
      → Gives (IsRound src.index left) (block_of src block_type total_len bytes)
  unfolding block_of finish
  block_of_lem block_type total_len bytes l b z =
      if_Gives (not (is_block_length total_len) || not (total_len % 4 == 0)) _ _
        (λ _. gives (returned (refused (h.0, b) (omega arith) z)))
        λ t.
          with_body_lem block_type (total_len - 12) bytes _ (read_exact_lem (total_len - 12) bytes)
            (ground (arith, t)) l b

with_head_lem :
    (src : FileSource) (o : Option (List ℕ × List ℕ))
    → IsReady src
    → IsRead 8 src.reader o
    → Gives (IsRound src.index (suc (length src.reader))) (with_head src o)
unfolding with_head finish
with_head_lem src _ h short = gives (returned (ended (h.0, tt) refl))
with_head_lem src _ h (whole {bs} {left = rest} e m d) =
    block_of_lem (suc (length src.reader)) src h _ _ rest (omega (arith, m)) (d h.1).1 (omega arith)

block_round-Gives :
    (src : FileSource)
    → IsReady src
    → Gives (IsRound src.index (suc (length src.reader))) (block_round src)
unfolding block_round
block_round-Gives src h = with_head_lem src _ h (read_exact_lem 8 src.reader)

after_block-Gives :
    (n index left : ℕ) (r : BlockRound)
    → IsRound index left r
    → left ≤ suc n
    → ((src : FileSource)
        → IsReady src
        → length src.reader < n
        → Gives (IsAnswer src.index (suc (length src.reader))) (block_rounds n src))
    → Gives (IsAnswer index left) (after_block (block_rounds n) r)
after_block-Gives n index left _ (returned a) l k = gives a
after_block-Gives n index left _ (continued {src} h e m) l k =
    weaken-Gives (k src h (omega (arith, l, m))) λ x a.
      subst (λ i. IsAnswer i left x) e
        (IsAnswer-weaken src.index (suc (length src.reader)) left x (omega (arith, m)) a)

block_rounds-Gives :
    (n : ℕ) (src : FileSource)
    → IsReady src
    → length src.reader < n
    → Gives (IsAnswer src.index (suc (length src.reader))) (block_rounds n src)
unfolding block_rounds
block_rounds-Gives zero src h l = absurd (omega arith)
block_rounds-Gives (suc n) src h l =
    then-Gives _ (block_round src) _ (block_round-Gives src h) λ r a.
      after_block-Gives n src.index (suc (length src.reader)) r a (omega (arith, l))
        (block_rounds-Gives n)

next_in-Gives :
    (format : FileFormat) (src : FileSource)
    → IsReady src
    → Gives (IsAnswer src.index (suc (length src.reader))) (next_in format src)
unfolding next_in next_pcapng
next_in-Gives pcap src h = gives (next_pcap_lem src h)
next_in-Gives pcap_ng src h = block_rounds-Gives (suc (length src.reader)) src h (omega arith)

if_left : (src : FileSource) → src.finished ≡ false → bytes_left src ≡ suc (length src.reader)
if_left src e = if_false src.finished 0 e

-- On any file of bytes whose interfaces' resolutions are not 0, `next_packet` never panics. It answers that the file
-- has ended, and is finished; or a packet, numbered one higher than the last, that counts the bytes it
-- holds, no more of them than were on the wire nor than 16777200, with a fraction below one second; or an
-- error. A packet or an error leaves less of the file to read, and the resolutions are still not 0.
pub next_packet-IsAnswer :
    (src : FileSource) → IsReady src → Gives (IsAnswer src.index (bytes_left src)) (next_packet src)
unfolding next_packet
next_packet-IsAnswer src h =
    if_Gives src.finished _ _ (λ t. gives (ended h t))
      λ t. weaken-Gives (next_in-Gives src.format src h) λ x a.
        IsAnswer-weaken src.index (suc (length src.reader)) (bytes_left src) x
          (omega (arith, if_left src t)) a
