-- ===== src/Capture/File/Sound/End.antt =====
-- A capture file that is opened can be read, and read to its end.
use custom_built_network_ana.Base.{
  ℕ, zero, suc, ◌-◌, ◌≤◌, ◌<◌, Bool, true, false, ◌||◌, Option, List, ◌≡◌, refl, arith, ◌==◌,
  length, on_if, if_true,
}
use custom_built_network_ana.Error.{Outcome, ok, ◌>>=◌}
use custom_built_network_ana.Bytes.{from_be}
use custom_built_network_ana.Bytes.Ensures.{AreBytes}
use custom_built_network_ana.Capture.{from_le, Result, success, failure, field}
use custom_built_network_ana.Outcomes.Gives.{Gives, gives, then-Gives, weaken-Gives}
use custom_built_network_ana.Capture.Reads.{
  IsRead, short, whole, read_exact_lem, IsSkipped, too_far, past, skip_lem,
}
use custom_built_network_ana.Packet.{ethernet}
use custom_built_network_ana.Capture.File.{
  pcap, pcap_ng, FileSource, Next, with_header, read_pcap_header, is_block_length, skipped_to,
  section_of, in_byte_order, read_pcapng_section_header, by_magic, from_reader,
}
use custom_built_network_ana.Capture.File.Sections.{next_packet}
use custom_built_network_ana.Capture.File.Sound.Opening.{IsBegun, from_reader-IsBegun}
use custom_built_network_ana.Capture.File.Sound.Packets.{
  bytes_left, bytes_left_le, IsReady, IsAnswer, ended, gave, refused,
}
use custom_built_network_ana.Capture.File.Sound.Answers.{next_packet-IsAnswer}

-- An error, or a file to read from its first packet on.
abbrev pub IsOpened : ℕ → Result FileSource → Type 0
IsOpened n (failure e) = Unit {0}
IsOpened n (success src) =
    IsReady src
    × (src.index ≡ 0)
    × (bytes_left src ≤ n)
    × (src.format ≡ pcap_ng → src.link_type ≡ ethernet)

not_pcap_ng : ¬ (pcap ≡ pcap_ng)
not_pcap_ng e = cc

with_header_lem :
    (n : ℕ) (big_endian nanosecond : Bool) (bytes : List ℕ) (o : Option (List ℕ × List ℕ))
    → AreBytes bytes
    → length bytes < n
    → IsRead 20 bytes o
    → IsOpened n (with_header big_endian nanosecond o)
unfolding with_header
with_header_lem n big_endian nanosecond bytes _ b l short = tt
with_header_lem n big_endian nanosecond bytes _ b l (whole e m k) =
    ((tt, (k b).1), refl, omega (arith, m, l), λ e. absurd (not_pcap_ng e))

skipped_to_lem :
    (n k : ℕ) (big_endian : Bool) (bytes : List ℕ) (o : Option (List ℕ))
    → AreBytes bytes
    → length bytes < n
    → IsSkipped k bytes o
    → IsOpened n (skipped_to big_endian o)
unfolding skipped_to
skipped_to_lem n k big_endian bytes _ b l too_far = tt
skipped_to_lem n k big_endian bytes _ b l (past m d) =
    ((tt, d b), refl, omega (arith, m, l), λ _. refl)

section_of_lem :
    (n : ℕ) (big_endian : Bool) (buf bytes : List ℕ)
    → AreBytes bytes
    → length bytes < n
    → IsOpened n (section_of big_endian buf bytes)
unfolding section_of
section_of_lem n big_endian buf bytes b l =
    on_if (IsOpened n) (is_block_length (field big_endian 0 buf)) _ _
      (λ _.
        skipped_to_lem n _ big_endian bytes _ b l (skip_lem (field big_endian 0 buf - 12) bytes))
      λ _. tt

in_byte_order_lem :
    (n : ℕ) (bytes : List ℕ) (o : Option (List ℕ × List ℕ))
    → AreBytes bytes
    → length bytes < n
    → IsRead 8 bytes o
    → IsOpened n (in_byte_order o)
unfolding in_byte_order
in_byte_order_lem n bytes _ b l short = tt
in_byte_order_lem n bytes _ b l (whole {bs} {left} e m k) =
    on_if (IsOpened n) (field false 4 bs == 439041101) _ _
      (λ _. section_of_lem n false bs left (k b).1 (omega (arith, m, l)))
      λ _.
        on_if (IsOpened n) (field false 4 bs == 1295788826) _ _
          (λ _. section_of_lem n true bs left (k b).1 (omega (arith, m, l))) λ _. tt

module _ (n : ℕ) (bytes : List ℕ) (b : AreBytes bytes) (l : length bytes < n) where
  as_pcap :
      (big_endian nanosecond : Bool) → IsOpened n (read_pcap_header big_endian nanosecond bytes)
  unfolding read_pcap_header
  as_pcap big_endian nanosecond =
      with_header_lem n big_endian nanosecond bytes _ b l (read_exact_lem 20 bytes)

  as_pcapng : IsOpened n (read_pcapng_section_header bytes)
  unfolding read_pcapng_section_header
  as_pcapng = in_byte_order_lem n bytes _ b l (read_exact_lem 8 bytes)

by_magic_lem :
    (n : ℕ) (bytes : List ℕ) (o : Option (List ℕ × List ℕ))
    → AreBytes bytes
    → length bytes < n
    → IsRead 4 bytes o
    → IsOpened n (by_magic o)
unfolding by_magic
by_magic_lem n bytes _ b l short = tt
by_magic_lem n bytes _ b l (whole {bs} {left} e m k) =
    let fits : length left < n = omega (arith, m, l) in
    let rest : AreBytes left = (k b).1 in
    on_if (IsOpened n) (from_le bs == 2712847316) _ _ (λ _. as_pcap n left rest fits false false)
      λ _.
        on_if (IsOpened n) (from_le bs == 2712812621) _ _ (λ _. as_pcap n left rest fits false true)
          λ _.
            on_if (IsOpened n) (from_le bs == 3569595041) _ _
              (λ _. as_pcap n left rest fits true false)
              λ _.
                on_if (IsOpened n) (from_le bs == 1295823521) _ _
                  (λ _. as_pcap n left rest fits true true)
                  λ _.
                    on_if (IsOpened n) (from_be 0 bs == 168627466 || from_le bs == 168627466) _ _
                      (λ _. as_pcapng n left rest fits) λ _. tt

ready_lem : (bytes : List ℕ) → AreBytes bytes → IsOpened (suc (length bytes)) (from_reader bytes)
unfolding from_reader
ready_lem bytes b =
    by_magic_lem (suc (length bytes)) bytes _ b (omega arith) (read_exact_lem 4 bytes)

-- Bytes are refused as a capture file, or give one whose packets are counted from 0, with no more left to
-- read than they are. A pcap file has the byte order and the unit of timestamps that its magic number tells and
-- the link type at 20, and is read from 24 on. A pcapng file has the byte order that its section header tells and
-- the link type Ethernet, whatever its interfaces are, and is read from behind its section header on.
pub from_reader-IsOpened :
    (bytes : List ℕ)
    → AreBytes bytes
    → IsOpened (suc (length bytes)) (from_reader bytes) × IsBegun bytes (from_reader bytes)
from_reader-IsOpened bytes b = (ready_lem bytes b, from_reader-IsBegun bytes b)

-- The file after so many calls of `next_packet`.
unfoldable pub calls : ℕ → FileSource → Outcome FileSource
unfolding ◌>>=◌ next_packet
calls zero src = ok src
calls (suc n) src = next_packet src >>= λ answer. calls n answer.1

uses :
    (index n : ℕ) (src : FileSource) (x : Next × FileSource)
    → bytes_left src ≤ suc n
    → IsAnswer index (bytes_left src) x
    → IsReady x.1 × (bytes_left x.1 ≤ n)
uses index n src _ k (ended {src = s} h f) =
    (h, omega (arith, if_true s.finished (suc (length s.reader)) f))
uses index n src _ k (gave h p i l) = (h, omega (arith, l, k))
uses index n src _ k (refused h i l) = (h, omega (arith, l, k))

calls_lem :
    (n : ℕ) (src : FileSource)
    → IsReady src
    → bytes_left src ≤ n
    → Gives (λ s. bytes_left s ≡ 0) (calls n src)
unfolding calls
calls_lem zero src h l = gives (omega (arith, l))
calls_lem (suc n) src h l =
    then-Gives (λ x. IsReady x.1 × (bytes_left x.1 ≤ n)) (next_packet src) _
      (weaken-Gives (next_packet-IsAnswer src h) λ x a. uses src.index n src x l a)
      λ x (r, k). calls_lem n x.1 r k

finished_of : (src : FileSource) → bytes_left src ≡ 0 → src.finished ≡ true
finished_of src e = ground (arith, e)

-- Reading a file of bytes to its end takes no more calls of `next_packet` than it has bytes left, and one:
-- after so many calls, none of which panics, the file is finished.
pub calls-finished :
    (n : ℕ) (src : FileSource)
    → IsReady src
    → length src.reader < n
    → Gives (λ s. s.finished ≡ true) (calls n src)
calls-finished n src h l =
    weaken-Gives (calls_lem n src h (omega (arith, l, bytes_left_le src))) λ s e. finished_of s e
