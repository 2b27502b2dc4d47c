-- ===== src/Capture/File/Sound/Packets.antt =====
-- `next_packet` never panics, and each of its answers uses up some of the file.
use custom_built_network_ana.Base.{
  ℕ, suc, ◌+◌, ◌≤◌, ◌<◌, max, Bool, true, false, Option, List, ◌≡◌, refl, arith, pos, ltb,
  if◌then◌else◌, length, on_if,
}
use custom_built_network_ana.Bytes.Ensures.{AreBytes}
use custom_built_network_ana.Packet.{Timestamp}
use custom_built_network_ana.Capture.{
  max_packet_bytes, RawPacket, raw_packet, timestamp, from_micros,
}
use custom_built_network_ana.Capture.Reads.{IsRead, short, whole, read_exact_lem}
use custom_built_network_ana.Capture.File.{
  FileSource, Next, end, packet, failed, finish, with_data, pcap_record, with_record, next_pcap,
}
use custom_built_network_ana.Capture.File.Sound.Block.{IsPacket, HaveResolution}

-- How far the file is from its end.
abbrev pub bytes_left : FileSource → ℕ
bytes_left src = if src.finished then 0 else suc (length src.reader)

pub bytes_left_le : (src : FileSource) → bytes_left src ≤ suc (length src.reader)
bytes_left_le src =
    on_if (λ n. n ≤ suc (length src.reader)) src.finished 0 _ (λ _. omega arith) λ _. omega arith

-- The reader holds bytes, and every interface has a resolution that can divide.
abbrev pub IsReady : FileSource → Type 0
IsReady src = HaveResolution src.interfaces × AreBytes src.reader

-- What an answer leaves, from a file at `index` with `left` bytes to go.
pub data IsAnswer (index left : ℕ) : Next × FileSource → Type 0 where
  ended : {src : FileSource} → IsReady src → src.finished ≡ true → IsAnswer index left (end, src)
  gave :
      {p : RawPacket} {src : FileSource}
      → IsReady src
      → IsPacket (suc index) p
      → src.index ≡ suc index
      → bytes_left src < left
      → IsAnswer index left (packet p, src)
  refused :
      {e : _} {src : FileSource}
      → IsReady src
      → src.index ≤ suc index
      → bytes_left src < left
      → IsAnswer index left (failed e, src)

nanos_of_timestamp : (secs micros : ℕ) → (from_micros (pos secs) micros).nanos < 1000000000
unfolding from_micros timestamp
nanos_of_timestamp secs micros = omega arith

pub raw_packet-IsPacket :
    (index : ℕ) (t : Timestamp) (wire_len : ℕ) (bytes : List ℕ)
    → t.nanos < 1000000000
    → length bytes ≤ wire_len
    → length bytes ≤ 16777200
    → AreBytes bytes
    → IsPacket index (raw_packet index t wire_len bytes)
unfolding raw_packet
raw_packet-IsPacket index t wire_len bytes h k l b = record {
  counted = refl;
  captured = refl;
  on_wire = k;
  limit = l;
  all_bytes = b;
  nanos = h;
}

pcap_time :
    (nanosecond : Bool) (secs frac : ℕ)
    → (if nanosecond then timestamp (pos secs) frac else from_micros (pos secs) frac).nanos
      < 1000000000
unfolding timestamp
pcap_time true secs frac = omega arith
pcap_time false secs frac = nanos_of_timestamp secs frac

module _ (old src : FileSource) (h : HaveResolution src.interfaces)
    (e : src.index ≡ suc old.index) where
  with_data_lem :
      (ts_sec ts_frac caplen wirelen left : ℕ) (bytes : List ℕ) (o : Option (List ℕ × List ℕ))
      → IsRead caplen bytes o
      → caplen ≤ max_packet_bytes
      → length bytes < left
      → AreBytes bytes
      → IsAnswer old.index (suc left) (with_data src ts_sec ts_frac caplen wirelen o)
  unfolding with_data finish
  with_data_lem ts_sec ts_frac caplen wirelen left bytes _ short c l b = ended (h, tt) refl
  with_data_lem ts_sec ts_frac caplen wirelen left bytes _ (whole {bs} {left = rest} n m k) c l b =
      gave (h, (k b).1)
        (rw e (
          raw_packet-IsPacket (suc old.index) _ (max wirelen caplen) bs
            (pcap_time src.nanosecond_ts ts_sec ts_frac) (omega (arith, n)) (omega (arith, n, c))
            (k b).0))
        e (omega (arith, bytes_left_le (record src { reader = rest }), m, l))

  pcap_record_lem :
      (ts_sec ts_frac caplen wirelen left : ℕ) (bytes : List ℕ)
      → length bytes < left
      → AreBytes bytes
      → IsAnswer old.index (suc left) (pcap_record src ts_sec ts_frac caplen wirelen bytes)
  unfolding pcap_record finish
  pcap_record_lem ts_sec ts_frac caplen wirelen left bytes l b =
      on_if (IsAnswer old.index (suc left)) (ltb max_packet_bytes caplen) _ _
        (λ _. refused (h, b) (omega (arith, e)) (omega arith))
        λ t.
          with_data_lem ts_sec ts_frac caplen wirelen left bytes _ (read_exact_lem caplen bytes)
            (ground (arith, t)) l b

with_record_lem :
    (src : FileSource) (o : Option (List ℕ × List ℕ))
    → IsReady src
    → IsRead 16 src.reader o
    → IsAnswer src.index (suc (length src.reader)) (with_record src o)
unfolding with_record finish
with_record_lem src _ h short = ended (h.0, tt) refl
with_record_lem src _ h (whole {bs} {left} n m k) =
    pcap_record_lem src (record src { index = src.index + 1 }) h.0 (omega arith) _ _ _ _
      (length src.reader) left (omega (arith, m)) (k h.1).1

pub next_pcap_lem :
    (src : FileSource) → IsReady src → IsAnswer src.index (suc (length src.reader)) (next_pcap src)
unfolding next_pcap
next_pcap_lem src h = with_record_lem src _ h (read_exact_lem 16 src.reader)
