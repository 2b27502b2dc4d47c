-- ===== src/Tests/Streams.antt =====
-- The buffers and the two reassemblers at concrete inputs.
use custom_built_network_ana.Base.{
  pos, ℕ, zero, suc, ◌+◌, ◌≤◌, ◌<◌, Bool, true, false, ◌||◌, take, none, some, List, [], ◌∷◌, ◌≡◌,
  ◌↔◌, refl, arith, get_or, ap, ◌∙◌, inl, inr, ◌&&◌, ◌==◌, Bool-cases, lookup,
}
use custom_built_network_ana.Tests.{bytes, no_decoders}
use custom_built_network_ana.Ranges.{Range, holds, is_filled, add_range, contiguous, AreRanges}
use custom_built_network_ana.Ranges.Insert.{
  insert_range, add_range-AreRanges, add_range-insert_range,
}
use custom_built_network_ana.Ranges.Cover.{add_range-is_filled, contiguous_lem}
use custom_built_network_ana.Buffered.{Buffered, IsBuffered, write}
use custom_built_network_ana.Buffered.Invariant.{Written, write_lem}
use custom_built_network_ana.Buffered.Whole.{
  Piece, IsPieceOf, Agrees, write_all, any_has, ArePieces, HoldsPart, write_all_lem,
  write_all-whole,
}
use custom_built_network_ana.Packet.{tcp, DecodedPacket, ipv4, no_app}
use custom_built_network_ana.Transport.{has, default_options}
use custom_built_network_ana.Net.{Ipv4, v4}
use custom_built_network_ana.Flow.{StreamKey, a_to_b}
use custom_built_network_ana.Reassembly.{Stream, empty, push, rebase, tracked, on_syn}
use custom_built_network_ana.Reassembly.Rebase.{byte_at, byte_at-rebase}
use custom_built_network_ana.Reassembly.Push.{Pushed, push-Pushed, tracked-on_syn}
use custom_built_network_ana.Fragment.{FragKey}
use custom_built_network_ana.IpReassembly
use custom_built_network_ana.IpReassembly.Push.{
  Rebuilt, IsDatagram, IsWhole, returns_packet, complete_iff, push-Rebuilt,
}

abbrev two_ranges : List Range
two_ranges = (2, 4) ∷ (8, 9) ∷ []

add_range-AreRanges_example : AreRanges 0 (add_range two_ranges 4 8)
add_range-AreRanges_example =
    add_range-AreRanges two_ranges 4 8 (omega arith, omega arith, (omega arith, omega arith, tt))
      (omega arith)

add_range-insert_range_example : add_range two_ranges 0 3 ≡ insert_range (0, 3) two_ranges
add_range-insert_range_example =
    add_range-insert_range two_ranges 0 3 (omega arith, omega arith, (omega arith, omega arith, tt))
      (omega arith)

add_range-is_filled_example :
    is_filled (add_range two_ranges 4 6) 5 ≡ (holds (4, 6) 5 || is_filled two_ranges 5)
add_range-is_filled_example =
    add_range-is_filled two_ranges 4 6 5 (omega arith, omega arith, (omega arith, omega arith, tt))
      (omega arith)

abbrev from_zero : List Range
from_zero = (0, 3) ∷ (7, 9) ∷ []

contiguous_lem_example :
    ((i : ℕ) → i < contiguous from_zero → is_filled from_zero i ≡ true)
    × (is_filled from_zero (contiguous from_zero) ≡ false)
contiguous_lem_example =
    contiguous_lem from_zero (omega arith, omega arith, (omega arith, omega arith, tt))

abbrev some_bytes : Buffered
some_bytes = record { buf = 0 ∷ 0 ∷ 7 ∷ 8 ∷ []; filled = (2, 4) ∷ [] }

some_bytes-IsBuffered : (cap : ℕ) → 4 ≤ cap → IsBuffered cap some_bytes
some_bytes-IsBuffered cap h = record {
  ranges = (omega arith, omega arith, tt);
  inside = (omega arith, tt);
  bounded = omega arith;
}

write_lem_example : Written 6 some_bytes 1 (5 ∷ 7 ∷ 9 ∷ []) (write 6 some_bytes 1 (5 ∷ 7 ∷ 9 ∷ []))
write_lem_example =
    write_lem 6 some_bytes 1 (5 ∷ 7 ∷ 9 ∷ []) (some_bytes-IsBuffered 6 (omega arith))

abbrev message : List ℕ
message = 1 ∷ 2 ∷ 3 ∷ 4 ∷ []

-- The tail first, then an overlap, then the head.
abbrev pieces : List Piece
pieces = (3, 4 ∷ []) ∷ (1, 2 ∷ 3 ∷ 4 ∷ []) ∷ (0, 1 ∷ 2 ∷ []) ∷ []

matches : List ℕ → ℕ → List ℕ → Bool
matches m i [] = true
matches m i (b ∷ bs) = b == get_or m i 0 && matches m (i + 1) bs

piece : (m : List ℕ) (i : ℕ) (bs : List ℕ) → matches m i bs ≡ true → IsPieceOf m (i, bs)
unfolding matches
piece m i [] h k less = absurd (omega arith)
piece m i (b ∷ bs) h zero less =
    let e : b ≡ get_or m i 0 = ground (arith, h) in e ∙ ap (λ j. get_or m j 0) (omega arith)
piece m i (b ∷ bs) h (suc k) less =
    piece m (i + 1) bs (ground arith) k (omega arith) ∙ ap (λ j. get_or m j 0) (omega arith)

pieces-ArePieces : ArePieces message pieces
unfolding matches
pieces-ArePieces = (
  piece message 3 (4 ∷ []) refl,
  (piece message 1 (2 ∷ 3 ∷ 4 ∷ []) refl, (piece message 0 (1 ∷ 2 ∷ []) refl, tt)),
)

all_before : (ℕ → Bool) → ℕ → Bool
all_before f zero = true
all_before f (suc n) = f n && all_before f n

before : (f : ℕ → Bool) (n : ℕ) → all_before f n ≡ true → (i : ℕ) → i < n → f i ≡ true
unfolding all_before
before f zero h i less = absurd (omega arith)
before f (suc n) h i less = elim (Bool-cases (i == n)) [
  | inl e ↦
      let same : i ≡ n = ground (arith, e) in
      let last : f n ≡ true = ground (arith, h) in ap f same ∙ last
  | inr e ↦ before f n (ground (arith, h)) i (ground (arith, e))
]

pieces_cover : (i : ℕ) → i < 4 → any_has 16 pieces i ≡ true
unfolding all_before
pieces_cover = before (any_has 16 pieces) 4 refl

abbrev nothing : Buffered
nothing = record { buf = []; filled = [] }

write_all-whole_example :
    let out = (write_all 16 nothing pieces).0 in
    (4 ≤ contiguous out.filled) × (take 4 out.buf ≡ message)
write_all-whole_example = write_all-whole 16 message pieces pieces-ArePieces pieces_cover

some_bytes-Agrees : Agrees (0 ∷ 0 ∷ 7 ∷ 8 ∷ 9 ∷ []) some_bytes
unfolding is_filled
some_bytes-Agrees zero f = refl
some_bytes-Agrees (suc zero) f = refl
some_bytes-Agrees (suc (suc zero)) f = refl
some_bytes-Agrees (suc (suc (suc zero))) f = refl
some_bytes-Agrees (suc (suc (suc (suc j)))) f = ground (arith, f)

abbrev late_pieces : List Piece
late_pieces = (3, 8 ∷ 9 ∷ []) ∷ []

late_pieces-ArePieces : ArePieces (0 ∷ 0 ∷ 7 ∷ 8 ∷ 9 ∷ []) late_pieces
unfolding matches
late_pieces-ArePieces = (piece (0 ∷ 0 ∷ 7 ∷ 8 ∷ 9 ∷ []) 3 (8 ∷ 9 ∷ []) refl, tt)

write_all_lem_example :
    HoldsPart 16
      (0 ∷ 0 ∷ 7 ∷ 8 ∷ 9 ∷ [])
      some_bytes
      late_pieces
      (write_all 16 some_bytes late_pieces)
write_all_lem_example =
    write_all_lem 16 (0 ∷ 0 ∷ 7 ∷ 8 ∷ 9 ∷ []) some_bytes late_pieces
      (some_bytes-IsBuffered 16 (omega arith)) some_bytes-Agrees late_pieces-ArePieces

abbrev moved : Stream
moved = record { base = 1000; buffered = some_bytes; segments = 1; syn_based = false; done = false }

byte_at-rebase_example : byte_at (record (rebase 10 moved) { base = 990 }) 1002 ≡ byte_at moved 1002
byte_at-rebase_example =
    byte_at-rebase moved 990 1002 (omega arith) (omega arith) (omega arith) (omega arith)
      (omega arith)

abbrev header : Ipv4
header = record {
  src = 10 ∷ 0 ∷ 0 ∷ 1 ∷ [];
  dst = 10 ∷ 0 ∷ 0 ∷ 2 ∷ [];
  protocol = 6;
  ttl = 64;
  dscp = 0;
  ecn = 0;
  identification = 7;
  dont_fragment = false;
  more_fragments = true;
  fragment_offset = 0;
  total_len = 45;
  header_len = 20;
  checksum = 0;
  fragmented = true;
}

abbrev segment : DecodedPacket
segment = record {
  meta = record {
    index = 1;
    timestamp = record { secs = pos 0; nanos = 0 };
    captured_len = 5;
    wire_len = 5;
  };
  link = none;
  network = ipv4 header;
  transport = tcp (record {
    src_port = 4000;
    dst_port = 80;
    seq = 1000;
    ack = 0;
    flags = 16;
    window = 100;
    checksum = 0;
    urgent = 0;
    data_offset = 5;
    options = default_options;
  });
  app = no_app;
  payload_len = 3;
  payload_offset = 2;
  ip_payload = some (1, 4);
  warnings = [];
}

abbrev segment_frame : List ℕ
segment_frame = 0 ∷ 0 ∷ 71 ∷ 69 ∷ 84 ∷ []

push-Pushed_example : Pushed 0 1024 (push no_decoders empty segment segment_frame)
unfolding empty has
push-Pushed_example = push-Pushed no_decoders empty segment segment_frame tt (omega arith)

abbrev stream_key : StreamKey
stream_key = (record { a_ip = v4 []; a_port = 1; b_ip = v4 []; b_port = 2; protocol = 6 }, a_to_b)

tracked-on_syn_example : tracked (on_syn empty stream_key 7) ≡ tracked empty + 1
unfolding empty lookup
tracked-on_syn_example = tracked-on_syn empty stream_key 7 refl

push-Rebuilt_example :
    Rebuilt 0 1024 (IpReassembly.push no_decoders IpReassembly.empty segment segment_frame)
unfolding IpReassembly.empty
push-Rebuilt_example =
    push-Rebuilt no_decoders IpReassembly.empty segment tt segment_frame (bytes segment_frame refl)

abbrev frag_key : FragKey
frag_key = record { src = v4 []; dst = v4 []; protocol = 17; id = 7 }

abbrev half : IpReassembly.Datagram
half = record {
  buffered = record { buf = 1 ∷ 2 ∷ 3 ∷ []; filled = (0, 3) ∷ [] };
  total_len = some 3;
  fragments = 2;
  done = false;
}

half-IsDatagram : IsDatagram half
half-IsDatagram = record {
  buffered = record {
    ranges = (omega arith, omega arith, tt);
    inside = (omega arith, tt);
    bounded = omega arith;
  };
  bytes = bytes (1 ∷ 2 ∷ 3 ∷ []) refl;
  short = omega arith;
  released = λ e. absurd (ground (arith, e));
}

complete_iff_example :
    (returns_packet
        (IpReassembly.complete no_decoders IpReassembly.empty frag_key half segment (some 3))
      ≡ true)
    ↔ IsWhole half 3
complete_iff_example =
    complete_iff no_decoders IpReassembly.empty frag_key half segment 3 half-IsDatagram
