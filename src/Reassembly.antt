-- ===== src/Reassembly.antt =====
-- crates/cbna-core/src/reassembly.rs: the leading bytes of each TCP direction. A sequence number is below
-- 2^32, and `wrapping_add` and `wrapping_sub` are written out.
pub mod StreamLaws
pub mod Rebase
pub mod Push
use custom_built_network_ana.Base.{
  ℕ, ◌+◌, ◌-◌, ◌*◌, ◌%◌, ◌≤◌, ◌<◌, min, Bool, true, false, not, ◌&&◌, ◌||◌, Option, none, some,
  List, [], ◌∷◌, ◌++◌, ltb, leb, ◌==◌, if◌then◌else◌, length, take, replicate, lookup, insert,
}
use custom_built_network_ana.Proto.{Decoders}
use custom_built_network_ana.Ranges.{Range, contiguous}
use custom_built_network_ana.Buffered
use custom_built_network_ana.Buffered.{Buffered}
use custom_built_network_ana.Transport.{Tcp, has, fin_flag, syn_flag, rst_flag}
use custom_built_network_ana.Packet.{
  TransportLayer, tcp, AppLayer, dns, http, tls, no_app, DecodedPacket, payload, ports,
}
use custom_built_network_ana.Packet.App.{app_from_payload}
use custom_built_network_ana.Flow.{StreamKey, from_packet}
use custom_built_network_ana.Flow.Canonical.{key_Eq}

abbrev pub max_stream_bytes : ℕ
max_stream_bytes = 16384

abbrev pub max_tracked_streams : ℕ
max_tracked_streams = 1024

abbrev pub max_ranges : ℕ
max_ranges = 16

abbrev pub u32 : ℕ
u32 = 4294967296

abbrev pub wrapping_sub : ℕ → ℕ → ℕ
wrapping_sub a b = (a + u32 - b) % u32

abbrev pub after_syn : ℕ → ℕ
after_syn seq = (seq + 1) % u32

pub record ReassemblyStats : Type 0 where
  pub recovered : ℕ
  pub dropped_streams : ℕ
  pub conflicting_overlaps : ℕ

pub record Stream : Type 0 where
  pub base : ℕ
  pub buffered : Buffered
  pub segments : ℕ
  pub syn_based : Bool
  pub done : Bool

abbrev pub no_bytes : Buffered
no_bytes = record { buf = []; filled = [] }

unfoldable pub new : ℕ → Stream
new base = record {
  base = base;
  buffered = no_bytes;
  segments = 0;
  syn_based = false;
  done = false;
}

unfoldable pub finish : Stream → Stream
finish s = record s { done = true; buffered = no_bytes }

-- The `filter_map` of `rebase`.
unfoldable pub shift_ranges : ℕ → List Range → List Range
shift_ranges delta [] = []
shift_ranges delta ((s, e) ∷ rs) =
    let s' = s + delta in
    let e' = min (e + delta) max_stream_bytes in
    let rest = shift_ranges delta rs in if ltb s' e' then (s', e') ∷ rest else rest

unfoldable pub rebase : ℕ → Stream → Stream
unfolding shift_ranges
rebase delta s =
    let keep = max_stream_bytes - delta in
    let buf =
      replicate (min delta max_stream_bytes) 0
      ++ take (min (length s.buffered.buf) keep) s.buffered.buf in
    record s { buffered = record { buf = buf; filled = shift_ranges delta s.buffered.filled } }

-- `Stream::write`
unfoldable pub write : Stream → ℕ → List ℕ → Stream × Bool
write s offset body =
    let (w, conflict) = Buffered.write max_stream_bytes s.buffered offset body in
    (record s { buffered = w }, conflict)

unfoldable pub is_complete : AppLayer → Bool
is_complete no_app = false
is_complete (http h) = h.complete
is_complete (tls t) = t.complete
is_complete (dns d) = true

pub record Reassembler : Type 0 where
  pub streams : List (StreamKey × Stream)
  pub stats : ReassemblyStats

unfoldable pub empty : Reassembler
empty = record {
  streams = [];
  stats = record { recovered = 0; dropped_streams = 0; conflicting_overlaps = 0 };
}

abbrev pub tracked : Reassembler → ℕ
tracked r = length r.streams

abbrev pub store : Reassembler → StreamKey → Stream → Reassembler
store r key s = record r { streams = insert key s r.streams }

-- `if let Some(s) = … { s.finish() }`
finish_found : Reassembler → StreamKey → Option Stream → Reassembler
finish_found r key none = r
finish_found r key (some s) = store r key (finish s)

unfoldable pub finish_stream : Reassembler → StreamKey → Reassembler
unfolding finish_found finish
finish_stream r key = finish_found r key (lookup key r.streams)

-- `entry(key).or_insert_with(|| Stream::new(base))`
abbrev pub or_new : ℕ → Option Stream → Stream
or_new base none = new base
or_new base (some s) = s

-- A SYN seats the stream on the sequence number behind it.
unfoldable pub seat : Stream → ℕ → Stream
seat s seq = if s.done then s else record s { base = after_syn seq; syn_based = true }

unfoldable pub on_syn : Reassembler → StreamKey → ℕ → Reassembler
unfolding seat new
on_syn r key seq = store r key (seat (or_new (after_syn seq) (lookup key r.streams)) seq)

-- A segment before everything seen moves the start, unless a SYN settled it.
unfoldable pub move_start : Stream → ℕ → Stream
unfolding rebase
move_start s seq =
    let back = wrapping_sub s.base seq in
    if not s.syn_based && ltb 0 back && leb back max_stream_bytes
    then record (rebase back s) { base = seq }
    else s

abbrev pub count_conflict : Bool → ReassemblyStats → ReassemblyStats
count_conflict conflict stats =
    if conflict
    then record stats { conflicting_overlaps = stats.conflicting_overlaps + 1 }
    else stats

abbrev pub ports_or_zero : Option (ℕ × ℕ) → ℕ × ℕ
ports_or_zero none = (0, 0)
ports_or_zero (some p) = p

module _ (decoders : Decoders) where
  -- From `stream.contiguous()` on, for a stream with two segments or more.
  unfoldable pub try_parse :
      Reassembler → StreamKey → Stream → ℕ × ℕ → Reassembler × Option AppLayer
  unfolding finish is_complete contiguous
  try_parse r key s ports =
      let n = contiguous s.buffered.filled in
      let app = app_from_payload decoders ports (take n s.buffered.buf) true in
      let r' = store r key (finish s) in
      if n == 0
      then (store r key s, none)
      else if is_complete app
      then (record r' { stats = record r.stats { recovered = r.stats.recovered + 1 } }, some app)
      else (store r key (if leb max_stream_bytes n then finish s else s), none)

  -- From the write on, with the stream's offset for the segment.
  unfoldable pub add_segment :
      Reassembler → StreamKey → Stream → ℕ → List ℕ → ℕ × ℕ → Reassembler × Option AppLayer
  unfolding try_parse write finish
  add_segment r key s offset body ports =
      let (s', conflict) = write s offset body in
      let s'' = record s' { segments = s'.segments + 1 } in
      let r' = record r { stats = count_conflict conflict r.stats } in
      if ltb max_ranges (length s''.buffered.filled)
      then (store r' key (finish s''), none)
      else if ltb s''.segments 2
      then (store r' key s'', none)
      else try_parse r' key s'' ports

  -- For a stream in the table.
  unfoldable pub on_data :
      Reassembler → StreamKey → Stream → ℕ → List ℕ → ℕ × ℕ → Reassembler × Option AppLayer
  unfolding add_segment move_start
  on_data r key s seq body ports =
      let s' = move_start s seq in
      let offset = wrapping_sub seq s'.base in
      if s.done
      then (store r key s, none)
      else if leb max_stream_bytes offset
      then (store r key s', none)
      else add_segment r key s' offset body ports

  -- The table takes a new stream only while it has room.
  unfoldable pub on_payload :
      Reassembler → StreamKey → Option Stream → ℕ → List ℕ → ℕ × ℕ → Reassembler × Option AppLayer
  unfolding on_data new
  on_payload r key (some s) seq body ports = on_data r key s seq body ports
  on_payload r key none seq body ports =
      let stats = record r.stats { dropped_streams = r.stats.dropped_streams + 1 } in
      if leb max_tracked_streams (tracked r)
      then (record r { stats = stats }, none)
      else on_data r key (new seq) seq body ports

  unfoldable pub push_segment :
      Reassembler → StreamKey → Tcp → DecodedPacket → List ℕ → Reassembler × Option AppLayer
  unfolding finish_stream on_syn on_payload is_complete
  push_segment r key t pkt body =
      if has t.flags fin_flag || has t.flags rst_flag || is_complete pkt.app
      then (finish_stream r key, none)
      else if has t.flags syn_flag
      then (on_syn r key t.seq, none)
      else if length body == 0
      then (r, none)
      else on_payload r key (lookup key r.streams) t.seq body (ports_or_zero (ports pkt))

  push_tcp :
      Reassembler
      → TransportLayer
      → Option StreamKey
      → DecodedPacket
      → List ℕ
      → Reassembler × Option AppLayer
  unfolding push_segment
  push_tcp r (tcp t) (some key) pkt frame = push_segment r key t pkt (payload pkt frame)
  push_tcp r _ _ pkt frame = (r, none)

  -- `Reassembler::push`
  unfoldable pub push : Reassembler → DecodedPacket → List ℕ → Reassembler × Option AppLayer
  unfolding push_tcp
  push r pkt frame = push_tcp r pkt.transport (from_packet pkt) pkt frame
