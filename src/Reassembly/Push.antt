-- ===== src/Reassembly/Push.antt =====
-- What `Reassembler::push` keeps and returns.
use custom_built_network_ana.Base.{
  ℕ, ◌+◌, ◌≤◌, ◌<◌, max, Bool, true, false, ◌||◌, Option, none, some, List, [], ◌∷◌, ◌≡◌, refl, ◌∙◌,
  inl, inr, arith, ltb, leb, ◌==◌, if◌then◌else◌, length, take, on_if, Option-cases, lookup, insert,
  AllValues, AllValues-insert, AllValues-lookup, length-insert_new, length-insert_old,
}
use custom_built_network_ana.Proto.{Decoders}
use custom_built_network_ana.Ranges.{contiguous}
use custom_built_network_ana.Transport.{Tcp, has, fin_flag, syn_flag, rst_flag}
use custom_built_network_ana.Packet.{
  TransportLayer, tcp, udp, icmp, no_transport, AppLayer, DecodedPacket, payload, ports,
}
use custom_built_network_ana.Packet.App.{app_from_payload}
use custom_built_network_ana.Flow.{StreamKey, from_packet}
use custom_built_network_ana.Flow.Canonical.{key_Eq}
use custom_built_network_ana.Reassembly.{
  max_stream_bytes, max_ranges, max_tracked_streams, u32, wrapping_sub, after_syn, Stream, new,
  finish, seat, move_start, write, is_complete, Reassembler, tracked, store, count_conflict,
  ports_or_zero, finish_stream, on_syn, try_parse, add_segment, on_data, on_payload, push_segment,
  push_tcp, push,
}
use custom_built_network_ana.Reassembly.StreamLaws.{
  IsStream, new-IsStream, finish-IsStream, seat-IsStream, move_start-IsStream, move_start-done,
  write-IsBuffered,
}

abbrev pub returned : Option AppLayer → ℕ
returned none = 0
returned (some a) = 1

-- After a call: every stream is in order, a message that is returned is complete and counted, and the
-- table holds at most `room` streams. `n` is the count of recovered messages before.
pub record Pushed (n room : ℕ) (out : Reassembler × Option AppLayer) : Type 0 where
  pub streams : AllValues IsStream out.0.streams
  pub complete : (a : AppLayer) → out.1 ≡ some a → is_complete a ≡ true
  pub counted : out.0.stats.recovered ≡ n + returned out.1
  pub grows : tracked out.0 ≤ room

length-insert_any :
    (k : StreamKey) (v w : Stream) (m : List (StreamKey × Stream))
    → length (insert k v m) ≡ length (insert k w m)
unfolding insert
length-insert_any k v w [] = refl
length-insert_any k v w ((j, x) ∷ m) = ground (arith, length-insert_any k v w m)

recovered-count_conflict :
    (c : Bool) (r : Reassembler) → (count_conflict c r.stats).recovered ≡ r.stats.recovered
recovered-count_conflict c r =
    on_if (λ t. t.recovered ≡ r.stats.recovered) c _ r.stats (λ _. refl) λ _. refl

module _ (decoders : Decoders) (n room : ℕ) (key : StreamKey) where
  -- A table into which a stream under the key may go.
  record IsReady (r : Reassembler) : Type 0 where
    streams : AllValues IsStream r.streams
    count : r.stats.recovered ≡ n
    fits : length (insert key (new 0) r.streams) ≤ room

  store-Pushed :
      (r : Reassembler) (s : Stream) → IsReady r → IsStream s → Pushed n room (store r key s, none)
  store-Pushed r s v w = record {
    streams = AllValues-insert IsStream key s r.streams v.streams w;
    complete = λ a e. cc;
    counted = omega (arith, v.count);
    grows = omega (arith, v.fits, length-insert_any key s (new 0) r.streams);
  }

  try_parse-Pushed :
      (r : Reassembler) (s : Stream) (ps : ℕ × ℕ)
      → IsReady r
      → IsStream s
      → Pushed n room (try_parse decoders r key s ps)
  unfolding try_parse
  try_parse-Pushed r s ps v w =
      let len = contiguous s.buffered.filled in
      let app = app_from_payload decoders ps (take len s.buffered.buf) true in
      let released = store-Pushed r (finish s) v (finish-IsStream s w.start) in
      on_if (Pushed n room) (len == 0) _ _ (λ _. store-Pushed r s v w)
        λ _.
          on_if (Pushed n room) (is_complete app) _ _
            (λ c. record {
              streams = released.streams;
              complete = λ a e. cc;
              counted = omega (arith, v.count);
              grows = released.grows;
            })
            λ _.
              on_if (λ t. Pushed n room (store r key t, none)) (leb max_stream_bytes len) _ _
                (λ _. released) λ _. store-Pushed r s v w

  add_segment-Pushed :
      (r : Reassembler) (s : Stream) (offset : ℕ) (body : List ℕ) (ps : ℕ × ℕ)
      → IsReady r
      → s.done ≡ false
      → IsStream s
      → Pushed n room (add_segment decoders r key s offset body ps)
  unfolding add_segment
  add_segment-Pushed r s offset body ps v d w =
      let out = write s offset body in
      let s' = record out.0 { segments = s.segments + 1 } in
      let r' = record r { stats = count_conflict out.1 r.stats } in
      let ready : IsReady r' = record {
        streams = v.streams;
        count = recovered-count_conflict out.1 r ∙ v.count;
        fits = v.fits;
      } in
      let kept : ltb max_ranges (length s'.buffered.filled) ≡ false → IsStream s' = λ few. record {
        start = w.start;
        buffered = write-IsBuffered s offset body w;
        short = ground (arith, few);
        released = λ e. absurd (cc);
      } in
      on_if (Pushed n room) (ltb max_ranges (length s'.buffered.filled)) _ _
        (λ _. store-Pushed r' (finish s') ready (finish-IsStream s' w.start))
        λ few.
          on_if (Pushed n room) (ltb (s.segments + 1) 2) _ _
            (λ _. store-Pushed r' s' ready (kept few))
            λ _. try_parse-Pushed r' s' ps ready (kept few)

  on_data-Pushed :
      (r : Reassembler) (s : Stream) (seq : ℕ) (body : List ℕ) (ps : ℕ × ℕ)
      → seq < u32
      → IsReady r
      → IsStream s
      → Pushed n room (on_data decoders r key s seq body ps)
  unfolding on_data
  on_data-Pushed r s seq body ps h v w =
      let moved : s.done ≡ false → IsStream (move_start s seq) =
        λ d. move_start-IsStream s seq h d w in
      on_if (Pushed n room) s.done _ _ (λ _. store-Pushed r s v w)
        λ d.
          on_if (Pushed n room) (leb max_stream_bytes (wrapping_sub seq (move_start s seq).base)) _
            _ (λ _. store-Pushed r (move_start s seq) v (moved d))
            λ _.
              add_segment-Pushed r (move_start s seq) _ body ps v (move_start-done s seq ∙ d)
                (moved d)

-- A sequence number has 32 bits.
abbrev pub HasSeq : TransportLayer → Type 0
HasSeq (tcp t) = t.seq < u32
HasSeq _ = Unit {0}

module _ (decoders : Decoders) (r : Reassembler) (v : AllValues IsStream r.streams) where
  unchanged : (room : ℕ) → tracked r ≤ room → Pushed r.stats.recovered room (r, none)
  unchanged room h = record { streams = v; complete = λ a e. cc; counted = omega arith; grows = h }

  -- With a stream in the table nothing is added; without one there must be room.
  IsReady-found :
      (room : ℕ) (key : StreamKey) (s : Stream)
      → lookup key r.streams ≡ some s
      → tracked r ≤ room
      → IsReady decoders r.stats.recovered room key r
  IsReady-found room key s e h = record {
    streams = v;
    count = refl;
    fits = omega (arith, length-insert_old key (new 0) s r.streams e);
  }

  IsReady-new :
      (room : ℕ) (key : StreamKey)
      → lookup key r.streams ≡ none
      → tracked r < room
      → IsReady decoders r.stats.recovered room key r
  IsReady-new room key e h = record {
    streams = v;
    count = refl;
    fits = omega (arith, length-insert_new key (new 0) r.streams e);
  }

  -- The data path stays within the cap of the table, or its size when it was larger.
  on_payload-Pushed :
      (key : StreamKey) (seq : ℕ) (body : List ℕ) (ps : ℕ × ℕ)
      → seq < u32
      → Pushed r.stats.recovered
          (max (tracked r) max_tracked_streams)
          (on_payload decoders r key (lookup key r.streams) seq body ps)
  unfolding on_payload
  on_payload-Pushed key seq body ps h = elim (Option-cases (lookup key r.streams)) [
    | inl e ↦ rw e (
        on_if (Pushed r.stats.recovered (max (tracked r) max_tracked_streams))
          (leb max_tracked_streams (tracked r)) _ _
          (λ _. record {
            streams = v;
            complete = λ a e. cc;
            counted = omega arith;
            grows = omega arith;
          })
          λ few.
            on_data-Pushed decoders _ _ key r (new seq) seq body ps h
              (IsReady-new _ key e (ground (arith, few))) (new-IsStream seq h))
    | inr (s, e) ↦ rw e (
        on_data-Pushed decoders _ _ key r s seq body ps h (IsReady-found _ key s e (omega arith))
          (AllValues-lookup IsStream key r.streams s v e))
  ]

  finish_stream-Pushed :
      (key : StreamKey) → Pushed r.stats.recovered (tracked r) (finish_stream r key, none)
  unfolding finish_stream
  finish_stream-Pushed key = elim (Option-cases (lookup key r.streams)) [
    | inl e ↦ rw e (unchanged (tracked r) (omega arith))
    | inr (s, e) ↦ rw e (
        store-Pushed decoders _ _ key r (finish s) (IsReady-found _ key s e (omega arith))
          (finish-IsStream s (AllValues-lookup IsStream key r.streams s v e).start))
  ]

  on_syn-Pushed :
      (key : StreamKey) (seq : ℕ)
      → seq < u32
      → Pushed r.stats.recovered (tracked r + 1) (on_syn r key seq, none)
  unfolding on_syn
  on_syn-Pushed key seq h = elim (Option-cases (lookup key r.streams)) [
    | inl e ↦ rw e (
        store-Pushed decoders _ _ key r (seat (new (after_syn seq)) seq)
          (IsReady-new _ key e (omega arith))
          (seat-IsStream (new (after_syn seq)) seq (new-IsStream (after_syn seq) (omega arith))))
    | inr (s, e) ↦ rw e (
        store-Pushed decoders _ _ key r (seat s seq) (IsReady-found _ key s e (omega arith))
          (seat-IsStream s seq (AllValues-lookup IsStream key r.streams s v e)))
  ]

Pushed-mono :
    (n a b : ℕ) (out : Reassembler × Option AppLayer) → a ≤ b → Pushed n a out → Pushed n b out
Pushed-mono n a b out h p = record {
  streams = p.streams;
  complete = p.complete;
  counted = p.counted;
  grows = omega (arith, p.grows);
}

-- How many streams the table may hold after a segment: a SYN adds one to any table.
abbrev pub room_after : TransportLayer → ℕ → ℕ
room_after (tcp t) n = if has t.flags syn_flag then n + 1 else max n max_tracked_streams
room_after _ n = n

module _ (decoders : Decoders) (r : Reassembler) (pkt : DecodedPacket) (frame : List ℕ)
    (v : AllValues IsStream r.streams) where
  push_segment-Pushed :
      (key : StreamKey) (t : Tcp) (body : List ℕ)
      → t.seq < u32
      → Pushed r.stats.recovered
          (room_after (tcp t) (tracked r))
          (push_segment decoders r key t pkt body)
  unfolding push_segment
  push_segment-Pushed key t body h =
      let room = room_after (tcp t) (tracked r) in
      let more : tracked r ≤ room =
        on_if (λ m. tracked r ≤ m) (has t.flags syn_flag) (tracked r + 1)
          (max (tracked r) max_tracked_streams) (λ _. omega arith) λ _. omega arith in
      on_if (Pushed r.stats.recovered room)
        (has t.flags fin_flag || has t.flags rst_flag || is_complete pkt.app) _ _
        (λ _. Pushed-mono _ (tracked r) room _ more (finish_stream-Pushed decoders r v key))
        λ _.
          on_if (Pushed r.stats.recovered room) (has t.flags syn_flag) _ _
            (λ syn.
              Pushed-mono _ (tracked r + 1) room _ (rw syn (omega arith))
                (on_syn-Pushed decoders r v key t.seq h))
            λ syn.
              on_if (Pushed r.stats.recovered room) (length body == 0) _ _
                (λ _. unchanged decoders r v room more)
                λ _.
                  Pushed-mono _ (max (tracked r) max_tracked_streams) room _ (rw syn (omega arith))
                    (on_payload-Pushed decoders r v key t.seq body (ports_or_zero (ports pkt)) h)

  push_tcp-Pushed :
      (t : TransportLayer) (key : Option StreamKey)
      → HasSeq t
      → Pushed r.stats.recovered (room_after t (tracked r)) (push_tcp decoders r t key pkt frame)
  unfolding push_tcp
  push_tcp-Pushed (tcp t) (some key) h = push_segment-Pushed key t (payload pkt frame) h
  push_tcp-Pushed (tcp t) none h =
      on_if (λ m. Pushed r.stats.recovered m (r, none)) (has t.flags syn_flag) _ _
        (λ _. unchanged decoders r v _ (omega arith)) λ _. unchanged decoders r v _ (omega arith)
  push_tcp-Pushed (udp u) key h = unchanged decoders r v _ (omega arith)
  push_tcp-Pushed (icmp i) key h = unchanged decoders r v _ (omega arith)
  push_tcp-Pushed no_transport key h = unchanged decoders r v _ (omega arith)

  -- On a table whose streams are in order, and for a segment whose sequence number is below 2^32:
  -- `push` keeps every stream in order (its buffer within 16384 bytes and 16 ranges, and empty once it
  -- is done), returns a message only if it is complete, and counts it; the table grows by at most one
  -- stream on a SYN, and otherwise not past 1024 streams unless it already was.
  pub push-Pushed :
      HasSeq pkt.transport
      → Pushed r.stats.recovered (room_after pkt.transport (tracked r)) (push decoders r pkt frame)
  unfolding push
  push-Pushed h = push_tcp-Pushed pkt.transport (from_packet pkt) h

-- A SYN for a stream that is not in the table adds one to a table of any size, so MAX_TRACKED_STREAMS
-- does not bound the table.
pub tracked-on_syn :
    (r : Reassembler) (key : StreamKey) (seq : ℕ)
    → lookup key r.streams ≡ none
    → tracked (on_syn r key seq) ≡ tracked r + 1
unfolding on_syn
tracked-on_syn r key seq e = length-insert_new key _ r.streams e
