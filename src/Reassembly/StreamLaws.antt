-- ===== src/Reassembly/StreamLaws.antt =====
-- The invariant of a stream, which every operation on it keeps.
use custom_built_network_ana.Base.{
  ℕ, ◌≤◌, ◌<◌, true, false, not, ◌&&◌, List, ◌≡◌, refl, arith, ltb, leb, length, on_if,
}
use custom_built_network_ana.Buffered.{IsBuffered}
use custom_built_network_ana.Buffered.Invariant.{write_lem}
use custom_built_network_ana.Reassembly.{
  max_stream_bytes, max_ranges, u32, wrapping_sub, Stream, no_bytes, new, finish, seat, move_start,
  write,
}
use custom_built_network_ana.Reassembly.Rebase.{rebase-IsBuffered, length-rebase_filled}

-- A stream starts at a 32-bit number, its buffer is in order and within the cap, a list of ranges is
-- as short as the source wants it, and a finished stream has released its buffer.
pub record IsStream (s : Stream) : Type 0 where
  pub start : s.base < u32
  pub buffered : IsBuffered max_stream_bytes s.buffered
  pub short : length s.buffered.filled ≤ max_ranges
  pub released : s.done ≡ true → s.buffered ≡ no_bytes

pub no_bytes-IsBuffered : (cap : ℕ) → IsBuffered cap no_bytes
no_bytes-IsBuffered cap = record { ranges = tt; inside = tt; bounded = omega arith }

pub new-IsStream : (base : ℕ) → base < u32 → IsStream (new base)
unfolding new
new-IsStream base h = record {
  start = h;
  buffered = no_bytes-IsBuffered max_stream_bytes;
  short = omega arith;
  released = λ e. refl;
}

pub finish-IsStream : (s : Stream) → s.base < u32 → IsStream (finish s)
unfolding finish
finish-IsStream s h = record {
  start = h;
  buffered = no_bytes-IsBuffered max_stream_bytes;
  short = omega arith;
  released = λ e. refl;
}

pub seat-IsStream : (s : Stream) (seq : ℕ) → IsStream s → IsStream (seat s seq)
unfolding seat
seat-IsStream s seq v =
    on_if IsStream s.done s _ (λ _. v)
      λ d. record {
        start = omega arith;
        buffered = v.buffered;
        short = v.short;
        released = λ e. v.released e;
      }

pub move_start-IsStream :
    (s : Stream) (seq : ℕ) → seq < u32 → s.done ≡ false → IsStream s → IsStream (move_start s seq)
unfolding move_start
move_start-IsStream s seq h d v =
    let back = wrapping_sub s.base seq in
    on_if IsStream (not s.syn_based && ltb 0 back && leb back max_stream_bytes) _ s
      (λ t. record {
        start = h;
        buffered = rebase-IsBuffered back s (ground (arith, t)) v.buffered;
        short = omega (arith, length-rebase_filled back s, v.short);
        released = λ e. absurd (ground (arith, d, e));
      })
      λ _. v

pub move_start-done : (s : Stream) (seq : ℕ) → (move_start s seq).done ≡ s.done
unfolding move_start
move_start-done s seq = on_if (λ t. t.done ≡ s.done) _ _ s (λ _. refl) λ _. refl

pub write-IsBuffered :
    (s : Stream) (offset : ℕ) (body : List ℕ)
    → IsStream s
    → IsBuffered max_stream_bytes (write s offset body).0.buffered
unfolding write
write-IsBuffered s offset body v =
    (write_lem max_stream_bytes s.buffered offset body v.buffered).valid
