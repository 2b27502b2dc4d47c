-- ===== src/Transport.antt =====
-- crates/cbna-core/src/transport.rs: TCP with the options that matter here, and UDP.
pub mod Options
pub mod Headers
pub mod Accepts
use text.Mathlib.Text.{◌==◌ as str_eq}
use custom_built_network_ana.Base.{
  ℕ, zero, suc, ◌+◌, ◌-◌, ◌*◌, ◌/◌, ◌%◌, bit_and, String, Bool, true, false, not, ◌&&◌, ◌||◌,
  Option, none, some, List, ltb, leb, ◌==◌,
}
use custom_built_network_ana.Error.{malformed, Outcome}
use custom_built_network_ana.Bytes.{
  Slice, Reader, Parser, ◌>>=◌, ◌>>◌, pure, branch, fail_if, lift, eval, attempt, new, remaining,
  u8, be_u16, be_u32, rest, sub, limit,
}

-- The bits of `TcpFlags`, which is its byte.
abbrev pub fin_flag : ℕ
fin_flag = 0x01

abbrev pub syn_flag : ℕ
syn_flag = 0x02

abbrev pub rst_flag : ℕ
rst_flag = 0x04

abbrev pub psh_flag : ℕ
psh_flag = 0x08

abbrev pub ack_flag : ℕ
ack_flag = 0x10

abbrev pub urg_flag : ℕ
urg_flag = 0x20

abbrev pub ece_flag : ℕ
ece_flag = 0x40

abbrev pub cwr_flag : ℕ
cwr_flag = 0x80

unfoldable pub has : ℕ → ℕ → Bool
has flags flag = not (bit_and flags flag == 0)

-- Connection opener: SYN without ACK.
unfoldable pub is_syn_only : ℕ → Bool
unfolding has
is_syn_only flags = has flags syn_flag && not (has flags ack_flag)

pub record TcpOptions : Type 0 where
  pub mss : Option ℕ
  pub window_scale : Option ℕ
  pub sack_permitted : Bool
  pub timestamps : Bool

abbrev pub default_options : TcpOptions
default_options = record {
  mss = none;
  window_scale = none;
  sack_permitted = false;
  timestamps = false;
}

pub record Tcp : Type 0 where
  pub src_port : ℕ
  pub dst_port : ℕ
  pub seq : ℕ
  pub ack : ℕ
  pub flags : ℕ
  pub window : ℕ
  pub checksum : ℕ
  pub urgent : ℕ
  pub data_offset : ℕ
  pub options : TcpOptions

-- How one round of the option loop ends: by `break`, or with another round to come.
pub data Walk : Type 0 where
  stop : TcpOptions → Walk
  more : TcpOptions → Walk

unfoldable pub walk_on : (TcpOptions → Parser TcpOptions) → Walk → Parser TcpOptions
walk_on again (stop out) = pure out
walk_on again (more out) = again out

-- The `match kind` on an option's data, whose reader is dropped afterwards.
unfoldable pub store_option : ℕ → TcpOptions → Reader → Parser TcpOptions
store_option kind out data_reader =
    branch (kind == 2)
      (lift (eval (attempt be_u16) data_reader) >>= λ v. pure (record out { mss = v }))
      (branch (kind == 3)
        (lift (eval (attempt u8) data_reader) >>= λ v. pure (record out { window_scale = v }))
        (branch (kind == 4) (pure (record out { sack_permitted = true }))
          (branch (kind == 8) (pure (record out { timestamps = true })) (pure out))))

-- The option's data, or `break` if the walk runs off the end.
unfoldable pub option_data : ℕ → TcpOptions → Option Reader → Parser Walk
option_data kind out none = pure (stop out)
option_data kind out (some data_reader) = do
  out' ← store_option kind out data_reader
  pure (more out')

-- The length byte, which counts the kind byte and itself.
unfoldable pub option_length : ℕ → TcpOptions → Option ℕ → Parser Walk
option_length kind out none = pure (stop out)
option_length kind out (some l) =
    branch (leb 2 l) (attempt (sub (l - 2) "tcp option") >>= option_data kind out) (pure (stop out))

unfoldable pub option_kind : TcpOptions → Option ℕ → Parser Walk
option_kind out none = pure (stop out)
option_kind out (some kind) =
    branch (kind == 0) (pure (stop out))
      (branch (kind == 1) (pure (more out)) (attempt u8 >>= option_length kind out))

-- One round of `while let Ok(kind) = r.u8()`.
unfoldable pub option_step : TcpOptions → Parser Walk
option_step out = attempt u8 >>= option_kind out

-- The loop, on fuel for the rounds.
unfoldable pub walk_options : ℕ → TcpOptions → Parser TcpOptions
walk_options zero out = pure out
walk_options (suc fuel) out = option_step out >>= walk_on (walk_options fuel)

-- Every round takes a byte at least, so the bytes that remain bound the rounds.
unfoldable pub parse_tcp_options : Parser TcpOptions
parse_tcp_options r = walk_options (suc (remaining r)) default_options r

unfoldable pub tcp_options : ℕ → Parser TcpOptions
tcp_options options_len =
    branch (ltb 0 options_len)
      (do opt_reader ← sub options_len "tcp options"; lift (eval parse_tcp_options opt_reader))
      (pure default_options)

unfoldable pub tcp_parser : Parser (Tcp × Slice)
tcp_parser = do
  src_port ← be_u16
  dst_port ← be_u16
  seq ← be_u32
  ack ← be_u32
  offset_flags ← be_u16
  let data_offset = offset_flags / 4096
  fail_if (ltb data_offset 5) (malformed "tcp" "data offset below the 20-byte minimum")
  window ← be_u16
  checksum ← be_u16
  urgent ← be_u16
  options ← tcp_options (data_offset * 4 - 20)
  payload ← rest
  pure (
    record {
      src_port = src_port;
      dst_port = dst_port;
      seq = seq;
      ack = ack;
      flags = offset_flags % 256;
      window = window;
      checksum = checksum;
      urgent = urgent;
      data_offset = data_offset;
      options = options;
    },
    payload,
  )

unfoldable pub parse_tcp : List ℕ → Outcome (Tcp × Slice)
parse_tcp buf = eval tcp_parser (new buf "tcp")

pub record Udp : Type 0 where
  pub src_port : ℕ
  pub dst_port : ℕ
  pub length : ℕ
  pub checksum : ℕ

-- The length field is trusted only from 8 on, since it counts the header.
unfoldable pub udp_limit : ℕ → Parser (Unit {0})
udp_limit n = branch (leb 8 n) (limit (n - 8)) (pure tt)

unfoldable pub udp_parser : Parser (Udp × Slice)
udp_parser = do
  src_port ← be_u16
  dst_port ← be_u16
  len ← be_u16
  checksum ← be_u16
  udp_limit len
  payload ← rest
  pure (
    record { src_port = src_port; dst_port = dst_port; length = len; checksum = checksum },
    payload,
  )

unfoldable pub parse_udp : List ℕ → Outcome (Udp × Slice)
parse_udp buf = eval udp_parser (new buf "udp")
