-- ===== src/Proto/Dns/Name.antt =====
-- crates/cbna-core/src/proto/dns.rs, `read_name`: names with compression. The bits of a length byte are
-- written as quotients and remainders; a loop that ran out of rounds would be a panic.
pub mod Sound
pub mod RoundTrip
use custom_built_network_ana.Base.{
  ℕ, zero, suc, ◌+◌, ◌-◌, ◌*◌, ◌/◌, ◌%◌, Bool, true, false, ◌&&◌, ◌||◌, Option, none, some, List,
  [], ◌∷◌, ◌++◌, ltb, leb, ◌==◌, if◌then◌else◌, length, drop, min,
}
use custom_built_network_ana.Error.{truncated, malformed, Outcome, ok, err, panic, ◌>>=◌}
use custom_built_network_ana.Bytes.{index, slice}
use custom_built_network_ana.Proto.{Text}
use custom_built_network_ana.Proto.Utf8.{from_utf8_lossy}

-- The variables of the loop of `read_name`.
pub record Walk : Type 0 where
  pub labels : List (List ℕ)
  pub offset : ℕ
  pub after_first_pointer : Option ℕ
  pub jumps : ℕ

-- How a round ends: by `break`, or with another to come.
pub data Round : Type 0 where
  stop more : Walk → Round

abbrev pub max_jumps : ℕ
max_jumps = 16

abbrev pub max_labels : ℕ
max_labels = 127

-- `get_or_insert`
abbrev pub get_or_insert : Option ℕ → ℕ → Option ℕ
get_or_insert none n = some n
get_or_insert (some m) n = some m

-- A pointer of the bytes `len` and `low`.
unfoldable pub jump : List ℕ → Walk → ℕ → ℕ → Outcome Round
jump msg w len low =
    let target = len % 64 * 256 + low in
    let jumps = w.jumps + 1 in
    if ltb max_jumps jumps || leb (length msg) target || leb w.offset target
    then err (malformed "dns name" "cyclic compression pointer")
    else ok (
        more (record w {
          offset = target;
          after_first_pointer = get_or_insert w.after_first_pointer (w.offset + 2);
          jumps = jumps;
        }))

unfoldable pub pointer : List ℕ → Walk → ℕ → Outcome Round
unfolding ◌>>=◌ index jump
pointer msg w len =
    if leb (length msg) (w.offset + 1)
    then err (malformed "dns name" "truncated pointer")
    else index msg (w.offset + 1) >>= jump msg w len

unfoldable pub push_label : Walk → ℕ → List ℕ → Outcome Round
push_label w len label =
    let labels = w.labels ++ label ∷ [] in
    if ltb max_labels (length labels)
    then err (malformed "dns name" "too many labels")
    else ok (more (record w { labels = labels; offset = w.offset + 1 + len }))

unfoldable pub read_label : List ℕ → Walk → ℕ → Outcome Round
unfolding ◌>>=◌ slice push_label
read_label msg w len =
    if ltb (length msg) (w.offset + 1 + len)
    then err (truncated "dns name" len (length msg - (w.offset + 1)))
    else slice msg (w.offset + 1) (w.offset + 1 + len) >>= push_label w len

unfoldable pub read_length : List ℕ → Walk → ℕ → Outcome Round
unfolding pointer read_label
read_length msg w len =
    if len / 64 == 3
    then pointer msg w len
    else if ltb 0 (len / 64)
    then err (malformed "dns name" "reserved label type")
    else if len == 0
    then ok (stop (record w { offset = w.offset + 1 }))
    else read_label msg w len

unfoldable pub name_round : List ℕ → Walk → Outcome Round
unfolding ◌>>=◌ index read_length
name_round msg w =
    if leb (length msg) w.offset
    then err (truncated "dns name" 1 0)
    else index msg w.offset >>= read_length msg w

unfoldable pub walk_on : (Walk → Outcome Walk) → Round → Outcome Walk
walk_on again (stop w) = ok w
walk_on again (more w) = again w

unfoldable pub walk_name : ℕ → List ℕ → Walk → Outcome Walk
unfolding ◌>>=◌ walk_on name_round
walk_name zero msg w = panic
walk_name (suc fuel) msg w = name_round msg w >>= walk_on (walk_name fuel msg)

-- A jump or a label in each round but the last.
abbrev pub name_fuel : ℕ
name_fuel = suc (max_jumps + max_labels)

unfoldable pub join : List Text → Text
join [] = []
join (x ∷ []) = x
join (x ∷ y ∷ ys) = x ++ 46 ∷ join (y ∷ ys)

abbrev pub texts : List (List ℕ) → List Text
texts [] = []
texts (x ∷ xs) = from_utf8_lossy x ∷ texts xs

unfoldable pub render_name : List (List ℕ) → Text
unfolding join
render_name [] = 46 ∷ []
render_name (x ∷ xs) = join (texts (x ∷ xs))

abbrev pub unwrap_or : Option ℕ → ℕ → ℕ
unwrap_or none n = n
unwrap_or (some m) n = m

abbrev pub at : ℕ → Walk
at start = record { labels = []; offset = start; after_first_pointer = none; jumps = 0 }

unfoldable pub read_name : List ℕ → ℕ → Outcome (Text × ℕ)
unfolding ◌>>=◌ walk_name render_name
read_name msg start = do
  w ← walk_name name_fuel msg (at start)
  ok (render_name w.labels, unwrap_or w.after_first_pointer w.offset)
