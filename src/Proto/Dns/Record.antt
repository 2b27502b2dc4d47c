-- ===== src/Proto/Dns/Record.antt =====
-- crates/cbna-core/src/proto/dns.rs, `render_rdata`: what is kept of a record's data.
pub mod Sound
use custom_built_network_ana.Base.{
  ℕ, zero, suc, ◌+◌, ◌-◌, ◌*◌, ◌/◌, ◌%◌, Bool, true, false, ◌&&◌, ◌||◌, Option, none, some, List,
  [], ◌∷◌, ◌++◌, ltb, leb, ◌==◌, if◌then◌else◌, length, drop, min,
}
use custom_built_network_ana.Error.{Outcome, ok, err, panic, ◌>>=◌}
use custom_built_network_ana.Bytes.{index, slice}
use custom_built_network_ana.Proto.{
  Text, RData, ipv4_address, ipv6_address, host, exchange, malformed_name, strings, opaque,
}
use custom_built_network_ana.Proto.Utf8.{from_utf8_lossy}
use custom_built_network_ana.Proto.Dns.Name.{read_name}

-- The loop of a TXT record from `i` on. A round takes a byte at least, and a loop that ran out of rounds
-- would be a panic.
unfoldable pub txt_parts : ℕ → List ℕ → ℕ → Outcome (List Text)
unfolding ◌>>=◌ index slice
txt_parts zero rdata i = panic
txt_parts (suc fuel) rdata i = if leb (length rdata) i then ok [] else do
  len ← index rdata i
  if ltb (length rdata) (i + 1 + len) then ok [] else do
    part ← slice rdata (i + 1) (i + 1 + len)
    parts ← txt_parts fuel rdata (i + 1 + len)
    ok (from_utf8_lossy part ∷ parts)

-- `unwrap_or_else(|_| "<malformed>")`
abbrev pub or_malformed : (Text → RData) → Outcome (Text × ℕ) → Outcome RData
or_malformed make (ok (name, next)) = ok (make name)
or_malformed make (err e) = ok malformed_name
or_malformed make panic = panic

unfoldable pub render_rdata : List ℕ → ℕ → List ℕ → ℕ → Outcome RData
unfolding ◌>>=◌ read_name txt_parts index
render_rdata msg rtype rdata start =
    if rtype == 1 && length rdata == 4
    then ok (ipv4_address rdata)
    else if rtype == 28 && length rdata == 16
    then ok (ipv6_address rdata)
    else if rtype == 2 || rtype == 5 || rtype == 12
    then or_malformed host (read_name msg start)
    else if rtype == 15 && ltb 2 (length rdata)
    then (do
      a ← index rdata 0
      b ← index rdata 1
      or_malformed (λ name. exchange name (a * 256 + b)) (read_name msg (start + 2)))
    else if rtype == 16
    then (do parts ← txt_parts (suc (length rdata)) rdata 0; ok (strings parts))
    else ok (opaque (length rdata))
