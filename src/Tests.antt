-- ===== src/Tests.antt =====
-- The theorems at concrete inputs.
mod Headers
mod Streams
mod Frames
mod Flows
mod Dns
mod Tls
mod Captures
mod Indicators
mod Dates
use custom_built_network_ana.Base.{ℕ, Bool, true, ◌&&◌, List, [], ◌∷◌, ◌≡◌, none, arith, ltb}
use custom_built_network_ana.Bytes.Ensures.{AreBytes}
use custom_built_network_ana.Proto.{Decoders}

abbrev pub are_bytes : List ℕ → Bool
are_bytes [] = true
are_bytes (b ∷ bs) = ltb b 256 && are_bytes bs

pub bytes : (xs : List ℕ) → are_bytes xs ≡ true → AreBytes xs
bytes [] h = tt
bytes (b ∷ bs) h = (ground arith, bytes bs (ground arith))

-- Decoders that read nothing.
abbrev pub no_decoders : Decoders
no_decoders = record { dns = λ b. none; tls = λ b. none; http = λ b. none }
