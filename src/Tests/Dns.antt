-- ===== src/Tests/Dns.antt =====
-- DNS messages.
use custom_built_network_ana.Base.{ℕ, List, [], ◌∷◌, ◌++◌, ◌+◌, ◌≤◌, ◌<◌, ◌≡◌, refl, arith, length}
use custom_built_network_ana.Error.{ok}
use custom_built_network_ana.Bytes.Ensures.{Yields}
use custom_built_network_ana.Tests.{bytes}
use custom_built_network_ana.Proto.{Text}
use custom_built_network_ana.Proto.Dns.Name.{read_name, render_name}
use custom_built_network_ana.Proto.Dns.Name.Sound.{read_name_lem}
use custom_built_network_ana.Proto.Dns.Name.RoundTrip.{encode_name, read_name-encode}
use custom_built_network_ana.Proto.Dns.Message.{parse_strict}
use custom_built_network_ana.Proto.Dns.Message.Sound.{IsMessage, parse_strict_lem}

-- A question for ab.c, and an answer whose name points at the question's.
abbrev reply : List ℕ
reply =
    0 ∷ 7 ∷ 129 ∷ 128 ∷ 0 ∷ 1 ∷ 0 ∷ 1 ∷ 0 ∷ 0 ∷ 0 ∷ 0 ∷ 2 ∷ 97 ∷ 98 ∷ 1 ∷ 99 ∷ 0 ∷ 0 ∷ 1 ∷ 0 ∷ 1
    ∷ 192 ∷ 12 ∷ 0 ∷ 1 ∷ 0 ∷ 1 ∷ 0 ∷ 0 ∷ 0 ∷ 60 ∷ 0 ∷ 4 ∷ 10 ∷ 0 ∷ 0 ∷ 9 ∷ []

parse_strict_lem_example : Yields (IsMessage reply) (parse_strict reply)
parse_strict_lem_example = parse_strict_lem reply (bytes reply refl)

read_name_lem_example :
    Yields (λ (x : Text × ℕ). (22 < x.1) × (x.1 ≤ length reply)) (read_name reply 22)
read_name_lem_example = read_name_lem reply 22 (bytes reply refl)

abbrev labels : List (List ℕ)
labels = (97 ∷ 98 ∷ []) ∷ (99 ∷ []) ∷ []

read_name-encode_example :
    read_name ((1 ∷ 2 ∷ []) ++ (encode_name labels ++ 7 ∷ [])) 2
    ≡ ok (render_name labels, 2 + length (encode_name labels))
read_name-encode_example =
    read_name-encode (1 ∷ 2 ∷ []) labels (7 ∷ [])
      (omega arith, omega arith, (omega arith, omega arith, tt)) (omega arith)
