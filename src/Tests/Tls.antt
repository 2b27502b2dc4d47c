-- ===== src/Tests/Tls.antt =====
-- A TLS record.
use custom_built_network_ana.Base.{ℕ, List, [], ◌∷◌, refl}
use custom_built_network_ana.Bytes.Ensures.{Yields}
use custom_built_network_ana.Tests.{bytes}
use custom_built_network_ana.Proto.{Text}
use custom_built_network_ana.Proto.Tls.{parse_strict}
use custom_built_network_ana.Proto.Tls.Sound.{IsFoundIn, parse_strict-IsFoundIn}

abbrev no_md5 : Text → List ℕ
no_md5 t = []

-- A client hello with two suites and an extension, one of the suites and the extension GREASE.
abbrev client_hello : List ℕ
client_hello =
    22 ∷ 3 ∷ 1 ∷ 0 ∷ 53 ∷ 1 ∷ 0 ∷ 0 ∷ 49 ∷ 3 ∷ 3 ∷ 0 ∷ 0 ∷ 0 ∷ 0 ∷ 0 ∷ 0 ∷ 0 ∷ 0 ∷ 0 ∷ 0 ∷ 0 ∷ 0 ∷ 0
    ∷ 0 ∷ 0 ∷ 0 ∷ 0 ∷ 0 ∷ 0 ∷ 0 ∷ 0 ∷ 0 ∷ 0 ∷ 0 ∷ 0 ∷ 0 ∷ 0 ∷ 0 ∷ 0 ∷ 0 ∷ 0 ∷ 0 ∷ 0 ∷ 0 ∷ 4 ∷ 10
    ∷ 10 ∷ 19 ∷ 1 ∷ 1 ∷ 0 ∷ 0 ∷ 4 ∷ 10 ∷ 10 ∷ 0 ∷ 0 ∷ []

parse_strict-IsFoundIn_example : Yields (IsFoundIn client_hello) (parse_strict no_md5 client_hello)
parse_strict-IsFoundIn_example =
    parse_strict-IsFoundIn no_md5 client_hello (bytes client_hello refl)
