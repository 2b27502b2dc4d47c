-- ===== src/Packet/App.antt =====
-- crates/cbna-core/src/packet.rs, `app_from_payload`: which decoder reads a payload.
use custom_built_network_ana.Base.{
  ℕ, ◌-◌, Bool, not, ◌&&◌, ◌||◌, Option, none, some, List, [], ◌∷◌, ltb, ◌==◌, if◌then◌else◌,
  length, take, drop,
}
use custom_built_network_ana.Bytes.{from_be}
use custom_built_network_ana.Packet.{AppLayer, dns, http, tls, no_app}
use custom_built_network_ana.Proto.{Decoders}

is_dns_port : ℕ → Bool
is_dns_port p = p == 53 || p == 5353 || p == 5355

-- The bare message behind a 2-byte length, if the length accounts for the rest of the payload.
unfoldable pub strip_prefix : List ℕ → Bool → Option (List ℕ)
strip_prefix body is_tcp =
    if is_tcp && ltb 2 (length body)
    then if from_be 0 (take 2 body) == length body - 2 then some (drop 2 body) else none
    else none

abbrev and_then {ℓ κ} : {A : Type ℓ} {B : Type κ} → Option A → (A → Option B) → Option B
and_then none f = none
and_then (some a) f = f a

abbrev or_else {ℓ} : {A : Type ℓ} → Option A → Option A → Option A
or_else none b = b
or_else (some a) b = some a

-- The first decoder that reads the payload, as an application layer.
abbrev first_app {ℓ} : {A : Type ℓ} → Option A → (A → AppLayer) → AppLayer → AppLayer
first_app none f rest = rest
first_app (some a) f rest = f a

module _ (decoders : Decoders) where
  unfoldable pub app_from_payload : ℕ × ℕ → List ℕ → Bool → AppLayer
  unfolding is_dns_port strip_prefix
  app_from_payload (sp, dp) [] is_tcp = no_app
  app_from_payload (sp, dp) (b ∷ bs) is_tcp =
      let body = b ∷ bs in
      let decoded =
        or_else (and_then (strip_prefix body is_tcp) decoders.dns) (decoders.dns body) in
      let stream = first_app (decoders.tls body) tls (first_app (decoders.http body) http no_app) in
      let others = if not is_tcp then no_app else stream in
      if is_dns_port sp || is_dns_port dp then first_app decoded dns others else others
