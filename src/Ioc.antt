-- ===== src/Ioc.antt =====
-- crates/cbna-core/src/ioc.rs: the matcher of indicators. A text is its bytes. How addresses and numbers are
-- read and printed is the standard library's, the argument `std`.
pub mod Domain
pub mod Octets
pub mod Prefix
pub mod Sound
pub mod Suffix
use custom_built_network_ana.Base.{
  ℕ, zero, suc, ◌+◌, ◌-◌, ◌*◌, ◌/◌, ◌%◌, ◌^◌, bit_and, Bool, true, false, not, ◌&&◌, ◌||◌, Option,
  none, some, List, [], ◌∷◌, ◌++◌, map, ltb, leb, ◌==◌, if◌then◌else◌, length, lookup, insert, Eq,
}
use custom_built_network_ana.Error.{Outcome, ok, err, panic, ◌>>=◌}
use custom_built_network_ana.Bytes.{index, slice}
use custom_built_network_ana.Net.{IpAddr, v4, v6}
use custom_built_network_ana.Flow.{octets_eq, ip_eq}
use custom_built_network_ana.Flow.Canonical.{octets_eq_iff, ip_eq_iff}
use custom_built_network_ana.Proto.{Text}
use custom_built_network_ana.Ioc.Domain.{
  has, split_once, lower, trim_end_dots, is_ja3, normalise_domain, is_none,
}

instance abbrev pub text_Eq : Eq Text
text_Eq = record { beq = octets_eq; beq_iff = octets_eq_iff }

instance abbrev pub ip_Eq : Eq IpAddr
ip_Eq = record { beq = ip_eq; beq_iff = ip_eq_iff }

pub record Std : Type 0 where
  pub parse_ip : Text → Option IpAddr
  pub show_ip : IpAddr → Text
  pub parse_u8 : Text → Option ℕ

pub data IocKind : Type 0 where
  ip cidr domain ja3_hash : IocKind

pub record Provenance : Type 0 where
  pub source : Text
  pub tag : Option Text

pub record SourceInfo : Type 0 where
  pub source : Text
  pub fetched_at : Option Text
  pub indicators : ℕ

pub record IocMatch : Type 0 where
  pub indicator : Text
  pub source : Text
  pub tag : Option Text

pub record Cidr : Type 0 where
  pub base : IpAddr
  pub bits : ℕ
  pub text : Text

-- The last byte of a prefix, up to `rem` bits of it: `0xffu8 << (8 - rem)`.
abbrev pub mask : ℕ → ℕ
mask rem = 255 * 2 ^ (8 - rem) % 256

unfoldable pub partial_eq : List ℕ → List ℕ → ℕ → Outcome Bool
partial_eq a b bits =
    if bits % 8 == 0
    then ok true
    else (index a (bits / 8) >>= λ x.
        index b (bits / 8) >>= λ y. ok (bit_and x (mask (bits % 8)) == bit_and y (mask (bits % 8))))

unfoldable pub prefix_eq : List ℕ → List ℕ → ℕ → Outcome Bool
prefix_eq a b bits = slice a 0 (bits / 8) >>= λ x.
    slice b 0 (bits / 8) >>= λ y. if not (octets_eq x y) then ok false else partial_eq a b bits

unfoldable pub contains_in : IpAddr → ℕ → IpAddr → Outcome Bool
contains_in (v4 base) bits (v4 a) = prefix_eq base a bits
contains_in (v6 base) bits (v6 a) = prefix_eq base a bits
contains_in _ bits _ = ok false

abbrev pub contains : Cidr → IpAddr → Outcome Bool
contains c a = contains_in c.base c.bits a

pub record IocSet : Type 0 where
  pub ips : List (IpAddr × Provenance)
  pub cidrs : List (Cidr × Provenance)
  pub domains : List (Text × Provenance)
  pub ja3 : List (Text × Provenance)
  pub current_source : Text
  pub manifest : List SourceInfo

-- `Default`, whose source is called manual.
unfoldable pub default_set : IocSet
default_set = record {
  ips = [];
  cidrs = [];
  domains = [];
  ja3 = [];
  current_source = 109 ∷ 97 ∷ 110 ∷ 117 ∷ 97 ∷ 108 ∷ [];
  manifest = [];
}

abbrev pub max_indicators : ℕ
max_indicators = 4000000

abbrev pub len : IocSet → ℕ
len set = length set.ips + length set.cidrs + length set.domains + length set.ja3

unfoldable pub set_source : IocSet → Text → IocSet
set_source set source = record set { current_source = source }

unfoldable pub add_source_info : IocSet → SourceInfo → IocSet
add_source_info set info = record set { manifest = set.manifest ++ info ∷ [] }

-- `extend` of a hash map, whose incoming values win.
unfoldable pub extend_map {ℓ κ} :
    {K : Type ℓ} {V : Type κ} ⦃e : Eq K⦄ → List (K × V) → List (K × V) → List (K × V)
extend_map m [] = m
extend_map m ((k, v) ∷ other) = extend_map (insert k v m) other

unfoldable pub extend : IocSet → IocSet → IocSet
unfolding extend_map
extend set other = record {
  ips = extend_map set.ips other.ips;
  cidrs = set.cidrs ++ other.cidrs;
  domains = extend_map set.domains other.domains;
  ja3 = extend_map set.ja3 other.ja3;
  current_source = set.current_source;
  manifest = set.manifest ++ other.manifest;
}

pub data IocError : Type 0 where
  unrecognised full : IocError

-- `Result<IocKind, IocError>`, with the set that it leaves.
pub data Insertion : Type 0 where
  added : IocKind → IocSet → Insertion
  refused : IocError → Insertion

unfoldable pub matched : Provenance → Text → IocMatch
matched p indicator = record { indicator = indicator; source = p.source; tag = p.tag }

abbrev pub max_bits : IpAddr → ℕ
max_bits (v4 o) = 32
max_bits (v6 o) = 128

unfoldable pub match_cidrs : IpAddr → List (Cidr × Provenance) → Outcome (Option IocMatch)
match_cidrs a [] = ok none
match_cidrs a ((c, meta) ∷ cs) =
    let rest : Outcome (Option IocMatch) = match_cidrs a cs in
    contains c a >>= λ found. if found then ok (some (matched meta c.text)) else rest

module _ (std : Std) where
  unfoldable pub cidr_of : Text → Option IpAddr → Option ℕ → Option Cidr
  cidr_of token (some base) (some bits) =
      if ltb (max_bits base) bits
      then none
      else some (record { base = base; bits = bits; text = token })
  cidr_of token _ _ = none

  unfoldable pub cidr_parts : Text → Option (Text × Text) → Option Cidr
  cidr_parts token none = none
  cidr_parts token (some (base, bits)) = cidr_of token (std.parse_ip base) (std.parse_u8 bits)

  unfoldable pub parse_cidr : Text → Option Cidr
  parse_cidr token = cidr_parts token (split_once 47 token)

  unfoldable pub insert_cidr : IocSet → Provenance → Option Cidr → Insertion
  insert_cidr set meta none = refused unrecognised
  insert_cidr set meta (some c) = added cidr (record set { cidrs = set.cidrs ++ (c, meta) ∷ [] })

  unfoldable pub insert_domain : IocSet → Provenance → Option Text → Insertion
  insert_domain set meta none = refused unrecognised
  insert_domain set meta (some d) =
      added domain (record set { domains = insert d meta set.domains })

  unfoldable pub insert_name : IocSet → Provenance → Text → Insertion
  insert_name set meta token =
      if is_ja3 token
      then added ja3_hash (record set { ja3 = insert (map lower token) meta set.ja3 })
      else insert_domain set meta (normalise_domain token)

  unfoldable pub insert_ip : IocSet → Provenance → Text → Option IpAddr → Insertion
  insert_ip set meta token none = insert_name set meta token
  insert_ip set meta token (some a) = added ip (record set { ips = insert a meta set.ips })

  unfoldable pub insert_token : IocSet → Provenance → Text → Insertion
  insert_token set meta token =
      if has 47 token
      then insert_cidr set meta (parse_cidr token)
      else insert_ip set meta token (std.parse_ip token)

  unfoldable pub insert_tagged : IocSet → Text → Option Text → Insertion
  insert_tagged set token tag =
      if leb max_indicators (len set)
      then refused full
      else insert_token set (record { source = set.current_source; tag = tag }) token

  unfoldable pub match_exact : IocSet → IpAddr → Option Provenance → Outcome (Option IocMatch)
  match_exact set a (some meta) = ok (some (matched meta (std.show_ip a)))
  match_exact set a none = match_cidrs a set.cidrs

  unfoldable pub match_ip : IocSet → IpAddr → Outcome (Option IocMatch)
  match_ip set a = match_exact set a (lookup a set.ips)

-- A round of the walk over the name and its parents.
unfoldable pub on_listed :
    Text
    → Option Provenance
    → Option (Text × Text)
    → (Text → Outcome (Option IocMatch))
    → Outcome (Option IocMatch)
on_listed hay (some meta) cut again = ok (some (matched meta hay))
on_listed hay none none again = ok none
on_listed hay none (some (label, rest)) again = again rest

unfoldable pub parents : ℕ → List (Text × Provenance) → Text → Outcome (Option IocMatch)
parents zero domains hay = panic
parents (suc n) domains hay =
    on_listed hay (lookup hay domains) (split_once 46 hay) (parents n domains)

unfoldable pub match_name : List (Text × Provenance) → Text → Outcome (Option IocMatch)
match_name domains [] = ok none
match_name domains (b ∷ name) = parents (suc (length (b ∷ name))) domains (b ∷ name)

unfoldable pub match_domain : IocSet → Text → Outcome (Option IocMatch)
match_domain set name =
    if is_none set.domains then ok none else match_name set.domains (map lower (trim_end_dots name))

abbrev pub match_hash : Text → Option Provenance → Option IocMatch
match_hash h none = none
match_hash h (some meta) = some (matched meta h)

unfoldable pub match_ja3 : IocSet → Text → Option IocMatch
match_ja3 set hash =
    if is_none set.ja3 then none else match_hash (map lower hash) (lookup (map lower hash) set.ja3)
