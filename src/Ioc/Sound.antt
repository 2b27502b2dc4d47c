-- ===== src/Ioc/Sound.antt =====
-- Addresses are matched without a panic, and the set keeps within its cap.
use custom_built_network_ana.Base.{
  ℕ, ◌+◌, ◌≤◌, ◌<◌, Bool, true, false, Option, none, some, List, [], ◌∷◌, ◌++◌, map, ◌≡◌, inl, inr,
  refl, arith, leb, ltb, if◌then◌else◌, length, lookup, insert, length-append, length-insert_new,
  length-insert_old, Option-cases, on_if, Eq,
}
use custom_built_network_ana.Error.{Outcome, ok}
use custom_built_network_ana.Outcomes.Gives.{Gives, gives, then-Gives, weaken-Gives}
use custom_built_network_ana.Net.{IpAddr, v4, v6}
use custom_built_network_ana.Bytes.Ensures.{AreBytes}
use custom_built_network_ana.Ioc.Prefix.{Agree, Answers, by_test, prefix_eq-Gives}
use custom_built_network_ana.Proto.{Text}
use custom_built_network_ana.Ioc.Domain.{lower, has, split_once, is_ja3, normalise_domain}
use custom_built_network_ana.Ioc.{
  text_Eq, ip_Eq, Std, Provenance, IocMatch, Cidr, contains_in, contains, IocSet, max_indicators,
  len, Insertion, added, refused, matched, max_bits, cidr_of, cidr_parts, parse_cidr, insert_cidr,
  insert_domain, insert_name, insert_ip, insert_token, insert_tagged, match_cidrs, match_exact,
  match_ip,
}

-- An address of 4 bytes or of 16.
abbrev pub IsAddress : IpAddr → Type 0
IsAddress (v4 o) = length o ≡ 4
IsAddress (v6 o) = length o ≡ 16

-- A range whose prefix is no longer than its address.
pub record IsCidr (c : Cidr) : Type 0 where
  pub base : IsAddress c.base
  pub width : c.bits ≤ max_bits c.base

abbrev pub AreCidrs : List (Cidr × Provenance) → Type 0
AreCidrs [] = Unit {0}
AreCidrs ((c, meta) ∷ cs) = IsCidr c × AreCidrs cs

pub record IsIocSet (set : IocSet) : Type 0 where
  pub cidrs : AreCidrs set.cidrs
  pub cap : len set ≤ max_indicators

-- The octets of an address are bytes.
abbrev pub HasOctets : IpAddr → Type 0
HasOctets (v4 o) = AreBytes o
HasOctets (v6 o) = AreBytes o

abbrev pub HaveOctets : List (Cidr × Provenance) → Type 0
HaveOctets [] = Unit {0}
HaveOctets ((c, meta) ∷ cs) = HasOctets c.base × HaveOctets cs

-- An address is in a range of the same family, where its first bits are those of the base.
pub data InRange : IpAddr → ℕ → IpAddr → Type 0 where
  in_v4 : {b a : List ℕ} {bits : ℕ} → Agree bits b a → InRange (v4 b) bits (v4 a)
  in_v6 : {b a : List ℕ} {bits : ℕ} → Agree bits b a → InRange (v6 b) bits (v6 a)

out_of_v4 : {b a : List ℕ} {bits : ℕ} → InRange (v4 b) bits (v4 a) → Agree bits b a
out_of_v4 (in_v4 h) = h

out_of_v6 : {b a : List ℕ} {bits : ℕ} → InRange (v6 b) bits (v6 a) → Agree bits b a
out_of_v6 (in_v6 h) = h

not_v6 : {b a : List ℕ} {bits : ℕ} → ¬ InRange (v4 b) bits (v6 a)
not_v6 h = elim h [ ]

not_v4 : {b a : List ℕ} {bits : ℕ} → ¬ InRange (v6 b) bits (v4 a)
not_v4 h = elim h [ ]

contains_in-Gives :
    (base : IpAddr) (bits : ℕ) (a : IpAddr)
    → IsAddress base
    → HasOctets base
    → bits ≤ max_bits base
    → IsAddress a
    → HasOctets a
    → Gives (Answers (InRange base bits a)) (contains_in base bits a)
unfolding contains_in
contains_in-Gives (v4 b) bits (v4 a) p m h q l =
    weaken-Gives (prefix_eq-Gives b a bits 4 p q h m l) λ t f. by_test t f in_v4 out_of_v4
contains_in-Gives (v4 b) bits (v6 a) p m h q l = gives not_v6
contains_in-Gives (v6 b) bits (v4 a) p m h q l = gives not_v4
contains_in-Gives (v6 b) bits (v6 a) p m h q l =
    weaken-Gives (prefix_eq-Gives b a bits 16 p q h m l) λ t f. by_test t f in_v6 out_of_v6

-- The first range that the address is in, if it is in one.
pub data IsFirst (a : IpAddr) : List (Cidr × Provenance) → Option IocMatch → Type 0 where
  no_range : IsFirst a [] none
  in_range :
      {c : Cidr} {meta : Provenance} {cs : List (Cidr × Provenance)}
      → InRange c.base c.bits a
      → IsFirst a ((c, meta) ∷ cs) (some (matched meta c.text))
  out_of_range :
      {c : Cidr} {meta : Provenance} {cs : List (Cidr × Provenance)} {o : Option IocMatch}
      → ¬ InRange c.base c.bits a
      → IsFirst a cs o
      → IsFirst a ((c, meta) ∷ cs) o

module _ (a : IpAddr) (w : IsAddress a) (l : HasOctets a) where
  on_contains :
      (c : Cidr) (meta : Provenance) (cs : List (Cidr × Provenance)) (found : Bool)
      (rest : Outcome (Option IocMatch))
      → Answers (InRange c.base c.bits a) found
      → Gives (IsFirst a cs) rest
      → Gives (IsFirst a ((c, meta) ∷ cs)) (if found then ok (some (matched meta c.text)) else rest)
  on_contains c meta cs true rest p h = gives (in_range p)
  on_contains c meta cs false rest p h = weaken-Gives h λ o f. out_of_range p f

  match_cidrs-IsFirst :
      (cs : List (Cidr × Provenance))
      → AreCidrs cs
      → HaveOctets cs
      → Gives (IsFirst a cs) (match_cidrs a cs)
  unfolding match_cidrs
  match_cidrs-IsFirst [] h m = gives no_range
  match_cidrs-IsFirst ((c, meta) ∷ cs) (p, h) (o, m) =
      then-Gives (Answers (InRange c.base c.bits a)) (contains c a) _
        (contains_in-Gives c.base c.bits a p.base o p.width w l)
        λ found f. on_contains c meta cs found _ f (match_cidrs-IsFirst cs h m)

-- What an address matches: itself, if it is listed, and else the first range that it is in.
pub data IsIpMatch (std : Std) (set : IocSet) (a : IpAddr) : Option IocMatch → Type 0 where
  exact :
      {p : Provenance}
      → lookup a set.ips ≡ some p
      → IsIpMatch std set a (some (matched p (std.show_ip a)))
  ranged :
      {o : Option IocMatch}
      → lookup a set.ips ≡ none
      → IsFirst a set.cidrs o
      → IsIpMatch std set a o

module _ (std : Std) (set : IocSet) (a : IpAddr) where
  match_exact-IsIpMatch :
      (o : Option Provenance)
      → lookup a set.ips ≡ o
      → AreCidrs set.cidrs
      → HaveOctets set.cidrs
      → IsAddress a
      → HasOctets a
      → Gives (IsIpMatch std set a) (match_exact std set a o)
  unfolding match_exact
  match_exact-IsIpMatch (some p) e h m w l = gives (exact e)
  match_exact-IsIpMatch none e h m w l =
      weaken-Gives (match_cidrs-IsFirst a w l set.cidrs h m) λ o f. ranged e f

  -- Matching an address of bytes never indexes out of range in a set whose prefixes fit their addresses of
  -- bytes: it finds the address itself if it is listed, and else the first range of its family whose base has the
  -- same bits up to the prefix length, if there is one.
  pub match_ip-IsIpMatch :
      IsIocSet set
      → HaveOctets set.cidrs
      → IsAddress a
      → HasOctets a
      → Gives (IsIpMatch std set a) (match_ip std set a)
  unfolding match_ip
  match_ip-IsIpMatch h m w l = match_exact-IsIpMatch (lookup a set.ips) refl h.cidrs m w l

-- What an insertion leaves.
abbrev pub IsInsertion : Insertion → Type 0
IsInsertion (added kind set) = IsIocSet set
IsInsertion (refused e) = Unit {0}

length-insert_le {ℓ κ} :
    {K : Type ℓ} {V : Type κ} ⦃e : Eq K⦄ (k : K) (v : V) (m : List (K × V))
    → length (insert k v m) ≤ length m + 1
length-insert_le k v m = elim (Option-cases (lookup k m)) [
  | inl new ↦ omega (arith, length-insert_new k v m new)
  | inr (w, old) ↦ omega (arith, length-insert_old k v w m old)
]

AreCidrs-append :
    (cs : List (Cidr × Provenance)) (c : Cidr) (meta : Provenance)
    → AreCidrs cs
    → IsCidr c
    → AreCidrs (cs ++ (c, meta) ∷ [])
AreCidrs-append [] c meta h p = (p, tt)
AreCidrs-append (x ∷ cs) c meta (q, h) p = (q, AreCidrs-append cs c meta h p)

abbrev IsParsed : Option Cidr → Type 0
IsParsed none = Unit {0}
IsParsed (some c) = IsCidr c

module _ (std : Std)
    (addresses : (t : Text) (a : IpAddr) → std.parse_ip t ≡ some a → IsAddress a) where
  cidr_of-IsParsed :
      (token base : Text) (o : Option IpAddr) (n : Option ℕ)
      → std.parse_ip base ≡ o
      → IsParsed (cidr_of std token o n)
  unfolding cidr_of
  cidr_of-IsParsed token base (some a) (some bits) e =
      on_if IsParsed (ltb (max_bits a) bits) none _ (λ _. tt)
        λ t. record { base = addresses base a e; width = ground (arith, t) }
  cidr_of-IsParsed token base (some a) none e = tt
  cidr_of-IsParsed token base none n e = tt

  cidr_parts-IsParsed :
      (token : Text) (o : Option (Text × Text)) → IsParsed (cidr_parts std token o)
  unfolding cidr_parts
  cidr_parts-IsParsed token none = tt
  cidr_parts-IsParsed token (some (base, bits)) =
      cidr_of-IsParsed token base (std.parse_ip base) (std.parse_u8 bits) refl

  module _ (set : IocSet) (h : AreCidrs set.cidrs) (room : len set < max_indicators)
      (meta : Provenance) where
    insert_cidr-IsInsertion :
        (o : Option Cidr) → IsParsed o → IsInsertion (insert_cidr std set meta o)
    unfolding insert_cidr
    insert_cidr-IsInsertion none p = tt
    insert_cidr-IsInsertion (some c) p = record {
      cidrs = AreCidrs-append set.cidrs c meta h p;
      cap = omega (arith, room, length-append set.cidrs ((c, meta) ∷ []));
    }

    insert_domain-IsInsertion : (o : Option Text) → IsInsertion (insert_domain std set meta o)
    unfolding insert_domain
    insert_domain-IsInsertion none = tt
    insert_domain-IsInsertion (some d) = record {
      cidrs = h;
      cap = omega (arith, room, length-insert_le d meta set.domains);
    }

    insert_name-IsInsertion : (token : Text) → IsInsertion (insert_name std set meta token)
    unfolding insert_name
    insert_name-IsInsertion token =
        on_if IsInsertion (is_ja3 token) _ _
          (λ _. record {
            cidrs = h;
            cap = omega (arith, room, length-insert_le (map lower token) meta set.ja3);
          })
          λ _. insert_domain-IsInsertion (normalise_domain token)

    insert_ip-IsInsertion :
        (token : Text) (o : Option IpAddr) → IsInsertion (insert_ip std set meta token o)
    unfolding insert_ip
    insert_ip-IsInsertion token none = insert_name-IsInsertion token
    insert_ip-IsInsertion token (some a) = record {
      cidrs = h;
      cap = omega (arith, room, length-insert_le a meta set.ips);
    }

    insert_token-IsInsertion : (token : Text) → IsInsertion (insert_token std set meta token)
    unfolding insert_token parse_cidr
    insert_token-IsInsertion token =
        on_if IsInsertion (has 47 token) _ _
          (λ _.
            insert_cidr-IsInsertion (parse_cidr std token)
              (cidr_parts-IsParsed token (split_once 47 token)))
          λ _. insert_ip-IsInsertion token (std.parse_ip token)

  -- Where the addresses that are read have 4 or 16 bytes, an insertion keeps the set within 4000000 indicators
  -- and every prefix within its address.
  pub insert_tagged-IsInsertion :
      (set : IocSet) (token : Text) (tag : Option Text)
      → IsIocSet set
      → IsInsertion (insert_tagged std set token tag)
  unfolding insert_tagged
  insert_tagged-IsInsertion set token tag h =
      on_if IsInsertion (leb max_indicators (len set)) _ _ (λ _. tt)
        λ t.
          insert_token-IsInsertion set h.cidrs (ground (arith, t))
            (record { source = set.current_source; tag = tag }) token
