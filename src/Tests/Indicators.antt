-- ===== src/Tests/Indicators.antt =====
-- A set of indicators.
use custom_built_network_ana.Base.{ℕ, List, some, none, [], ◌∷◌, ◌≡◌, refl, length, subst, arith}
use custom_built_network_ana.Outcomes.Gives.{Gives}
use custom_built_network_ana.Net.{IpAddr, v4}
use custom_built_network_ana.Proto.{Text}
use custom_built_network_ana.Ioc.{Std, Provenance, IocSet, insert_tagged, match_ip, match_domain}
use custom_built_network_ana.Ioc.Domain.{trim_end_dots}
use custom_built_network_ana.Capture.IocList.{split_lines, parse_iocs}
use custom_built_network_ana.Capture.IocList.Sound.{IsLoaded, parse_iocs-IsLoaded}
use custom_built_network_ana.Ioc.Sound.{
  IsIocSet, IsAddress, IsIpMatch, match_ip-IsIpMatch, IsInsertion, insert_tagged-IsInsertion,
}
use custom_built_network_ana.Ioc.Suffix.{IsFound, normal, match_domain-IsFound}

-- Every text is read as one address and one number.
abbrev fixed : Std
fixed = record {
  parse_ip = λ t. some (v4 (10 ∷ 0 ∷ 0 ∷ 1 ∷ []));
  show_ip = λ a. [];
  parse_u8 = λ t. some 8;
}

abbrev listed_by : Provenance
listed_by = record { source = 102 ∷ []; tag = none }

-- 10.0.0.0/12, and the domain ab.c.
abbrev set : IocSet
set = record {
  ips = [];
  cidrs = (record { base = v4 (10 ∷ 0 ∷ 0 ∷ 0 ∷ []); bits = 12; text = [] }, listed_by) ∷ [];
  domains = (97 ∷ 98 ∷ 46 ∷ 99 ∷ [], listed_by) ∷ [];
  ja3 = [];
  current_source = [];
  manifest = [];
}

set-IsIocSet : IsIocSet set
set-IsIocSet = record {
  cidrs = (record { base = refl; width = omega arith }, tt);
  cap = omega arith;
}

match_ip-IsIpMatch_example :
    Gives
      (IsIpMatch fixed set (v4 (10 ∷ 9 ∷ 8 ∷ 7 ∷ [])))
      (match_ip fixed set (v4 (10 ∷ 9 ∷ 8 ∷ 7 ∷ [])))
match_ip-IsIpMatch_example =
    match_ip-IsIpMatch fixed set (v4 (10 ∷ 9 ∷ 8 ∷ 7 ∷ [])) set-IsIocSet
      ((omega arith, (omega arith, (omega arith, (omega arith, tt)))), tt) refl
      (omega arith, (omega arith, (omega arith, (omega arith, tt))))

four_bytes : (t : Text) (a : IpAddr) → some (v4 (10 ∷ 0 ∷ 0 ∷ 1 ∷ [])) ≡ some a → IsAddress a
four_bytes t a e = let same : v4 (10 ∷ 0 ∷ 0 ∷ 1 ∷ []) ≡ a = cc in subst IsAddress same refl

insert_tagged-IsInsertion_example : IsInsertion (insert_tagged fixed set (49 ∷ 47 ∷ 56 ∷ []) none)
insert_tagged-IsInsertion_example =
    insert_tagged-IsInsertion fixed four_bytes set (49 ∷ 47 ∷ 56 ∷ []) none set-IsIocSet

-- X.Ab.c. with a capital letter and a dot at its end.
abbrev name : Text
name = 88 ∷ 46 ∷ 65 ∷ 98 ∷ 46 ∷ 99 ∷ 46 ∷ []

match_domain-IsFound_example : Gives (IsFound set.domains (normal name)) (match_domain set name)
unfolding trim_end_dots
match_domain-IsFound_example = match_domain-IsFound set name (omega arith)

abbrev as_it_is : Text → Text
as_it_is t = t

-- A line of a comment, and one that is no indicator.
abbrev lines : List ℕ
lines = 35 ∷ 97 ∷ 10 ∷ 47 ∷ []

parse_iocs-IsLoaded_example :
    IsLoaded (length (split_lines lines)) (parse_iocs fixed as_it_is lines)
parse_iocs-IsLoaded_example = parse_iocs-IsLoaded fixed as_it_is four_bytes lines
