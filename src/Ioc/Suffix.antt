-- ===== src/Ioc/Suffix.antt =====
-- The name that `match_domain` finds is the longest listed parent.
use custom_built_network_ana.Base.{
  ℕ, zero, suc, ◌≤◌, ◌<◌, true, Option, none, some, List, [], ◌∷◌, ◌++◌, map, ◌≡◌, ◌⊎◌, inl, inr,
  refl, sym, ap, ◌∙◌, arith, ◌==◌, length, lookup, length-append, on_if, ==_iff, append_assoc,
  Option-cases,
}
use custom_built_network_ana.Error.{Outcome}
use custom_built_network_ana.Outcomes.Gives.{Gives, gives, weaken-Gives, if_Gives}
use custom_built_network_ana.Proto.{Text}
use custom_built_network_ana.Ioc.Domain.{split_once, behind_byte, lower, trim_end_dots, is_none}
use custom_built_network_ana.Ioc.{
  text_Eq, Provenance, IocMatch, IocSet, matched, on_listed, parents, match_name, match_domain,
}

-- `d` is the name itself, or what is behind a dot of it.
abbrev pub IsParent : Text → Text → Type 0
IsParent d name = (d ≡ name) ⊎ ((front : Text) × (name ≡ front ++ 46 ∷ d))

-- What the first dot leaves.
data IsSplit (name : Text) : Option (Text × Text) → Type 0 where
  no_dot : ((d front : Text) → ¬ (name ≡ front ++ 46 ∷ d)) → IsSplit name none
  at_dot :
      {front rest : Text}
      → name ≡ front ++ 46 ∷ rest
      → ((d before : Text) → name ≡ before ++ 46 ∷ d → IsParent d rest)
      → IsSplit name (some (front, rest))

tail_eq : {b c : ℕ} {bs cs : Text} → b ∷ bs ≡ c ∷ cs → bs ≡ cs
tail_eq e = cc

head_eq : {b c : ℕ} {bs cs : Text} → b ∷ bs ≡ c ∷ cs → b ≡ c
head_eq e = cc

no_dot_in_none : (d front : Text) → ¬ ([] ≡ front ++ 46 ∷ d)
no_dot_in_none d [] e = cc
no_dot_in_none d (c ∷ cs) e = cc

here-IsParent : (bs d before : Text) (b : ℕ) → b ∷ bs ≡ before ++ 46 ∷ d → IsParent d bs
here-IsParent bs d [] b e = inl (sym (tail_eq e))
here-IsParent bs d (c ∷ before) b e = inr (before, tail_eq e)

behind_none :
    (b : ℕ) (bs d front : Text)
    → ¬ (b ≡ 46)
    → ((d front : Text) → ¬ (bs ≡ front ++ 46 ∷ d))
    → ¬ (b ∷ bs ≡ front ++ 46 ∷ d)
behind_none b bs d [] n h e = n (head_eq e)
behind_none b bs d (c ∷ front) n h e = h d front (tail_eq e)

behind_some :
    (b : ℕ) (bs rest d before : Text)
    → ¬ (b ≡ 46)
    → ((d before : Text) → bs ≡ before ++ 46 ∷ d → IsParent d rest)
    → b ∷ bs ≡ before ++ 46 ∷ d
    → IsParent d rest
behind_some b bs rest d [] n h e = absurd (n (head_eq e))
behind_some b bs rest d (c ∷ before) n h e = h d before (tail_eq e)

behind_byte-IsSplit :
    (b : ℕ) (bs : Text) {o : Option (Text × Text)}
    → ¬ (b ≡ 46)
    → IsSplit bs o
    → IsSplit (b ∷ bs) (behind_byte b o)
behind_byte-IsSplit b bs n (no_dot h) = no_dot λ d front. behind_none b bs d front n h
behind_byte-IsSplit b bs n (at_dot {rest} e h) =
    at_dot (ap (◌∷◌ b) e) λ d before. behind_some b bs rest d before n h

split_once-IsSplit : (name : Text) → IsSplit name (split_once 46 name)
unfolding split_once
split_once-IsSplit [] = no_dot no_dot_in_none
split_once-IsSplit (b ∷ bs) =
    on_if (IsSplit (b ∷ bs)) (b == 46) _ _
      (λ t.
        at_dot {front = []} (ap (λ c. c ∷ bs) ((==_iff b 46).0 t))
          λ d before. here-IsParent bs d before b)
      λ f. behind_byte-IsSplit b bs (λ e. absurd (ground (arith, e, f))) (split_once-IsSplit bs)

-- The longest listed parent of a name, if one is listed.
pub data IsFound (domains : List (Text × Provenance)) (name : Text) : Option IocMatch → Type 0 where
  listed :
      (d : Text) (p : Provenance)
      → IsParent d name
      → lookup d domains ≡ some p
      → ((d' : Text) (q : Provenance)
          → IsParent d' name
          → lookup d' domains ≡ some q
          → length d' ≤ length d)
      → IsFound domains name (some (matched p d))
  unlisted : ((d : Text) → IsParent d name → lookup d domains ≡ none) → IsFound domains name none

length-IsParent : (d name : Text) → IsParent d name → length d ≤ length name
length-IsParent d name (inl e) = omega (arith, ap length e)
length-IsParent d name (inr (front, e)) = omega (arith, ap length e, length-append front (46 ∷ d))

IsParent-trans :
    (d front rest name : Text) → name ≡ front ++ 46 ∷ rest → IsParent d rest → IsParent d name
IsParent-trans d front rest name e (inl p) = inr (front, e ∙ ap (λ x. front ++ 46 ∷ x) (sym p))
IsParent-trans d front rest name e (inr (g, q)) =
    inr (
      front ++ 46 ∷ g,
      e ∙ ap (λ x. front ++ 46 ∷ x) q ∙ sym (append_assoc front (46 ∷ g) (46 ∷ d)),
    )

module _ (domains : List (Text × Provenance)) where
  -- A name that is not listed has the listed parents of what is behind its first dot.
  module _ (name front rest : Text) (n : lookup name domains ≡ none) (e : name ≡ front ++ 46 ∷ rest)
      (h : (d before : Text) → name ≡ before ++ 46 ∷ d → IsParent d rest) where
    past_name :
        (d : Text) (q : Provenance) → IsParent d name → lookup d domains ≡ some q → IsParent d rest
    past_name d q (inl same) l = absurd (cc)
    past_name d q (inr (before, p)) l = h d before p

    IsFound-rest : {o : Option IocMatch} → IsFound domains rest o → IsFound domains name o
    IsFound-rest (listed d p i l longest) =
        listed d p (IsParent-trans d front rest name e i) l
          λ d' q i' l'. longest d' q (past_name d' q i' l') l'
    IsFound-rest (unlisted none_of) = unlisted λ d i. elim (Option-cases (lookup d domains)) [
      | inl free ↦ free
      | inr (q, l) ↦ none_of d (past_name d q i l)
    ]

  shorter : (name front rest : Text) → name ≡ front ++ 46 ∷ rest → length rest < length name
  shorter name front rest e = omega (arith, ap length e, length-append front (46 ∷ rest))

  IsFound-alone :
      (name : Text)
      → lookup name domains ≡ none
      → ((d front : Text) → ¬ (name ≡ front ++ 46 ∷ d))
      → (d : Text) → IsParent d name
      → lookup d domains ≡ none
  IsFound-alone name n h d (inl same) = cc
  IsFound-alone name n h d (inr (front, e)) = absurd (h d front e)

  on_listed_lem :
      (name : Text) (again : Text → Outcome (Option IocMatch)) (o : Option Provenance)
      (cut : Option (Text × Text))
      → lookup name domains ≡ o
      → IsSplit name cut
      → ((rest : Text) → length rest < length name → Gives (IsFound domains rest) (again rest))
      → Gives (IsFound domains name) (on_listed name o cut again)
  unfolding on_listed
  on_listed_lem name again (some p) cut e s k =
      gives (listed name p (inl refl) e λ d q i _. length-IsParent d name i)
  on_listed_lem name again none _ e (no_dot h) k = gives (unlisted (IsFound-alone name e h))
  on_listed_lem name again none _ e (at_dot {front} {rest} cut h) k =
      weaken-Gives (k rest (shorter name front rest cut))
        λ o f. IsFound-rest name front rest e cut h f

  parents_lem :
      (n : ℕ) (name : Text)
      → length name < n
      → Gives (IsFound domains name) (parents n domains name)
  unfolding parents
  parents_lem zero name h = absurd (omega arith)
  parents_lem (suc n) name h =
      on_listed_lem name (parents n domains) (lookup name domains) (split_once 46 name) refl
        (split_once-IsSplit name) λ rest l. parents_lem n rest (omega (arith, h, l))

-- The name in lower case, without the dots at its end.
abbrev pub normal : Text → Text
normal name = map lower (trim_end_dots name)

match_name_lem :
    (domains : List (Text × Provenance)) (name : Text)
    → 0 < length name
    → Gives (IsFound domains name) (match_name domains name)
unfolding match_name
match_name_lem domains [] h = absurd (omega arith)
match_name_lem domains (b ∷ name) h =
    parents_lem domains (suc (length (b ∷ name))) (b ∷ name) (omega arith)

none_listed :
    (domains : List (Text × Provenance))
    → is_none domains ≡ true
    → (d : Text) → lookup d domains ≡ none
unfolding is_none lookup
none_listed [] e d = refl
none_listed (x ∷ domains) e d = absurd (cc)

-- Matching a name that is not only dots ends, and finds the longest listed domain that the name, in lower case
-- and without the dots at its end, is or is a subdomain of; where none is listed it finds nothing.
pub match_domain-IsFound :
    (set : IocSet) (name : Text)
    → 0 < length (normal name)
    → Gives (IsFound set.domains (normal name)) (match_domain set name)
unfolding match_domain
match_domain-IsFound set name h =
    if_Gives (is_none set.domains) _ _ (λ t. gives (unlisted λ d _. none_listed set.domains t d))
      λ _. match_name_lem set.domains (normal name) h
