-- ===== src/Capture/IocList.antt =====
-- crates/cbna-capture/src/ioc.rs: the reader of an indicator list. `trim`, which the standard library defines
-- on Unicode white space, is an argument.
pub mod Sound
use custom_built_network_ana.Base.{
  ℕ, ◌+◌, Bool, none, List, [], ◌∷◌, ◌++◌, ltb, ◌==◌, if◌then◌else◌, length,
}
use custom_built_network_ana.Proto.{Text}
use custom_built_network_ana.Proto.Utf8.{from_utf8_lossy}
use custom_built_network_ana.Ioc.{
  Std, IocSet, IocError, unrecognised, full, Insertion, added, refused, default_set, insert_tagged,
}
use custom_built_network_ana.Ioc.Domain.{is_none}

pub record IocWarning : Type 0 where
  pub line : ℕ
  pub text : Text
  pub reason : IocError

abbrev pub max_warnings : ℕ
max_warnings = 100

abbrev pub push_front : ℕ → List (List ℕ) → List (List ℕ)
push_front b [] = (b ∷ []) ∷ []
push_front b (line ∷ lines) = (b ∷ line) ∷ lines

-- `bytes.split`
unfoldable pub split_lines : List ℕ → List (List ℕ)
split_lines [] = [] ∷ []
split_lines (b ∷ bs) =
    let rest : List (List ℕ) = split_lines bs in if b == 10 then [] ∷ rest else push_front b rest

-- What is in front of a comment.
unfoldable pub before : ℕ → Text → Text
before c [] = []
before c (b ∷ bs) = let rest : Text = before c bs in if b == c then [] else b ∷ rest

unfoldable pub push_warning : List IocWarning → IocWarning → List IocWarning
push_warning warnings w =
    if ltb (length warnings) max_warnings then warnings ++ w ∷ [] else warnings

module _ (std : Std) (trim : Text → Text) where
  unfoldable pub token_of : List ℕ → Text
  token_of raw = trim (before 35 (from_utf8_lossy raw))

  unfoldable pub on_insertion :
      (IocSet → List IocWarning → IocSet × List IocWarning)
      → ℕ
      → Text
      → IocSet
      → List IocWarning
      → Insertion
      → IocSet × List IocWarning
  on_insertion again i token set warnings (added kind next) = again next warnings
  on_insertion again i token set warnings (refused full) =
      (set, push_warning warnings (record { line = i + 1; text = token; reason = full }))
  on_insertion again i token set warnings (refused unrecognised) =
      again set
        (push_warning warnings (record { line = i + 1; text = token; reason = unrecognised }))

  unfoldable pub on_token :
      (IocSet → List IocWarning → IocSet × List IocWarning)
      → ℕ
      → Text
      → IocSet
      → List IocWarning
      → IocSet × List IocWarning
  on_token again i token set warnings =
      if is_none token
      then again set warnings
      else on_insertion again i token set warnings (insert_tagged std set token none)

  -- The loop over the lines, from the line `i`.
  unfoldable pub load : ℕ → List (List ℕ) → IocSet → List IocWarning → IocSet × List IocWarning
  load i [] set warnings = (set, warnings)
  load i (raw ∷ rest) set warnings = on_token (load (i + 1) rest) i (token_of raw) set warnings

  unfoldable pub parse_iocs : List ℕ → IocSet × List IocWarning
  parse_iocs bytes = load 0 (split_lines bytes) default_set []
