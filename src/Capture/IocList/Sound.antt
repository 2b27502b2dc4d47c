-- ===== src/Capture/IocList/Sound.antt =====
-- A list of any bytes is loaded into a set within its bounds.
use custom_built_network_ana.Base.{
  ℕ, ◌+◌, ◌≤◌, ◌<◌, none, some, List, [], ◌∷◌, ◌++◌, ◌≡◌, arith, ltb, length, length-append, on_if,
}
use custom_built_network_ana.Net.{IpAddr}
use custom_built_network_ana.Proto.{Text}
use custom_built_network_ana.Ioc.{
  Std, IocSet, unrecognised, full, Insertion, added, refused, default_set,
}
use custom_built_network_ana.Ioc.Domain.{is_none}
use custom_built_network_ana.Ioc.Sound.{IsAddress, IsIocSet, IsInsertion, insert_tagged-IsInsertion}
use custom_built_network_ana.Capture.IocList.{
  IocWarning, max_warnings, split_lines, push_warning, token_of, on_insertion, on_token, load,
  parse_iocs,
}

-- Every warning names a line of the first `n`.
abbrev pub AreWarnings : ℕ → List IocWarning → Type 0
AreWarnings n [] = Unit {0}
AreWarnings n (w ∷ ws) = (0 < w.line) × ((w.line ≤ n) × AreWarnings n ws)

pub record IsLoaded (n : ℕ) (x : IocSet × List IocWarning) : Type 0 where
  pub set : IsIocSet x.0
  pub few : length x.1 ≤ max_warnings
  pub lines : AreWarnings n x.1

AreWarnings-append :
    (n : ℕ) (ws : List IocWarning) (w : IocWarning)
    → AreWarnings n ws
    → 0 < w.line
    → w.line ≤ n
    → AreWarnings n (ws ++ w ∷ [])
AreWarnings-append n [] w h p q = (p, (q, tt))
AreWarnings-append n (x ∷ ws) w (a, (b, h)) p q = (a, (b, AreWarnings-append n ws w h p q))

AreFew : ℕ → List IocWarning → Type 0
AreFew n ws = (length ws ≤ max_warnings) × AreWarnings n ws

push_warning-AreFew :
    (n : ℕ) (ws : List IocWarning) (w : IocWarning)
    → AreFew n ws
    → 0 < w.line
    → w.line ≤ n
    → AreFew n (push_warning ws w)
unfolding push_warning AreFew
push_warning-AreFew n ws w (few, h) p q =
    on_if (AreFew n) (ltb (length ws) max_warnings) (ws ++ w ∷ []) ws
      (λ t. (ground (arith, t, length-append ws (w ∷ [])), AreWarnings-append n ws w h p q))
      λ _. (few, h)

module _ (std : Std) (trim : Text → Text)
    (addresses : (t : Text) (a : IpAddr) → std.parse_ip t ≡ some a → IsAddress a) where
  abbrev Loads : ℕ → (IocSet → List IocWarning → IocSet × List IocWarning) → Type 0
  Loads n again =
      (set : IocSet) (ws : List IocWarning) → IsIocSet set → AreFew n ws → IsLoaded n (again set ws)

  ended :
      (n : ℕ) (set : IocSet) (ws : List IocWarning)
      → IsIocSet set
      → AreFew n ws
      → IsLoaded n (set, ws)
  unfolding AreFew
  ended n set ws s (few, h) = record { set = s; few = few; lines = h }

  module _ (n i : ℕ) (room : i < n) (again : IocSet → List IocWarning → IocSet × List IocWarning)
      (k : Loads n again) where
    on_insertion-IsLoaded :
        (token : Text) (set : IocSet) (ws : List IocWarning) (x : Insertion)
        → IsIocSet set
        → AreFew n ws
        → IsInsertion x
        → IsLoaded n (on_insertion std trim again i token set ws x)
    unfolding on_insertion
    on_insertion-IsLoaded token set ws (added kind next) s h p = k next ws p h
    on_insertion-IsLoaded token set ws (refused full) s h p = ended n set _ s (
        push_warning-AreFew n ws (record { line = i + 1; text = token; reason = full }) h
          (omega arith) (omega (arith, room)))
    on_insertion-IsLoaded token set ws (refused unrecognised) s h p = k set _ s (
        push_warning-AreFew n ws (record { line = i + 1; text = token; reason = unrecognised }) h
          (omega arith) (omega (arith, room)))

    on_token-IsLoaded :
        (token : Text) (set : IocSet) (ws : List IocWarning)
        → IsIocSet set
        → AreFew n ws
        → IsLoaded n (on_token std trim again i token set ws)
    unfolding on_token
    on_token-IsLoaded token set ws s h =
        on_if (IsLoaded n) (is_none token) _ _ (λ _. k set ws s h)
          λ _.
            on_insertion-IsLoaded token set ws _ s h
              (insert_tagged-IsInsertion std addresses set token none s)

  load-IsLoaded :
      (n i : ℕ) (lines : List (List ℕ)) → i + length lines ≤ n → Loads n (load std trim i lines)
  unfolding load
  load-IsLoaded n i [] l set ws s h = ended n set ws s h
  load-IsLoaded n i (raw ∷ rest) l set ws s h =
      on_token-IsLoaded n i (omega (arith, l)) (load std trim (i + 1) rest)
        (load-IsLoaded n (i + 1) rest (omega (arith, l))) (token_of std trim raw) set ws s h

  -- Loading any list, where the addresses that are read have 4 or 16 bytes, gives a set within its cap whose
  -- prefixes fit their addresses, and no more than 100 warnings, each of a line that the list has.
  pub parse_iocs-IsLoaded :
      (bytes : List ℕ) → IsLoaded (length (split_lines bytes)) (parse_iocs std trim bytes)
  unfolding parse_iocs default_set AreFew
  parse_iocs-IsLoaded bytes =
      load-IsLoaded (length (split_lines bytes)) 0 (split_lines bytes) (omega arith) default_set []
        (record { cidrs = tt; cap = omega arith }) (omega arith, tt)
