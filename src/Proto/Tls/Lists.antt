-- ===== src/Proto/Tls/Lists.antt =====
-- crates/cbna-core/src/proto/tls.rs: the lists of a hello message, and how they are printed.
pub mod Known
use custom_built_network_ana.Base.{
  ℕ, zero, suc, ◌+◌, ◌/◌, ◌%◌, min, bit_and, Bool, not, ◌&&◌, Option, none, some, List, [], ◌∷◌,
  ◌++◌, map, ltb, leb, ◌==◌, if◌then◌else◌,
}
use custom_built_network_ana.Bytes.{
  Reader, Parser, ◌>>=◌, ◌>>◌, pure, branch, lift, eval, remaining, here, attempt, u8, be_u16,
  take_bytes, sub,
}
use custom_built_network_ana.Bytes.Loop.{Round, stop, more, loop}
use custom_built_network_ana.Proto.{Text, TlsHelloKind, client, server}
use custom_built_network_ana.Proto.Utf8.{from_utf8_lossy}

unfoldable pub is_grease : ℕ → Bool
is_grease v = (bit_and v 3855 == 2570) && (v / 256 == v % 256)

unfoldable pub push_known : List ℕ → ℕ → List ℕ
push_known out v = if is_grease v then out else out ++ v ∷ []

-- The loop over the cipher suites.
unfoldable pub cipher_round : List ℕ → Parser (Round (List ℕ))
cipher_round out = do
  r ← here
  branch (leb 2 (remaining r)) (do v ← be_u16; pure (more (push_known out v))) (pure (stop out))

unfoldable pub read_ciphers : ℕ → Parser (List ℕ)
read_ciphers cs_len = do cs ← sub cs_len "tls ciphers"; lift (eval (loop cipher_round []) cs)

unfoldable pub sni_round : Option Text → Parser (Round (Option Text))
sni_round name = do
  r ← here
  branch (leb 3 (remaining r))
      (do
        name_type ← u8
        len ← be_u16
        bytes ← take_bytes len
        pure (if name_type == 0 then stop (some (from_utf8_lossy bytes)) else more name))
      (pure (stop name))

unfoldable pub read_sni : Parser (Option Text)
read_sni = do
  list_len ← be_u16
  r ← here
  list ← sub (min list_len (remaining r)) "sni list"
  lift (eval (loop sni_round none) list)

unfoldable pub alpn_round : List Text → Parser (Round (List Text))
alpn_round out = do
  r ← here
  branch (leb 1 (remaining r))
      (do len ← u8; bytes ← take_bytes len; pure (more (out ++ from_utf8_lossy bytes ∷ [])))
      (pure (stop out))

unfoldable pub read_alpn : Parser (List Text)
read_alpn = do
  list_len ← be_u16
  r ← here
  list ← sub (min list_len (remaining r)) "alpn list"
  lift (eval (loop alpn_round []) list)

-- The groups behind the list's length, as long as pairs of bytes are left.
unfoldable pub on_group : List ℕ → Option ℕ → Parser (Round (List ℕ))
on_group out none = pure (stop out)
on_group out (some v) = pure (more (push_known out v))

unfoldable pub group_round : List ℕ → Parser (Round (List ℕ))
group_round out = do v ← attempt be_u16; on_group out v

unfoldable pub on_list_len : List ℕ → Option ℕ → Parser (List ℕ)
on_list_len out none = pure out
on_list_len out (some n) = loop group_round out

unfoldable pub read_groups : List ℕ → Parser (List ℕ)
read_groups out = do n ← attempt be_u16; on_list_len out n

-- The loop over the point formats, whose rounds are counted.
unfoldable pub on_point : (List ℕ → Parser (List ℕ)) → List ℕ → Option ℕ → Parser (List ℕ)
on_point again out none = pure out
on_point again out (some v) = again (out ++ v ∷ [])

unfoldable pub point_rounds : ℕ → List ℕ → Parser (List ℕ)
point_rounds zero out = pure out
point_rounds (suc n) out = attempt u8 >>= on_point (point_rounds n) out

unfoldable pub on_point_count : List ℕ → Option ℕ → Parser (List ℕ)
on_point_count out none = pure out
on_point_count out (some n) = point_rounds n out

unfoldable pub read_points : List ℕ → Parser (List ℕ)
read_points out = attempt u8 >>= on_point_count out

unfoldable pub version_round : ℕ → Parser (Round ℕ)
version_round best = do
  r ← here
  branch (leb 2 (remaining r))
      (do v ← be_u16; pure (more (if not (is_grease v) && ltb best v then v else best)))
      (pure (stop best))

unfoldable pub read_supported_versions : TlsHelloKind → Parser ℕ
read_supported_versions server = be_u16
read_supported_versions client = do
  len ← u8
  r ← here
  list ← sub (min len (remaining r)) "supported versions"
  lift (eval (loop version_round 0) list)

-- A number below 2 ^ 16 in decimal, which takes five digits at most.
unfoldable pub digits : ℕ → ℕ → Text
digits zero n = []
digits (suc fuel) n =
    let front : Text = digits fuel (n / 10) in
    if ltb n 10 then (48 + n) ∷ [] else front ++ (48 + n % 10) ∷ []

unfoldable pub join_with : ℕ → List Text → Text
join_with sep [] = []
join_with sep (t ∷ []) = t
join_with sep (t ∷ u ∷ ts) = t ++ sep ∷ join_with sep (u ∷ ts)

unfoldable pub join_u16 : List ℕ → Text
join_u16 v = join_with 45 (map (digits 5) v)

-- `hex` of crates/cbna-core/src/proto/mod.rs.
unfoldable pub hex_digit : ℕ → ℕ
hex_digit n = if ltb n 10 then 48 + n else 87 + n

unfoldable pub hex : List ℕ → Text
hex [] = []
hex (b ∷ bs) = hex_digit (b / 16) ∷ hex_digit (b % 16) ∷ hex bs
