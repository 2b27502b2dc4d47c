-- ===== src/Proto/Tls.antt =====
-- crates/cbna-core/src/proto/tls.rs: the hello messages of TLS. MD5 is a third-party function, the argument
-- `md5`, of which nothing is assumed.
pub mod Lists
pub mod Sound
use custom_built_network_ana.Base.{
  ℕ, suc, ◌+◌, ◌-◌, ◌/◌, ◌%◌, min, max, Bool, true, false, not, ◌&&◌, ◌||◌, Option, none, some,
  List, [], ◌∷◌, ◌++◌, ltb, leb, ◌==◌, if◌then◌else◌, length,
}
use custom_built_network_ana.Error.{Outcome, ok, err, panic}
use custom_built_network_ana.Bytes.{
  Reader, Parser, ◌>>=◌, ◌>>◌, pure, branch, lift, eval, new, remaining, here, attempt, peek_u8, u8,
  be_u16, be_u24, skip, sub,
}
use custom_built_network_ana.Bytes.Loop.{Round, stop, more, loop}
use custom_built_network_ana.Proto.{Text, TlsHello, TlsHelloKind, client, server}
use custom_built_network_ana.Proto.Tls.Lists.{
  is_grease, push_known, read_ciphers, read_sni, read_alpn, read_groups, read_points,
  read_supported_versions, join_u16, join_with, hex,
}

pub record Extensions : Type 0 where
  pub sni : Option Text
  pub alpn : List Text
  pub extensions : List ℕ
  pub groups : List ℕ
  pub point_formats : List ℕ
  pub negotiated_version : ℕ

unfoldable pub no_extensions : ℕ → Extensions
no_extensions legacy_version = record {
  sni = none;
  alpn = [];
  extensions = [];
  groups = [];
  point_formats = [];
  negotiated_version = legacy_version;
}

-- What each kind of extension adds, if it is read.
abbrev pub with_sni : Extensions → Option (Option Text) → Extensions
with_sni e none = e
with_sni e (some name) = record e { sni = name }

abbrev pub with_alpn : Extensions → Option (List Text) → Extensions
with_alpn e none = e
with_alpn e (some list) = record e { alpn = list }

abbrev pub unwrap_or : Option ℕ → ℕ → ℕ
unwrap_or none d = d
unwrap_or (some v) d = v

unfoldable pub store : TlsHelloKind → Extensions → ℕ → Parser Extensions
store kind e ext_type =
    branch (ext_type == 0) (do name ← attempt read_sni; pure (with_sni e name))
      (branch (ext_type == 16) (do list ← attempt read_alpn; pure (with_alpn e list))
        (branch (ext_type == 10)
          (do groups ← read_groups e.groups; pure (record e { groups = groups }))
          (branch (ext_type == 11)
            (do points ← read_points e.point_formats; pure (record e { point_formats = points }))
            (branch (ext_type == 43)
              (do
                v ← attempt (read_supported_versions kind)
                pure (record e {
                  negotiated_version = max (unwrap_or v e.negotiated_version) e.negotiated_version;
                }))
              (pure e)))))

unfoldable pub keep_extension : TlsHelloKind → Extensions → ℕ → Reader → Parser (Round Extensions)
keep_extension kind e ext_type d = do
  e' ← lift (eval (store kind (record e { extensions = e.extensions ++ ext_type ∷ [] }) ext_type) d)
  pure (more e')

unfoldable pub on_extension :
    TlsHelloKind → Extensions → ℕ → Option Reader → Parser (Round Extensions)
on_extension kind e ext_type none = pure (stop e)
on_extension kind e ext_type (some d) =
    branch (is_grease ext_type) (pure (more e)) (keep_extension kind e ext_type d)

unfoldable pub extension_round : TlsHelloKind → Extensions → Parser (Round Extensions)
extension_round kind e = do
  r ← here
  branch (leb 4 (remaining r))
      (do
        ext_type ← be_u16
        ext_len ← be_u16
        d ← attempt (sub ext_len "tls extension")
        on_extension kind e ext_type d)
      (pure (stop e))

unfoldable pub read_extensions : TlsHelloKind → Extensions → Parser Extensions
read_extensions kind e = do
  r ← here
  branch (leb 2 (remaining r))
      (do
        ext_total ← be_u16
        r' ← here
        exts ← sub (min ext_total (remaining r')) "tls extensions"
        lift (eval (loop (extension_round kind) e) exts))
      (pure e)

unfoldable pub cipher_suites : TlsHelloKind → Parser (List ℕ)
cipher_suites client = do
  cs_len ← be_u16
  suites ← read_ciphers cs_len
  comp_len ← u8
  skip comp_len
  pure suites
cipher_suites server = do suite ← be_u16; skip 1; pure (suite ∷ [])

unfoldable pub ja3_of : TlsHelloKind → ℕ → List ℕ → Extensions → Text
ja3_of client legacy suites e = join_with 44 (
    join_u16 (legacy ∷ [])
    ∷ join_u16 suites
    ∷ join_u16 e.extensions
    ∷ join_u16 e.groups
    ∷ join_u16 e.point_formats
    ∷ [])
ja3_of server legacy suites e =
    join_with 44 (join_u16 (legacy ∷ []) ∷ join_u16 suites ∷ join_u16 e.extensions ∷ [])

module _ (md5 : Text → List ℕ) where
  unfoldable pub hello : TlsHelloKind → ℕ → Bool → ℕ → ℕ → List ℕ → Extensions → TlsHello
  hello kind record_version complete legacy session_id_len suites e = record {
    kind = kind;
    record_version = record_version;
    negotiated_version = e.negotiated_version;
    sni = e.sni;
    alpn = e.alpn;
    cipher_suites = suites;
    extensions = e.extensions;
    ja3 = ja3_of kind legacy suites e;
    ja3_md5 = hex (md5 (ja3_of kind legacy suites e));
    session_id_len = session_id_len;
    complete = complete;
  }

  -- The handshake behind its type.
  unfoldable pub read_hello : ℕ → Bool → TlsHelloKind → Parser (Option TlsHello)
  read_hello record_version complete kind = do
    len ← be_u24
    legacy ← be_u16
    skip 32
    session_id_len ← u8
    skip session_id_len
    suites ← cipher_suites kind
    e ← read_extensions kind (no_extensions legacy)
    pure (some (hello kind record_version complete legacy session_id_len suites e))

  unfoldable pub handshake : ℕ → Bool → Parser (Option TlsHello)
  handshake record_version complete = do
    msg_type ← u8
    branch (msg_type == 1) (read_hello record_version complete client)
        (branch (msg_type == 2) (read_hello record_version complete server) (pure none))

  unfoldable pub record_parser : Parser (Option TlsHello)
  record_parser = do
    skip 1
    record_version ← be_u16
    record_len ← be_u16
    r ← here
    rec ← sub (min record_len (remaining r)) "tls handshake"
    lift (eval (handshake record_version (leb record_len (remaining r))) rec)

  unfoldable pub hello_parser : Parser (Option TlsHello)
  hello_parser = do
    content_type ← peek_u8
    branch (not (content_type == 22)) (pure none) record_parser

  unfoldable pub parse_strict : List ℕ → Outcome (Option TlsHello)
  parse_strict payload = eval hello_parser (new payload "tls record")

  -- `.ok().flatten()`
  abbrev pub flatten : Outcome (Option TlsHello) → Option TlsHello
  flatten (ok h) = h
  flatten (err e) = none
  flatten panic = none

  unfoldable pub parse : List ℕ → Option TlsHello
  parse payload = flatten (parse_strict payload)
