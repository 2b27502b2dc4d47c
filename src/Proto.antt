-- ===== src/Proto.antt =====
-- The application messages of crates/cbna-core/src/proto: dns.rs, http.rs and tls.rs. The decoders are
-- an argument of what calls them, as a record of functions.
pub mod Utf8
pub mod Dns
pub mod Tls
use custom_built_network_ana.Base.{ℕ, Bool, Option, List}

-- The bytes of a text.
abbrev pub Text : Type 0
Text = List ℕ

pub record DnsQuestion : Type 0 where
  pub name : Text
  pub qtype : ℕ
  pub qclass : ℕ

-- A record's data, before it is rendered.
pub data RData : Type 0 where
  ipv4_address ipv6_address : List ℕ → RData
  host : Text → RData
  exchange : Text → ℕ → RData
  malformed_name : RData
  strings : List Text → RData
  opaque : ℕ → RData

pub record DnsRecord : Type 0 where
  pub name : Text
  pub rtype : ℕ
  pub ttl : ℕ
  pub rdata : RData

pub record DnsMessage : Type 0 where
  pub transaction_id : ℕ
  pub is_response : Bool
  pub opcode : ℕ
  pub rcode : ℕ
  pub recursion_desired : Bool
  pub truncated : Bool
  pub questions : List DnsQuestion
  pub answers : List DnsRecord
  pub authority_count : ℕ
  pub additional_count : ℕ

pub data HttpKind : Type 0 where
  request response : HttpKind

pub record HttpMessage : Type 0 where
  pub kind : HttpKind
  pub version : Text
  pub method : Option Text
  pub uri : Option Text
  pub status : Option ℕ
  pub reason : Option Text
  pub host : Option Text
  pub user_agent : Option Text
  pub server : Option Text
  pub content_type : Option Text
  pub content_length : Option ℕ
  pub location : Option Text
  pub referer : Option Text
  pub has_authorization : Bool
  pub has_cookie : Bool
  pub header_count : ℕ
  pub complete : Bool

pub data TlsHelloKind : Type 0 where
  client server : TlsHelloKind

pub record TlsHello : Type 0 where
  pub kind : TlsHelloKind
  pub record_version : ℕ
  pub negotiated_version : ℕ
  pub sni : Option Text
  pub alpn : List Text
  pub cipher_suites : List ℕ
  pub extensions : List ℕ
  pub ja3 : Text
  pub ja3_md5 : Text
  pub session_id_len : ℕ
  pub complete : Bool

-- `dns::parse`, `tls::parse` and `http::parse`.
pub record Decoders : Type 0 where
  pub dns : List ℕ → Option DnsMessage
  pub tls : List ℕ → Option TlsHello
  pub http : List ℕ → Option HttpMessage
