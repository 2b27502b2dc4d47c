-- ===== src/Proto/Dns/Fields.antt =====
-- crates/cbna-core/src/proto/dns.rs: the fixed fields of a message, a question and a record.
pub mod Reads
use custom_built_network_ana.Base.{ℕ, List}
use custom_built_network_ana.Error.{Outcome}
use custom_built_network_ana.Bytes.{Parser, ◌>>=◌, pure, eval, new, be_u16, be_u32, take_bytes}

pub record Header : Type 0 where
  pub transaction_id : ℕ
  pub flags : ℕ
  pub qdcount : ℕ
  pub ancount : ℕ
  pub nscount : ℕ
  pub arcount : ℕ

-- Up to the checks of `parse_strict`.
unfoldable pub header_parser : Parser Header
header_parser = do
  transaction_id ← be_u16
  flags ← be_u16
  qdcount ← be_u16
  ancount ← be_u16
  nscount ← be_u16
  arcount ← be_u16
  pure (record {
    transaction_id = transaction_id;
    flags = flags;
    qdcount = qdcount;
    ancount = ancount;
    nscount = nscount;
    arcount = arcount;
  })

-- The type and the class behind a question's name.
unfoldable pub question_parser : Parser (ℕ × ℕ)
question_parser = do qtype ← be_u16; qclass ← be_u16; pure (qtype, qclass)

-- The fixed fields behind a record's name.
pub record RecordFields : Type 0 where
  pub rtype : ℕ
  pub ttl : ℕ
  pub rdata : List ℕ

unfoldable pub record_parser : Parser RecordFields
record_parser = do
  rtype ← be_u16
  class ← be_u16
  ttl ← be_u32
  rdlength ← be_u16
  rdata ← take_bytes rdlength
  pure (record { rtype = rtype; ttl = ttl; rdata = rdata })

unfoldable pub read_header : List ℕ → Outcome Header
read_header buf = eval header_parser (new buf "dns")

unfoldable pub read_question : List ℕ → Outcome (ℕ × ℕ)
read_question buf = eval question_parser (new buf "dns question")

unfoldable pub read_fields : List ℕ → Outcome RecordFields
read_fields buf = eval record_parser (new buf "dns record")
