-- ===== src/Proto/Dns/Message.antt =====
-- crates/cbna-core/src/proto/dns.rs, `parse_strict` and `read_record`.
pub mod Sound
use custom_built_network_ana.Base.{
  ℕ, zero, suc, ◌+◌, ◌-◌, ◌*◌, ◌/◌, ◌%◌, Bool, true, false, ◌&&◌, ◌||◌, Option, none, some, List,
  [], ◌∷◌, ◌++◌, ltb, leb, ◌==◌, if◌then◌else◌, length, drop, min,
}
use custom_built_network_ana.Error.{malformed, Outcome, ok, err, panic, ◌>>=◌}
use custom_built_network_ana.Bytes.{slice}
use custom_built_network_ana.Proto.{Text, DnsQuestion, DnsRecord, RData, DnsMessage}
use custom_built_network_ana.Proto.Dns.Name.{read_name}
use custom_built_network_ana.Proto.Dns.Record.{render_rdata}
use custom_built_network_ana.Proto.Dns.Fields.{
  Header, RecordFields, read_header, read_question, read_fields,
}

unfoldable pub question_at : List ℕ → Text × ℕ → Outcome (DnsQuestion × ℕ)
unfolding ◌>>=◌ slice read_question
question_at buf (name, next) = do
  behind ← slice buf next (length buf)
  (qtype, qclass) ← read_question behind
  ok (record { name = name; qtype = qtype; qclass = qclass }, next + 4)

-- The loop over the questions, which fails with the first of them that does.
unfoldable pub read_questions : ℕ → List ℕ → ℕ → Outcome (List DnsQuestion × ℕ)
unfolding ◌>>=◌ read_name question_at
read_questions zero buf offset = ok ([], offset)
read_questions (suc n) buf offset = do
  (q, next) ← read_name buf offset >>= question_at buf
  (qs, last) ← read_questions n buf next
  ok (q ∷ qs, last)

unfoldable pub record_at : List ℕ → Text × ℕ → Outcome (DnsRecord × ℕ)
unfolding ◌>>=◌ slice read_fields render_rdata
record_at msg (name, after_name) = do
  behind ← slice msg (min after_name (length msg)) (length msg)
  fields ← read_fields behind
  data_of ← render_rdata msg fields.rtype fields.rdata (after_name + 10)
  ok (
    record { name = name; rtype = fields.rtype; ttl = fields.ttl; rdata = data_of },
    after_name + 10 + length fields.rdata,
  )

unfoldable pub read_record : List ℕ → ℕ → Outcome (DnsRecord × ℕ)
unfolding ◌>>=◌ read_name record_at
read_record msg offset = read_name msg offset >>= record_at msg

-- What `break` on an error leaves of the answers.
abbrev pub cons_answer : DnsRecord → Outcome (List DnsRecord) → Outcome (List DnsRecord)
cons_answer rec (ok recs) = ok (rec ∷ recs)
cons_answer rec (err e) = err e
cons_answer rec panic = panic

abbrev pub on_answer :
    (ℕ → Outcome (List DnsRecord)) → Outcome (DnsRecord × ℕ) → Outcome (List DnsRecord)
on_answer again (ok (rec, next)) = cons_answer rec (again next)
on_answer again (err e) = ok []
on_answer again panic = panic

unfoldable pub read_answers : ℕ → List ℕ → ℕ → Outcome (List DnsRecord)
unfolding read_record
read_answers zero msg offset = ok []
read_answers (suc n) msg offset = on_answer (read_answers n msg) (read_record msg offset)

unfoldable pub check_header : Header → Outcome Header
check_header h =
    if ltb 5 (h.flags / 2048 % 16)
    then err (malformed "dns" "reserved opcode")
    else if ltb 64 h.qdcount || ltb 512 h.ancount
    then err (malformed "dns" "implausible record counts")
    else ok h

unfoldable pub message : Header → List DnsQuestion → List DnsRecord → DnsMessage
message h questions answers = record {
  transaction_id = h.transaction_id;
  is_response = h.flags / 32768 % 2 == 1;
  opcode = h.flags / 2048 % 16;
  rcode = h.flags % 16;
  recursion_desired = h.flags / 256 % 2 == 1;
  truncated = h.flags / 512 % 2 == 1;
  questions = questions;
  answers = answers;
  authority_count = h.nscount;
  additional_count = h.arcount;
}

unfoldable pub parse_strict : List ℕ → Outcome DnsMessage
unfolding ◌>>=◌ read_header check_header read_questions read_answers message
parse_strict buf = do
  h ← read_header buf >>= check_header
  (questions, offset) ← read_questions h.qdcount buf 12
  answers ← read_answers h.ancount buf offset
  ok (message h questions answers)

-- `.ok()`; that `parse_strict` does not panic is a theorem.
unfoldable pub to_option {ℓ} : {A : Type ℓ} → Outcome A → Option A
to_option (ok a) = some a
to_option (err e) = none
to_option panic = none

unfoldable pub parse : List ℕ → Option DnsMessage
unfolding parse_strict to_option
parse buf = to_option (parse_strict buf)
