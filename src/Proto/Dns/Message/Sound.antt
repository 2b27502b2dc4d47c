-- ===== src/Proto/Dns/Message/Sound.antt =====
-- `parse_strict` reads the header's fields and keeps to the counts they state.
use custom_built_network_ana.Base.{
  ℕ, zero, suc, ◌+◌, ◌-◌, ◌/◌, ◌%◌, ◌≤◌, ◌<◌, min, ◌||◌, List, ◌≡◌, refl, ap, arith, ltb, ◌==◌,
  length, take, drop, length-drop, length-take,
}
use custom_built_network_ana.Error.{Outcome, ◌>>=◌}
use custom_built_network_ana.Bytes.{slice}
use custom_built_network_ana.Bytes.Ensures.{
  AreBytes, take-AreBytes, drop-AreBytes, Yields, yields, fails,
}
use custom_built_network_ana.Outcomes.{then-Yields, slice-Yields, if_Yields}
use custom_built_network_ana.Proto.{Text, DnsRecord, DnsMessage}
use custom_built_network_ana.Proto.Dns.Name.{read_name}
use custom_built_network_ana.Proto.Dns.Name.Sound.{read_name_lem}
use custom_built_network_ana.Proto.Dns.Record.{render_rdata}
use custom_built_network_ana.Proto.Dns.Record.Sound.{render_rdata_lem}
use custom_built_network_ana.Proto.Dns.Fields.{Header, read_header, read_question, read_fields}
use custom_built_network_ana.Proto.Dns.Fields.Reads.{
  u16_at, IsHeader, read_header_lem, read_question_lem, read_fields_lem,
}
use custom_built_network_ana.Proto.Dns.Message.{
  question_at, read_questions, record_at, read_record, cons_answer, on_answer, read_answers,
  check_header, message, parse_strict,
}

-- The message that a buffer states: the fields of its header, as many questions as it says, and no more
-- answers, within the bounds of the source.
pub record IsMessage (buf : List ℕ) (m : DnsMessage) : Type 0 where
  pub transaction_id : m.transaction_id ≡ u16_at buf 0
  pub is_response : m.is_response ≡ (u16_at buf 2 / 32768 % 2 == 1)
  pub opcode : (m.opcode ≡ u16_at buf 2 / 2048 % 16) × (m.opcode ≤ 5)
  pub rcode : m.rcode ≡ u16_at buf 2 % 16
  pub recursion_desired : m.recursion_desired ≡ (u16_at buf 2 / 256 % 2 == 1)
  pub truncated : m.truncated ≡ (u16_at buf 2 / 512 % 2 == 1)
  pub questions : (length m.questions ≡ u16_at buf 4) × (length m.questions ≤ 64)
  pub answers : (length m.answers ≤ u16_at buf 6) × (length m.answers ≤ 512)
  pub authority_count : m.authority_count ≡ u16_at buf 8
  pub additional_count : m.additional_count ≡ u16_at buf 10

module _ (buf : List ℕ) (b : AreBytes buf) where
  abbrev Ahead {ℓ} : {A : Type ℓ} → ℕ → A × ℕ → Type 0
  Ahead start x = (start < x.1) × (x.1 ≤ length buf)

  from_bytes : (a n : ℕ) (bs : List ℕ) → bs ≡ take n (drop a buf) → AreBytes bs
  from_bytes a n bs e = rw e (take-AreBytes n _ (drop-AreBytes a buf b))

  -- What is left of the message from an offset in it.
  behind :
      (a : ℕ) (bs : List ℕ)
      → a ≤ length buf
      → bs ≡ take (length buf - a) (drop a buf)
      → length bs ≡ length buf - a
  behind a bs h e =
      omega (arith, ap length e, length-take (length buf - a) (drop a buf), length-drop a buf)

  question_at_lem :
      (start : ℕ) (x : Text × ℕ) → Ahead start x → Yields (Ahead start) (question_at buf x)
  unfolding question_at
  question_at_lem start (name, next) (p, q) =
      then-Yields _ (slice buf next (length buf)) _
        (slice-Yields buf next (length buf) q (omega arith))
        λ bs e.
          then-Yields _ (read_question bs) _ (read_question_lem bs (from_bytes next _ bs e))
            λ x room. yields (omega arith, omega (arith, room, behind next bs q e))

  read_questions_lem : (n offset : ℕ) → Yields (λ x. length x.0 ≡ n) (read_questions n buf offset)
  unfolding read_questions
  read_questions_lem zero offset = yields refl
  read_questions_lem (suc n) offset =
      then-Yields (Ahead offset) (read_name buf offset >>= question_at buf) _
        (then-Yields (Ahead offset) (read_name buf offset) (question_at buf)
          (read_name_lem buf offset b) (question_at_lem offset))
        λ x _.
          then-Yields (λ y. length y.0 ≡ n) (read_questions n buf x.1) _ (read_questions_lem n x.1)
            λ y e. yields (omega (arith, e))

  record_at_lem :
      (start : ℕ) (x : Text × ℕ) → Ahead start x → Yields (Ahead start) (record_at buf x)
  unfolding record_at
  record_at_lem start (name, next) (p, q) =
      let a = min next (length buf) in
      then-Yields _ (slice buf a (length buf)) _
        (slice-Yields buf a (length buf) (omega arith) (omega arith))
        λ bs e.
          then-Yields _ (read_fields bs) _ (read_fields_lem bs (from_bytes a _ bs e)) λ f (room, _).
            then-Yields _ (render_rdata buf f.rtype f.rdata (next + 10)) _
              (render_rdata_lem buf f.rtype f.rdata (next + 10) b)
              λ d _. yields (omega arith, omega (arith, room, behind a bs (omega arith) e))

  read_record_lem : (offset : ℕ) → Yields (Ahead offset) (read_record buf offset)
  unfolding read_record
  read_record_lem offset =
      then-Yields (Ahead offset) (read_name buf offset) (record_at buf) (read_name_lem buf offset b)
        (record_at_lem offset)

  cons_answer_lem :
      (n : ℕ) (a : DnsRecord) (o : Outcome (List DnsRecord))
      → Yields (λ x. length x ≤ n) o
      → Yields (λ x. length x ≤ suc n) (cons_answer a o)
  cons_answer_lem n a _ (yields h) = yields (omega (arith, h))
  cons_answer_lem n a _ fails = fails

  on_answer_lem :
      (n offset : ℕ) (again : ℕ → Outcome (List DnsRecord)) (o : Outcome (DnsRecord × ℕ))
      → Yields (Ahead offset) o
      → ((next : ℕ) → Yields (λ x. length x ≤ n) (again next))
      → Yields (λ x. length x ≤ suc n) (on_answer again o)
  on_answer_lem n offset again _ (yields {a} h) k = cons_answer_lem n a.0 (again a.1) (k a.1)
  on_answer_lem n offset again _ fails k = yields (omega arith)

  read_answers_lem : (n offset : ℕ) → Yields (λ x. length x ≤ n) (read_answers n buf offset)
  unfolding read_answers
  read_answers_lem zero offset = yields (omega arith)
  read_answers_lem (suc n) offset =
      on_answer_lem n offset (read_answers n buf) (read_record buf offset) (read_record_lem offset)
        (read_answers_lem n)

  abbrev IsPlausible : Header → Type 0
  IsPlausible h = IsHeader buf h × (h.flags / 2048 % 16 ≤ 5) × (h.qdcount ≤ 64) × (h.ancount ≤ 512)

  check_header_lem : (h : Header) → IsHeader buf h → Yields IsPlausible (check_header h)
  unfolding check_header
  check_header_lem h v =
      if_Yields (ltb 5 (h.flags / 2048 % 16)) _ _ (λ _. fails)
        λ t.
          if_Yields (ltb 64 h.qdcount || ltb 512 h.ancount) _ _ (λ _. fails)
            λ u. yields (v, ground (arith, t), ground (arith, u), ground (arith, u))

  -- Parsing a DNS message of any bytes ends and never indexes out of range: it is an error, or the message
  -- that the header states.
  pub parse_strict_lem : Yields (IsMessage buf) (parse_strict buf)
  unfolding parse_strict message
  parse_strict_lem =
      then-Yields IsPlausible (read_header buf >>= check_header) _
        (then-Yields (IsHeader buf) (read_header buf) check_header (read_header_lem buf b)
          check_header_lem)
        λ h (v, low, few, fewer).
          then-Yields _ (read_questions h.qdcount buf 12) _ (read_questions_lem h.qdcount 12) λ x e.
            then-Yields _ (read_answers h.ancount buf x.1) _ (read_answers_lem h.ancount x.1)
              λ answers most. yields (record {
                transaction_id = v.transaction_id;
                is_response = rw v.flags refl;
                opcode = (rw v.flags refl, low);
                rcode = rw v.flags refl;
                recursion_desired = rw v.flags refl;
                truncated = rw v.flags refl;
                questions = (omega (arith, e, v.qdcount), omega (arith, e, few));
                answers = (omega (arith, most, v.ancount), omega (arith, most, fewer));
                authority_count = v.nscount;
                additional_count = v.arcount;
              })
