-- ===== src/Proto/Dns/Record/Sound.antt =====
-- What is kept of a record's data is made without an index out of range.
use custom_built_network_ana.Base.{
  ℕ, zero, suc, ◌+◌, ◌*◌, ◌≤◌, ◌<◌, ◌&&◌, ◌||◌, List, arith, ltb, leb, ◌==◌, length,
}
use custom_built_network_ana.Error.{Outcome}
use custom_built_network_ana.Bytes.{index, slice}
use custom_built_network_ana.Bytes.Ensures.{AreBytes, Yields, yields, fails}
use custom_built_network_ana.Outcomes.{then-Yields, index-Yields, slice-Yields, if_Yields}
use custom_built_network_ana.Proto.{Text, RData, host, exchange}
use custom_built_network_ana.Proto.Dns.Name.Sound.{read_name_lem}
use custom_built_network_ana.Proto.Dns.Record.{txt_parts, or_malformed, render_rdata}

abbrev Any {ℓ} : {A : Type ℓ} → A → Type 0
Any a = Unit {0}

txt_parts_lem :
    (fuel : ℕ) (rdata : List ℕ) (i : ℕ)
    → i ≤ length rdata
    → length rdata < fuel + i
    → Yields Any (txt_parts fuel rdata i)
unfolding txt_parts
txt_parts_lem zero rdata i p h = absurd (omega arith)
txt_parts_lem (suc fuel) rdata i p h =
    if_Yields (leb (length rdata) i) _ _ (λ _. yields tt)
      λ t. then-Yields _ (index rdata i) _ (index-Yields rdata i (ground (arith, t))) λ len _.
        if_Yields (ltb (length rdata) (i + 1 + len)) _ _ (λ _. yields tt)
          λ u.
            let room : i + 1 + len ≤ length rdata = ground (arith, u) in
            then-Yields _ (slice rdata (i + 1) (i + 1 + len)) _
              (slice-Yields rdata (i + 1) (i + 1 + len) (omega arith) room)
              λ part _.
                then-Yields Any (txt_parts fuel rdata (i + 1 + len)) _
                  (txt_parts_lem fuel rdata (i + 1 + len) room (omega arith)) λ parts _. yields tt

or_malformed_lem :
    {P : Text × ℕ → Type 0} (make : Text → RData) (o : Outcome (Text × ℕ))
    → Yields P o
    → Yields Any (or_malformed make o)
or_malformed_lem make _ (yields q) = yields tt
or_malformed_lem make _ fails = yields tt

pub render_rdata_lem :
    (msg : List ℕ) (rtype : ℕ) (rdata : List ℕ) (start : ℕ)
    → AreBytes msg
    → Yields (λ _. Unit {0}) (render_rdata msg rtype rdata start)
unfolding render_rdata
render_rdata_lem msg rtype rdata start b =
    if_Yields (rtype == 1 && length rdata == 4) _ _ (λ _. yields tt)
      λ _.
        if_Yields (rtype == 28 && length rdata == 16) _ _ (λ _. yields tt)
          λ _.
            if_Yields (rtype == 2 || rtype == 5 || rtype == 12) _ _
              (λ _. or_malformed_lem host _ (read_name_lem msg start b))
              λ _.
                if_Yields (rtype == 15 && ltb 2 (length rdata)) _ _
                  (λ t.
                    let room : 2 < length rdata = ground (arith, t) in
                    then-Yields _ (index rdata 0) _ (index-Yields rdata 0 (omega arith)) λ x _.
                      then-Yields _ (index rdata 1) _ (index-Yields rdata 1 (omega arith)) λ y _.
                        or_malformed_lem (λ name. exchange name (x * 256 + y)) _
                          (read_name_lem msg (start + 2) b))
                  λ _.
                    if_Yields (rtype == 16) _ _
                      (λ _.
                        then-Yields Any (txt_parts (suc (length rdata)) rdata 0) _
                          (txt_parts_lem (suc (length rdata)) rdata 0 (omega arith) (omega arith))
                          λ parts _. yields tt)
                      λ _. yields tt
