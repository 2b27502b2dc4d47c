-- ===== src/Transport/Options.antt =====
-- The walk over the TCP options: it never reads out of range, and its rounds are bounded by the bytes.
use custom_built_network_ana.Base.{
  ℕ, zero, suc, ◌+◌, ◌-◌, ◌≤◌, ◌<◌, some, ◌≡◌, refl, ap, ◌∙◌, arith, length,
}
use custom_built_network_ana.Error.{Outcome}
use custom_built_network_ana.Bytes.{
  Reader, Parser, and_then, ◌>>=◌, pure, eval, attempt, remaining, u8, be_u16,
}
use custom_built_network_ana.Bytes.Ensures.{
  IsValid, Ensures, returns, fails, Yields, bind, bind_same, bind_attempt, on_test, weaken,
  eval_lem, Moved, pure_lem, attempt_lem, lift_lem,
}
use custom_built_network_ana.Bytes.Reads.{u8_lem, be_u16_lem, sub_lem}
use custom_built_network_ana.Transport.{
  TcpOptions, Walk, stop, more, walk_on, store_option, option_data, option_length, option_kind,
  option_step, walk_options,
}

-- The reader `s` is in the same buffer as `r`, at least `n` bytes further.
pub record Ahead (n : ℕ) (r s : Reader) : Type 0 where
  pub buf : s.buf ≡ r.buf
  pub pos : r.pos + n ≤ s.pos

Ahead-refl : (r : Reader) → Ahead 0 r r
Ahead-refl r = record { buf = refl; pos = omega arith }

Ahead-trans : {m n k : ℕ} {r s t : Reader} → Ahead m r s → Ahead n s t → k ≤ m + n → Ahead k r t
Ahead-trans a b h = record { buf = b.buf ∙ a.buf; pos = omega (arith, a.pos, b.pos, h) }

pub Moved-Ahead : {n : ℕ} {r s : Reader} → Moved n r s → Ahead n r s
Moved-Ahead m = record { buf = m.buf; pos = omega (arith, m.pos) }

store_option_lem :
    (kind : ℕ) (out : TcpOptions) (d r : Reader)
    → IsValid d
    → IsValid r
    → Ensures (λ _ s. Unit {0} × (s ≡ r)) (store_option kind out d r)
unfolding store_option
store_option_lem kind out d r vd v =
    on_test _ _ _ r
      (λ _.
        bind_same _ _ r v (lift_lem r v _ (value be_u16 (be_u16_lem d vd)))
          λ x _. pure_lem _ v (tt, refl))
      λ _.
        on_test _ _ _ r
          (λ _.
            bind_same _ _ r v (lift_lem r v _ (value u8 (u8_lem d vd)))
              λ x _. pure_lem _ v (tt, refl))
          λ _. on_test _ _ _ r (λ _. done _) λ _. on_test _ _ _ r (λ _. done _) λ _. done _
  where
    value :
        {P : ℕ → Reader → Type 0} (p : Parser ℕ)
        → Ensures P (p d)
        → Yields (λ _. Unit {0}) (eval (attempt p) d)
    value p h = eval_lem (attempt p) d (attempt_lem p d vd h) (λ _ _ _ _. tt)

    done : (o : TcpOptions) → Ensures (λ _ s. Unit {0} × (s ≡ r)) (pure o r)
    done o = pure_lem o v (tt, refl)

-- Another round has taken a byte.
abbrev gain : Walk → ℕ
gain (stop out) = 0
gain (more out) = 1

abbrev Round : Reader → Walk → Reader → Type 0
Round r w s = Ahead (gain w) r s

weak : {n : ℕ} {r s : Reader} → Ahead n r s → Ahead 0 r s
weak a = record { buf = a.buf; pos = omega (arith, a.pos) }

-- From the length byte on, the round has taken the kind byte.
option_length_lem :
    (kind : ℕ) (out : TcpOptions) (r s : Reader)
    → IsValid s
    → Ahead 1 r s
    → (l : ℕ) → Ensures (Round r) (option_length kind out (some l) s)
unfolding option_length option_data
option_length_lem kind out r s v a l =
    on_test _ _ _ s
      (λ _.
        bind_attempt _ _ s (sub_lem (l - 2) "tcp option" s v) (pure_lem _ v (weak a))
          λ d t w (vd, _, _, _, m).
            bind_same _ _ t w (store_option_lem kind out d t vd w)
              λ o _. pure_lem _ w (Ahead-trans a (Moved-Ahead m) (omega arith)))
      λ _. pure_lem _ v (weak a)

option_kind_lem :
    (kind : ℕ) (out : TcpOptions) (r s : Reader)
    → IsValid s
    → Ahead 1 r s
    → Ensures (Round r) (option_kind out (some kind) s)
unfolding option_kind option_length
option_kind_lem kind out r s v a =
    on_test _ _ _ s (λ _. pure_lem _ v (weak a))
      λ _.
        on_test _ _ _ s (λ _. pure_lem _ v a)
          λ _. bind_attempt _ _ s (u8_lem s v) (pure_lem _ v (weak a)) λ l t w (_, _, m).
            option_length_lem kind out r t w (Ahead-trans a (Moved-Ahead m) (omega arith)) l

pub option_step_lem :
    (out : TcpOptions) (r : Reader) → IsValid r → Ensures (Round r) (option_step out r)
unfolding option_step option_kind
option_step_lem out r v =
    bind_attempt _ _ r (u8_lem r v) (pure_lem _ v (Ahead-refl r))
      λ kind s w (_, _, m). option_kind_lem kind out r s w (Moved-Ahead m)

walk_on_lem :
    (fuel : ℕ) (r : Reader) (w : Walk) (s : Reader)
    → IsValid s
    → Round r w s
    → ((o : TcpOptions) → Ensures (λ _ t. Ahead 0 s t) (walk_options fuel o s))
    → Ensures (λ _ t. Ahead 0 r t) (walk_on (walk_options fuel) w s)
unfolding walk_on
walk_on_lem fuel r (stop o) s w a ih = pure_lem _ w a
walk_on_lem fuel r (more o) s w a ih = weaken (ih o) λ _ t _ b. Ahead-trans a b (omega arith)

-- The walk stays in the buffer of the options, whatever they hold.
pub walk_options_lem :
    (fuel : ℕ) (out : TcpOptions) (r : Reader)
    → IsValid r
    → Ensures (λ _ s. Ahead 0 r s) (walk_options fuel out r)
unfolding walk_options
walk_options_lem zero out r v = pure_lem _ v (Ahead-refl r)
walk_options_lem (suc fuel) out r v =
    bind _ _ _ (option_step_lem out r v)
      λ w s u a. walk_on_lem fuel r w s u a (λ o. walk_options_lem fuel o s u)

module _ (f g : ℕ) where
  walk_on_fuel :
      (r : Reader) (o : Outcome (Walk × Reader))
      → IsValid r
      → Ensures (Round r) o
      → remaining r < suc f
      → remaining r < suc g
      → ((out : TcpOptions) (s : Reader)
          → IsValid s
          → remaining s < f
          → remaining s < g
          → walk_options f out s ≡ walk_options g out s)
      → and_then o (walk_on (walk_options f)) ≡ and_then o (walk_on (walk_options g))
  unfolding walk_on
  walk_on_fuel r _ v (returns {a = stop out} w a) h k ih = refl
  walk_on_fuel r _ v (returns {a = more out} {r = s} w a) h k ih =
      ih out s w (omega (arith, ap length a.buf, a.pos, w.within))
        (omega (arith, ap length a.buf, a.pos, w.within))
  walk_on_fuel r _ v fails h k ih = refl

-- With more fuel than bytes the walk ends by its own test: the amount makes no difference.
pub walk_options_fuel :
    (f g : ℕ) (out : TcpOptions) (r : Reader)
    → IsValid r
    → remaining r < f
    → remaining r < g
    → walk_options f out r ≡ walk_options g out r
unfolding walk_options ◌>>=◌
walk_options_fuel zero g out r v h k = absurd (omega arith)
walk_options_fuel (suc f) zero out r v h k = absurd (omega arith)
walk_options_fuel (suc f) (suc g) out r v h k =
    walk_on_fuel f g r (option_step out r) v (option_step_lem out r v) h k
      (λ o s w p q. walk_options_fuel f g o s w p q)
