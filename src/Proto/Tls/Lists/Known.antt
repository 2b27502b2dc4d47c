-- ===== src/Proto/Tls/Lists/Known.antt =====
-- The lists are read without a panic, and no GREASE value is in them.
use custom_built_network_ana.Base.{
  ℕ, zero, suc, ◌+◌, ◌<◌, min, String, Bool, false, Option, none, List, [], ◌∷◌, ◌++◌, ◌≡◌, refl,
  arith, ◌==◌, if◌then◌else◌, on_if,
}
use custom_built_network_ana.Bytes.{Reader, Parser, ◌>>=◌, lift, eval, remaining, u8, sub}
use custom_built_network_ana.Bytes.Ensures.{
  IsValid, Ensures, bind, bind_same, bind_attempt, on_test, weaken, eval_lem, Moved, Moved-trans,
  pure_lem, lift_lem,
}
use custom_built_network_ana.Bytes.Reads.{u8_lem, be_u16_lem, take_bytes_lem, sub_lem, here_lem}
use custom_built_network_ana.Bytes.Loop.{Round, stop, more, loop, Keeps, loop_lem}
use custom_built_network_ana.Proto.{Text, TlsHelloKind, client, server}
use custom_built_network_ana.Proto.Tls.Lists.{
  is_grease, push_known, cipher_round, read_ciphers, sni_round, read_sni, alpn_round, read_alpn,
  on_group, group_round, on_list_len, read_groups, on_point, point_rounds, on_point_count,
  read_points, version_round, read_supported_versions,
}

abbrev pub Any {ℓ} : {A : Type ℓ} → A → Type 0
Any a = Unit {0}

-- None of the values is a GREASE value.
abbrev pub AreKnown : List ℕ → Type 0
AreKnown [] = Unit {0}
AreKnown (v ∷ vs) = (is_grease v ≡ false) × AreKnown vs

pub AreKnown-append :
    (vs : List ℕ) (v : ℕ) → AreKnown vs → is_grease v ≡ false → AreKnown (vs ++ v ∷ [])
AreKnown-append [] v h e = (e, tt)
AreKnown-append (w ∷ vs) v (d, h) e = (d, AreKnown-append vs v h e)

push_known-AreKnown : (out : List ℕ) (v : ℕ) → AreKnown out → AreKnown (push_known out v)
unfolding push_known
push_known-AreKnown out v h =
    on_if AreKnown (is_grease v) out (out ++ v ∷ []) (λ _. h) λ e. AreKnown-append out v h e

-- A step of a loop that has read bytes.
further : {n : ℕ} {r s : Reader} → Moved (suc n) r s → (s.buf ≡ r.buf) × (r.pos < s.pos)
further m = (m.buf, omega (arith, m.pos))

-- A loop over the next `n` bytes.
pub sub_loop_lem {ℓ} :
    {A : Type ℓ} (I : A → Type 0) (n : ℕ) (layer : String) (round : A → Parser (Round A))
    → ((a : A) (r : Reader) → IsValid r → I a → Ensures (Keeps I r) (round a r))
    → (a : A) (r : Reader) → IsValid r
    → I a
    → Ensures (λ b s. I b × Moved n r s) ((sub n layer >>= λ t. lift (eval (loop round a) t)) r)
sub_loop_lem I n layer round step a r v i =
    bind _ _ r (sub_lem n layer r v) λ t s w (vt, _, _, _, m).
      bind_back m
        (lift_lem s w _ (eval_lem (loop round a) t (loop_lem I round step a t vt i) (λ _ _ _ q. q)))
  where
    bind_back :
        {s : Reader} {o : _}
        → Moved n r s
        → Ensures (λ b t. I b × (t ≡ s)) o
        → Ensures (λ b t. I b × Moved n r t) o
    bind_back m h = weaken h λ b t w (q, e). (q, rw e m)

cipher_round_lem :
    (out : List ℕ) (r : Reader)
    → IsValid r
    → AreKnown out
    → Ensures (Keeps AreKnown r) (cipher_round out r)
unfolding cipher_round
cipher_round_lem out r v h = bind_same _ _ r v (here_lem r v) λ t _.
    on_test _ _ _ r
      (λ _.
        bind _ _ r (be_u16_lem r v)
          λ x s w (_, _, m). pure_lem _ w (push_known-AreKnown out x h, further m))
      λ _. pure_lem _ v h

pub read_ciphers_lem :
    (n : ℕ) (r : Reader)
    → IsValid r
    → Ensures (λ cs s. AreKnown cs × Moved n r s) (read_ciphers n r)
unfolding read_ciphers
read_ciphers_lem n r v =
    sub_loop_lem AreKnown n "tls ciphers" cipher_round cipher_round_lem [] r v tt

-- A choice between the two ends of a round.
either {ℓ} :
    {A : Type ℓ} (t : Bool) (a b : A) (r s : Reader)
    → (s.buf ≡ r.buf) × (r.pos < s.pos)
    → Keeps Any r (if t then stop a else more b) s
either t a b r s h = on_if (λ x. Keeps Any r x s) t (stop a) (more b) (λ _. tt) λ _. (tt, h)

sni_round_lem :
    (name : Option Text) (r : Reader)
    → IsValid r
    → Unit {0}
    → Ensures (Keeps Any r) (sni_round name r)
unfolding sni_round
sni_round_lem name r v _ = bind_same _ _ r v (here_lem r v) λ t _.
    on_test _ _ _ r
      (λ _. bind _ _ r (u8_lem r v) λ x s w (_, _, m).
        bind _ _ s (be_u16_lem s w) λ len s' w' (_, _, m').
          bind _ _ s' (take_bytes_lem len s' w') λ bs s'' w'' (_, _, _, m''). pure_lem _ w'' (
            either (x == 0) _ _ r s'' (
              further
                (Moved-trans (suc (2 + len)) m (Moved-trans (2 + len) m' m'' refl) (omega arith)))))
      λ _. pure_lem _ v tt

pub read_sni_lem : (r : Reader) → IsValid r → Ensures (λ _ _. Unit {0}) (read_sni r)
unfolding read_sni
read_sni_lem r v = bind _ _ r (be_u16_lem r v) λ n s w _. bind_same _ _ s w (here_lem s w) λ t _.
    weaken (sub_loop_lem Any (min n (remaining t)) "sni list" sni_round sni_round_lem none s w tt)
      λ _ _ _ _. tt

alpn_round_lem :
    (out : List Text) (r : Reader) → IsValid r → Unit {0} → Ensures (Keeps Any r) (alpn_round out r)
unfolding alpn_round
alpn_round_lem out r v _ = bind_same _ _ r v (here_lem r v) λ t _.
    on_test _ _ _ r
      (λ _. bind _ _ r (u8_lem r v) λ len s w (_, _, m).
        bind _ _ s (take_bytes_lem len s w) λ bs s' w' (_, _, _, m').
          pure_lem _ w' (tt, further (Moved-trans (suc len) m m' (omega arith))))
      λ _. pure_lem _ v tt

pub read_alpn_lem : (r : Reader) → IsValid r → Ensures (λ _ _. Unit {0}) (read_alpn r)
unfolding read_alpn
read_alpn_lem r v = bind _ _ r (be_u16_lem r v) λ n s w _. bind_same _ _ s w (here_lem s w) λ t _.
    weaken (sub_loop_lem Any (min n (remaining t)) "alpn list" alpn_round alpn_round_lem [] s w tt)
      λ _ _ _ _. tt

group_round_lem :
    (out : List ℕ) (r : Reader)
    → IsValid r
    → AreKnown out
    → Ensures (Keeps AreKnown r) (group_round out r)
unfolding group_round on_group
group_round_lem out r v h =
    bind_attempt _ _ r (be_u16_lem r v) (pure_lem _ v h)
      λ x s w (_, _, m). pure_lem _ w (push_known-AreKnown out x h, further m)

pub read_groups_lem :
    (out : List ℕ) (r : Reader)
    → IsValid r
    → AreKnown out
    → Ensures (λ gs _. AreKnown gs) (read_groups out r)
unfolding read_groups on_list_len
read_groups_lem out r v h =
    bind_attempt _ _ r (be_u16_lem r v) (pure_lem _ v h)
      λ n s w _. loop_lem AreKnown group_round group_round_lem out s w h

point_rounds_lem :
    (n : ℕ) (out : List ℕ) (r : Reader)
    → IsValid r
    → Ensures (λ _ _. Unit {0}) (point_rounds n out r)
unfolding point_rounds on_point
point_rounds_lem zero out r v = pure_lem _ v tt
point_rounds_lem (suc n) out r v =
    bind_attempt u8 (on_point (point_rounds n) out) r (u8_lem r v) (pure_lem _ v tt)
      λ x s w _. point_rounds_lem n (out ++ x ∷ []) s w

pub read_points_lem :
    (out : List ℕ) (r : Reader) → IsValid r → Ensures (λ _ _. Unit {0}) (read_points out r)
unfolding read_points on_point_count
read_points_lem out r v =
    bind_attempt u8 (on_point_count out) r (u8_lem r v) (pure_lem _ v tt)
      λ n s w _. point_rounds_lem n out s w

version_round_lem :
    (best : ℕ) (r : Reader) → IsValid r → Unit {0} → Ensures (Keeps Any r) (version_round best r)
unfolding version_round
version_round_lem best r v _ = bind_same _ _ r v (here_lem r v) λ t _.
    on_test _ _ _ r
      (λ _. bind _ _ r (be_u16_lem r v) λ x s w (_, _, m). pure_lem _ w (tt, further m))
      λ _. pure_lem _ v tt

pub read_supported_versions_lem :
    (kind : TlsHelloKind) (r : Reader)
    → IsValid r
    → Ensures (λ _ _. Unit {0}) (read_supported_versions kind r)
unfolding read_supported_versions
read_supported_versions_lem server r v = weaken (be_u16_lem r v) λ _ _ _ _. tt
read_supported_versions_lem client r v = bind _ _ r (u8_lem r v) λ n s w _.
    bind_same _ _ s w (here_lem s w) λ t _.
      weaken
        (sub_loop_lem Any (min n (remaining t)) "supported versions" version_round version_round_lem
          0 s w tt)
        λ _ _ _ _. tt
