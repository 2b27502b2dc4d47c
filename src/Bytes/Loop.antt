-- ===== src/Bytes/Loop.antt =====
-- A `while` loop over a reader. Each round that goes on reads a byte at least, so one round more than bytes
-- are left is enough; a loop out of rounds is a panic.
use custom_built_network_ana.Base.{ℕ, zero, suc, ◌≤◌, ◌<◌, ◌≡◌, ap, arith, length}
use custom_built_network_ana.Error.{panic}
use custom_built_network_ana.Bytes.{Reader, Parser, ◌>>=◌, pure, remaining}
use custom_built_network_ana.Bytes.Ensures.{IsValid, Ensures, bind, pure_lem}

pub data Round {ℓ} (A : Type ℓ) : Type ℓ where
  stop : A → Round A
  more : A → Round A

unfoldable pub go_on {ℓ} : {A : Type ℓ} → (A → Parser A) → Round A → Parser A
unfolding pure
go_on again (stop a) = pure a
go_on again (more a) = again a

unfoldable pub rounds {ℓ} : {A : Type ℓ} → ℕ → (A → Parser (Round A)) → A → Parser A
unfolding ◌>>=◌ go_on
rounds zero round a r = panic
rounds (suc n) round a r = (round a >>= go_on (rounds n round)) r

unfoldable pub loop {ℓ} : {A : Type ℓ} → (A → Parser (Round A)) → A → Parser A
unfolding rounds
loop round a r = rounds (suc (remaining r)) round a r

module _ {ℓ} {A : Type ℓ} (I : A → Type 0) where
  -- What a round leaves: the invariant, and fewer bytes to read where the loop goes on.
  abbrev pub Keeps : Reader → Round A → Reader → Type 0
  Keeps r (stop a) s = I a
  Keeps r (more a) s = I a × ((s.buf ≡ r.buf) × (r.pos < s.pos))

  module _ (round : A → Parser (Round A))
      (step : (a : A) (r : Reader) → IsValid r → I a → Ensures (Keeps r) (round a r)) where
    go_on_lem :
        (n : ℕ) (r : Reader) (x : Round A) (s : Reader)
        → IsValid s
        → remaining r < suc n
        → r.pos ≤ length r.buf
        → Keeps r x s
        → ((a : A) (t : Reader)
            → IsValid t
            → remaining t < n
            → I a
            → Ensures (λ b _. I b) (rounds n round a t))
        → Ensures (λ b _. I b) (go_on (rounds n round) x s)
    unfolding go_on
    go_on_lem n r (stop a) s v h w i k = pure_lem a v i
    go_on_lem n r (more a) s v h w (i, (same, ahead)) k =
        k a s v (omega (arith, h, w, ahead, ap length same, v.within)) i

    rounds_lem :
        (n : ℕ) (a : A) (r : Reader)
        → IsValid r
        → remaining r < n
        → I a
        → Ensures (λ b _. I b) (rounds n round a r)
    unfolding rounds
    rounds_lem zero a r v h i = absurd (omega arith)
    rounds_lem (suc n) a r v h i =
        bind (round a) (go_on (rounds n round)) r (step a r v i)
          λ x s w k. go_on_lem n r x s w h v.within k (rounds_lem n)

    -- The rule of a loop.
    pub loop_lem : (a : A) (r : Reader) → IsValid r → I a → Ensures (λ b _. I b) (loop round a r)
    unfolding loop
    loop_lem a r v i = rounds_lem (suc (remaining r)) a r v (omega arith) i
