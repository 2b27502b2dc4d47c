-- ===== src/Net/Flags.antt =====
-- The single bits that crates/cbna-core/src/net.rs tests in a word of 16 bits, by division and remainder.
use custom_built_network_ana.Base.{
  ℕ, all_below, all_below_lem, ◌+◌, ◌*◌, ◌/◌, ◌%◌, ◌<◌, bit_and, Bool, true, ◌&&◌, ◌≡◌, refl, ap,
  ◌∙◌, arith, ◌==◌,
}
use custom_built_network_ana.Net.{any_set}

abbrev agree : ℕ → Bool
agree w =
    bit_and w 0x4000 == w / 16384 % 2 * 16384
    && bit_and w 0x2000 == w / 8192 % 2 * 8192
    && bit_and w 0x0001 == w % 2

table : all_below 256 (λ i. all_below 256 (λ j. agree (i * 256 + j))) ≡ true
unfolding all_below
table = refl

agree_lem : (w : ℕ) → w < 65536 → agree w ≡ true
agree_lem w h =
    ap agree halves
    ∙ all_below_lem 256 (λ j. agree (w / 256 * 256 + j)) (w % 256)
        (all_below_lem 256 (λ i. all_below 256 (λ j. agree (i * 256 + j))) (w / 256) table
          (omega arith))
        (omega arith)
  where
    halves : w ≡ w / 256 * 256 + w % 256
    halves = omega arith

pub any_set_14 : (w : ℕ) → w < 65536 → any_set w 0x4000 ≡ (w / 16384 % 2 == 1)
any_set_14 w h = ground (arith, agree_lem w h)

pub any_set_13 : (w : ℕ) → w < 65536 → any_set w 0x2000 ≡ (w / 8192 % 2 == 1)
any_set_13 w h = ground (arith, agree_lem w h)

pub any_set_0 : (w : ℕ) → w < 65536 → any_set w 0x0001 ≡ (w % 2 == 1)
any_set_0 w h = ground (arith, agree_lem w h)
