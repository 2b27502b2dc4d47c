-- ===== src/Proto/Dns/Name/Sound.antt =====
-- `read_name` ends, never reads out of range, and moves on within the message.
use custom_built_network_ana.Base.{
  ℕ, zero, suc, ◌+◌, ◌-◌, ◌*◌, ◌/◌, ◌%◌, ◌≤◌, ◌<◌, ◌||◌, Option, none, some, List, [], ◌∷◌, ◌++◌,
  ◌≡◌, ap, arith, ltb, leb, ◌==◌, length, drop, length-append, length-take, length-drop,
}
use custom_built_network_ana.Error.{Outcome}
use custom_built_network_ana.Bytes.{index, slice}
use custom_built_network_ana.Bytes.Ensures.{AreBytes, Yields, yields, fails, get_or-lt}
use custom_built_network_ana.Outcomes.{then-Yields, index-Yields, slice-Yields, if_Yields}
use custom_built_network_ana.Proto.{Text}
use custom_built_network_ana.Proto.Dns.Name.{
  Walk, Round, stop, more, max_jumps, max_labels, get_or_insert, jump, pointer, push_label,
  read_label, read_length, name_round, walk_on, walk_name, name_fuel, unwrap_or, at, read_name,
}

-- A label has between 1 and 63 bytes.
abbrev pub AreLabels : List (List ℕ) → Type 0
AreLabels [] = Unit {0}
AreLabels (l ∷ ls) = (0 < length l) × (length l < 64) × AreLabels ls

append-AreLabels :
    (ls : List (List ℕ)) (l : List ℕ)
    → AreLabels ls
    → 0 < length l
    → length l < 64
    → AreLabels (ls ++ l ∷ [])
append-AreLabels [] l h p q = (p, q, tt)
append-AreLabels (x ∷ ls) l (a, b, h) p q = (a, b, append-AreLabels ls l h p q)

module _ (msg : List ℕ) (start : ℕ) where
  -- Where reading goes on behind the name: behind the first pointer if there was one.
  abbrev Front : Option ℕ → ℕ → Type 0
  Front none offset = start ≤ offset
  Front (some m) offset = (start < m) × (m ≤ length msg)

  record IsWalk (w : Walk) : Type 0 where
    labels : length w.labels ≤ max_labels
    jumps : w.jumps ≤ max_jumps
    front : Front w.after_first_pointer w.offset
    short : AreLabels w.labels

  -- Every round but the last takes a label or a jump.
  abbrev steps : Walk → ℕ
  steps w = length w.labels + w.jumps

  abbrev pub IsNext : ℕ → Type 0
  IsNext next = (start < next) × (next ≤ length msg)

  abbrev RoundFrom : Walk → Round → Type 0
  RoundFrom w (stop v) =
      AreLabels v.labels
      × (length v.labels ≤ max_labels)
      × IsNext (unwrap_or v.after_first_pointer v.offset)
  RoundFrom w (more v) = IsWalk v × (steps v ≡ steps w + 1)

  IsNext-at :
      (o : Option ℕ) (offset : ℕ)
      → Front o offset
      → offset < length msg
      → IsNext (unwrap_or o (offset + 1))
  IsNext-at none offset h k = (omega arith, omega arith)
  IsNext-at (some m) offset h k = h

  Front-at :
      (o : Option ℕ) (offset target : ℕ)
      → Front o offset
      → offset + 1 < length msg
      → Front (get_or_insert o (offset + 2)) target
  Front-at none offset target h k = (omega arith, omega arith)
  Front-at (some m) offset target h k = h

  Front-on : (o : Option ℕ) (offset next : ℕ) → offset ≤ next → Front o offset → Front o next
  Front-on none offset next k h = omega arith
  Front-on (some m) offset next k h = h

  jump_lem :
      (w : Walk) (len low : ℕ)
      → IsWalk w
      → w.offset + 1 < length msg
      → Yields (RoundFrom w) (jump msg w len low)
  unfolding jump
  jump_lem w len low v h =
      let target = len % 64 * 256 + low in
      if_Yields (ltb max_jumps (w.jumps + 1) || leb (length msg) target || leb w.offset target) _ _
        (λ _. fails)
        λ t. yields (
          record {
            labels = v.labels;
            jumps = ground (arith, t);
            front = Front-at w.after_first_pointer w.offset target v.front h;
            short = v.short;
          },
          omega arith,
        )

  pointer_lem : (w : Walk) (len : ℕ) → IsWalk w → Yields (RoundFrom w) (pointer msg w len)
  unfolding pointer
  pointer_lem w len v =
      if_Yields (leb (length msg) (w.offset + 1)) _ _ (λ _. fails)
        λ t.
          let room : w.offset + 1 < length msg = ground (arith, t) in
          then-Yields _ (index msg (w.offset + 1)) (jump msg w len)
            (index-Yields msg (w.offset + 1) room) λ low _. jump_lem w len low v room

  push_label_lem :
      (w : Walk) (len : ℕ) (label : List ℕ)
      → IsWalk w
      → 0 < length label
      → length label < 64
      → Yields (RoundFrom w) (push_label w len label)
  unfolding push_label
  push_label_lem w len label v p q =
      let size = length-append w.labels (label ∷ []) in
      if_Yields (ltb max_labels (length (w.labels ++ label ∷ []))) _ _ (λ _. fails)
        λ t. yields (
          record {
            labels = ground (arith, t);
            jumps = v.jumps;
            front =
                Front-on w.after_first_pointer w.offset (w.offset + 1 + len) (omega arith) v.front;
            short = append-AreLabels w.labels label v.short p q;
          },
          omega (arith, size),
        )

  read_label_lem :
      (w : Walk) (len : ℕ)
      → IsWalk w
      → 0 < len
      → len < 64
      → Yields (RoundFrom w) (read_label msg w len)
  unfolding read_label
  read_label_lem w len v p q =
      if_Yields (ltb (length msg) (w.offset + 1 + len)) _ _ (λ _. fails)
        λ t.
          let room : w.offset + 1 + len ≤ length msg = ground (arith, t) in
          then-Yields _ (slice msg (w.offset + 1) (w.offset + 1 + len)) (push_label w len)
            (slice-Yields msg (w.offset + 1) (w.offset + 1 + len) (omega arith) room)
            λ label e.
              let size : length label ≡ len = omega (
                arith,
                ap length e,
                room,
                length-take (w.offset + 1 + len - (w.offset + 1)) (drop (w.offset + 1) msg),
                length-drop (w.offset + 1) msg,
              ) in
              push_label_lem w len label v (omega (arith, size)) (omega (arith, size))

  read_length_lem :
      (w : Walk) (len : ℕ)
      → IsWalk w
      → w.offset < length msg
      → len < 256
      → Yields (RoundFrom w) (read_length msg w len)
  unfolding read_length
  read_length_lem w len v h b =
      if_Yields (len / 64 == 3) _ _ (λ _. pointer_lem w len v)
        λ _.
          if_Yields (ltb 0 (len / 64)) _ _ (λ _. fails)
            λ small.
              if_Yields (len == 0) _ _
                (λ _.
                  yields (v.short, v.labels, IsNext-at w.after_first_pointer w.offset v.front h))
                λ some_bytes.
                  read_label_lem w len v (ground (arith, some_bytes)) (ground (arith, small))

  name_round_lem : (w : Walk) → AreBytes msg → IsWalk w → Yields (RoundFrom w) (name_round msg w)
  unfolding name_round
  name_round_lem w b v =
      if_Yields (leb (length msg) w.offset) _ _ (λ _. fails)
        λ t.
          let room : w.offset < length msg = ground (arith, t) in
          then-Yields _ (index msg w.offset) (read_length msg w) (index-Yields msg w.offset room)
            λ len e. read_length_lem w len v room (omega (arith, e, get_or-lt msg w.offset b))

  abbrev Finished : Walk → Type 0
  Finished w =
      AreLabels w.labels
      × (length w.labels ≤ max_labels)
      × IsNext (unwrap_or w.after_first_pointer w.offset)

  walk_on_lem :
      (w : Walk) (again : Walk → Outcome Walk) (r : Round)
      → RoundFrom w r
      → ((u : Walk) → IsWalk u → steps u ≡ steps w + 1 → Yields Finished (again u))
      → Yields Finished (walk_on again r)
  unfolding walk_on
  walk_on_lem w again (stop u) q k = yields q
  walk_on_lem w again (more u) (q, s) k = k u q s

  walk_name_lem :
      (fuel : ℕ) (w : Walk)
      → AreBytes msg
      → IsWalk w
      → max_labels + max_jumps < steps w + fuel
      → Yields Finished (walk_name fuel msg w)
  unfolding walk_name
  walk_name_lem zero w b v h = absurd (omega (arith, v.labels, v.jumps))
  walk_name_lem (suc fuel) w b v h =
      then-Yields (RoundFrom w) (name_round msg w) (walk_on (walk_name fuel msg))
        (name_round_lem w b v)
        λ r q.
          walk_on_lem w (walk_name fuel msg) r q
            λ u x s. walk_name_lem fuel u b x (omega (arith, h, s))

-- Reading a name of any bytes from any offset ends within its rounds and never indexes out of range: it is
-- an error, or a name and an offset behind the start and within the message.
pub read_name_lem :
    (msg : List ℕ) (start : ℕ)
    → AreBytes msg
    → Yields (λ (x : Text × ℕ). (start < x.1) × (x.1 ≤ length msg)) (read_name msg start)
unfolding read_name
read_name_lem msg start b =
    then-Yields (Finished msg start) (walk_name name_fuel msg (at start)) _
      (walk_name_lem msg start name_fuel (at start) b
        (record { labels = omega arith; jumps = omega arith; front = omega arith; short = tt })
        (omega arith))
      λ w (short, few, next). yields next
