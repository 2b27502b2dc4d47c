-- ===== src/Proto/Dns/Name/RoundTrip.antt =====
-- A name written without compression is read back.
use custom_built_network_ana.Base.{
  ℕ, zero, suc, ◌+◌, ◌/◌, ◌≤◌, ◌<◌, List, [], ◌∷◌, ◌++◌, ◌≡◌, refl, sym, ap, ◌∙◌, arith, ltb, leb,
  ◌==◌, length, get_or, take, drop, length-append, length-drop, drop-drop, get_or-drop, lt→ltb,
  le→leb, if_false, append_assoc, append_none,
}
use custom_built_network_ana.Error.{ok}
use custom_built_network_ana.Bytes.{index, slice}
use custom_built_network_ana.Bytes.Exact.{take-append, drop-append}
use custom_built_network_ana.Outcomes.{then_is}
use custom_built_network_ana.Proto.Dns.Name.{
  Walk, stop, more, max_labels, push_label, read_label, read_length, name_round, walk_on, walk_name,
  name_fuel, render_name, at, read_name,
}
use custom_built_network_ana.Proto.Dns.Name.Sound.{AreLabels}

-- RFC 1035: each label behind its length, and a zero.
abbrev pub encode_name : List (List ℕ) → List ℕ
encode_name [] = 0 ∷ []
encode_name (l ∷ ls) = length l ∷ l ++ encode_name ls

append_labels : (xs ys : List (List ℕ)) (l : List ℕ) → (xs ++ l ∷ []) ++ ys ≡ xs ++ l ∷ ys
append_labels [] ys l = refl
append_labels (x ∷ xs) ys l = ap (◌∷◌ x) (append_labels xs ys l)

module _ (msg : List ℕ) where
  index_at : (i y : ℕ) (ys : List ℕ) → drop i msg ≡ y ∷ ys → index msg i ≡ ok y
  unfolding index
  index_at i y ys e =
      rw (lt→ltb i (length msg) (omega (arith, ap length e, length-drop i msg)))
        (ap ok (sym (get_or-drop i msg 0) ∙ ap (λ xs. get_or xs 0 0) e))

  slice_at :
      (a n : ℕ) (l tail : List ℕ)
      → length l ≡ n
      → a ≤ length msg
      → drop a msg ≡ l ++ tail
      → slice msg a (a + n) ≡ ok l
  unfolding slice
  slice_at a n l tail len h e =
      let room : a + n ≤ length msg =
        omega (arith, ap length e, length-append l tail, length-drop a msg, len) in
      rw (le→leb a (a + n) (omega arith), le→leb (a + n) (length msg) room)
        (ap ok
          (ap (λ k. take k (drop a msg)) (omega arith) ∙ ap (take n) e ∙ take-append n l tail len))

  module _ (w : Walk) (l tail : List ℕ) (e : drop w.offset msg ≡ length l ∷ l ++ tail) where
    behind : drop (w.offset + 1) msg ≡ l ++ tail
    behind = sym (drop-drop 1 w.offset (w.offset + 1) msg refl) ∙ ap (drop 1) e

    behind_label : drop (w.offset + 1 + length l) msg ≡ tail
    behind_label =
        sym (drop-drop (length l) (w.offset + 1) (w.offset + 1 + length l) msg refl)
        ∙ ap (drop (length l)) behind
        ∙ drop-append (length l) l tail refl

    room : w.offset + 1 + length l ≤ length msg
    room = omega (arith, ap length e, length-append l tail, length-drop w.offset msg)

    abbrev next : Walk
    next = record w { labels = w.labels ++ l ∷ []; offset = w.offset + 1 + length l }

    push_label-is : length w.labels < max_labels → push_label w (length l) l ≡ ok (more next)
    unfolding push_label
    push_label-is few =
        if_false (ltb max_labels (length (w.labels ++ l ∷ []))) _
          (ground (arith, length-append w.labels (l ∷ []), few))

    read_label-is : length w.labels < max_labels → read_label msg w (length l) ≡ ok (more next)
    unfolding read_label
    read_label-is few =
        if_false (ltb (length msg) (w.offset + 1 + length l)) _ (ground (arith, room))
        ∙ then_is (slice msg (w.offset + 1) (w.offset + 1 + length l)) (push_label w (length l))
            (slice_at (w.offset + 1) (length l) l tail refl (omega (arith, room)) behind)
        ∙ push_label-is few

    read_length-is :
        0 < length l
        → length l < 64
        → length w.labels < max_labels
        → read_length msg w (length l) ≡ ok (more next)
    unfolding read_length
    read_length-is p q few =
        if_false (length l / 64 == 3) _ (ground arith)
        ∙ if_false (ltb 0 (length l / 64)) _ (ground arith)
        ∙ if_false (length l == 0) _ (ground arith)
        ∙ read_label-is few

    label_round :
        0 < length l
        → length l < 64
        → length w.labels < max_labels
        → name_round msg w ≡ ok (more next)
    unfolding name_round
    label_round p q few =
        if_false (leb (length msg) w.offset) _ (ground (arith, room))
        ∙ then_is (index msg w.offset) (read_length msg w)
            (index_at w.offset (length l) (l ++ tail) e)
        ∙ read_length-is p q few

  last_round :
      (w : Walk) (tail : List ℕ)
      → drop w.offset msg ≡ 0 ∷ tail
      → name_round msg w ≡ ok (stop (record w { offset = w.offset + 1 }))
  unfolding name_round read_length
  last_round w tail e =
      if_false (leb (length msg) w.offset) _ (ground (arith, ap length e, length-drop w.offset msg))
      ∙ then_is (index msg w.offset) (read_length msg w) (index_at w.offset 0 tail e)

  -- The walk from a round on takes the labels that are left.
  walk_name-encode :
      (fuel : ℕ) (w : Walk) (ls : List (List ℕ)) (tail : List ℕ)
      → drop w.offset msg ≡ encode_name ls ++ tail
      → AreLabels ls
      → length w.labels + length ls ≤ max_labels
      → length ls < fuel
      → walk_name fuel msg w
        ≡ ok (record w { labels = w.labels ++ ls; offset = w.offset + length (encode_name ls) })
  unfolding walk_name walk_on
  walk_name-encode zero w ls tail e h few k = absurd (omega arith)
  walk_name-encode (suc fuel) w [] tail e h few k =
      then_is (name_round msg w) (walk_on (walk_name fuel msg)) (last_round w tail e)
      ∙ ap (λ x. ok (record w { labels = x; offset = w.offset + 1 })) (sym (append_none w.labels))
  walk_name-encode (suc fuel) w (l ∷ ls) tail e (p, q, h) few k =
      let e' : drop w.offset msg ≡ length l ∷ l ++ (encode_name ls ++ tail) =
        e ∙ ap (◌∷◌ (length l)) (append_assoc l (encode_name ls) tail) in
      let size = length-append w.labels (l ∷ []) in
      then_is (name_round msg w) (walk_on (walk_name fuel msg))
        (label_round w l (encode_name ls ++ tail) e' p q (omega arith))
      ∙ walk_name-encode fuel (next w l (encode_name ls ++ tail) e') ls tail
          (behind_label w l (encode_name ls ++ tail) e') h (omega (arith, size)) (omega arith)
      ∙ ap
          (λ x.
            ok
              (record w { labels = x; offset = w.offset + 1 + length l + length (encode_name ls) }))
          (append_labels w.labels ls l)
      ∙ ap (λ n. ok (record w { labels = w.labels ++ l ∷ ls; offset = n }))
          (omega (arith, length-append l (encode_name ls)))

-- Wherever in a message a name is written, label by label with at most 127 of them, `read_name` gives it
-- back and goes on behind it.
pub read_name-encode :
    (front : List ℕ) (ls : List (List ℕ)) (tail : List ℕ)
    → AreLabels ls
    → length ls ≤ 127
    → read_name (front ++ (encode_name ls ++ tail)) (length front)
      ≡ ok (render_name ls, length front + length (encode_name ls))
unfolding read_name
read_name-encode front ls tail h few =
    let msg = front ++ (encode_name ls ++ tail) in
    then_is (walk_name name_fuel msg (at (length front))) _ (
      walk_name-encode msg name_fuel (at (length front)) ls tail
        (drop-append (length front) front (encode_name ls ++ tail) refl) h (omega arith)
        (omega arith))
