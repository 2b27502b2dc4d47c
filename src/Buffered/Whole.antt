-- ===== src/Buffered/Whole.antt =====
-- Pieces of one message, written in any order, with overlaps and repeats: the buffer holds the message.
use custom_built_network_ana.Base.{
  ℕ, suc, ◌+◌, ◌-◌, ◌≤◌, ◌<◌, Bool, true, false, ◌||◌, List, [], ◌∷◌, ◌≡◌, refl, sym, ap, ◌∙◌, inl,
  inr, arith, ltb, Bool-cases, length, get_or, take, length-take,
}
use custom_built_network_ana.Ranges.{Range, is_filled, contiguous, holds, AreRanges}
use custom_built_network_ana.Ranges.Cover.{contiguous_lem, contiguous-le}
use custom_built_network_ana.Buffered.{Buffered, write, IsBuffered}
use custom_built_network_ana.Buffered.Invariant.{Written, write_lem, end_of, get_or-take}

-- A piece: where it starts, and its bytes.
abbrev pub Piece : Type 0
Piece = ℕ × List ℕ

-- The piece is what the message has there.
abbrev pub IsPieceOf : List ℕ → Piece → Type 0
IsPieceOf message (offset, body) =
    (k : ℕ) → k < length body → get_or body k 0 ≡ get_or message (offset + k) 0

abbrev pub ArePieces : List ℕ → List Piece → Type 0
ArePieces message [] = Unit {0}
ArePieces message (p ∷ ps) = IsPieceOf message p × ArePieces message ps

-- Some piece has a byte at the offset.
abbrev pub any_has : ℕ → List Piece → ℕ → Bool
any_has cap [] i = false
any_has cap ((offset, body) ∷ ps) i = holds (offset, end_of cap offset body) i || any_has cap ps i

-- All pieces written one after the other, and whether any of them disagreed.
unfoldable pub write_all : ℕ → Buffered → List Piece → Buffered × Bool
write_all cap w [] = (w, false)
write_all cap w ((offset, body) ∷ ps) =
    let (w', conflict) = write cap w offset body in
    let (last, others) = write_all cap w' ps in (last, conflict || others)

-- What is filled is the message's.
abbrev pub Agrees : List ℕ → Buffered → Type 0
Agrees message w = (j : ℕ) → is_filled w.filled j ≡ true → get_or w.buf j 0 ≡ get_or message j 0

-- A message, in part.
pub record HoldsPart (cap : ℕ) (message : List ℕ) (w : Buffered) (ps : List Piece)
    (out : Buffered × Bool) : Type 0 where
  pub valid : IsBuffered cap out.0
  pub agrees : Agrees message out.0
  pub covers : (j : ℕ) → is_filled out.0.filled j ≡ (any_has cap ps j || is_filled w.filled j)
  pub silent : out.1 ≡ false

write-Agrees :
    (cap : ℕ) (message : List ℕ) (w : Buffered) (offset : ℕ) (body : List ℕ) (out : Buffered × Bool)
    → Written cap w offset body out
    → IsPieceOf message (offset, body)
    → Agrees message w
    → Agrees message out.0
write-Agrees cap message w offset body out v p a j f = elim (Bool-cases (is_filled w.filled j)) [
  | inl old ↦ v.first_wins j old ∙ a j old
  | inr fresh ↦
      let here : holds (offset, end_of cap offset body) j ≡ true = ground (arith, v.covers j) in
      let low : offset ≤ j = ground arith in
      let high : j < end_of cap offset body = ground arith in
      v.new j (j - offset) (omega arith) (omega arith) (omega arith) fresh
      ∙ p (j - offset) (omega arith)
      ∙ ap (λ k. get_or message k 0) (omega arith)
]

-- Into a buffer that is in order and agrees with the message, pieces of the message may come in any
-- order, overlap and repeat: no disagreement is reported, the
-- offsets that are filled are those of the pieces below the cap besides those filled before, and
-- what is filled is the message's.
pub write_all_lem :
    (cap : ℕ) (message : List ℕ) (w : Buffered) (ps : List Piece)
    → IsBuffered cap w
    → Agrees message w
    → ArePieces message ps
    → HoldsPart cap message w ps (write_all cap w ps)
unfolding write_all
write_all_lem cap message w [] v a h = record {
  valid = v;
  agrees = a;
  covers = λ j. refl;
  silent = refl;
}
write_all_lem cap message w ((offset, body) ∷ ps) v a (p, h) =
    let out = write cap w offset body in
    let one : Written cap w offset body out = write_lem cap w offset body v in
    let rest =
      write_all_lem cap message out.0 ps one.valid
        (write-Agrees cap message w offset body out one p a) h in
    let quiet : out.1 ≡ false =
      one.reports.1 (λ j k e q r f. a j f ∙ ap (λ i. get_or message i 0) e ∙ sym (p k q)) in
    record {
      valid = rest.valid;
      agrees = rest.agrees;
      covers = λ j. ground (arith, rest.covers j, one.covers j);
      silent = ground (arith, quiet, rest.silent);
    }

same_bytes :
    (xs ys : List ℕ)
    → length xs ≡ length ys
    → ((i : ℕ) → i < length xs → get_or xs i 0 ≡ get_or ys i 0)
    → xs ≡ ys
same_bytes [] [] e h = refl
same_bytes [] (y ∷ ys) e h = absurd (omega arith)
same_bytes (x ∷ xs) [] e h = absurd (omega arith)
same_bytes (x ∷ xs) (y ∷ ys) e h =
    ground (arith, h 0 (omega arith), same_bytes xs ys (omega arith) λ i k. h (suc i) (omega arith))

-- A prefix that is filled throughout is no longer than the run from offset 0.
pub filled-contiguous :
    (rs : List Range) (n : ℕ)
    → AreRanges 0 rs
    → ((i : ℕ) → i < n → is_filled rs i ≡ true)
    → n ≤ contiguous rs
filled-contiguous rs n v h = elim (Bool-cases (ltb (contiguous rs) n)) [
  | inl less ↦ absurd (ground (arith, h (contiguous rs), (contiguous_lem rs v).1))
  | inr more ↦ ground arith
]

-- Pieces of a message that leave no hole, in any order and with any overlaps, put into an empty buffer,
-- give the message: the run from offset 0 reaches its end, and the bytes there are the message.
pub write_all-whole :
    (cap : ℕ) (message : List ℕ) (ps : List Piece)
    → ArePieces message ps
    → ((i : ℕ) → i < length message → any_has cap ps i ≡ true)
    → let out = (write_all cap (record { buf = []; filled = [] }) ps).0 in
      (length message ≤ contiguous out.filled) × (take (length message) out.buf ≡ message)
unfolding is_filled
write_all-whole cap message ps h all =
    let w : Buffered = record { buf = []; filled = [] } in
    let part =
      write_all_lem cap message w ps (record { ranges = tt; inside = tt; bounded = omega arith })
        (λ j f. absurd (cc)) h in
    let out = (write_all cap w ps).0 in
    let filled : (i : ℕ) → i < length message → is_filled out.filled i ≡ true =
      λ i k. ground (arith, part.covers i, all i k) in
    let reach : length message ≤ contiguous out.filled =
      filled-contiguous out.filled _ part.valid.ranges filled in
    let size : length (take (length message) out.buf) ≡ length message = omega (
      arith,
      reach,
      contiguous-le out.filled _ part.valid.inside,
      length-take (length message) out.buf,
    ) in
    (
      reach,
      same_bytes _ message size λ i k.
          get_or-take (length message) i out.buf (omega (arith, size))
          ∙ part.agrees i (filled i (omega (arith, size))),
    )
