-- ===== src/Events/Fuel.antt =====
-- The scan of `classify`: each round takes a byte at least, so the fuel is enough.
use pgfault.Base.{
  length-drop, ℕ, zero, suc, ◌≤◌, ◌<◌, ◌==◌, if◌then◌else◌, ◌≡◌, ◌≢◌, inl, inr, refl, Bool, true,
  false, ◌&&◌, ◌||◌, String, Option, none, some, List, [], ◌∷◌, ◌++◌, arith, Bytes, length, drop,
  Bool-cases, nat_eq, string_eq, bytes_eq_instance,
}
use pgfault.Base.Text.{codes}
use pgfault.Events.Lexer.{
  is_space, is_word, is_alphabetic, starts_with, skip_line, skip_block, skip_quoted, take_word,
  drop_word, skip_past, Turn, go_on, give_up, or_give_up, plain, dollar, significant, turn, Scan,
  other_at_once, out_of_fuel, scan,
}

skip_line-shorter : (bs : Bytes) → length (skip_line bs) ≤ length bs
unfolding skip_line
skip_line-shorter [] = omega arith
skip_line-shorter (b ∷ bs) = ground (arith, skip_line-shorter bs)

drop_word-shorter : (bs : Bytes) → length (drop_word bs) ≤ length bs
unfolding drop_word
drop_word-shorter [] = omega arith
drop_word-shorter (b ∷ bs) = ground (arith, drop_word-shorter bs)

-- What an optional rest leaves is at most so long.
abbrev Within : ℕ → Option Bytes → Type 0
Within n none = Unit {0}
Within n (some rest) = length rest ≤ n

Within-mono : (m n : ℕ) (o : Option Bytes) → m ≤ n → Within m o → Within n o
Within-mono m n none h k = tt
Within-mono m n (some rest) h k = omega arith

skip_block-Within : (d : ℕ) (bs : Bytes) → Within (length bs) (skip_block d bs)
unfolding skip_block
skip_block-Within zero bs = omega arith
skip_block-Within (suc d) [] = tt
skip_block-Within (suc d) (b ∷ []) = tt
skip_block-Within (suc d) (b ∷ c ∷ bs) = elim (Bool-cases (b == b'/' && c == b'*')) [
  | inl opens ↦
      rw (skip_block, opens)
        (Within-mono (length bs) _ (skip_block (suc (suc d)) bs) (omega arith)
          (skip_block-Within (suc (suc d)) bs))
  | inr no_open ↦ elim (Bool-cases (b == b'*' && c == b'/')) [
    | inl closes ↦
        rw (skip_block, no_open, closes)
          (Within-mono (length bs) _ (skip_block d bs) (omega arith) (skip_block-Within d bs))
    | inr inside ↦
        rw (skip_block, no_open, inside)
          (Within-mono (suc (length bs)) _ (skip_block (suc d) (c ∷ bs)) (omega arith)
            (skip_block-Within (suc d) (c ∷ bs)))
  ]
]

skip_quoted-Within : (q : ℕ) (bs : Bytes) → Within (length bs) (skip_quoted q bs)
unfolding skip_quoted
skip_quoted-Within q [] = tt
skip_quoted-Within q (b ∷ []) = elim (Bool-cases (b == b'\\')) [
  | inl escapes ↦ rw (skip_quoted, escapes) tt
  | inr no_escape ↦ elim (Bool-cases (b == q)) [
    | inl closes ↦ rw (skip_quoted, no_escape, closes) (omega arith)
    | inr inside ↦ rw (skip_quoted, no_escape, inside) tt
  ]
]
skip_quoted-Within q (b ∷ c ∷ bs) = elim (Bool-cases (b == b'\\')) [
  | inl escapes ↦
      rw (skip_quoted, escapes)
        (Within-mono (length bs) _ (skip_quoted q bs) (omega arith) (skip_quoted-Within q bs))
  | inr no_escape ↦ elim (Bool-cases (b == q)) [
    | inl closes ↦ elim (Bool-cases (c == q)) [
      | inl doubled ↦
          rw (skip_quoted, no_escape, closes, doubled)
            (Within-mono (length bs) _ (skip_quoted q bs) (omega arith) (skip_quoted-Within q bs))
      | inr alone ↦ rw (skip_quoted, no_escape, closes, alone) (omega arith)
    ]
    | inr inside ↦
        rw (skip_quoted, no_escape, inside)
          (Within-mono (suc (length bs)) _ (skip_quoted q (c ∷ bs)) (omega arith)
            (skip_quoted-Within q (c ∷ bs)))
  ]
]

skip_past-Within : (delim bs : Bytes) → Within (length bs) (skip_past delim bs)
unfolding skip_past
skip_past-Within delim [] = tt
skip_past-Within delim (b ∷ bs) = elim (Bool-cases (starts_with (b ∷ bs) delim)) [
  | inl here ↦ rw (skip_past, here) (omega (arith, length-drop (length delim) (b ∷ bs)))
  | inr later ↦
      rw (skip_past, later)
        (Within-mono (length bs) _ (skip_past delim bs) (omega arith) (skip_past-Within delim bs))
]

-- A round that goes on leaves at most `n` bytes.
abbrev Leaves : ℕ → Turn → Type 0
Leaves n (go_on ended words rest) = length rest ≤ n
Leaves n give_up = Unit {0}

or_give_up-Leaves :
    (n : ℕ) (ended : Bool) (words : List String) (o : Option Bytes)
    → Within n o
    → Leaves n (or_give_up ended words o)
or_give_up-Leaves n ended words none h = tt
or_give_up-Leaves n ended words (some rest) h = h

Leaves-if :
    (n : ℕ) (b : Bool) (x y : Turn)
    → (b ≡ true → Leaves n x)
    → (b ≡ false → Leaves n y)
    → Leaves n (if b then x else y)
Leaves-if n true x y h k = h refl
Leaves-if n false x y h k = k refl

plain-Leaves : (words : List String) (b : ℕ) (bs : Bytes) → Leaves (length bs) (plain words b bs)
unfolding plain
plain-Leaves words b bs =
    Leaves-if (length bs) (is_alphabetic b) _ _
      (λ letter.
        let word : is_word b ≡ true = ground (arith, letter) in
        rw (drop_word, word) (drop_word-shorter bs))
      (λ other. omega arith)

dollar-Leaves :
    (words : List String) (bs tag after : Bytes)
    → length after ≤ length bs
    → Leaves (length bs) (dollar words bs tag after)
unfolding dollar
dollar-Leaves words bs tag [] h = omega arith
dollar-Leaves words bs tag (c ∷ after) h =
    Leaves-if (length bs) (c == b'$') _ _
      (λ opens. or_give_up-Leaves (length bs) false words _ (
        Within-mono (length after) (length bs) _ (omega arith)
          (skip_past-Within (b'$' ∷ (tag ++ b'$' ∷ [])) after)))
      (λ other. omega arith)

significant-Leaves :
    (words : List String) (b : ℕ) (bs : Bytes) → Leaves (length bs) (significant words b bs)
unfolding significant
significant-Leaves words b bs =
    Leaves-if (length bs) (b == b';') _ _ (λ ends. omega arith)
      (λ more.
        Leaves-if (length bs) (b == b'\'' || b == b'"') _ _
          (λ quote. or_give_up-Leaves (length bs) false words _ (skip_quoted-Within b bs))
          (λ more.
            Leaves-if (length bs) (b == b'$') _ _
              (λ opens. dollar-Leaves words bs (take_word bs) (drop_word bs) (drop_word-shorter bs))
              (λ more. plain-Leaves words b bs)))

line_shorter :
    (b : ℕ) (bs : Bytes)
    → starts_with (b ∷ bs) (codes "--") ≡ true
    → length (skip_line (b ∷ bs)) ≤ length bs
unfolding starts_with skip_line
line_shorter b bs line =
    let dash : (b == b'-' && starts_with bs (codes "-")) ≡ true = line in
    let other : (b == b'\n') ≡ false = ground (arith, dash) in
    rw (skip_line, other) (skip_line-shorter bs)

turn-Leaves :
    (ended : Bool) (words : List String) (b : ℕ) (bs : Bytes)
    → Leaves (length bs) (turn ended words b bs)
unfolding turn
turn-Leaves ended words b bs =
    Leaves-if (length bs) (is_space b) _ _ (λ space. omega arith)
      (λ more.
        Leaves-if (length bs) (starts_with (b ∷ bs) (codes "--")) _ _
          (λ line. line_shorter b bs line)
          (λ more.
            Leaves-if (length bs) (starts_with (b ∷ bs) (codes "/*")) _ _
              (λ block. or_give_up-Leaves (length bs) ended words _ (
                Within-mono (length (drop 2 (b ∷ bs))) (length bs) _
                  (omega (arith, length-drop 2 (b ∷ bs))) (skip_block-Within 1 (drop 2 (b ∷ bs)))))
              (λ more.
                Leaves-if (length bs) ended _ _ (λ gone. tt)
                  (λ more. significant-Leaves words b bs))))

-- What the loop does behind a round.
abbrev pub then_scan : ℕ → Turn → Scan
then_scan n t = elim t [
  | go_on ended words rest ↦ scan n ended words rest
  | give_up ↦ other_at_once
]

then_scan-enough :
    (m n : ℕ) (t : Turn)
    → Leaves m t
    → ((ended : Bool) (words : List String) (rest : Bytes)
        → length rest ≤ m
        → scan n ended words rest ≢ out_of_fuel)
    → then_scan n t ≢ out_of_fuel
then_scan-enough m n (go_on ended words rest) h k = k ended words rest h
then_scan-enough m n give_up h k = λ e. cc

-- With more rounds than bytes, as `classify` gives it, the scan of any text ends by itself, in
-- any state of the loop.
pub scan-enough :
    (n : ℕ) (ended : Bool) (words : List String) (bs : Bytes)
    → length bs < n
    → scan n ended words bs ≢ out_of_fuel
unfolding scan
scan-enough zero ended words bs h = λ e. omega arith
scan-enough (suc n) ended words [] h = λ e. cc
scan-enough (suc n) ended words (b ∷ bs) h =
    then_scan-enough (length bs) n (turn ended words b bs) (turn-Leaves ended words b bs)
      (λ ended' words' rest k. scan-enough n ended' words' rest (omega arith))
