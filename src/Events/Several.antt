-- ===== src/Events/Several.antt =====
-- `classify` of a text with more than one statement.
use pgfault.Base.{
  ℕ, zero, suc, ◌+◌, ◌≤◌, ◌<◌, ◌==◌, if◌then◌else◌, ◌≡◌, inl, inr, refl, ap, Bool, true, false,
  ◌||◌, String, List, [], ◌∷◌, ◌++◌, arith, Bytes, length, tail, length-append, All, Bool-cases,
  nat_eq, string_eq, bytes_eq_instance,
}
use pgfault.Base.Text.{codes, to_ascii_uppercase, from_utf8_lossy}
use pgfault.Events.{other}
use pgfault.Events.Classify.{classify}
use pgfault.Events.Lexer.{
  is_space, is_word, is_alphabetic, starts_with, take_word, drop_word, Turn, go_on, give_up, plain,
  significant, turn, other_at_once, scan,
}

-- A byte that begins no comment, quotes nothing and ends no statement.
pub record IsPlain (b : ℕ) : Type 0 where
  pub no_end : (b == b';') ≡ false
  pub no_quote : (b == b'\'' || b == b'"') ≡ false
  pub no_dollar : (b == b'$') ≡ false
  pub no_dash : (b == b'-') ≡ false
  pub no_slash : (b == b'/') ≡ false

-- A byte that neither is white space nor begins a comment.
pub record IsSignificant (b : ℕ) : Type 0 where
  pub no_space : is_space b ≡ false
  pub no_line : (b == b'-') ≡ false
  pub no_block : (b == b'/') ≡ false

no_comment :
    (b : ℕ) (bs : Bytes)
    → (b == b'-') ≡ false
    → (b == b'/') ≡ false
    → (starts_with (b ∷ bs) (codes "--") ≡ false) × (starts_with (b ∷ bs) (codes "/*") ≡ false)
unfolding starts_with
no_comment b bs d s = (rw (starts_with, d) refl, rw (starts_with, s) refl)

turn-space :
    (ended : Bool) (words : List String) (b : ℕ) (bs : Bytes)
    → is_space b ≡ true
    → turn ended words b bs ≡ go_on ended words bs
unfolding turn
turn-space ended words b bs space = rw space refl

turn-IsSignificant :
    (ended : Bool) (words : List String) (b : ℕ) (bs : Bytes)
    → IsSignificant b
    → turn ended words b bs ≡ (if ended then give_up else significant words b bs)
unfolding turn
turn-IsSignificant ended words b bs k =
    let (line, block) = no_comment b bs k.no_line k.no_block in rw (k.no_space, line, block) refl

-- Spaces, and then a byte of the next statement.
scan-ended :
    (n : ℕ) (words : List String) (gap : Bytes) (b : ℕ) (rest : Bytes)
    → All (λ x. is_space x ≡ true) gap
    → IsSignificant b
    → length gap < n
    → scan n true words (gap ++ b ∷ rest) ≡ other_at_once
unfolding scan
scan-ended zero words gap b rest spaces k h = let bad : ⊥ = omega arith in elim bad [ ]
scan-ended (suc n) words [] b rest spaces k h =
    rw (scan, turn-IsSignificant true words b rest k) refl
scan-ended (suc n) words (x ∷ gap) b rest (space, spaces) k h =
    rw (scan, turn-space true words x (gap ++ b ∷ rest) space)
      (scan-ended n words gap b rest spaces k (omega arith))

-- A round within the first statement, whose bytes are plain: what is left begins with plain bytes.
record Stays (s tail : Bytes) (m : ℕ) (t : Turn) : Type 0 where
  words : List String
  left : Bytes
  all_plain : All IsPlain left
  shorter : length left ≤ m
  goes : t ≡ go_on false words (left ++ b';' ∷ tail)

drop_word-IsPlain :
    (s tail : Bytes)
    → All IsPlain s
    → (left : Bytes) × All IsPlain left
      × (length left ≤ length s)
      × (drop_word (s ++ b';' ∷ tail) ≡ left ++ b';' ∷ tail)
unfolding drop_word
drop_word-IsPlain [] tail p = ([], tt, omega arith, refl)
drop_word-IsPlain (b ∷ s) tail (p, ps) = elim (Bool-cases (is_word b)) [
  | inl word ↦
      let (left, all, shorter, same) = drop_word-IsPlain s tail ps in
      (left, all, omega arith, rw (drop_word, word) same)
  | inr no_word ↦ (b ∷ s, (p, ps), omega arith, rw (drop_word, no_word) refl)
]

end_IsSignificant : IsSignificant b';'
end_IsSignificant = record { no_space = refl; no_line = refl; no_block = refl }

significant-IsPlain :
    (words : List String) (b : ℕ) (s tail : Bytes)
    → IsPlain b
    → All IsPlain s
    → Stays s tail (length s) (significant words b (s ++ b';' ∷ tail))
unfolding significant plain
significant-IsPlain words b s tail p ps =
    rw (p.no_end, p.no_quote, p.no_dollar)
      (elim (Bool-cases (is_alphabetic b)) [
        | inl letter ↦
            let more =
              words
              ++ to_ascii_uppercase (from_utf8_lossy (b ∷ take_word (s ++ b';' ∷ tail))) ∷ [] in
            let (left, all, shorter, same) = drop_word-IsPlain s tail ps in
            rw letter (record {
              words = more;
              left = left;
              all_plain = all;
              shorter = shorter;
              goes = ap (go_on false more) same;
            })
        | inr sign ↦
            rw sign (record {
              words = words;
              left = s;
              all_plain = ps;
              shorter = omega arith;
              goes = refl;
            })
      ])

turn-IsPlain :
    (words : List String) (b : ℕ) (s tail : Bytes)
    → IsPlain b
    → All IsPlain s
    → Stays s tail (length s) (turn false words b (s ++ b';' ∷ tail))
turn-IsPlain words b s tail p ps = elim (Bool-cases (is_space b)) [
  | inl space ↦
      rw (turn-space false words b (s ++ b';' ∷ tail) space)
        (record { words = words; left = s; all_plain = ps; shorter = omega arith; goes = refl })
  | inr no_space ↦
      rw
        (turn-IsSignificant false words b (s ++ b';' ∷ tail)
          (record { no_space = no_space; no_line = p.no_dash; no_block = p.no_slash }))
        (significant-IsPlain words b s tail p ps)
]

scan-several :
    (n : ℕ) (words : List String) (s gap : Bytes) (b : ℕ) (rest : Bytes)
    → All IsPlain s
    → All (λ x. is_space x ≡ true) gap
    → IsSignificant b
    → length s + length gap + 1 < n
    → scan n false words (s ++ b';' ∷ (gap ++ b ∷ rest)) ≡ other_at_once
unfolding scan significant
scan-several zero words s gap b rest ps spaces k h = let bad : ⊥ = omega arith in elim bad [ ]
scan-several (suc n) words [] gap b rest ps spaces k h =
    rw (scan, turn-IsSignificant false words b';' (gap ++ b ∷ rest) end_IsSignificant)
      (scan-ended n words gap b rest spaces k (omega arith))
scan-several (suc n) words (x ∷ s) gap b rest (p, ps) spaces k h =
    let t = turn-IsPlain words x s (gap ++ b ∷ rest) p ps in
    rw (scan, t.goes)
      (scan-several n t.words t.left gap b rest t.all_plain spaces k (omega (arith, t.shorter)))

-- A text of bytes without `;`, quotes, dollars, `-` and `/`, then a `;`, white space, and a byte
-- that is none and is neither `-` nor `/`, is classified as Other, whatever follows.
pub classify-several :
    (s gap : Bytes) (b : ℕ) (rest : Bytes)
    → All IsPlain s
    → All (λ x. is_space x ≡ true) gap
    → IsSignificant b
    → classify (s ++ b';' ∷ (gap ++ b ∷ rest)) ≡ other
unfolding classify
classify-several s gap b rest ps spaces k =
    let n = suc (length (s ++ b';' ∷ (gap ++ b ∷ rest))) in
    rw
      (
        classify,
        scan-several n [] s gap b rest ps spaces k (
            omega
              (arith, length-append s (b';' ∷ (gap ++ b ∷ rest)), length-append gap (b ∷ rest))),
      )
      refl
