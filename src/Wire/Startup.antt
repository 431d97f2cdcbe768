-- ===== src/Wire/Startup.antt =====
-- `startup`: the packet is the beginning of the stream, within its bounds.
use pgfault.Base.{
  ℕ, zero, suc, ◌+◌, ◌-◌, ◌*◌, ◌^◌, ◌/◌, ◌%◌, ◌≤◌, ◌<◌, ◌≡◌, refl, sym, ap, ◌∙◌, [], ◌∷◌, ◌++◌,
  arith, Bytes, All, length, take, drop, get_or, length-take, length-drop, append_assoc,
  take-append-drop,
}
use pgfault.Base.Result.{ok}
use pgfault.Base.Word.{be_bytes, from_be}
use pgfault.Wire.{startup}

-- The length field, at the beginning of the packet.
abbrev pub startup_length : Bytes → ℕ
startup_length bs = from_be (get_or bs 0 0) (get_or bs 1 0) (get_or bs 2 0) (get_or bs 3 0)

be_bytes-from_be :
    (a b c d : ℕ)
    → a < 256
    → b < 256
    → c < 256
    → d < 256
    → be_bytes (from_be a b c d) ≡ a ∷ b ∷ c ∷ d ∷ []
unfolding be_bytes from_be
be_bytes-from_be a b c d ha hb hc hd =
    let e0 : (a * 2 ^ 24 + b * 2 ^ 16 + c * 2 ^ 8 + d) / 2 ^ 24 % 256 ≡ a = omega arith in
    let e1 : (a * 2 ^ 24 + b * 2 ^ 16 + c * 2 ^ 8 + d) / 2 ^ 16 % 256 ≡ b = omega arith in
    let e2 : (a * 2 ^ 24 + b * 2 ^ 16 + c * 2 ^ 8 + d) / 2 ^ 8 % 256 ≡ c = omega arith in
    let e3 : (a * 2 ^ 24 + b * 2 ^ 16 + c * 2 ^ 8 + d) % 256 ≡ d = omega arith in cc

-- The first four bytes, written out again.
length_kept :
    (input : Bytes)
    → All (λ b. b < 256) input
    → 4 ≤ length input
    → be_bytes (startup_length input) ++ drop 4 input ≡ input
length_kept [] bytes h = absurd (omega arith)
length_kept (a ∷ []) bytes h = absurd (omega arith)
length_kept (a ∷ b ∷ []) bytes h = absurd (omega arith)
length_kept (a ∷ b ∷ c ∷ []) bytes h = absurd (omega arith)
length_kept (a ∷ b ∷ c ∷ d ∷ rest) (ha, (hb, (hc, (hd, more)))) h =
    rw (be_bytes-from_be a b c d ha hb hc hd) refl

drop-nil : (n : ℕ) → drop {A = ℕ} n [] ≡ []
drop-nil zero = refl
drop-nil (suc n) = refl

drop-drop : (m n : ℕ) (xs : Bytes) → drop n (drop m xs) ≡ drop (m + n) xs
drop-drop zero n xs = ap (λ k. drop k xs) (omega arith)
drop-drop (suc m) n [] = rw (drop-nil n, drop-nil (suc m + n)) refl
drop-drop (suc m) n (x ∷ xs) =
    drop-drop m n xs ∙ ap (λ k. drop k (x ∷ xs)) {x = suc (m + n)} {y = suc m + n} (omega arith)

-- A whole packet, put in front of what follows it, is the stream.
joined :
    (input : Bytes) (len : ℕ)
    → All (λ b. b < 256) input
    → len ≡ startup_length input
    → 8 ≤ len
    → len ≤ length input
    → ((be_bytes len ++ take (len - 4) (drop 4 input)) ++ drop len input ≡ input)
      × (length (be_bytes len ++ take (len - 4) (drop 4 input)) ≡ len)
unfolding be_bytes
joined input len bytes e big whole =
    let rest : drop (len - 4) (drop 4 input) ≡ drop len input =
      drop-drop 4 (len - 4) input ∙ ap (λ n. drop n input) (omega arith) in
    (
      append_assoc (be_bytes len) (take (len - 4) (drop 4 input)) (drop len input)
          ∙ ap (λ t. be_bytes len ++ t)
              (ap (λ t. take (len - 4) (drop 4 input) ++ t) (sym rest)
                ∙ take-append-drop (len - 4) (drop 4 input))
          ∙ ap (λ n. be_bytes n ++ drop 4 input) e
          ∙ length_kept input bytes (omega arith),
      omega (arith, length-take (len - 4) (drop 4 input), length-drop 4 input),
    )

-- On a stream of bytes below 256, a startup packet that is read is the beginning of the stream,
-- as long as its length field says, between 8 bytes and 2^20, and what follows it is the rest.
pub startup_splits :
    (input : Bytes) {packet rest : Bytes}
    → All (λ b. b < 256) input
    → startup input ≡ ok (packet, rest)
    → (packet ++ rest ≡ input)
      × (length packet ≡ startup_length input)
      × (8 ≤ length packet)
      × (length packet ≤ 1024 * 1024)
unfolding startup
startup_splits input bytes e =
    let len = startup_length input in ground (arith, joined input len bytes)
