-- ===== src/Wire/Cstr.antt =====
-- Zero-terminated strings.
use pgfault.Base.{
  ◌≡◌, ◌≢◌, refl, ap, ◌∙◌, some, none, [], ◌∷◌, ◌++◌, arith, Bytes, ◌↔◌, Option-cases, inl, inr,
}
use pgfault.Wire.{cstr}

-- No byte is zero.
abbrev pub ZeroFree : Bytes → Type 0
ZeroFree [] = Unit {0}
ZeroFree (b ∷ bs) = (b ≢ 0) × ZeroFree bs

-- Bytes without a zero that stand before a zero are read whole, and what stands behind the zero
-- is the rest.
pub cstr-append : (s rest : Bytes) → ZeroFree s → cstr (s ++ 0 ∷ rest) ≡ some (s, rest)
unfolding cstr
cstr-append [] rest z = refl
cstr-append (b ∷ bs) rest z = ground (arith, cstr-append bs rest z.1)

-- A string that is read is free of zeros, and it, a zero and the rest are the bytes that there
-- were.
pub cstr_splits :
    (bs : Bytes) {s rest : Bytes} → cstr bs ≡ some (s, rest) → (bs ≡ s ++ 0 ∷ rest) × ZeroFree s
unfolding cstr
cstr_splits [] e = cc
cstr_splits (b ∷ bs) e = elim (Option-cases (cstr bs)) [
  | inl stop ↦ ground arith
  | inr ((s, rest), more) ↦ ground (arith, cstr_splits bs more)
]

-- A string and a rest are read exactly when the string is free of zeros, and it, a zero and the
-- rest are the bytes that there are.
pub cstr_iff :
    (bs s rest : Bytes) → (cstr bs ≡ some (s, rest)) ↔ ((bs ≡ s ++ 0 ∷ rest) × ZeroFree s)
cstr_iff bs s rest = (λ e. cstr_splits bs e, λ p. ap cstr p.0 ∙ cstr-append s rest p.1)

-- A string is read exactly when there is a zero.
pub cstr-eq-none : (bs : Bytes) → (cstr bs ≡ none) ↔ ZeroFree bs
unfolding cstr
cstr-eq-none [] = ground arith
cstr-eq-none (b ∷ bs) = ground (arith, cstr-eq-none bs)
