-- ===== src/Proxy/Parameters.antt =====
-- `metadata`: it always returns, and it reads the parameters of a packet.
use pgfault.Base.{
  length-drop, ℕ, zero, suc, ◌<◌, ◌≡◌, ◌≢◌, inl, inr, refl, ap, ◌∙◌, false, none, some, List, [],
  ◌∷◌, ◌++◌, arith, Bytes, length, drop, is_empty, length-append, All, Bool-cases, Option-cases,
  nat_eq, string_eq, bytes_eq_instance,
}
use pgfault.Base.Result.{ok}
use pgfault.Base.Text.{from_utf8_lossy}
use pgfault.Wire.{cstr}
use pgfault.Wire.Cstr.{ZeroFree, cstr-append, cstr_splits}
use pgfault.Events.{StartupMetadata, no_metadata}
use pgfault.Proxy.Metadata.{set_parameter, parameters, metadata}
use pgfault.Proxy.Settings.{set_all, named_text, metadata_eq, else_none, set_all-over}

-- A string takes a byte at least.
cstr-shorter : (bs s rest : Bytes) → cstr bs ≡ some (s, rest) → length rest < length bs
cstr-shorter bs s rest h =
    let (e, free) = cstr_splits bs h in rw e (omega (arith, length-append s (0 ∷ rest)))

-- With more fuel than bytes the loop ends by itself.
parameters-enough :
    (n : ℕ) (rest : Bytes) (m : StartupMetadata) → length rest < n → parameters n rest m ≢ none
unfolding parameters
parameters-enough zero rest m h = λ e. omega arith
parameters-enough (suc n) rest m h = elim (Option-cases (cstr rest)) [
  | inl nothing ↦ rw (parameters, nothing) (λ e. cc)
  | inr (kt, key) ↦ elim (Bool-cases (is_empty kt.0)) [
    | inl ended ↦ rw (parameters, key, ended) (λ e. cc)
    | inr more ↦ elim (Option-cases (cstr kt.1)) [
      | inl no_value ↦ rw (parameters, key, more, no_value) (λ e. cc)
      | inr (vt, value) ↦
          rw (parameters, key, more, value)
            (parameters-enough n vt.1 (set_parameter kt.0 (from_utf8_lossy vt.0) m)
              (omega (arith, cstr-shorter rest kt.0 kt.1 key, cstr-shorter kt.1 vt.0 vt.1 value)))
    ]
  ]
]

-- The reading of a startup packet ends by itself, with a result or an error, whatever the packet
-- is: its fuel never runs out.
pub metadata_returns : (packet : Bytes) → metadata packet ≢ none
unfolding metadata
metadata_returns packet =
    parameters-enough (suc (length packet)) (drop 8 packet) no_metadata
      (omega (arith, length-drop 8 packet))

-- The pairs of a packet as bytes.
abbrev pub pairs_bytes : List (Bytes × Bytes) → Bytes
pairs_bytes [] = 0 ∷ []
pairs_bytes ((key, value) ∷ ps) = key ++ 0 ∷ (value ++ 0 ∷ pairs_bytes ps)

abbrev pub IsPair : Bytes × Bytes → Type 0
IsPair p = ZeroFree p.0 × ZeroFree p.1 × (is_empty p.0 ≡ false)

no_key : cstr (0 ∷ []) ≡ some ([], [])
no_key = cstr-append [] [] tt

parameters-pairs :
    (ps : List (Bytes × Bytes)) (n : ℕ) (m : StartupMetadata)
    → All IsPair ps
    → length ps < n
    → parameters n (pairs_bytes ps) m ≡ some (ok (set_all ps m))
unfolding parameters
parameters-pairs ps zero m good fuel = let bad : ⊥ = omega arith in elim bad [ ]
parameters-pairs [] (suc n) m good fuel = rw (parameters, no_key) refl
parameters-pairs ((key, value) ∷ ps) (suc n) m ((k, v, full), good) fuel =
    rw
      (
        parameters,
        cstr-append key (value ++ 0 ∷ pairs_bytes ps) k,
        full,
        cstr-append value (pairs_bytes ps) v,
      )
      (parameters-pairs ps n (set_parameter key (from_utf8_lossy value) m) good (omega arith))

pairs-longer : (ps : List (Bytes × Bytes)) → length ps < length (pairs_bytes ps)
pairs-longer [] = omega arith
pairs-longer ((key, value) ∷ ps) = omega (
  arith,
  pairs-longer ps,
  length-append key (0 ∷ (value ++ 0 ∷ pairs_bytes ps)),
  length-append value (0 ∷ pairs_bytes ps),
)

drop-past : (n : ℕ) (xs ys : Bytes) → length xs ≡ n → drop n (xs ++ ys) ≡ ys
drop-past zero [] ys h = refl
drop-past zero (x ∷ xs) ys h = let bad : ⊥ = omega arith in elim bad [ ]
drop-past (suc n) [] ys h = let bad : ⊥ = omega arith in elim bad [ ]
drop-past (suc n) (x ∷ xs) ys h = drop-past n xs ys (omega arith)

-- Behind eight bytes, pairs of a nonempty key and a value, all without zeros, with a zero behind
-- each string and one more at the end, are read by `metadata` as three settings: `user`,
-- `database` and `application_name` are each the last value of its key, if there is one.
pub metadata-pairs :
    (header : Bytes) (ps : List (Bytes × Bytes))
    → length header ≡ 8
    → All IsPair ps
    → metadata (header ++ pairs_bytes ps)
      ≡ some (
          ok (record {
            user = named_text "user" ps;
            database = named_text "database" ps;
            application_name = named_text "application_name" ps;
          }))
unfolding metadata
metadata-pairs header ps h good = rw (drop-past 8 header (pairs_bytes ps) h) (
    parameters-pairs ps (suc (length (header ++ pairs_bytes ps))) no_metadata good
      (omega (arith, pairs-longer ps, length-append header (pairs_bytes ps)))
    ∙ ap (λ m. some (ok m))
        (set_all-over ps no_metadata
          ∙ metadata_eq (else_none (named_text "user" ps)) (else_none (named_text "database" ps))
              (else_none (named_text "application_name" ps))))
