-- ===== src/Checks/OfWire.antt =====
-- The theorems on the wire protocol, at concrete bytes.
use pgfault.Base.{
  ℕ, ◌*◌, ◌≤◌, ◌≡◌, ◌↔◌, refl, none, some, List, [], ◌∷◌, ◌++◌, arith, Bytes, length, take, drop,
  nat_eq, string_eq, bytes_eq_instance,
}
use pgfault.Base.Result.{ok}
use pgfault.Checks.Base.{everything}
use pgfault.Wire.{frame, decode, cstr}
use pgfault.Wire.Decode.{decode_awaits}
use pgfault.Wire.Outcomes.{Outcome, decode_outcomes}
use pgfault.Wire.Reader.{
  join, read_frames, sent_bytes, sent_frames, next-lossless, read_frames_fragments,
}
use pgfault.Base.Word.{be_bytes}
use pgfault.Wire.{startup}
use pgfault.Wire.Startup.{startup_length, startup_splits}
use pgfault.Wire.Cstr.{ZeroFree, cstr_iff}

abbrev bytes : Bytes
bytes = b'Z' ∷ 0 ∷ 0 ∷ 0 ∷ 5 ∷ b'I' ∷ 7 ∷ []

decode_outcomes_example : Outcome bytes (decode bytes)
decode_outcomes_example = decode_outcomes bytes

decode_awaits_example : decode (take 5 bytes) ≡ ok none
unfolding everything
decode_awaits_example =
    decode_awaits b'Z' (b'I' ∷ []) (take 5 bytes) (b'I' ∷ []) [] (omega arith) refl

next-lossless_example :
    take 3 bytes ++ join (drop 3 bytes ∷ []) ≡ (frame b'Z' (b'I' ∷ [])).bytes ++ (7 ∷ [] ++ join [])
unfolding everything
next-lossless_example =
    next-lossless (drop 3 bytes ∷ []) (take 3 bytes) {f = frame b'Z' (b'I' ∷ [])} {rest = 7 ∷ []}
      {later = []} refl

abbrev two : List (ℕ × Bytes)
two = (b'C', 0 ∷ []) ∷ (b'Z', b'I' ∷ []) ∷ []

abbrev cut : List Bytes
cut = take 4 (sent_bytes two) ∷ take 5 (drop 4 (sent_bytes two)) ∷ drop 9 (sent_bytes two) ∷ []

read_frames_fragments_example : read_frames (length two) [] cut ≡ (sent_frames two, [])
unfolding everything
read_frames_fragments_example =
    read_frames_fragments two [] cut (omega arith) (refl, (refl, (refl, tt))) refl

abbrev pair : Bytes
pair = b'a' ∷ 0 ∷ b'b' ∷ []

cstr_iff_example :
    (cstr pair ≡ some (b'a' ∷ [], b'b' ∷ []))
    ↔ ((pair ≡ (b'a' ∷ []) ++ 0 ∷ b'b' ∷ []) × ZeroFree (b'a' ∷ []))
cstr_iff_example = cstr_iff pair (b'a' ∷ []) (b'b' ∷ [])

abbrev hello : Bytes
hello = 0 ∷ 0 ∷ 0 ∷ 9 ∷ 0 ∷ 3 ∷ 0 ∷ 0 ∷ 0 ∷ []

startup_splits_example :
    (hello ++ 7 ∷ [] ≡ hello ++ 7 ∷ [])
    × (length hello ≡ startup_length (hello ++ 7 ∷ []))
    × (8 ≤ length hello)
    × (length hello ≤ 1024 * 1024)
unfolding startup be_bytes
startup_splits_example =
    startup_splits (hello ++ 7 ∷ []) {packet = hello} {rest = 7 ∷ []}
      (
        omega arith,
        (
          omega arith,
          (
            omega arith,
            (
              omega arith,
              (
                omega arith,
                (omega arith, (omega arith, (omega arith, (omega arith, (omega arith, tt))))),
              ),
            ),
          ),
        ),
      )
      refl
