-- ===== src/Wire/Outcomes.antt =====
-- `decode`: its outcomes, and when each comes.
use pgfault.Base.{
  ◌+◌, ◌≤◌, ◌<◌, ltb, leb, ◌≡◌, refl, inl, inr, ◌⊎◌, not, ◌&&◌, Bool-cases, Option, none, some,
  arith, ◌++◌, Bytes, length, nat_eq, string_eq, bytes_eq_instance,
}
use pgfault.Base.Result.{Result, ok, err}
use pgfault.Wire.{Frame, WireError, invalid_frame_length, decode, frame_length, max_frame}
use pgfault.Wire.Decode.{decode_splits}

-- What an outcome of a buffer comes with.
abbrev pub Outcome : Bytes → Result WireError (Option (Frame × Bytes)) → Type 0
Outcome buf (ok none) =
    (length buf < 5)
    ⊎ ((4 ≤ frame_length buf)
        × (frame_length buf ≤ max_frame)
        × (length buf < frame_length buf + 1))
Outcome buf (ok (some (f, rest))) =
    (buf ≡ f.bytes ++ rest)
    × (length f.bytes ≡ frame_length buf + 1)
    × (5 ≤ length f.bytes)
    × (length f.bytes ≤ max_frame + 1)
Outcome buf (err e) =
    (e ≡ invalid_frame_length)
    × (5 ≤ length buf)
    × ((frame_length buf < 4) ⊎ (max_frame < frame_length buf))

-- For any buffer: what `decode` cuts off is its beginning, as long as its length field says,
-- between five bytes and `max_frame + 1`, and the rest stays. It refuses only a buffer of five
-- bytes or more whose length field is below 4 or above `max_frame`. It waits only for a buffer
-- shorter than five bytes, or one whose length field is between these bounds and which is
-- shorter than the frame.
pub decode_outcomes : (buf : Bytes) → Outcome buf (decode buf)
unfolding decode
decode_outcomes buf =
    let len = frame_length buf in
    elim (Bool-cases (ltb (length buf) 5)) [
      | inl short ↦ rw short (inl (ground arith))
      | inr five ↦ elim (Bool-cases (not (leb 4 len && leb len max_frame))) [
        | inl bad ↦ rw (five, bad) (refl, ground arith, ground arith)
        | inr good ↦ elim (Bool-cases (ltb (length buf) (len + 1))) [
          | inl part ↦ rw (five, good, part) (inr (ground arith, ground arith, ground arith))
          | inr whole ↦ rw (five, good, whole) (decode_splits buf (rw (five, good, whole) refl))
        ]
      ]
    ]
