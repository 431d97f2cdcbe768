-- ===== src/Wire/Decode.antt =====
-- `decode` and `frame`: frames are cut from a buffer without loss, whatever stands behind them.
use pgfault.Base.{
  ltb, ltb→lt, if◌then◌else◌, Bool-cases, inl, inr, ℕ, zero, suc, ◌+◌, ◌≤◌, ◌<◌, ◌≡◌, ◌⊎◌, refl,
  sym, ap, ◌∙◌, some, none, List, [], ◌∷◌, ◌++◌, arith, Bytes, length, take, drop, get_or,
  length-append, take-append-drop, take-append, drop-append, length-take,
}
use pgfault.Base.Result.{ok, err}
use pgfault.Base.Word.{be_bytes}
use pgfault.Wire.{Frame, tag, body, decode, frame, frame_length, max_frame, invalid_frame_length}

-- The body is short enough for one frame.
abbrev pub Fits : Bytes → Type 0
Fits bs = length bs + 4 ≤ max_frame

module _ {ℓ} {A : Type ℓ} where
  take_all : (n : ℕ) (xs ys : List A) → n ≡ length xs → take n (xs ++ ys) ≡ xs
  take_all zero [] ys h = refl
  take_all zero (x ∷ xs) ys h = absurd (omega arith)
  take_all (suc n) [] ys h = absurd (omega arith)
  take_all (suc n) (x ∷ xs) ys h = ap (◌∷◌ x) (take_all n xs ys (omega arith))

  drop_all : (n : ℕ) (xs ys : List A) → n ≡ length xs → drop n (xs ++ ys) ≡ ys
  drop_all zero [] ys h = refl
  drop_all zero (x ∷ xs) ys h = absurd (omega arith)
  drop_all (suc n) [] ys h = absurd (omega arith)
  drop_all (suc n) (x ∷ xs) ys h = drop_all n xs ys (omega arith)

  get_or-append :
      (xs ys : List A) (i : ℕ) (d : A) → i < length xs → get_or (xs ++ ys) i d ≡ get_or xs i d
  get_or-append [] ys i d h = absurd (omega arith)
  get_or-append (x ∷ xs) ys zero d h = refl
  get_or-append (x ∷ xs) ys (suc i) d h = get_or-append xs ys i d (omega arith)

  -- Two ways to split one list, where the first piece of the second is not the longer one.
  pub append_split :
      (x xs ys zs : List A)
      → xs ++ ys ≡ x ++ zs
      → length x ≤ length xs
      → (xs ≡ x ++ drop (length x) xs) × (drop (length x) xs ++ ys ≡ zs)
  append_split x xs ys zs e h = (
    sym (take-append-drop (length x) xs)
        ∙ ap (λ t. t ++ drop (length x) xs)
            (sym (take-append (length x) xs ys h)
              ∙ ap (take (length x)) e
              ∙ take_all (length x) x zs refl),
    sym (drop-append (length x) xs ys h) ∙ ap (drop (length x)) e ∙ drop_all (length x) x zs refl,
  )

frame_length-append :
    (buf more : Bytes) → 5 ≤ length buf → frame_length (buf ++ more) ≡ frame_length buf
unfolding frame_length
frame_length-append buf more h = rw (
  get_or-append buf more 1 0 (omega arith),
  get_or-append buf more 2 0 (omega arith),
  get_or-append buf more 3 0 (omega arith),
  get_or-append buf more 4 0 (omega arith),
)

frame_length-frame :
    (t : ℕ) (bs rest : Bytes) → Fits bs → frame_length ((frame t bs).bytes ++ rest) ≡ length bs + 4
unfolding frame_length frame be_bytes
frame_length-frame t bs rest h = omega arith

pub length-frame : (t : ℕ) (bs : Bytes) → length (frame t bs).bytes ≡ length bs + 5
unfolding frame be_bytes
length-frame t bs = omega arith

-- The tag and the body of a frame are what it was made of.
pub frame_parts : (t : ℕ) (bs : Bytes) → (tag (frame t bs) ≡ t) × (body (frame t bs) ≡ bs)
unfolding frame tag body be_bytes
frame_parts t bs = (refl, refl)

-- A frame that is cut off the buffer is its beginning, as long as its length field says, between
-- five bytes and `max_frame + 1`, and what follows it stays in the buffer.
pub decode_splits :
    (buf : Bytes) {f : Frame} {rest : Bytes}
    → decode buf ≡ ok (some (f, rest))
    → (buf ≡ f.bytes ++ rest)
      × (length f.bytes ≡ frame_length buf + 1)
      × (5 ≤ length f.bytes)
      × (length f.bytes ≤ max_frame + 1)
unfolding decode
decode_splits buf e =
    let len = frame_length buf in
    ground (arith, take-append-drop (len + 1) buf, length-take (len + 1) buf)

-- More bytes behind a complete frame do not change what is cut off.
pub decode-append :
    (buf more : Bytes) {f : Frame} {rest : Bytes}
    → decode buf ≡ ok (some (f, rest))
    → decode (buf ++ more) ≡ ok (some (f, rest ++ more))
unfolding decode
decode-append buf more e =
    let len = frame_length buf in
    ground (
      arith,
      frame_length-append buf more,
      length-append buf more,
      take-append (len + 1) buf more,
      drop-append (len + 1) buf more,
    )

-- A frame with a body that fits is read back whole, with any bytes behind it.
pub decode-frame :
    (t : ℕ) (bs rest : Bytes)
    → Fits bs
    → decode ((frame t bs).bytes ++ rest) ≡ ok (some (frame t bs, rest))
unfolding decode
decode-frame t bs rest h =
    let f = frame t bs in
    let n = length bs + 5 in
    ground (
      arith,
      frame_length-frame t bs rest h,
      length-frame t bs,
      length-append f.bytes rest,
      take_all (length bs + 4 + 1) f.bytes rest,
      drop_all (length bs + 4 + 1) f.bytes rest,
    )

-- A proper beginning of a frame with a body that fits is not cut: more bytes are awaited.
pub decode_incomplete :
    (t : ℕ) (bs buf more rest : Bytes)
    → Fits bs
    → buf ++ more ≡ (frame t bs).bytes ++ rest
    → length buf < length (frame t bs).bytes
    → decode buf ≡ ok none
unfolding decode
decode_incomplete t bs buf more rest h e short = ground (
  arith,
  frame_length-append buf more,
  ap frame_length e,
  frame_length-frame t bs rest h,
  length-frame t bs,
)

-- A buffer of at least five bytes is refused exactly when its length field is below 4 or above
-- `max_frame`.
pub decode_refuses :
    (buf : Bytes)
    → 5 ≤ length buf
    → ((decode buf ≡ err invalid_frame_length)
        → (frame_length buf < 4) ⊎ (max_frame < frame_length buf))
      × ((frame_length buf < 4) ⊎ (max_frame < frame_length buf)
          → decode buf ≡ err invalid_frame_length)
unfolding decode
decode_refuses buf h = (λ e. ground arith, λ c. ground arith)

-- Of a stream that begins with a frame whose body fits, any beginning in the buffer is awaited
-- further as long as it is shorter than the frame, and otherwise the frame is read back whole,
-- and what stands behind it in the buffer stays there.
pub decode_awaits :
    (t : ℕ) (bs buf more rest : Bytes)
    → Fits bs
    → buf ++ more ≡ (frame t bs).bytes ++ rest
    → let f = frame t bs in
      decode buf
      ≡ ok (if ltb (length buf) (length f.bytes) then none else some (f, drop (length f.bytes) buf))
decode_awaits t bs buf more rest h e =
    let f = frame t bs in
    elim (Bool-cases (ltb (length buf) (length f.bytes))) [
      | inl short ↦
          rw short
            (decode_incomplete t bs buf more rest h e (ltb→lt (length buf) (length f.bytes) short))
      | inr long ↦
          let whole = (append_split f.bytes buf more rest e (ground arith)).0 in
          rw long (ap decode whole ∙ decode-frame t bs (drop (length f.bytes) buf) h)
    ]
