-- ===== src/Wire/Reader.antt =====
-- `FrameReader`: what the reads of a socket are cut into does not show in the frames.
use pgfault.Base.{
  ℕ, zero, suc, ltb, ltb→lt, true, false, ◌≡◌, ◌≢◌, refl, sym, ap, ◌∙◌, inl, inr, some, none, List,
  [], ◌∷◌, ◌++◌, arith, Bytes, length, drop, Bool-cases, append-nil, append_assoc, is_empty, Option,
}
use pgfault.Base.Result.{Result, ok, err}
use pgfault.Wire.{Frame, decode, frame, next, frame_read, end_of_stream, failed, pending, WireError}
use pgfault.Wire.Decode.{Fits, append_split, decode_splits, decode-frame, decode_incomplete}

-- All the bytes that the reads bring.
abbrev pub join : List Bytes → Bytes
join [] = []
join (c ∷ reads) = c ++ join reads

-- No read is at the end of the stream.
abbrev pub IsLive : List Bytes → Type 0
IsLive [] = Unit {0}
IsLive (c ∷ reads) = (is_empty c ≡ false) × IsLive reads

data Decoded (buf : Bytes) : Type 0 where
  broken : (e : WireError) → decode buf ≡ err e → Decoded buf
  short : decode buf ≡ ok none → Decoded buf
  whole : (f : Frame) (rest : Bytes) → decode buf ≡ ok (some (f, rest)) → Decoded buf

decoded : (buf : Bytes) → Decoded buf
decoded buf = go (decode buf) refl
  where
    go : (r : Result WireError (Option (Frame × Bytes))) → decode buf ≡ r → Decoded buf
    go (err e) d = broken e d
    go (ok none) d = short d
    go (ok (some (f, rest))) d = whole f rest d

-- A complete frame in the buffer is returned without a read.
next_whole :
    (buf : Bytes) (reads : List Bytes) {f : Frame} {rest : Bytes}
    → decode buf ≡ ok (some (f, rest))
    → next buf reads ≡ frame_read f rest reads
unfolding next
next_whole buf [] d = rw (d, next)
next_whole buf (c ∷ reads) d = rw (d, next)

next_short :
    (buf c : Bytes) (reads : List Bytes)
    → decode buf ≡ ok none
    → is_empty c ≡ false
    → next buf (c ∷ reads) ≡ next (buf ++ c) reads
unfolding next
next_short buf c reads d live = rw (d, live, next)

next_over :
    (buf c : Bytes) (reads : List Bytes) {f : Frame} {rest : Bytes} {later : List Bytes}
    → decode buf ≡ ok none
    → is_empty c ≡ true
    → next buf (c ∷ reads) ≢ frame_read f rest later
unfolding next
next_over buf c reads d over e = ground arith

-- A frame that `next` returns, and what it leaves in the buffer and the socket, are all the
-- bytes that there were, in their order.
pub next-lossless :
    (reads : List Bytes) (buf : Bytes) {f : Frame} {rest : Bytes} {later : List Bytes}
    → next buf reads ≡ frame_read f rest later
    → buf ++ join reads ≡ f.bytes ++ (rest ++ join later)
next-lossless [] buf e = elim (decoded buf) [
  | broken x d ↦ unfold next in cc
  | short d ↦ unfold next in cc
  | whole f rest d ↦
      ground (arith, next_whole buf [] d, decode_splits buf d, append_assoc f.bytes rest [])
]
next-lossless (c ∷ reads) buf e = elim (decoded buf) [
  | broken x d ↦ unfold next in cc
  | short d ↦ elim (Bool-cases (is_empty c)) [
    | inl over ↦ absurd (next_over buf c reads d over e)
    | inr live ↦
        sym (append_assoc buf c (join reads))
        ∙ next-lossless reads (buf ++ c) (sym (next_short buf c reads d live) ∙ e)
  ]
  | whole f rest d ↦ ground (
    arith,
    next_whole buf (c ∷ reads) d,
    decode_splits buf d,
    append_assoc f.bytes rest (c ++ join reads),
  )
]

-- Several calls of `next`, each on what the one before it left.
pub read_frames : ℕ → Bytes → List Bytes → List Frame × Bytes
read_frames zero buf reads = ([], buf ++ join reads)
read_frames (suc n) buf reads = elim (next buf reads) [
  | frame_read f rest later ↦ (f ∷ (read_frames n rest later).0, (read_frames n rest later).1)
  | end_of_stream ↦ ([], [])
  | failed e ↦ ([], [])
  | pending rest ↦ ([], rest)
]

-- The reads bring a frame that fits, and more: `next` returns that frame, and leaves what is more.
pub next-frame :
    (reads : List Bytes) (buf : Bytes) (t : ℕ) (bs tail : Bytes)
    → Fits bs
    → IsLive reads
    → buf ++ join reads ≡ (frame t bs).bytes ++ tail
    → (rest : Bytes) × (later : List Bytes) × (next buf reads ≡ frame_read (frame t bs) rest later)
      × (rest ++ join later ≡ tail)
      × IsLive later
next-frame [] buf t bs tail h live e = (
  tail,
  [],
  next_whole buf [] (ap decode (sym (append-nil buf) ∙ e) ∙ decode-frame t bs tail h),
  append-nil tail,
  tt,
)
next-frame (c ∷ reads) buf t bs tail h live e =
    elim (Bool-cases (ltb (length buf) (length (frame t bs).bytes))) [
      | inl less ↦
          let (rest, later, n, j, l) =
            next-frame reads (buf ++ c) t bs tail h live.1 (append_assoc buf c (join reads) ∙ e) in
          let d = decode_incomplete t bs buf (c ++ join reads) tail h e (ltb→lt _ _ less) in
          (rest, later, next_short buf c reads d live.0 ∙ n, j, l)
      | inr more ↦
          let x = (frame t bs).bytes in
          let (a, b) = append_split x buf (c ++ join reads) tail e (ground arith) in
          let d = ap decode a ∙ decode-frame t bs (drop (length x) buf) h in
          (drop (length x) buf, c ∷ reads, next_whole buf (c ∷ reads) d, b, live)
    ]

abbrev pub sent_bytes : List (ℕ × Bytes) → Bytes
sent_bytes [] = []
sent_bytes ((t, bs) ∷ sent) = (frame t bs).bytes ++ sent_bytes sent

abbrev pub sent_frames : List (ℕ × Bytes) → List Frame
sent_frames [] = []
sent_frames ((t, bs) ∷ sent) = frame t bs ∷ sent_frames sent

abbrev pub AllFit : List (ℕ × Bytes) → Type 0
AllFit [] = Unit {0}
AllFit ((t, bs) ∷ sent) = Fits bs × AllFit sent

-- Frames that fit are read back as they were sent, with no byte left over, wherever nonempty
-- reads, behind what the buffer has, cut the stream of their bytes.
pub read_frames_fragments :
    (sent : List (ℕ × Bytes)) (buf : Bytes) (reads : List Bytes)
    → AllFit sent
    → IsLive reads
    → buf ++ join reads ≡ sent_bytes sent
    → read_frames (length sent) buf reads ≡ (sent_frames sent, [])
unfolding read_frames
read_frames_fragments [] buf reads h live e = ground arith
read_frames_fragments ((t, bs) ∷ sent) buf reads h live e =
    let (rest, later, n, j, l) = next-frame reads buf t bs (sent_bytes sent) h.0 live e in
    rw (n, read_frames) (ground (arith, read_frames_fragments sent rest later h.1 l j))
