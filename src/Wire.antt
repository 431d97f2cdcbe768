-- ===== src/Wire.antt =====
-- crates/pgfault-wire/src/lib.rs: frames of the wire protocol. Bytes are numbers below 256. A
-- socket is the list of the reads that it will serve: a chunk of bytes, or the empty chunk at its end.
pub mod Decode
pub mod Outcomes
pub mod Reader
pub mod Cstr
pub mod Startup
use pgfault.Base.{
  ℕ, ◌+◌, ◌-◌, ◌*◌, ◌%◌, ltb, leb, ◌==◌, if◌then◌else◌, Bool, true, false, not, ◌&&◌, String,
  Option, none, some, List, [], ◌∷◌, ◌++◌, Bytes, length, take, drop, get_or, is_empty,
}
use pgfault.Base.Result.{Result, ok, err}
use pgfault.Base.Text.{from_utf8_lossy}
use pgfault.Base.Word.{be_bytes, from_be, u32_mod}

abbrev pub max_frame : ℕ
max_frame = 64 * 1024 * 1024

abbrev pub ssl_request : ℕ
ssl_request = 80877103

abbrev pub gss_request : ℕ
gss_request = 80877104

abbrev pub cancel_request : ℕ
cancel_request = 80877102

abbrev pub protocol_v3 : ℕ
protocol_v3 = 196608

pub record Frame : Type 0 where
  pub bytes : Bytes

-- A frame that `decode` or `frame` makes has five bytes at least, so the index is in range.
unfoldable pub tag : Frame → ℕ
tag f = get_or f.bytes 0 0

unfoldable pub body : Frame → Bytes
body f = drop 5 f.bytes

pub data WireError : Type 0 where
  invalid_frame_length eof_inside_frame invalid_startup_length unexpected_eof : WireError

-- The length field of a buffer that holds five bytes at least.
unfoldable pub frame_length : Bytes → ℕ
unfolding from_be
frame_length buf = from_be (get_or buf 1 0) (get_or buf 2 0) (get_or buf 3 0) (get_or buf 4 0)

-- The frame with the bytes that stay in the buffer. Otherwise the buffer is left as it is.
unfoldable pub decode : Bytes → Result WireError (Option (Frame × Bytes))
decode buf =
    let len = frame_length buf in
    if ltb (length buf) 5
    then ok none
    else if not (leb 4 len && leb len max_frame)
    then err invalid_frame_length
    else if ltb (length buf) (len + 1)
    then ok none
    else ok (some (record { bytes = take (len + 1) buf }, drop (len + 1) buf))

-- What a call of `next` comes to. `pending`: no read is ready, and the buffer is kept.
pub data Next : Type 0 where
  frame_read : Frame → Bytes → List Bytes → Next
  end_of_stream : Next
  failed : WireError → Next
  pending : Bytes → Next

abbrev at_eof : Bytes → Next
at_eof buf = if is_empty buf then end_of_stream else failed eof_inside_frame

-- `FrameReader::next`
unfoldable pub next : Bytes → List Bytes → Next
next buf [] = elim (decode buf) [
  | err e ↦ failed e
  | ok none ↦ pending buf
  | ok (some (f, rest)) ↦ frame_read f rest []
]
next buf (chunk ∷ reads) = elim (decode buf) [
  | err e ↦ failed e
  | ok none ↦ elim (is_empty chunk) [ true ↦ at_eof buf | false ↦ next (buf ++ chunk) reads ]
  | ok (some (f, rest)) ↦ frame_read f rest (chunk ∷ reads)
]

-- The startup packet, whole, and the bytes behind it in the stream.
unfoldable pub startup : Bytes → Result WireError (Bytes × Bytes)
unfolding from_be
startup input =
    let len = from_be (get_or input 0 0) (get_or input 1 0) (get_or input 2 0) (get_or input 3 0) in
    if ltb (length input) 4
    then err unexpected_eof
    else if not (leb 8 len && leb len (1024 * 1024))
    then err invalid_startup_length
    else if ltb (length input) len
    then err unexpected_eof
    else ok (be_bytes len ++ take (len - 4) (drop 4 input), drop len input)

abbrev extend : ℕ → Option (Bytes × Bytes) → Option (Bytes × Bytes)
extend b none = none
extend b (some (s, rest)) = some (b ∷ s, rest)

-- The bytes before the first zero, and those behind it.
unfoldable pub cstr : Bytes → Option (Bytes × Bytes)
cstr [] = none
cstr (b ∷ bs) = if b == 0 then some ([], bs) else extend b (cstr bs)

abbrev lossy_first : Option (Bytes × Bytes) → Option String
lossy_first none = none
lossy_first (some (s, rest)) = some (from_utf8_lossy s)

unfoldable pub text : Bytes → Option String
text bs = lossy_first (cstr bs)

unfoldable pub frame : ℕ → Bytes → Frame
unfolding be_bytes
frame t bs = record { bytes = t ∷ (be_bytes ((length bs + 4) % u32_mod) ++ bs) }
