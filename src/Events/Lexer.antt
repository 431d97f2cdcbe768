-- ===== src/Events/Lexer.antt =====
-- `classify` of crates/pgfault-events/src/lib.rs: the scan of the SQL text. The index `i` into `sql`
-- is the rest of the text here, `sql[i..]`.
use pgfault.Base.{
  ℕ, zero, suc, ◌==◌, if◌then◌else◌, Bool, true, false, ◌&&◌, ◌||◌, String, Option, none, some,
  List, [], ◌∷◌, ◌++◌, Bytes, length, drop,
}
use pgfault.Base.Text.{codes, within, from_utf8_lossy, to_ascii_uppercase}

-- `u8::is_ascii_whitespace`
abbrev pub is_space : ℕ → Bool
is_space b = b == b' ' || b == 9 || b == 10 || b == 12 || b == 13

abbrev pub is_alphabetic : ℕ → Bool
is_alphabetic b = within b'a' b'z' b || within b'A' b'Z' b

-- A byte of a word behind its first one.
abbrev pub is_word : ℕ → Bool
is_word b = is_alphabetic b || within b'0' b'9' b || b == b'_'

unfoldable pub starts_with : Bytes → Bytes → Bool
starts_with s [] = true
starts_with [] (d ∷ ds) = false
starts_with (b ∷ bs) (d ∷ ds) = b == d && starts_with bs ds

-- From `--` up to the end of the line, which is left.
unfoldable pub skip_line : Bytes → Bytes
skip_line [] = []
skip_line (b ∷ bs) = if b == b'\n' then b ∷ bs else skip_line bs

-- A block comment at depth `d`; `none` where the text ends inside.
unfoldable pub skip_block : ℕ → Bytes → Option Bytes
skip_block zero bs = some bs
skip_block (suc d) [] = none
skip_block (suc d) (b ∷ []) = none
skip_block (suc d) (b ∷ c ∷ bs) = elim (b == b'/' && c == b'*') [
  | true ↦ skip_block (suc (suc d)) bs
  | false ↦ elim (b == b'*' && c == b'/') [
    | true ↦ skip_block d bs
    | false ↦ skip_block (suc d) (c ∷ bs)
  ]
]

-- Up to the closing quote. A backslash takes the next byte with it, and a doubled quote stays inside.
unfoldable pub skip_quoted : ℕ → Bytes → Option Bytes
skip_quoted q [] = none
skip_quoted q (b ∷ []) = if b == b'\\' then none else if b == q then some [] else none
skip_quoted q (b ∷ c ∷ bs) = elim (b == b'\\') [
  | true ↦ skip_quoted q bs
  | false ↦ elim (b == q) [
    | true ↦ elim (c == q) [ true ↦ skip_quoted q bs | false ↦ some (c ∷ bs) ]
    | false ↦ skip_quoted q (c ∷ bs)
  ]
]

-- The longest beginning of word bytes, and the rest.
unfoldable pub take_word : Bytes → Bytes
take_word [] = []
take_word (b ∷ bs) = if is_word b then b ∷ take_word bs else []

unfoldable pub drop_word : Bytes → Bytes
drop_word [] = []
drop_word (b ∷ bs) = if is_word b then drop_word bs else b ∷ bs

-- What stands behind the first place where `delim`, which is not empty, stands.
unfoldable pub skip_past : Bytes → Bytes → Option Bytes
unfolding starts_with
skip_past delim [] = none
skip_past delim (b ∷ bs) =
    if starts_with (b ∷ bs) delim then some (drop (length delim) (b ∷ bs)) else skip_past delim bs

-- What one round of the loop comes to: the loop goes on with `ended`, `words` and the rest of the
-- text, or `classify` returns `Other`.
pub data Turn : Type 0 where
  go_on : Bool → List String → Bytes → Turn
  give_up : Turn

abbrev pub or_give_up : Bool → List String → Option Bytes → Turn
or_give_up ended words none = give_up
or_give_up ended words (some rest) = go_on ended words rest

abbrev word_of : Bytes → String
word_of bs = to_ascii_uppercase (from_utf8_lossy bs)

-- The end of the round: a word, or a byte that is passed over.
unfoldable pub plain : List String → ℕ → Bytes → Turn
unfolding take_word drop_word
plain words b bs =
    if is_alphabetic b
    then go_on false (words ++ word_of (take_word (b ∷ bs)) ∷ []) (drop_word (b ∷ bs))
    else go_on false words bs

-- At `$`. The tag runs up to `after`, which has to begin with `$`.
unfoldable pub dollar : List String → Bytes → Bytes → Bytes → Turn
unfolding skip_past
dollar words bs tag [] = go_on false words bs
dollar words bs tag (c ∷ after) =
    if c == b'$'
    then or_give_up false words (skip_past (b'$' ∷ (tag ++ b'$' ∷ [])) after)
    else go_on false words bs

-- A byte that is neither white space nor a comment, of the statement that has not ended.
unfoldable pub significant : List String → ℕ → Bytes → Turn
unfolding plain dollar skip_quoted take_word drop_word
significant words b bs =
    if b == b';'
    then go_on true words bs
    else if b == b'\'' || b == b'"'
    then or_give_up false words (skip_quoted b bs)
    else if b == b'$'
    then dollar words bs (take_word bs) (drop_word bs)
    else plain words b bs

-- The body of the loop, at the byte `b`.
unfoldable pub turn : Bool → List String → ℕ → Bytes → Turn
unfolding significant starts_with skip_line skip_block
turn ended words b bs =
    if is_space b
    then go_on ended words bs
    else if starts_with (b ∷ bs) (codes "--")
    then go_on ended words (skip_line (b ∷ bs))
    else if starts_with (b ∷ bs) (codes "/*")
    then or_give_up ended words (skip_block 1 (drop 2 (b ∷ bs)))
    else if ended
    then give_up
    else significant words b bs

-- What the loop comes to: the words, or `Other` at once. `out_of_fuel` is the model's own.
pub data Scan : Type 0 where
  words_of : List String → Scan
  other_at_once : Scan
  out_of_fuel : Scan

unfoldable pub scan : ℕ → Bool → List String → Bytes → Scan
scan zero ended words bs = out_of_fuel
scan (suc n) ended words [] = words_of words
scan (suc n) ended words (b ∷ bs) = elim (turn ended words b bs) [
  | go_on ended' words' rest ↦ scan n ended' words' rest
  | give_up ↦ other_at_once
]
