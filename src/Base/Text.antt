-- ===== src/Base/Text.antt =====
-- The operations of the standard library on texts that the program calls: the lossy reading of
-- UTF-8, ASCII upper case, and the test that a text is blank.
use Prim.Native.Nat.{ℕ, ◌+◌, ◌-◌, ◌*◌, ◌%◌, compare, Ordering}
use Prim.Native.Char.{Char, char, code}
use Prim.Native.String.{String, ◌++◌}
use mathlib.Core.Path.{◌≡◌, refl}
use mathlib.Core.Bool.{Bool, true, ◌&&◌, ◌||◌}
use mathlib.Core.List.{List, [], ◌∷◌}
use pgfault.Base.Tests.{leb, ltb, ◌==◌, if◌then◌else◌, Bytes}

-- The bytes of an ASCII literal.
abbrev pub codes : String → Bytes
codes String.[] = []
codes (String.◌∷◌ c s) = code c ∷ codes s

abbrev pub within : ℕ → ℕ → ℕ → Bool
within lo hi n = leb lo n && leb n hi

pick :
    (n : ℕ) (a b c : Ordering)
    → compare n 55296 ≡ a
    → compare 57343 n ≡ b
    → compare n 1114112 ≡ c
    → Char
pick n Ordering.lt b c p q r = char n (rw p tt)
pick n Ordering.eq Ordering.lt Ordering.lt p q r = char n (rw (p, q, r) tt)
pick n Ordering.gt Ordering.lt Ordering.lt p q r = char n (rw (p, q, r) tt)
pick n _ _ _ p q r = char 0xfffd tt

-- The character with this number, U+FFFD where there is none.
unfoldable pub scalar : ℕ → Char
unfolding pick
scalar n = pick n (compare n 55296) (compare 57343 n) (compare n 1114112) refl refl refl

-- What is read of a sequence of UTF-8: its bits so far, and the ranges of the bytes to come.
abbrev pub Pending : Type 0
Pending = ℕ × List (ℕ × ℕ)

abbrev pub nothing : Pending
nothing = (0, [])

abbrev any_tail : ℕ × ℕ
any_tail = (0x80, 0xbf)

emit : ℕ → String
unfolding scalar
emit n = String.◌∷◌ (scalar n) String.[]

abbrev replacement : String
replacement = "�"

-- A byte at which a sequence begins.
lead : ℕ → String × Pending
unfolding emit
lead b =
    if ltb b 0x80
    then (emit b, nothing)
    else if within 0xc2 0xdf b
    then (String.[], (b - 0xc0, any_tail ∷ []))
    else if b == 0xe0
    then (String.[], (0, (0xa0, 0xbf) ∷ any_tail ∷ []))
    else if b == 0xed
    then (String.[], (0xd, (0x80, 0x9f) ∷ any_tail ∷ []))
    else if within 0xe1 0xef b
    then (String.[], (b - 0xe0, any_tail ∷ any_tail ∷ []))
    else if b == 0xf0
    then (String.[], (0, (0x90, 0xbf) ∷ any_tail ∷ any_tail ∷ []))
    else if within 0xf1 0xf3 b
    then (String.[], (b - 0xf0, any_tail ∷ any_tail ∷ any_tail ∷ []))
    else if b == 0xf4
    then (String.[], (4, (0x80, 0x8f) ∷ any_tail ∷ any_tail ∷ []))
    else (replacement, nothing)

advance : ℕ → List (ℕ × ℕ) → String × Pending
unfolding emit
advance v [] = (emit v, nothing)
advance v (r ∷ rs) = (String.[], (v, r ∷ rs))

replaced : String × Pending → String × Pending
replaced (out, p) = (replacement ++ out, p)

-- A sequence that breaks off gives one U+FFFD, and its next byte is read afresh.
read_byte : Pending → ℕ → String × Pending
unfolding lead advance replaced
read_byte (v, []) b = lead b
read_byte (v, (lo, hi) ∷ rest) b =
    if within lo hi b then advance (v * 64 + b % 64) rest else replaced (lead b)

lossy_from : Pending → Bytes → String
unfolding read_byte
lossy_from (v, []) [] = String.[]
lossy_from (v, r ∷ rs) [] = replacement
lossy_from p (b ∷ bs) = (read_byte p b).0 ++ lossy_from (read_byte p b).1 bs

-- `String::from_utf8_lossy`
unfoldable pub from_utf8_lossy : Bytes → String
unfolding lossy_from
from_utf8_lossy = lossy_from nothing

upper : ℕ → ℕ
upper n = if within b'a' b'z' n then n - 32 else n

-- `str::to_ascii_uppercase`
unfoldable pub to_ascii_uppercase : String → String
unfolding upper scalar
to_ascii_uppercase String.[] = String.[]
to_ascii_uppercase (String.◌∷◌ c s) = String.◌∷◌ (scalar (upper (code c))) (to_ascii_uppercase s)

-- `char::is_whitespace`
is_whitespace : ℕ → Bool
is_whitespace n =
    within 9 13 n
    || n == 32
    || n == 0x85
    || n == 0xa0
    || n == 0x1680
    || within 0x2000 0x200a n
    || n == 0x2028
    || n == 0x2029
    || n == 0x202f
    || n == 0x205f
    || n == 0x3000

-- `s.trim().is_empty()`
unfoldable pub is_blank : String → Bool
unfolding is_whitespace
is_blank String.[] = true
is_blank (String.◌∷◌ c s) = is_whitespace (code c) && is_blank s
