-- ===== src/Cli/Text.antt =====
-- The texts that the command line makes: numbers, lines, and the port in the arguments of a probe.
use pgfault.Base.{
  ℕ, zero, suc, ◌+◌, ◌-◌, ◌/◌, ◌%◌, ◌==◌, ◌&&◌, ltb, if◌then◌else◌, Bool, true, false, Option, none,
  some, List, [], ◌∷◌, map,
}
use pgfault.Base.Text.{scalar}
use Prim.Native.String.{String, ◌++◌, count}
use Prim.Native.Char.{code}

-- `to_string` of a number with `fuel` digits at most.
unfoldable pub digits : ℕ → ℕ → String
unfolding scalar
digits zero n = ""
digits (suc fuel) n =
    let more = digits fuel (n / 10) in
    (if ltb n 10 then "" else more) ++ String.◌∷◌ (scalar (48 + n % 10)) String.[]

-- A number of 128 bits, like the nanoseconds of the clock, has 39 digits at most.
unfoldable pub decimal : ℕ → String
unfolding digits
decimal n = digits 39 n

-- `starts_with`
unfoldable pub starts_with : String → String → Bool
starts_with s String.[] = true
starts_with String.[] (String.◌∷◌ p pattern) = false
starts_with (String.◌∷◌ c s) (String.◌∷◌ p pattern) = code c == code p && starts_with s pattern

-- `replace`, from left to right: `skip` characters belong to a pattern that has been replaced.
unfoldable pub replace_from : ℕ → String → String → String → String
unfolding starts_with
replace_from skip pattern by String.[] = String.[]
replace_from (suc skip) pattern by (String.◌∷◌ c s) = replace_from skip pattern by s
replace_from zero pattern by (String.◌∷◌ c s) =
    let behind = replace_from (count pattern - 1) pattern by s in
    let kept = replace_from 0 pattern by s in
    if starts_with (String.◌∷◌ c s) pattern then by ++ behind else String.◌∷◌ c kept

unfoldable pub substitute : ℕ → String → String
unfolding decimal replace_from
substitute port arg = replace_from 0 "{{PGFAULT_PORT}}" (decimal port) arg

-- `join`
unfoldable pub join_with : String → List String → String
join_with separator [] = ""
join_with separator (s ∷ []) = s
join_with separator (s ∷ t ∷ ss) = s ++ separator ++ join_with separator (t ∷ ss)

-- A row of the ground truth.
unfoldable pub show_row : List (Option String) → String
unfolding join_with
show_row cells = join_with " | " (map (λ cell. elim cell [ none ↦ "NULL" | some s ↦ s ]) cells)

-- `default_trace_path`, by the clock and the number of the process.
unfoldable pub default_trace_path : ℕ → ℕ → String
unfolding decimal
default_trace_path nanos process_id =
    ".pgfault/traces/" ++ decimal nanos ++ "-" ++ decimal process_id ++ ".jsonl"
