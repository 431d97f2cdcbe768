-- ===== src/Proxy/Metadata.antt =====
-- `metadata`: the parameters of a startup packet.
use pgfault.Base.{
  ℕ, zero, suc, if◌then◌else◌, true, false, String, Option, none, some, Bytes, is_empty, bytes_eq,
  length, drop,
}
use pgfault.Base.Result.{Result, ok, err}
use pgfault.Base.Text.{codes, from_utf8_lossy}
use pgfault.Wire.{cstr}
use pgfault.Events.{StartupMetadata, no_metadata}
use pgfault.Proxy.Effects.{
  ProxyError, invalid_startup_parameter, invalid_startup_value, trailing_startup_data,
}

-- One parameter. The last value of a key stands.
unfoldable pub set_parameter : Bytes → String → StartupMetadata → StartupMetadata
set_parameter key value m =
    if bytes_eq key (codes "user")
    then record m { user = some value }
    else if bytes_eq key (codes "database")
    then record m { database = some value }
    else if bytes_eq key (codes "application_name")
    then record m { application_name = some value }
    else m

-- The loop, with a round for each byte at most. `none` is the model's own: the fuel ran out.
unfoldable pub parameters : ℕ → Bytes → StartupMetadata → Option (Result ProxyError StartupMetadata)
unfolding set_parameter
parameters zero rest m = none
parameters (suc n) rest m = elim (cstr rest) [
  | none ↦ some (err invalid_startup_parameter)
  | some (key, tail) ↦ elim (is_empty key) [
    | true ↦ some (if is_empty tail then ok m else err trailing_startup_data)
    | false ↦ elim (cstr tail) [
      | none ↦ some (err invalid_startup_value)
      | some (value, tail') ↦ parameters n tail' (set_parameter key (from_utf8_lossy value) m)
    ]
  ]
]

-- The packet has eight bytes at least, as `startup` gives it.
unfoldable pub metadata : Bytes → Option (Result ProxyError StartupMetadata)
unfolding parameters
metadata packet = parameters (suc (length packet)) (drop 8 packet) no_metadata
