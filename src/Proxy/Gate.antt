-- ===== src/Proxy/Gate.antt =====
-- Frames behind a gate: `hold`, `release`, `pass_on` and `deliver` of `Proxy.Relay`.
use pgfault.Base.{
  ℕ, Bool, false, String, Option, none, some, List, [], ◌∷◌, Bytes, nat_eq, string_eq,
  bytes_eq_instance,
}
use pgfault.Wire.{Frame}
use pgfault.Proxy.Effects.{Effect, M, ◌>>=◌}
use pgfault.Proxy.Relay.{Connection, Input, on_input, run, pass_on}
use pgfault.Proxy.Outcome.{Keeps, Keeps-continue}
use pgfault.Proxy.Transparent.{rest_of}
use pgfault.Proxy.Held.{IsHeld, Alive, on_input-Alive}

module _ (digest : Bytes → String) (parse_duration : String → Option ℕ) (id : ℕ) where
  resume :
      (is : List Input) (o : Option Connection) (w : List Effect)
      → ((c : Connection) → IsHeld c → Keeps Alive (run digest parse_duration id is c w))
      → Alive o
      → Keeps Alive (rest_of parse_duration digest id is o w)
  resume is none w k alive = tt
  resume is (some c) w k alive = k c alive

  -- Whatever the inputs and the scenarios are, from a connection where `held_size` is the size
  -- of what is held and at most `gate_limit`, a run that leaves the connection open leaves one
  -- where the same holds.
  pub run-Alive :
      (is : List Input) (c : Connection) (w : List Effect)
      → IsHeld c
      → Keeps Alive (run digest parse_duration id is c w)
  unfolding run
  run-Alive [] c w k = k
  run-Alive (i ∷ is) c w k =
      Keeps-continue Alive Alive (on_input digest parse_duration id i c w) _
        (on_input-Alive digest parse_duration id i c w k)
        (λ o w1 alive. resume is o w1 (λ c1 k1. run-Alive is c1 w1 k1) alive)

-- A frame, and whether a scenario wants what follows it held.
abbrev pub Response : Type 0
Response = Frame × Bool

abbrev pub bytes_of : List Response → List Bytes
bytes_of [] = []
bytes_of ((f, gate) ∷ rs) = f.bytes ∷ bytes_of rs

-- A response: its frames, and the `Z` at its end.
abbrev pub pass_response : List Response → Frame → Bool → Connection → M Connection
pass_response [] z suppress c = pass_on z false suppress c
pass_response ((f, gate) ∷ rs) z suppress c = do
  c1 ← pass_on f gate false c
  pass_response rs z suppress c1
