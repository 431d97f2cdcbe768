-- ===== src/Proxy/Relay.antt =====
-- The loop of `connection`. `select!` takes a frame from either side: a run is a list of inputs.
use pgfault.Base.{
  ℕ, zero, suc, ◌+◌, ◌*◌, if◌then◌else◌, ltb, ◌==◌, Bool, true, false, not, ◌||◌, String, Option,
  none, some, List, [], ◌∷◌, ◌++◌, Bytes, length, any, is_empty,
}
use pgfault.Wire.{Frame, tag, WireError}
use pgfault.State.{ConnectionState, forwarded}
use pgfault.State.Frontend.{frontend}
use pgfault.State.Backend.{backend, completion_boundary}
use pgfault.Scenario.{Side}
use pgfault.Scenario.Matcher.{Matcher, needs_gate}
use pgfault.Trace.{lifecycle}
use pgfault.Proxy.Effects.{
  M, pure, fail, ◌>>=◌, ◌>>◌, tell, write_all, to_client, to_upstream, recorded, reset, shut_down,
  wire, gate_exceeded,
}
use pgfault.Proxy.Apply.{Faults, Disposition, pass, apply}

pub record Connection : Type 0 where
  pub state : ConnectionState
  pub matchers : List Matcher
  pub held : List Bytes
  pub held_size : ℕ
  pub truncate : Option ℕ

pub data Input : Type 0 where
  client : Frame → Input
  server : Frame → Input
  client_closed server_closed : Input
  client_broken server_broken : WireError → Input

abbrev pub gate_limit : ℕ
gate_limit = 1024 * 1024

abbrev pub faults : Connection → Faults
faults c = record { disposition = pass; truncate = c.truncate }

abbrev pub gates : List Matcher → Option String → Bool
gates ms none = false
gates ms (some boundary) = any (needs_gate boundary) ms

-- Whether the rows that may still pass have run out before this row, and what is left behind it.
abbrev pub cuts : Option ℕ → Bool
cuts none = false
cuts (some zero) = true
cuts (some (suc n)) = false

abbrev pub one_less : Option ℕ → Option ℕ
one_less none = none
one_less (some zero) = some zero
one_less (some (suc n)) = some n

-- The result is cut here: `none` ends the connection.
abbrev pub cut_here : ℕ → M (Option Connection)
cut_here id = do
  tell (reset Side.frontend)
  tell (recorded (lifecycle id "result.truncated" ""))
  pure none

-- `Z`: what was held is sent ahead of it, unless it is suppressed.
unfoldable pub release : Frame → Bool → Connection → M Connection
unfolding write_all
release f suppress c =
    let c1 = record c { held = []; held_size = 0; truncate = none } in
    if suppress then pure c1 else (do write_all c.held; tell (to_client f.bytes); pure c1)

-- Any other frame that is not suppressed is sent, or held behind a gate.
unfoldable pub hold : Frame → Bool → Connection → M Connection
hold f gate c =
    if gate || not (is_empty c.held)
    then (if ltb gate_limit (c.held_size + length f.bytes)
        then fail gate_exceeded
        else pure
            (record c { held_size = c.held_size + length f.bytes; held = c.held ++ f.bytes ∷ [] }))
    else (do tell (to_client f.bytes); pure c)

unfoldable pub pass_on : Frame → Bool → Bool → Connection → M Connection
unfolding release hold
pass_on f gate suppress c =
    if tag f == b'Z' then release f suppress c else if suppress then pure c else hold f gate c

-- A frame of the server, once its events are applied: the truncation of rows around its delivery.
unfoldable pub deliver : ℕ → Frame → Bool → Bool → Connection → M (Option Connection)
unfolding pass_on
deliver id f gate suppress c =
    if tag f == b'D'
    then (if cuts c.truncate then cut_here id else (do
      c1 ← pass_on f gate suppress (record c { truncate = one_less c.truncate })
      if cuts c1.truncate then cut_here id else pure (some c1)))
    else (do c1 ← pass_on f gate suppress c; pure (some c1))

module _ (digest : Bytes → String) (parse_duration : String → Option ℕ) (id : ℕ) where
  -- The event that a query was forwarded.
  unfoldable pub after_forward : Frame → Connection → M (Option Connection)
  after_forward f c =
      if tag f == b'Q' || tag f == b'E'
      then (do
        (ms, x) ← apply parse_duration ((forwarded c.state).1 ∷ []) c.matchers (faults c)
        pure (
            if x.disposition.disconnect
            then none
            else some
                (record c { state = (forwarded c.state).0; matchers = ms; truncate = x.truncate })))
      else pure (some c)

  abbrev pub unless_terminate : Frame → Option Connection → Option Connection
  unless_terminate f c = if tag f == b'X' then none else c

  -- The end of the client's branch.
  unfoldable pub forward : Frame → Disposition → Connection → M (Option Connection)
  unfolding after_forward
  forward f d c =
      if d.disconnect
      then pure none
      else if d.suppress
      then pure (unless_terminate f (some c))
      else (do
        tell (to_upstream f.bytes)
        after ← after_forward f c
        pure (unless_terminate f after))

  unfoldable pub on_client : Frame → Connection → M (Option Connection)
  unfolding forward
  on_client f c = do
    (ms, x) ← apply parse_duration (frontend digest f c.state).1 c.matchers (faults c)
    forward f x.disposition
        (record c { state = (frontend digest f c.state).0; matchers = ms; truncate = x.truncate })

  unfoldable pub on_server : Frame → Connection → M (Option Connection)
  unfolding deliver
  on_server f c = do
    (ms, x) ← apply parse_duration (backend f c.state).1 c.matchers (faults c)
    let c1 = record c { state = (backend f c.state).0; matchers = ms; truncate = x.truncate }
    if x.disposition.disconnect
        then pure none
        else deliver id f (gates c.matchers (completion_boundary f c.state)) x.disposition.suppress
            c1

  unfoldable pub on_input : Input → Connection → M (Option Connection)
  unfolding on_client on_server
  on_input (client f) c = on_client f c
  on_input (server f) c = on_server f c
  on_input client_closed c = do tell (shut_down Side.upstream); pure none
  on_input server_closed c = do tell (shut_down Side.frontend); pure none
  on_input (client_broken e) c = fail (wire e)
  on_input (server_broken e) c = fail (wire e)

  -- The loop, over the inputs that come.
  unfoldable pub run : List Input → Connection → M (Option Connection)
  unfolding on_input
  run [] c = pure (some c)
  run (i ∷ is) c = do next ← on_input i c; elim next [ none ↦ pure none | some c1 ↦ run is c1 ]
