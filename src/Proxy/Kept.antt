-- ===== src/Proxy/Kept.antt =====
-- A command tag behind a gate, and the end of the connection at the `Z` behind it.
use pgfault.Base.{
  ℕ, ◌+◌, ltb, ◌≡◌, refl, sym, ◌∙◌, subst, inl, inr, ◌⊎◌, Bool, true, false, String, Option, none,
  some, List, ◌∷◌, any, Bytes, length, Bool-cases, nat_eq, string_eq, bytes_eq_instance,
}
use pgfault.Base.Result.{Result, ok, err}
use pgfault.Wire.{Frame, tag}
use pgfault.Scenario.Matcher.{Matcher}
use pgfault.State.{ConnectionState}
use pgfault.State.Backend.{backend, completion_boundary}
use pgfault.Proxy.Effects.{gate_exceeded, Effect, ProxyError, continue}
use pgfault.Proxy.Relay.{
  gate_limit, Connection, Input, server, on_server, deliver, pass_on, hold, gates, faults,
}
use pgfault.Proxy.Silent.{Silent, Silent-trans, apply-IsSilent}
use pgfault.Proxy.Outcome.{Leaves}
use pgfault.Proxy.Faults.{Fault, fired, disconnects_at, observed_all}
use pgfault.Proxy.Fired.{apply-fired}
use pgfault.Proxy.Cut.{Cuts, AllValid, AllValid-AllTimed, run-Cuts}
use pgfault.Proxy.Transparent.{rest_of}

-- The connection does not go on.
abbrev pub IsOver : Result ProxyError (Option Connection) → Type 0
IsOver (ok (some c)) = ⊥
IsOver (ok none) = Unit {0}
IsOver (err e) = Unit {0}

-- Nothing is written to either side, and the connection is over.
pub record IsLost (w : List Effect) (p : List Effect × Result ProxyError (Option Connection))
    : Type 0 where
  pub over : IsOver p.1
  pub silent : Silent w p.0

-- What a frame behind a gate comes to: it is held, or dropped, or there is no more room.
abbrev pub IsKept :
    ConnectionState
    → List Matcher
    → List Effect
    → List Effect × Result ProxyError (Option Connection)
    → Type 0
IsKept s ms w p =
    (p.0 ≡ w)
    × (((e : ProxyError) × (p.1 ≡ err e))
        ⊎ ((c : Connection) × (p.1 ≡ ok (some c)) × (c.state ≡ s) × (c.matchers ≡ ms)))

deliver-IsKept :
    (id : ℕ) (f : Frame) (suppress : Bool) (c : Connection) (w : List Effect)
    → tag f ≡ b'C'
    → IsKept c.state c.matchers w (deliver id f true suppress c w)
unfolding deliver pass_on hold
deliver-IsKept id f true c w t = rw t (refl, inr (c, refl, refl, refl))
deliver-IsKept id f false c w t =
    elim (Bool-cases (ltb gate_limit (c.held_size + length f.bytes))) [
      | inl big ↦ rw (t, big) (refl, inl (gate_exceeded, refl))
      | inr fits ↦ rw (t, fits) (refl, inr (_, refl, refl, refl))
    ]

module _ (digest : Bytes → String) (parse_duration : String → Option ℕ) (id : ℕ) where
  -- A gated command tag where no scenario ends the connection.
  pub tag-IsKept :
      (f : Frame) (c : Connection) (w : List Effect)
      → AllValid parse_duration c.matchers
      → tag f ≡ b'C'
      → gates c.matchers (completion_boundary f c.state) ≡ true
      → any disconnects_at (fired (backend f c.state).1 c.matchers) ≡ false
      → (v : List Effect) × Silent w v
        × IsKept
            (backend f c.state).0
            (observed_all (backend f c.state).1 c.matchers)
            v
            (on_server digest parse_duration id f c w)
  unfolding on_server
  tag-IsKept f c w valid t gated goes_on =
      let es = (backend f c.state).1 in
      let (v, y, runs, k) =
        apply-fired parse_duration es c.matchers (faults c) w
          (AllValid-AllTimed parse_duration c.matchers valid) in
      let silent =
        subst (Leaves (λ v a. Silent w v) (λ v. Silent w v)) runs
          (apply-IsSilent parse_duration es c.matchers (faults c) w) in
      let open_ : y.disposition.disconnect ≡ false = k.disconnected ∙ goes_on in
      let c1 : Connection = record c {
        state = (backend f c.state).0;
        matchers = observed_all es c.matchers;
        truncate = y.truncate;
      } in
      (v, silent, rw (runs, open_, gated) (deliver-IsKept id f y.disposition.suppress c1 v t))

  pub over-IsLost :
      (w v : List Effect) (fs : List Fault)
      (p : List Effect × Result ProxyError (Option Connection))
      → Silent w v
      → Cuts v fs p
      → IsLost w p
  over-IsLost w v fs p s k = record {
    over = rw k.ended tt;
    silent = Silent-trans w v p.0 s (k.unsent, k.undelivered);
  }

  -- Where the second frame ends the connection, or there is no way to it.
  pub kept-IsLost :
      (z : Frame) (is : List Input) (s : ConnectionState) (ms : List Matcher) (w v : List Effect)
      (p : List Effect × Result ProxyError (Option Connection))
      → AllValid parse_duration ms
      → any disconnects_at (fired (backend z s).1 ms) ≡ true
      → Silent w v
      → IsKept s ms v p
      → IsLost w (continue p (rest_of parse_duration digest id (server z ∷ is)))
  kept-IsLost z is s ms w v p valid ends silent (same, inl (e, fails)) =
      rw fails (record { over = tt; silent = subst (Silent w) (sym same) silent })
  kept-IsLost z is s ms w v p valid ends silent (same, inr (c, goes, at_s, at_ms)) =
      let at_end : any disconnects_at (fired (backend z c.state).1 c.matchers) ≡ true =
        rw (at_s, at_ms) ends in
      let k =
        run-Cuts parse_duration digest id (server z) is c p.0
          (subst (AllValid parse_duration) (sym at_ms) valid) at_end in
      rw goes (over-IsLost w p.0 _ _ (subst (Silent w) (sym same) silent) k)
