-- ===== src/Proxy/Silent.antt =====
-- `apply` under any scenarios: it writes to neither side.
use pgfault.Base.{
  ℕ, if◌then◌else◌, ◌≡◌, refl, ◌∙◌, String, Option, none, some, List, [], ◌∷◌, ◌++◌, append-nil,
  nat_eq, string_eq, bytes_eq_instance,
}
use pgfault.Events.{Event}
use pgfault.Scenario.{Scenario, Delay, Disconnect, Mode, Side}
use pgfault.Scenario.Matcher.{Matcher, observe}
use pgfault.Trace.{semantic, fault}
use pgfault.Proxy.Effects.{Effect, M, pure, fail, invalid_duration, tell, ◌>>=◌, recorded, slept}
use pgfault.Proxy.Apply.{
  Faults, fire, wait, disconnect, sever, apply_event, apply, with_truncate, with_suppress,
}
use pgfault.Proxy.Sent.{up, down, upstream, downstream, upstream-append, downstream-append}
use pgfault.Proxy.Outcome.{Leaves, Leaves-continue, Leaves-if, Leaves-map}

-- Nothing more has been written to either side.
abbrev pub Silent : List Effect → List Effect → Type 0
Silent w v = (upstream v ≡ upstream w) × (downstream v ≡ downstream w)

pub Silent-trans : (u v w : List Effect) → Silent u v → Silent v w → Silent u w
Silent-trans u v w h k = (k.0 ∙ h.0, k.1 ∙ h.1)

abbrev pub WritesNothing : Effect → Type 0
WritesNothing e = (up e ≡ []) × (down e ≡ [])

pub Silent-concat : (w : List Effect) (e : Effect) → WritesNothing e → Silent w (w ++ e ∷ [])
Silent-concat w e (u, d) = (
  upstream-append w (e ∷ []) ∙ rw (u, append-nil (upstream w)) refl,
  downstream-append w (e ∷ []) ∙ rw (d, append-nil (downstream w)) refl,
)

-- A function that writes nothing, whatever it returns.
abbrev pub IsSilent {ℓ} : {A : Type ℓ} → M A → Type 0
IsSilent m = (w : List Effect) → Leaves (λ v a. Silent w v) (λ v. Silent w v) (m w)

pure-IsSilent {ℓ} : {A : Type ℓ} (a : A) → IsSilent (pure a)
pure-IsSilent a w = (refl, refl)

tell-IsSilent : (e : Effect) → WritesNothing e → IsSilent (tell e)
tell-IsSilent e s w = Silent-concat w e s

bind-IsSilent {ℓ κ} :
    {A : Type ℓ} {B : Type κ} (m : M A) (f : A → M B)
    → IsSilent m
    → ((a : A) → IsSilent (f a))
    → IsSilent (m >>= f)
bind-IsSilent m f h k w =
    Leaves-continue (λ v a. Silent w v) (λ v b. Silent w v) (λ v. Silent w v) (m w) f (h w)
      (λ a v s.
        Leaves-map (λ u b. Silent v u) (λ u b. Silent w u) (λ u. Silent v u) (λ u. Silent w u)
          (f a v) (λ u b t. Silent-trans w v u s t) (λ u t. Silent-trans w v u s t) (k a v))

sever-WritesNothing : (mode : Mode) (side : Side) → WritesNothing (sever mode side)
sever-WritesNothing Mode.close side = (refl, refl)
sever-WritesNothing Mode.reset side = (refl, refl)

abbrev timed : Option ℕ → M (Unit {0})
timed o = elim o [ none ↦ fail invalid_duration | some n ↦ tell (slept n) ]

timed-IsSilent : (o : Option ℕ) → IsSilent (timed o)
timed-IsSilent none = λ w. (refl, refl)
timed-IsSilent (some n) = λ w. Silent-concat w (slept n) (refl, refl)

module _ (parse_duration : String → Option ℕ) where
  wait-IsSilent : (d : Option Delay) → IsSilent (wait parse_duration d)
  wait-IsSilent none w = (refl, refl)
  wait-IsSilent (some d) w = timed-IsSilent (parse_duration d.duration) w

  disconnect-IsSilent :
      (d : Option Disconnect) (x : Faults) → IsSilent (disconnect parse_duration d x)
  disconnect-IsSilent none x w = (refl, refl)
  disconnect-IsSilent (some k) x w =
      Silent-concat w (sever k.mode k.side) (sever-WritesNothing k.mode k.side)

  fire-IsSilent : (e : Event) (s : Scenario) (x : Faults) → IsSilent (fire parse_duration e s x)
  unfolding fire
  fire-IsSilent e s x =
      let y = with_truncate s.action (with_suppress s.action x) in
      let ends = λ (v : Unit {0}). disconnect parse_duration s.action.disconnect y in
      let waits = λ (u : Unit {0}). wait parse_duration s.action.delay >>= ends in
      bind-IsSilent (tell (recorded (fault e s))) waits
        (tell-IsSilent (recorded (fault e s)) (refl, refl))
        (λ u.
          bind-IsSilent (wait parse_duration s.action.delay) ends (wait-IsSilent s.action.delay)
            (λ v. disconnect-IsSilent s.action.disconnect y))

  apply_event-IsSilent :
      (e : Event) (ms : List Matcher) (x : Faults) → IsSilent (apply_event parse_duration e ms x)
  unfolding apply_event
  apply_event-IsSilent e [] x = λ w. (refl, refl)
  apply_event-IsSilent e (m ∷ ms) x =
      let first = if (observe e m).1 then fire parse_duration e m.scenario x else pure x in
      let last = λ (p : List Matcher × Faults). pure ((observe e m).0 ∷ p.0, p.1) in
      let rest = λ (x1 : Faults). apply_event parse_duration e ms x1 >>= last in
      bind-IsSilent first rest
        (λ w.
          Leaves-if (λ v a. Silent w v) (λ v. Silent w v) (observe e m).1
            (fire parse_duration e m.scenario x) (pure x) w
            (λ fired. fire-IsSilent e m.scenario x w) (λ not_fired. (refl, refl)))
        (λ x1.
          bind-IsSilent (apply_event parse_duration e ms x1) last (apply_event-IsSilent e ms x1)
            (λ p w. (refl, refl)))

  pub apply-IsSilent :
      (es : List Event) (ms : List Matcher) (x : Faults) → IsSilent (apply parse_duration es ms x)
  unfolding apply
  apply-IsSilent [] ms x = λ w. (refl, refl)
  apply-IsSilent (e ∷ es) ms x =
      let rest = λ (p : List Matcher × Faults). apply parse_duration es p.0 p.1 in
      let all = λ (u : Unit {0}). apply_event parse_duration e ms x >>= rest in
      bind-IsSilent (tell (recorded (semantic e))) all
        (tell-IsSilent (recorded (semantic e)) (refl, refl))
        (λ u.
          bind-IsSilent (apply_event parse_duration e ms x) rest (apply_event-IsSilent e ms x)
            (λ p. apply-IsSilent es p.0 p.1))
