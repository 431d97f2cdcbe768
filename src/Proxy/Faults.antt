-- ===== src/Proxy/Faults.antt =====
-- The faults that fire at events, told apart from `apply`, and what they do to a disposition.
use pgfault.Base.{
  ℕ, if◌then◌else◌, ◌≡◌, refl, sym, ap, ◌∙◌, Bool, true, false, ◌||◌, Option, none, some, List, [],
  ◌∷◌, ◌++◌, map, append-nil, append_assoc, any, any-append, arith, nat_eq, string_eq,
  bytes_eq_instance,
}
use pgfault.Events.{Event}
use pgfault.Scenario.{Scenario, Mode, Side}
use pgfault.Scenario.Validate.{is_some}
use pgfault.Scenario.Matcher.{Matcher, observe}
use pgfault.Trace.{fault}
use pgfault.Proxy.Effects.{Effect, recorded}
use pgfault.Proxy.Apply.{Faults, suppresses, sever}

abbrev pub Fault : Type 0
Fault = Event × Scenario

-- The faults of a trace, in order.
abbrev pub fault_of : Effect → List Fault
fault_of (recorded (fault e s)) = (e, s) ∷ []
fault_of _ = []

abbrev pub faults_of : List Effect → List Fault
faults_of [] = []
faults_of (e ∷ w) = fault_of e ++ faults_of w

pub faults_of-append : (v w : List Effect) → faults_of (v ++ w) ≡ faults_of v ++ faults_of w
faults_of-append [] w = refl
faults_of-append (e ∷ v) w =
    rw (faults_of-append v w) (sym (append_assoc (fault_of e) (faults_of v) (faults_of w)))

-- The matchers behind an event, and behind several.
abbrev pub observed : Event → List Matcher → List Matcher
observed e ms = map (λ m. (observe e m).0) ms

abbrev pub observed_all : List Event → List Matcher → List Matcher
observed_all [] ms = ms
observed_all (e ∷ es) ms = observed_all es (observed e ms)

-- The scenarios that fire at an event, and the faults of several events.
abbrev pub fired_at : Event → List Matcher → List Fault
fired_at e [] = []
fired_at e (m ∷ ms) = (if (observe e m).1 then (e, m.scenario) ∷ [] else []) ++ fired_at e ms

abbrev pub fired : List Event → List Matcher → List Fault
fired [] ms = []
fired (e ∷ es) ms = fired_at e ms ++ fired es (observed e ms)

abbrev pub suppresses_at : Fault → Bool
suppresses_at f = suppresses f.1.action.suppress

abbrev pub disconnects_at : Fault → Bool
disconnects_at f = is_some f.1.action.disconnect

-- The truncation that the last fault with one leaves.
abbrev pub truncation : List Fault → Option ℕ → Option ℕ
truncation [] t = t
truncation (f ∷ fs) t =
    truncation fs (elim f.1.action.truncate_result [ none ↦ t | some k ↦ some k.after_rows ])

truncation-append :
    (fs gs : List Fault) (t : Option ℕ) → truncation (fs ++ gs) t ≡ truncation gs (truncation fs t)
truncation-append [] gs t = refl
truncation-append (f ∷ fs) gs t = truncation-append fs gs _

-- From one state of the faults to another, by these faults.
pub record IsApplied (w : List Effect) (x : Faults) (fs : List Fault) (v : List Effect) (y : Faults)
    : Type 0 where
  pub suppressed : y.disposition.suppress ≡ (x.disposition.suppress || any suppresses_at fs)
  pub disconnected : y.disposition.disconnect ≡ (x.disposition.disconnect || any disconnects_at fs)
  pub truncated : y.truncate ≡ truncation fs x.truncate
  pub traced : faults_of v ≡ faults_of w ++ fs

or-any :
    (p : Fault → Bool) (a b c : Bool) (fs gs : List Fault)
    → b ≡ (a || any p fs)
    → c ≡ (b || any p gs)
    → c ≡ (a || any p (fs ++ gs))
or-any p true b c fs gs h k = ground arith
or-any p false b c fs gs h k = rw (any-append p fs gs, ← h) k

pub IsApplied-trans :
    {u v w : List Effect} {x y z : Faults} (fs gs : List Fault)
    → IsApplied u x fs v y
    → IsApplied v y gs w z
    → IsApplied u x (fs ++ gs) w z
IsApplied-trans {u} fs gs h k = record {
  suppressed = or-any suppresses_at _ _ _ fs gs h.suppressed k.suppressed;
  disconnected = or-any disconnects_at _ _ _ fs gs h.disconnected k.disconnected;
  truncated = k.truncated ∙ rw (h.truncated, truncation-append fs gs _) refl;
  traced = k.traced ∙ rw h.traced (append_assoc (faults_of u) fs gs);
}

pub or-false : (b : Bool) → b ≡ (b || false)
or-false true = refl
or-false false = refl

pub or-true : (b : Bool) → true ≡ (b || true)
or-true true = refl
or-true false = refl

pub IsApplied-nil : (w : List Effect) (x : Faults) → IsApplied w x [] w x
IsApplied-nil w x = record {
  suppressed = or-false x.disposition.suppress;
  disconnected = or-false x.disposition.disconnect;
  truncated = refl;
  traced = sym (append-nil (faults_of w));
}

-- Effects that are no faults may come before.
pub IsApplied-after :
    {u v w : List Effect} {x y : Faults} {fs : List Fault}
    → faults_of v ≡ faults_of u
    → IsApplied v x fs w y
    → IsApplied u x fs w y
IsApplied-after {fs = fs} h k = record {
  suppressed = k.suppressed;
  disconnected = k.disconnected;
  truncated = k.truncated;
  traced = k.traced ∙ ap (λ t. t ++ fs) h;
}

-- An effect that is no fault.
pub untraced :
    (w : List Effect) (e : Effect) → fault_of e ≡ [] → faults_of (w ++ e ∷ []) ≡ faults_of w
untraced w e h = faults_of-append w (e ∷ []) ∙ rw h (append-nil (faults_of w))

pub sever-fault_of : (mode : Mode) (side : Side) → fault_of (sever mode side) ≡ []
sever-fault_of Mode.close side = refl
sever-fault_of Mode.reset side = refl
