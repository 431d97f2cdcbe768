-- ===== src/Scenario/Firing.antt =====
-- A matcher fires once, at the event that its scenario counts to.
use pgfault.Base.{
  ℕ, suc, ◌+◌, ◌≤◌, ◌<◌, ◌==◌, if◌then◌else◌, ◌≡◌, ◌⊎◌, inl, inr, refl, Bool, true, false, ◌&&◌,
  List, [], ◌∷◌, arith, length, nat_eq, string_eq, bytes_eq_instance,
}
use pgfault.Base.Word.{u64_mod, u64_succ-eq}
use pgfault.Events.{Event}
use pgfault.Scenario.{Scenario}
use pgfault.Scenario.Matcher.{Matcher, new_matcher, observe, matches, or_one}

-- What a matcher answers to the events, in order.
unfoldable pub answers : List Event → Matcher → List Bool
answers [] m = []
answers (e ∷ es) m = (observe e m).1 ∷ answers es (observe e m).0

-- The answers, when `k` matching events went before: true at the event that makes up the number.
pub due : Scenario → ℕ → List Event → List Bool
due s k [] = []
due s k (e ∷ es) =
    (matches s e && suc k == or_one s.when.occurrence) ∷ due s (if matches s e then suc k else k) es

-- The matcher and the count of the matching events agree.
abbrev Tracks : ℕ → Matcher → Type 0
Tracks k m =
    ((m.fired ≡ false) × (m.seen ≡ k))
    ⊎ ((m.fired ≡ true) × (or_one m.scenario.when.occurrence ≤ k))

abbrev step : Matcher → Event → ℕ → ℕ
step m e k = if matches m.scenario e then suc k else k

pub observe-scenario : (e : Event) (m : Matcher) → (observe e m).0.scenario ≡ m.scenario
unfolding observe
observe-scenario e m = ground arith

observe-due :
    (k : ℕ) (e : Event) (m : Matcher)
    → suc k < u64_mod
    → Tracks k m
    → (observe e m).1 ≡ (matches m.scenario e && suc k == or_one m.scenario.when.occurrence)
unfolding observe
observe-due k e m small (inl (unfired, seen)) = ground (arith, u64_succ-eq m.seen)
observe-due k e m small (inr (fired, past)) = ground arith

observe-Tracks :
    (k : ℕ) (e : Event) (m : Matcher)
    → suc k < u64_mod
    → Tracks k m
    → Tracks (step m e k) (observe e m).0
unfolding observe
observe-Tracks k e m small (inl (unfired, seen)) = ground (arith, u64_succ-eq m.seen)
observe-Tracks k e m small (inr (fired, past)) = ground arith

answers-Tracks :
    (es : List Event) (k : ℕ) (m : Matcher)
    → k + length es < u64_mod
    → Tracks k m
    → answers es m ≡ due m.scenario k es
unfolding answers due
answers-Tracks [] k m small t = refl
answers-Tracks (e ∷ es) k m small t =
    let later =
      answers-Tracks es (step m e k) (observe e m).0 (ground arith)
        (observe-Tracks k e m (omega arith) t) in
    ground (arith, observe-due k e m, later, observe-scenario e m)

-- On fewer than 2^64 events, a fresh matcher fires at the event that makes up the scenario's
-- occurrence among the reliable events of its kind that it selects, and at no other.
pub answers-due :
    (s : Scenario) (es : List Event) → length es < u64_mod → answers es (new_matcher s) ≡ due s 0 es
answers-due s es small = answers-Tracks es 0 (new_matcher s) (omega arith) (inl (refl, refl))
