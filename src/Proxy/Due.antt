-- ===== src/Proxy/Due.antt =====
-- One matcher among the others of a connection: when it fires, and what passes it by.
use pgfault.Base.{
  if◌then◌else◌, ◌==◌, ◌≡◌, refl, sym, ap, ◌∙◌, Bool, true, false, List, [], ◌∷◌, ◌++◌, any,
  any-append, All, arith, inl, inr, Bool-cases, str_eq, nat_eq, string_eq, bytes_eq_instance,
}
use pgfault.Base.Word.{u64_succ}
use pgfault.Events.{Event}
use pgfault.Scenario.Matcher.{Matcher, observe, selects, or_one}
use pgfault.Scenario.Firing.{answers, observe-scenario}
use pgfault.Proxy.Faults.{Fault, fired_at, fired, observed, observed_all, or-true}

-- An event of another name is passed by.
pub observe_other :
    (e : Event) (m : Matcher)
    → str_eq e.event m.scenario.when.event ≡ false
    → observe e m ≡ (m, false)
unfolding observe
observe_other e m h = ground arith

-- The event that makes up the occurrence fires.
pub observe_due :
    (e : Event) (m : Matcher)
    → e.semantic_reliable ≡ true
    → m.fired ≡ false
    → str_eq e.event m.scenario.when.event ≡ true
    → selects m.scenario e ≡ true
    → (u64_succ m.seen == or_one m.scenario.when.occurrence) ≡ true
    → (observe e m).1 ≡ true
unfolding observe
observe_due e m r u n s o = ground arith

observed-split :
    (e : Event) (before : List Matcher) (m : Matcher) (behind : List Matcher)
    → observed e (before ++ m ∷ behind) ≡ observed e before ++ (observe e m).0 ∷ observed e behind
observed-split e [] m behind = refl
observed-split e (x ∷ before) m behind = ap (◌∷◌ (observe e x).0) (observed-split e before m behind)

-- Behind events of other names the matcher stands where it stood, as it was.
pub observed_all-other :
    (es : List Event) (before : List Matcher) (m : Matcher) (behind : List Matcher)
    → All (λ e. str_eq e.event m.scenario.when.event ≡ false) es
    → observed_all es (before ++ m ∷ behind) ≡ observed_all es before ++ m ∷ observed_all es behind
observed_all-other [] before m behind others = refl
observed_all-other (e ∷ es) before m behind (h, others) =
    ap (observed_all es) (
      observed-split e before m behind
      ∙ ap (λ (p : Matcher × Bool). observed e before ++ p.0 ∷ observed e behind)
          (observe_other e m h))
    ∙ observed_all-other es (observed e before) m (observed e behind) others

-- The matcher answers yes to one of the events.
abbrev pub answers_yes : List Event → Matcher → Bool
answers_yes es m = any (λ b. b) (answers es m)

module _ (P : Fault → Bool) where
  fired_at-yes :
      (e : Event) (before : List Matcher) (m : Matcher) (behind : List Matcher)
      → (observe e m).1 ≡ true
      → ((e : Event) → P (e, m.scenario) ≡ true)
      → any P (fired_at e (before ++ m ∷ behind)) ≡ true
  fired_at-yes e [] m behind yes_ wants = rw (yes_, wants e) refl
  fired_at-yes e (x ∷ before) m behind yes_ wants =
      any-append P (if (observe e x).1 then (e, x.scenario) ∷ [] else [])
        (fired_at e (before ++ m ∷ behind))
      ∙ rw (fired_at-yes e before m behind yes_ wants) (sym (or-true _))

  -- Then its scenario is among the fired, whatever the other matchers are.
  pub fired-yes :
      (es : List Event) (before : List Matcher) (m : Matcher) (behind : List Matcher)
      → answers_yes es m ≡ true
      → ((e : Event) → P (e, m.scenario) ≡ true)
      → any P (fired es (before ++ m ∷ behind)) ≡ true
  unfolding answers
  fired-yes [] before m behind yes_ wants = let bad : ⊥ = cc in elim bad [ ]
  fired-yes (e ∷ es) before m behind yes_ wants =
      let ms = before ++ m ∷ behind in
      any-append P (fired_at e ms) (fired es (observed e ms)) ∙ elim (Bool-cases (observe e m).1) [
        | inl now ↦ rw (fired_at-yes e before m behind now wants) refl
        | inr later ↦
            let rest =
              fired-yes es (observed e before) (observe e m).0 (observed e behind) (ground (arith))
                (λ e'. rw (observe-scenario e m) (wants e')) in
            rw (observed-split e before m behind, rest) (sym (or-true _))
      ]
