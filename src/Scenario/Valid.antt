-- ===== src/Scenario/Valid.antt =====
-- `validate` accepts exactly the valid scenarios.
use pgfault.Base.{
  ℕ, ltb, ◌==◌, ◌≡◌, ◌≢◌, ◌↔◌, inl, inr, refl, sym, ◌∙◌, Bool-cases, List, [], ◌∷◌, Bool, true,
  false, not, ◌&&◌, ◌||◌, String, Option, none, some, arith, Option-cases, str_eq, str_eq_iff,
  nat_eq, string_eq, bytes_eq_instance,
}
use pgfault.Base.Result.{ok, err, ◌>>◌}
use pgfault.Base.Text.{is_blank}
use pgfault.Events.{events, is}
use pgfault.Scenario.{Scenario, Delay, Direction, Action}
use pgfault.Scenario.Validate.{
  ScenarioError, Checked, bail_if, is_zero, is_some, is_upstream, upstream_events, longest_delay,
  same, check_delay, has_action, validate, invalid_duration, delay_too_long, wrong_direction,
  unsupported_version, empty_name, unknown_event, zero_based, zero_ordinal, no_action,
  truncate_elsewhere,
}
use pgfault.Scenario.Conditions.{IsOneOf, known_names, client_names, Delays, Acts, IsValid}

is_iff : (names : List String) (name : String) → (is names name ≡ true) ↔ IsOneOf names name
is_iff [] name = ground arith
is_iff (x ∷ names) name = ground (arith, is_iff names name, str_eq_iff x name, str_eq_iff name x)

some_iff {ℓ} : {A : Type ℓ} (o : Option A) → (is_some o ≡ true) ↔ (o ≢ none)
some_iff none = ground arith
some_iff (some a) = ground arith

has_action-Acts : (a : Action) → (has_action a ≡ true) ↔ Acts a
has_action-Acts a = ground (
  arith,
  some_iff a.suppress,
  some_iff a.disconnect,
  some_iff a.delay,
  some_iff a.truncate_result,
)

upstream_iff : (d : Direction) → (is_upstream d ≡ true) ↔ (d ≡ Direction.upstream)
upstream_iff Direction.upstream = ground arith
upstream_iff Direction.downstream = ground arith

directed_iff :
    (d : Direction) (event : String)
    → (is_upstream d ≡ is upstream_events event)
      ↔ ((d ≡ Direction.upstream) ↔ IsOneOf client_names event)
directed_iff d event =
    let up = upstream_iff d in
    let mine = is_iff client_names event in
    (
      λ same. (λ u. mine.0 (sym same ∙ up.1 u), λ m. up.0 (same ∙ mine.1 m)),
      λ both. elim (Bool-cases (is_upstream d)) [
        | inl yes_ ↦ yes_ ∙ sym (mine.1 (both.0 (up.0 yes_)))
        | inr no_ ↦ no_ ∙ ground (arith, up, mine, both)
      ],
    )

bail_iff : (b : Bool) (e : ScenarioError) → (bail_if b e ≡ ok tt) ↔ (b ≡ false)
bail_iff true e = ground arith
bail_iff false e = ground arith

>>_iff : (m k : Checked) → ((m >> k) ≡ ok tt) ↔ ((m ≡ ok tt) × (k ≡ ok tt))
>>_iff (ok _) k = ground arith
>>_iff (err e) k = ground arith

chain_iff :
    (a b c d e f g h : Checked)
    → ((a >> (b >> (c >> (d >> (e >> (f >> (g >> h))))))) ≡ ok tt) ↔ (
        (a ≡ ok tt)
        × (b ≡ ok tt)
        × (c ≡ ok tt)
        × (d ≡ ok tt)
        × (e ≡ ok tt)
        × (f ≡ ok tt)
        × (g ≡ ok tt)
        × (h ≡ ok tt))
chain_iff a b c d e f g h = (
  λ p.
      let (pa, qa) = (>>_iff a _).0 p in
      let (pb, qb) = (>>_iff b _).0 qa in
      let (pc, qc) = (>>_iff c _).0 qb in
      let (pd, qd) = (>>_iff d _).0 qc in
      let (pe, qe) = (>>_iff e _).0 qd in
      let (pf, qf) = (>>_iff f _).0 qe in
      let (pg, ph) = (>>_iff g h).0 qf in (pa, pb, pc, pd, pe, pf, pg, ph),
  λ (pa, pb, pc, pd, pe, pf, pg, ph). rw (pa, pb, pc, pd, pe, pf, pg, ph) refl,
)

one_iff : (v : ℕ) (e : ScenarioError) → (bail_if (not (v == 1)) e ≡ ok tt) ↔ (v ≡ 1)
one_iff v e = ground arith

not_iff : (b : Bool) (e : ScenarioError) → (bail_if (not b) e ≡ ok tt) ↔ (b ≡ true)
not_iff true e = ground arith
not_iff false e = ground arith

zero_iff : (a : Option ℕ) (e : ScenarioError) → (bail_if (is_zero a) e ≡ ok tt) ↔ (a ≢ some 0)
zero_iff none e = ground arith
zero_iff (some n) e = ground arith

or_iff :
    (a b : Bool) (e : ScenarioError)
    → (bail_if (a || b) e ≡ ok tt) ↔ ((bail_if a e ≡ ok tt) × (bail_if b e ≡ ok tt))
or_iff true b e = ground arith
or_iff false b e = ground arith

zeros_iff :
    (a b : Option ℕ) (e : ScenarioError)
    → (bail_if (is_zero a || is_zero b) e ≡ ok tt) ↔ ((a ≢ some 0) × (b ≢ some 0))
zeros_iff a b e =
    let both = or_iff (is_zero a) (is_zero b) e in
    (
      λ h. ((zero_iff a e).0 (both.0 h).0, (zero_iff b e).0 (both.0 h).1),
      λ v. both.1 ((zero_iff a e).1 v.0, (zero_iff b e).1 v.1),
    )

only_iff :
    (b : Bool) (x y : String) (e : ScenarioError)
    → (bail_if (b && not (str_eq x y)) e ≡ ok tt) ↔ (b ≡ true → x ≡ y)
only_iff false x y e = (λ _ h. cc, λ _. refl)
only_iff true x y e =
    let k = not_iff (str_eq x y) e in
    (λ h _. (str_eq_iff x y).0 (k.0 h), λ v. k.1 ((str_eq_iff x y).1 (v refl)))

same_iff : (a b : Bool) → (not (same a b) ≡ false) ↔ (b ≡ a)
same_iff a b = ground arith

module _ (parse_duration : String → Option ℕ) where
  parsed_delay :
      (event : String) (d : Delay) (n : ℕ)
      → parse_duration d.duration ≡ some n
      → (check_delay parse_duration event (some d) ≡ ok tt)
        ↔ ((ltb longest_delay n ≡ false) × (is_upstream d.direction ≡ is upstream_events event))
  unfolding check_delay
  parsed_delay event d n e =
      rw (e, check_delay)
        (let step = >>_iff (bail_if (ltb longest_delay n) delay_too_long) (
            bail_if (not (same (is upstream_events event) (is_upstream d.direction)))
              wrong_direction) in
          let long = bail_iff (ltb longest_delay n) delay_too_long in
          let turned =
            bail_iff (not (same (is upstream_events event) (is_upstream d.direction)))
              wrong_direction in
          let way = same_iff (is upstream_events event) (is_upstream d.direction) in
          (
            λ h. (long.0 (step.0 h).0, way.0 (turned.0 (step.0 h).1)),
            λ (a, b). step.1 (long.1 a, turned.1 (way.1 b)),
          ))

  unparsed_delay :
      (event : String) (d : Delay)
      → parse_duration d.duration ≡ none
      → check_delay parse_duration event (some d) ≡ err invalid_duration
  unfolding check_delay
  unparsed_delay event d e = rw (e, check_delay)

  delay_iff :
      (event : String) (o : Option Delay)
      → (check_delay parse_duration event o ≡ ok tt) ↔ Delays parse_duration event o
  delay_iff event none = unfold check_delay in (λ _. tt, λ _. refl)
  delay_iff event (some d) = elim (Option-cases (parse_duration d.duration)) [
    | inl e ↦ (
      λ h. absurd (ground (arith, unparsed_delay event d e)),
      λ v. absurd (ground (arith, v.parsed)),
    )
    | inr (n, e) ↦
        let k = parsed_delay event d n e in
        (
          λ h. record {
            nanoseconds = n;
            parsed = e;
            short = ground (arith, (k.0 h).0);
            directed = (directed_iff d.direction event).0 (k.0 h).1;
          },
          λ v.
              k.1
                (ground (arith, v.parsed, v.short), (directed_iff d.direction event).1 v.directed),
        )
  ]

  -- For any parser of durations, `validate` accepts a scenario exactly when the conditions of a
  -- valid scenario hold: version 1, a name that is not blank, a known event, counts from one, a
  -- delay of at most 24 hours in the direction of the event, at least one of the four actions,
  -- and a truncation only at `result.started`.
  pub validate_iff : (s : Scenario) → (validate parse_duration s ≡ ok tt) ↔ IsValid parse_duration s
  unfolding validate
  validate_iff s =
      let chain =
        chain_iff (bail_if (not (s.version == 1)) unsupported_version)
          (bail_if (is_blank s.name) empty_name)
          (bail_if (not (is events s.when.event)) unknown_event)
          (bail_if (is_zero s.when.occurrence || is_zero s.when.row) zero_based)
          (bail_if (is_zero s.selector.connection_ordinal) zero_ordinal)
          (check_delay parse_duration s.when.event s.action.delay)
          (bail_if (not (has_action s.action)) no_action)
          (bail_if (is_some s.action.truncate_result && not (str_eq s.when.event "result.started"))
            truncate_elsewhere) in
      (
        λ h.
            let (v, n, k, z, o, d, a, t) = chain.0 h in
            record {
              version_one = (one_iff s.version unsupported_version).0 v;
              named = (bail_iff (is_blank s.name) empty_name).0 n;
              known =
                  (is_iff known_names s.when.event).0
                    ((not_iff (is events s.when.event) unknown_event).0 k);
              occurrence_based = ((zeros_iff s.when.occurrence s.when.row zero_based).0 z).0;
              row_based = ((zeros_iff s.when.occurrence s.when.row zero_based).0 z).1;
              ordinal_based = (zero_iff s.selector.connection_ordinal zero_ordinal).0 o;
              delays = (delay_iff s.when.event s.action.delay).0 d;
              acts = (has_action-Acts s.action).0 ((not_iff (has_action s.action) no_action).0 a);
              truncates = λ there.
                  (only_iff (is_some s.action.truncate_result) s.when.event "result.started"
                      truncate_elsewhere).0
                    t ((some_iff s.action.truncate_result).1 there);
            },
        λ v. chain.1 (
          (one_iff s.version unsupported_version).1 v.version_one,
          (bail_iff (is_blank s.name) empty_name).1 v.named,
          (not_iff (is events s.when.event) unknown_event).1
              ((is_iff known_names s.when.event).1 v.known),
          (zeros_iff s.when.occurrence s.when.row zero_based).1 (v.occurrence_based, v.row_based),
          (zero_iff s.selector.connection_ordinal zero_ordinal).1 v.ordinal_based,
          (delay_iff s.when.event s.action.delay).1 v.delays,
          (not_iff (has_action s.action) no_action).1 ((has_action-Acts s.action).1 v.acts),
          (only_iff (is_some s.action.truncate_result) s.when.event "result.started"
                truncate_elsewhere).1
              (λ there. v.truncates ((some_iff s.action.truncate_result).0 there)),
        ),
      )
