-- ===== src/Proxy/Pinnable.antt =====
-- The faults that a run records, and the scenarios that replay them: each is valid.
use pgfault.Base.{
  ℕ, ◌+◌, ltb, ◌==◌, if◌then◌else◌, ◌≡◌, ◌≢◌, inl, inr, refl, sym, subst, Bool, true, false, not,
  ◌||◌, String, Option, none, some, List, [], ◌∷◌, ◌++◌, append-nil, map, All, All-append, Bytes,
  length, is_empty, Bool-cases, nat_eq, string_eq, bytes_eq_instance,
}
use pgfault.Base.Result.{ok}
use pgfault.Wire.{Frame, tag}
use pgfault.Events.{Event}
use pgfault.Scenario.{Side}
use pgfault.Scenario.Validate.{validate}
use pgfault.Scenario.Matcher.{Matcher, new_matcher, observe}
use pgfault.Trace.{pin, lifecycle}
use pgfault.Trace.Pin.{observe-pin, validate-pin}
use pgfault.Proxy.Effects.{Effect, M, continue, pure, to_client, recorded, reset}
use pgfault.Proxy.Apply.{Faults, apply}
use pgfault.Proxy.Relay.{
  Connection, deliver, pass_on, hold, release, cuts, cut_here, one_less, gate_limit,
}
use pgfault.Proxy.Sent.{write_all-eq}
use pgfault.Proxy.Outcome.{Leaves, Leaves-continue, Leaves-if}
use pgfault.Proxy.Faults.{
  Fault, fault_of, faults_of, faults_of-append, untraced, observed, observed_all, fired_at, fired,
}
use pgfault.Proxy.Fired.{apply-fired}
use pgfault.Proxy.Cut.{AllValid, AllValid-AllTimed, observed-AllValid, observed_all-AllValid}

faults_of-sent : (bs : List Bytes) → faults_of (map to_client bs) ≡ []
faults_of-sent [] = refl
faults_of-sent (b ∷ bs) = faults_of-sent bs

-- A fresh matcher of the pinned scenario of a fault fires at its event.
abbrev pub Refires : Fault → Type 0
Refires (e, s) = (observe e (new_matcher (pin e s))).1 ≡ true

module _ (parse_duration : String → Option ℕ) where
  -- Pinned to its event, a fault fires there, and is valid unless the event is row 0.
  abbrev pub Pinned : Fault → Type 0
  Pinned (e, s) =
      Refires (e, s) × (e.row_index ≢ some 0 → validate parse_duration (pin e s) ≡ ok tt)

  abbrev pub Pinnable : List Effect → Type 0
  Pinnable w = All Pinned (faults_of w)

  abbrev pub Ready : List Effect → Connection → Type 0
  Ready w c = Pinnable w × AllValid parse_duration c.matchers

  abbrev pub Going : List Effect → Option Connection → Type 0
  Going w none = Pinnable w
  Going w (some c) = Ready w c

  fired_at-Pinned :
      (e : Event) (ms : List Matcher) → AllValid parse_duration ms → All Pinned (fired_at e ms)
  fired_at-Pinned e [] valid = tt
  fired_at-Pinned e (m ∷ ms) (v, valid) = elim (Bool-cases (observe e m).1) [
    | inl fires ↦ rw fires (
      (observe-pin e m fires, λ row. validate-pin parse_duration e m fires row v),
      fired_at-Pinned e ms valid,
    )
    | inr passes ↦ rw passes (fired_at-Pinned e ms valid)
  ]

  fired-Pinned :
      (es : List Event) (ms : List Matcher) → AllValid parse_duration ms → All Pinned (fired es ms)
  fired-Pinned [] ms valid = tt
  fired-Pinned (e ∷ es) ms valid =
      All-append Pinned (fired_at e ms) (fired es (observed e ms)) (fired_at-Pinned e ms valid)
        (fired-Pinned es (observed e ms) (observed-AllValid parse_duration e ms valid))

  pub Pinnable-concat :
      (w : List Effect) (e : Effect) → fault_of e ≡ [] → Pinnable w → Pinnable (w ++ e ∷ [])
  Pinnable-concat w e h k = subst (All Pinned) (sym (untraced w e h)) k

  Pinnable-sent :
      (w : List Effect) (bs : List Bytes) → Pinnable w → Pinnable (w ++ map to_client bs)
  Pinnable-sent w bs k =
      rw (faults_of-append w (map to_client bs), faults_of-sent bs, append-nil (faults_of w)) k

  -- The events of a frame are applied, and then the connection goes on with what is returned.
  pub apply-Going :
      (es : List Event) (ms : List Matcher) (x : Faults)
      (k : List Matcher × Faults → M (Option Connection)) (w : List Effect)
      → AllValid parse_duration ms
      → Pinnable w
      → ((a : List Matcher × Faults) (v : List Effect)
          → AllValid parse_duration a.0
          → Pinnable v
          → Leaves Going Pinnable (k a v))
      → Leaves Going Pinnable (continue (apply parse_duration es ms x w) k)
  apply-Going es ms x k w valid pinnable goes =
      let (v, y, runs, done) =
        apply-fired parse_duration es ms x w (AllValid-AllTimed parse_duration ms valid) in
      let pinned : Pinnable v =
        rw done.traced
          (All-append Pinned (faults_of w) (fired es ms) pinnable (fired-Pinned es ms valid)) in
      rw runs
        (goes (observed_all es ms, y) v (observed_all-AllValid parse_duration es ms valid) pinned)

  release-Ready :
      (f : Frame) (suppress : Bool) (c : Connection) (w : List Effect)
      → Ready w c
      → Leaves Ready Pinnable (release f suppress c w)
  unfolding release
  release-Ready f true c w k = k
  release-Ready f false c w (p, valid) = rw (write_all-eq c.held w) (
    Pinnable-concat (w ++ map to_client c.held) (to_client f.bytes) refl (Pinnable-sent w c.held p),
    valid,
  )

  hold-Ready :
      (f : Frame) (gate : Bool) (c : Connection) (w : List Effect)
      → Ready w c
      → Leaves Ready Pinnable (hold f gate c w)
  unfolding hold
  hold-Ready f gate c w (p, valid) =
      Leaves-if Ready Pinnable (gate || not (is_empty c.held)) _ _ w
        (λ held.
          Leaves-if Ready Pinnable (ltb gate_limit (c.held_size + length f.bytes)) _ _ w (λ big. p)
            (λ fits. (p, valid)))
        (λ free. (Pinnable-concat w (to_client f.bytes) refl p, valid))

  pass_on-Ready :
      (f : Frame) (gate suppress : Bool) (c : Connection) (w : List Effect)
      → Ready w c
      → Leaves Ready Pinnable (pass_on f gate suppress c w)
  unfolding pass_on
  pass_on-Ready f gate suppress c w k =
      Leaves-if Ready Pinnable (tag f == b'Z') _ _ w (λ ready. release-Ready f suppress c w k)
        (λ other.
          Leaves-if Ready Pinnable suppress _ _ w (λ drop. k) (λ send. hold-Ready f gate c w k))

  cut_here-Going : (id : ℕ) (w : List Effect) → Pinnable w → Leaves Going Pinnable (cut_here id w)
  cut_here-Going id w p =
      Pinnable-concat (w ++ reset Side.frontend ∷ [])
        (recorded (lifecycle id "result.truncated" "")) refl
        (Pinnable-concat w (reset Side.frontend) refl p)

  pub deliver-Going :
      (id : ℕ) (f : Frame) (gate suppress : Bool) (c : Connection) (w : List Effect)
      → Ready w c
      → Leaves Going Pinnable (deliver id f gate suppress c w)
  unfolding deliver
  deliver-Going id f gate suppress c w k =
      let c0 = record c { truncate = one_less c.truncate } in
      let after_row : Connection → M (Option Connection) =
        λ c1. if cuts c1.truncate then cut_here id else pure (some c1) in
      Leaves-if Going Pinnable (tag f == b'D') _ _ w
        (λ row.
          Leaves-if Going Pinnable (cuts c.truncate) _ _ w (λ out. cut_here-Going id w k.0)
            (λ left.
              Leaves-continue Ready Going Pinnable (pass_on f gate suppress c0 w) after_row
                (pass_on-Ready f gate suppress c0 w k)
                (λ c1 v k1.
                  Leaves-if Going Pinnable (cuts c1.truncate) (cut_here id) (pure (some c1)) v
                    (λ out. cut_here-Going id v k1.0) (λ more. k1))))
        (λ other.
          Leaves-continue Ready Going Pinnable (pass_on f gate suppress c w) (λ c1. pure (some c1))
            (pass_on-Ready f gate suppress c w k) (λ c1 v k1. k1))

  -- Whether the connection ends here or goes on.
  pub Going-if :
      (b : Bool) (o : Option Connection) (w : List Effect)
      → Going w o
      → Going w (if b then none else o)
  Going-if true none w k = k
  Going-if true (some c) w k = k.0
  Going-if false o w k = k
