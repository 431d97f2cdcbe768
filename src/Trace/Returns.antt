-- ===== src/Trace/Returns.antt =====
-- A trace that a run wrote can be replayed: `replay` of the lines that show its records.
use pgfault.Base.{
  ℕ, suc, ◌≡◌, ◌≢◌, refl, subst, true, false, String, Option, some, List, [], ◌∷◌, map, is_empty,
  All, nat_eq, string_eq, bytes_eq_instance,
}
use pgfault.Base.Result.{ok}
use pgfault.Events.{Event}
use pgfault.Scenario.{Scenario}
use pgfault.Scenario.Validate.{validate}
use pgfault.Trace.{Record, semantic, fault, lifecycle, pin, Gathered, gather, gather_lines, replay}
use pgfault.Trace.Replay.{holds, Holds, kept, gather_lines-IsGathered}

-- The faults of records, in order.
abbrev pub faults_in : List Record → List (Event × Scenario)
faults_in [] = []
faults_in (fault e s ∷ rs) = (e, s) ∷ faults_in rs
faults_in (semantic e ∷ rs) = faults_in rs
faults_in (lifecycle id event detail ∷ rs) = faults_in rs

module _ (parse_duration : String → Option ℕ) where
  -- The scenario of a fault is valid when it is pinned to its event.
  abbrev pub Pins : Event × Scenario → Type 0
  Pins (e, s) = validate parse_duration (pin e s) ≡ ok tt

  module _ (from_json : String → Option Record) (to_json : Scenario → String) where
    -- The scenarios hold the pinned form of each fault.
    abbrev pub HoldsAll : List Scenario → List (Event × Scenario) → Type 0
    HoldsAll ss fs = All (λ f. holds parse_duration from_json to_json ss (pin f.0 f.1) ≡ true) fs

module _ (parse_duration : String → Option ℕ) (from_json : String → Option Record)
    (to_json : Scenario → String) (show : Record → String) where
  -- The text of each record reads back as the record.
  abbrev pub AllRead : List Record → Type 0
  AllRead rs = All (λ r. from_json (show r) ≡ some r) rs

  gather_ok :
      (r : Record) (g : Gathered)
      → All (Pins parse_duration) (faults_in (r ∷ []))
      → (g' : Gathered) × (gather parse_duration from_json to_json r g ≡ ok g')
  unfolding gather
  gather_ok (semantic e) g pins = (g, refl)
  gather_ok (lifecycle id event detail) g pins = (g, refl)
  gather_ok (fault e s) g pins =
      (kept parse_duration from_json to_json (pin e s) g, rw (pins.0, gather) refl)

  Pins-split :
      (r : Record) (rs : List Record)
      → All (Pins parse_duration) (faults_in (r ∷ rs))
      → All (Pins parse_duration) (faults_in (r ∷ [])) × All (Pins parse_duration) (faults_in rs)
  Pins-split (semantic e) rs pins = (tt, pins)
  Pins-split (lifecycle id event detail) rs pins = (tt, pins)
  Pins-split (fault e s) rs (p, pins) = ((p, tt), pins)

  gather_lines_ok :
      (rs : List Record) (i : ℕ) (g : Gathered)
      → AllRead rs
      → All (Pins parse_duration) (faults_in rs)
      → (g' : Gathered) × (gather_lines parse_duration from_json to_json i (map show rs) g ≡ ok g')
  unfolding gather_lines
  gather_lines_ok [] i g reads pins = (g, refl)
  gather_lines_ok (r ∷ rs) i g (read, reads) pins =
      let (first, others) = Pins-split r rs pins in
      let (g1, one) = gather_ok r g first in
      let (g', more) = gather_lines_ok rs (suc i) g1 reads others in (g', rw (read, one) more)

  HoldsAll-step :
      (ss : List Scenario) (r : Record) (rs : List Record)
      → Holds parse_duration from_json to_json ss (some r)
      → HoldsAll parse_duration from_json to_json ss (faults_in rs)
      → HoldsAll parse_duration from_json to_json ss (faults_in (r ∷ rs))
  HoldsAll-step ss (semantic e) rs h held = held
  HoldsAll-step ss (lifecycle id event detail) rs h held = held
  HoldsAll-step ss (fault e s) rs h held = (h, held)

  HoldsAll-lines :
      (ss : List Scenario) (rs : List Record)
      → AllRead rs
      → All (λ line. Holds parse_duration from_json to_json ss (from_json line)) (map show rs)
      → HoldsAll parse_duration from_json to_json ss (faults_in rs)
  HoldsAll-lines ss [] reads held = tt
  HoldsAll-lines ss (r ∷ rs) (read, reads) (h, held) =
      HoldsAll-step ss r rs (subst (Holds parse_duration from_json to_json ss) read h)
        (HoldsAll-lines ss rs reads held)

  holds-full :
      (ss : List Scenario) (fs : List (Event × Scenario))
      → fs ≢ []
      → HoldsAll parse_duration from_json to_json ss fs
      → is_empty ss ≡ false
  holds-full ss [] some_fault held = absurd (some_fault refl)
  holds-full [] (f ∷ fs) some_fault (h, held) = let bad : ⊥ = cc in elim bad [ ]
  holds-full (s ∷ ss) (f ∷ fs) some_fault held = refl

  pub replay_returns :
      (rs : List Record)
      → AllRead rs
      → All (Pins parse_duration) (faults_in rs)
      → faults_in rs ≢ []
      → (ss : List Scenario) × (replay parse_duration from_json to_json (map show rs) ≡ ok ss)
        × HoldsAll parse_duration from_json to_json ss (faults_in rs)
  unfolding replay
  replay_returns rs reads pins some_fault =
      let start : Gathered = record { schedules = []; unique = [] } in
      let (g, e) = gather_lines_ok rs 0 start reads pins in
      let all =
        gather_lines-IsGathered parse_duration from_json to_json 0 (map show rs) start g
          (record { valid = tt; distinct = tt; listed = λ s. refl }) e in
      let held = HoldsAll-lines g.schedules rs reads all.1 in
      let full = holds-full g.schedules (faults_in rs) some_fault held in
      (g.schedules, rw (e, full) refl, held)
