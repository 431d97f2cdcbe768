-- ===== src/Trace/Replay.antt =====
-- `replay`: what it returns is a set of valid scenarios, and it holds each recorded fault.
use pgfault.Base.{
  ℕ, suc, if◌then◌else◌, ◌≡◌, ◌≢◌, inl, inr, refl, sym, ◌∙◌, Bool, true, false, ◌||◌, String,
  Option, none, some, List, [], ◌∷◌, ◌++◌, arith, is_empty, any, All, All-append, Bool-cases,
  Option-cases, str_eq, str_eq_iff, nat_eq, string_eq, bytes_eq_instance,
}
use pgfault.Base.Result.{Result, ok, err, >>=-eq-ok, ok-injective, Result-cases}
use pgfault.Scenario.{Scenario}
use pgfault.Scenario.Validate.{validate}
use pgfault.Trace.{
  Record, semantic, fault, lifecycle, pin, ReplayError, no_fired_faults, Gathered, keep, gather,
  gather_lines, replay,
}

module _ (parse_duration : String → Option ℕ) (from_json : String → Option Record)
    (to_json : Scenario → String) where
  abbrev pub Valid : Scenario → Type 0
  Valid s = validate parse_duration s ≡ ok tt

  -- The text of a schedule is not among the texts of those before it.
  abbrev pub jsons : List Scenario → List String
  jsons [] = []
  jsons (s ∷ ss) = to_json s ∷ jsons ss

  abbrev pub holds : List Scenario → Scenario → Bool
  holds ss s = any (str_eq (to_json s)) (jsons ss)

  -- No two scenarios of the list have the same text.
  abbrev pub AllDistinct : List Scenario → Type 0
  AllDistinct [] = Unit {0}
  AllDistinct (s ∷ ss) = (holds ss s ≡ false) × AllDistinct ss

  -- Every fault of the lines is held, in its pinned form.
  abbrev pub Holds : List Scenario → Option Record → Type 0
  Holds ss none = ⊥
  Holds ss (some (semantic e)) = Unit {0}
  Holds ss (some (lifecycle id event detail)) = Unit {0}
  Holds ss (some (fault e s)) = holds ss (pin e s) ≡ true

  holds-concat :
      (ss : List Scenario) (s t : Scenario)
      → holds (ss ++ s ∷ []) t ≡ (holds ss t || str_eq (to_json t) (to_json s))
  holds-concat [] s t = ground arith
  holds-concat (x ∷ ss) s t = ground (arith, holds-concat ss s t)

  distinct-concat :
      (ss : List Scenario) (s : Scenario)
      → AllDistinct ss
      → holds ss s ≡ false
      → AllDistinct (ss ++ s ∷ [])
  distinct-concat [] s d h = (refl, tt)
  distinct-concat (x ∷ ss) s d h = (
    ground (
      arith,
      holds-concat ss s x,
      str_eq_iff (to_json x) (to_json s),
      str_eq_iff (to_json s) (to_json x),
    ),
    distinct-concat ss s d.1 (ground arith),
  )

  -- The schedules are valid and distinct, and `unique` has their texts.
  pub record IsGathered (g : Gathered) : Type 0 where
    pub valid : All Valid g.schedules
    pub distinct : AllDistinct g.schedules
    pub listed : (s : Scenario) → any (str_eq (to_json s)) g.unique ≡ holds g.schedules s

  -- The schedules only grow.
  abbrev pub Grows : Gathered → Gathered → Type 0
  Grows g g' = (s : Scenario) → holds g.schedules s ≡ true → holds g'.schedules s ≡ true

  abbrev pub kept : Scenario → Gathered → Gathered
  kept = keep parse_duration from_json to_json

  -- A valid scenario that is kept is held.
  kept-IsGathered :
      (s : Scenario) (g : Gathered)
      → IsGathered g
      → Valid s
      → IsGathered (kept s g) × (holds (kept s g).schedules s ≡ true) × Grows g (kept s g)
  kept-IsGathered s g k v = elim (Bool-cases (any (str_eq (to_json s)) g.unique)) [
    | inl old ↦ rw old (k, sym (k.listed s) ∙ old, λ t h. h)
    | inr new ↦ rw new (
      record {
        valid = All-append Valid g.schedules (s ∷ []) k.valid (v, tt);
        distinct = distinct-concat g.schedules s k.distinct (sym (k.listed s) ∙ new);
        listed = λ t. ground (arith, k.listed t, holds-concat g.schedules s t);
      },
      ground (arith, holds-concat g.schedules s s, str_eq_iff (to_json s) (to_json s)),
      λ t h. ground (arith, holds-concat g.schedules s t),
    )
  ]

  gather-IsGathered :
      (r : Record) (g g' : Gathered)
      → IsGathered g
      → gather parse_duration from_json to_json r g ≡ ok g'
      → IsGathered g' × Holds g'.schedules (some r) × Grows g g'
  unfolding gather
  gather-IsGathered (semantic e) g g' k h = rw (sym (ok-injective h)) (k, tt, λ t p. p)
  gather-IsGathered (lifecycle id event detail) g g' k h =
      rw (sym (ok-injective h)) (k, tt, λ t p. p)
  gather-IsGathered (fault e s) g g' k h = elim (Result-cases (validate parse_duration (pin e s))) [
    | inl (x, bad) ↦ cc
    | inr (a, fine) ↦
        let same : kept (pin e s) g ≡ g' = cc in rw (sym same) (kept-IsGathered (pin e s) g k fine)
  ]

  Holds-Grows :
      (g g' : Gathered) (r : Option Record)
      → Grows g g'
      → Holds g.schedules r
      → Holds g'.schedules r
  Holds-Grows g g' none w h = h
  Holds-Grows g g' (some (semantic e)) w h = tt
  Holds-Grows g g' (some (lifecycle id event detail)) w h = tt
  Holds-Grows g g' (some (fault e s)) w h = w (pin e s) h

  -- The same, for the lines of a file.
  pub gather_lines-IsGathered :
      (i : ℕ) (lines : List String) (g g' : Gathered)
      → IsGathered g
      → gather_lines parse_duration from_json to_json i lines g ≡ ok g'
      → IsGathered g' × All (λ line. Holds g'.schedules (from_json line)) lines × Grows g g'
  unfolding gather_lines
  gather_lines-IsGathered i [] g g' k h = rw (sym (ok-injective h)) (k, tt, λ t p. p)
  gather_lines-IsGathered i (line ∷ lines) g g' k h = elim (Option-cases (from_json line)) [
    | inl none_ ↦ cc
    | inr (r, e) ↦ elim (Result-cases (gather parse_duration from_json to_json r g)) [
      | inl (x, bad) ↦ cc
      | inr (g1, fine) ↦
          let one = gather-IsGathered r g g1 k fine in
          let more = gather_lines-IsGathered (suc i) lines g1 g' one.0 cc in
          (
            more.0,
            (rw e (Holds-Grows g1 g' (some r) more.2 one.1), more.1),
            λ t p. more.2 t (one.2 t p),
          )
    ]
  ]

  absurd : {ss : List Scenario} → ss ≡ [] → is_empty ss ≢ false
  absurd e full = cc

  finish :
      (lines : List String) (g : Gathered) (ss : List Scenario)
      → IsGathered g
      → All (λ line. Holds g.schedules (from_json line)) lines
      → Path
          (Result ReplayError (List Scenario))
          (if is_empty g.schedules then err no_fired_faults else ok g.schedules)
          (ok ss)
      → (ss ≢ []) × All Valid ss × AllDistinct ss × All (λ line. Holds ss (from_json line)) lines
  finish lines g ss k held done = elim (Bool-cases (is_empty g.schedules)) [
    | inl nil ↦ cc
    | inr full ↦
        let same : g.schedules ≡ ss = cc in
        rw (sym same) (λ e. absurd e full, k.valid, k.distinct, held)
  ]

  -- For any text format, what `replay` returns is not empty, its scenarios are valid and have
  -- different texts, every line is a record, and the pinned scenario of every recorded fault has
  -- its text among them.
  pub replay_lem :
      (lines : List String) (ss : List Scenario)
      → replay parse_duration from_json to_json lines ≡ ok ss
      → (ss ≢ []) × All Valid ss × AllDistinct ss × All (λ line. Holds ss (from_json line)) lines
  unfolding replay
  replay_lem lines ss h =
      let (g, e, done) =
        >>=-eq-ok
          (gather_lines parse_duration from_json to_json 0 lines
            (record { schedules = []; unique = [] }))
          (λ g. if is_empty g.schedules then err no_fired_faults else ok g.schedules) h in
      let all =
        gather_lines-IsGathered 0 lines (record { schedules = []; unique = [] }) g
          (record { valid = tt; distinct = tt; listed = λ s. refl }) e in
      finish lines g ss all.0 all.1 done
