-- ===== src/Trace/Pin.antt =====
-- The pinned scenario fires at the event where the fault was recorded, and is valid.
use pgfault.Base.{
  ℕ, ◌≡◌, ◌≢◌, refl, Bool, true, ◌&&◌, ◌||◌, String, Option, none, some, arith, is_empty, any, Eq,
  str_eq, str_eq_iff, nat_eq, string_eq, bytes_eq_instance,
}
use pgfault.Base.Dict.{beq_refl}
use pgfault.Base.Word.{u64_succ}
use pgfault.Events.{Event}
use pgfault.Scenario.{Scenario}
use pgfault.Scenario.Valid.{validate_iff}
use pgfault.Scenario.Validate.{validate}
use pgfault.Scenario.Matcher.{Matcher, new_matcher, observe, selects, allows, allows_some, class_eq}
use pgfault.Base.Result.{ok}
use pgfault.Trace.{pin}

module _ {ℓ} {A : Type ℓ} ⦃e : Eq A⦄ where
  allows_some_self : (o : Option A) → allows_some o o ≡ true
  allows_some_self none = refl
  allows_some_self (some a) = beq_refl a

  allows_self : (a : A) → allows (some a) a ≡ true
  allows_self a = beq_refl a

pub left : (a b : Bool) → (a && b) ≡ true → a ≡ true
left a b h = ground arith

pub right : (a b : Bool) → (a && b) ≡ true → b ≡ true
right a b h = ground arith

fourth_and_ninth :
    (a b c d e f g h i j : Bool)
    → (a && b && c && d && e && f && g && h && i && j) ≡ true
    → (d ≡ true) × (i ≡ true)
fourth_and_ninth a b c d e f g h i j t =
    let up_to_i = left (a && b && c && d && e && f && g && h && i) j t in
    let up_to_h = left (a && b && c && d && e && f && g && h) i up_to_i in
    let up_to_g = left (a && b && c && d && e && f && g) h up_to_h in
    let up_to_f = left (a && b && c && d && e && f) g up_to_g in
    let up_to_e = left (a && b && c && d && e) f up_to_f in
    let up_to_d = left (a && b && c && d) e up_to_e in
    (right (a && b && c) d up_to_d, right (a && b && c && d && e && f && g && h) i up_to_i)

abbrev pub of_class : Scenario → Event → Bool
of_class s e =
    is_empty s.when.statement_class || any (class_eq e.statement_class) s.when.statement_class

-- What a selection says of the fields that pinning keeps.
selects_kept :
    (e : Event) (s : Scenario)
    → selects s e ≡ true
    → (allows s.selector.connection_ordinal e.connection_id ≡ true) × (of_class s e ≡ true)
unfolding selects
selects_kept e s h =
    fourth_and_ninth (allows_some s.selector.application_name e.startup.application_name)
      (allows_some s.selector.user e.startup.user)
      (allows_some s.selector.database e.startup.database)
      (allows s.selector.connection_ordinal e.connection_id)
      (allows s.selector.transaction e.transaction_epoch)
      (allows s.selector.query_cycle e.query_cycle) (allows s.selector.statement e.statement_index)
      (allows s.selector.sql_fingerprint e.sql_fingerprint) (of_class s e)
      (allows_some s.when.row e.row_index) h

all_ten :
    {a b c d e f g h i j : Bool}
    → a ≡ true
    → b ≡ true
    → c ≡ true
    → d ≡ true
    → e ≡ true
    → f ≡ true
    → g ≡ true
    → h ≡ true
    → i ≡ true
    → j ≡ true
    → (a && b && c && d && e && f && g && h && i && j) ≡ true
all_ten pa pb pc pd pe pf pg ph pi pj = rw (pa, pb, pc, pd, pe, pf, pg, ph, pi, pj) refl

selects-pin : (e : Event) (s : Scenario) → selects s e ≡ true → selects (pin e s) e ≡ true
unfolding selects pin
selects-pin e s h =
    let (ordinal, class) = selects_kept e s h in
    all_ten (allows_some_self e.startup.application_name) (allows_some_self e.startup.user)
      (allows_some_self e.startup.database) ordinal (allows_self e.transaction_epoch)
      (allows_self e.query_cycle) (allows_self e.statement_index) (allows_self e.sql_fingerprint)
      class (allows_some_self e.row_index)

-- A matcher fires at events that count alone.
pub fired_matches :
    (e : Event) (m : Matcher)
    → (observe e m).1 ≡ true
    → (e.semantic_reliable ≡ true)
      × (str_eq e.event m.scenario.when.event ≡ true)
      × (selects m.scenario e ≡ true)
unfolding observe
fired_matches e m h = ground arith

counts_fires :
    (e : Event) (s : Scenario)
    → e.semantic_reliable ≡ true
    → str_eq e.event s.when.event ≡ true
    → selects s e ≡ true
    → s.when.occurrence ≡ some 1
    → (observe e (new_matcher s)).1 ≡ true
unfolding observe u64_succ
counts_fires e s r n k o = rw (k, n, r, o) refl

-- If a matcher fired at an event, a fresh matcher of its scenario, pinned to that event, fires
-- at the event at once.
pub observe-pin :
    (e : Event) (m : Matcher)
    → (observe e m).1 ≡ true
    → (observe e (new_matcher (pin e m.scenario))).1 ≡ true
unfolding pin
observe-pin e m h =
    let (r, n, k) = fired_matches e m h in
    counts_fires e (pin e m.scenario) r (beq_refl e.event) (selects-pin e m.scenario k) refl

-- A valid scenario whose matcher fired at an event stays valid when it is pinned to that event,
-- if the event is not numbered as row 0.
pub validate-pin :
    (parse_duration : String → Option ℕ) (e : Event) (m : Matcher)
    → (observe e m).1 ≡ true
    → e.row_index ≢ some 0
    → validate parse_duration m.scenario ≡ ok tt
    → validate parse_duration (pin e m.scenario) ≡ ok tt
unfolding pin
validate-pin parse_duration e m h r v =
    let (_, n, _) = fired_matches e m h in
    let same = (str_eq_iff e.event m.scenario.when.event).0 n in
    let k = (validate_iff parse_duration m.scenario).0 v in
    (validate_iff parse_duration (pin e m.scenario)).1 (record {
      version_one = k.version_one;
      named = k.named;
      known = rw same k.known;
      occurrence_based = λ x. ground arith;
      row_based = r;
      ordinal_based = k.ordinal_based;
      delays = rw same k.delays;
      acts = k.acts;
      truncates = rw same k.truncates;
    })
