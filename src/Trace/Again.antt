-- ===== src/Trace/Again.antt =====
-- A replay of a session: where the scenario of a recorded fault fires.
use pgfault.Base.{
  ==_iff, ◌≡◌, refl, ap, inl, inr, Bool, true, false, ◌&&◌, some, List, [], ◌∷◌, ◌++◌, All, arith,
  Bool-cases, str_eq_iff, nat_eq, string_eq, bytes_eq_instance,
}
use pgfault.Base.Word.{u64_succ}
use pgfault.Events.{Event}
use pgfault.Scenario.{Scenario}
use pgfault.Scenario.Matcher.{Matcher, new_matcher, observe, selects, allows, allows_some}
use pgfault.Scenario.Firing.{answers}
use pgfault.Trace.{pin}
use pgfault.Trace.Pin.{left, right, fired_matches, of_class, observe-pin}

-- At the same place of a session, as the trace tells places apart.
pub record IsAt (e e' : Event) : Type 0 where
  pub named : e'.event ≡ e.event
  pub in_transaction : e'.transaction_epoch ≡ e.transaction_epoch
  pub in_cycle : e'.query_cycle ≡ e.query_cycle
  pub at_statement : e'.statement_index ≡ e.statement_index
  pub of_text : e'.sql_fingerprint ≡ e.sql_fingerprint
  pub counted : e'.semantic_reliable ≡ true

fifth_to_eighth :
    (a b c d e f g h i j : Bool)
    → (a && b && c && d && e && f && g && h && i && j) ≡ true
    → (e ≡ true) × (f ≡ true) × (g ≡ true) × (h ≡ true)
fifth_to_eighth a b c d e f g h i j t =
    let up_to_i = left (a && b && c && d && e && f && g && h && i) j t in
    let up_to_h = left (a && b && c && d && e && f && g && h) i up_to_i in
    let up_to_g = left (a && b && c && d && e && f && g) h up_to_h in
    let up_to_f = left (a && b && c && d && e && f) g up_to_g in
    let up_to_e = left (a && b && c && d && e) f up_to_f in
    (
      right (a && b && c && d) e up_to_e,
      right (a && b && c && d && e) f up_to_f,
      right (a && b && c && d && e && f) g up_to_g,
      right (a && b && c && d && e && f && g) h up_to_h,
    )

-- A matcher of the pinned scenario fires at the same place alone.
observe-IsAt :
    (e e' : Event) (s : Scenario) → (observe e' (new_matcher (pin e s))).1 ≡ true → IsAt e e'
unfolding pin selects
observe-IsAt e e' s h =
    let (reliable, name, picks) = fired_matches e' (new_matcher (pin e s)) h in
    let t = pin e s in
    let (one, two, three, four) =
      fifth_to_eighth (allows_some t.selector.application_name e'.startup.application_name)
        (allows_some t.selector.user e'.startup.user)
        (allows_some t.selector.database e'.startup.database)
        (allows t.selector.connection_ordinal e'.connection_id)
        (allows t.selector.transaction e'.transaction_epoch)
        (allows t.selector.query_cycle e'.query_cycle)
        (allows t.selector.statement e'.statement_index)
        (allows t.selector.sql_fingerprint e'.sql_fingerprint) (of_class t e')
        (allows_some t.when.row e'.row_index) picks in
    record {
      named = (str_eq_iff e'.event e.event).0 name;
      in_transaction = (==_iff e'.transaction_epoch e.transaction_epoch).0 one;
      in_cycle = (==_iff e'.query_cycle e.query_cycle).0 two;
      at_statement = (==_iff e'.statement_index e.statement_index).0 three;
      of_text = (str_eq_iff e'.sql_fingerprint e.sql_fingerprint).0 four;
      counted = reliable;
    }

pin-occurrence : (e : Event) (s : Scenario) → (pin e s).when.occurrence ≡ some 1
unfolding pin
pin-occurrence e s = refl

-- A fresh matcher that is to fire once, at the first event, stays as it is until it fires.
observe_fresh :
    (e : Event) (s : Scenario)
    → s.when.occurrence ≡ some 1
    → (observe e (new_matcher s)).1 ≡ false
    → (observe e (new_matcher s)).0 ≡ new_matcher s
unfolding observe u64_succ
observe_fresh e s first quiet = ground arith

-- Among the events a fresh matcher of the scenario fires, for the first time at one at that place.
pub record FiresAt (e : Event) (s : Scenario) (es : List Event) : Type 0 where
  pub before : List Event
  pub hit : Event
  pub behind : List Event
  pub split : es ≡ before ++ hit ∷ behind
  pub quiet : All (λ b. b ≡ false) (answers before (new_matcher s))
  pub fires : (observe hit (new_matcher s)).1 ≡ true
  pub place : IsAt e hit

-- If a matcher fired at an event, then on any sequence of events that has this event in it, a
-- fresh matcher of the scenario, pinned to the event, fires, and the first event at which it
-- does counts, and has the name, the transaction epoch, the query cycle, the statement index and
-- the fingerprint of that event.
pub answers-pin :
    (e : Event) (m : Matcher) (es more : List Event)
    → (observe e m).1 ≡ true
    → FiresAt e (pin e m.scenario) (es ++ e ∷ more)
unfolding answers
answers-pin e m [] more h =
    let again = observe-pin e m h in
    record {
      before = [];
      hit = e;
      behind = more;
      split = refl;
      quiet = tt;
      fires = again;
      place = observe-IsAt e e m.scenario again;
    }
answers-pin e m (x ∷ es) more h =
    let s = pin e m.scenario in
    elim (Bool-cases (observe x (new_matcher s)).1) [
      | inl now ↦ record {
        before = [];
        hit = x;
        behind = es ++ e ∷ more;
        split = refl;
        quiet = tt;
        fires = now;
        place = observe-IsAt e x m.scenario now;
      }
      | inr later ↦
          let rest = answers-pin e m es more h in
          let same : (observe x (new_matcher s)).0 ≡ new_matcher s =
            observe_fresh x s (pin-occurrence e m.scenario) later in
          record {
            before = x ∷ rest.before;
            hit = rest.hit;
            behind = rest.behind;
            split = ap (◌∷◌ x) rest.split;
            quiet = (later, rw same rest.quiet);
            fires = rest.fires;
            place = rest.place;
          }
    ]
