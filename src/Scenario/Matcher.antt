-- ===== src/Scenario/Matcher.antt =====
-- `Scenario::selects` and `Matcher`.
use pgfault.Base.{
  ℕ, if◌then◌else◌, ◌==◌, Bool, true, false, not, ◌&&◌, ◌||◌, String, Option, none, some, any,
  is_empty, str_eq, Eq, nat_eq, string_eq,
}
use pgfault.Base.Word.{u64_succ}
use pgfault.Events.{
  StatementClass, begin, commit, rollback, select, insert, update, delete, merge, ddl, other, Event,
}
use pgfault.Scenario.{Scenario}

-- The derived `PartialEq` compares the places of the constructors.
abbrev pub rank : StatementClass → ℕ
rank begin = 0
rank commit = 1
rank rollback = 2
rank select = 3
rank insert = 4
rank update = 5
rank delete = 6
rank merge = 7
rank ddl = 8
rank other = 9

unfoldable pub class_eq : StatementClass → StatementClass → Bool
class_eq a b = rank a == rank b

module _ {ℓ} {A : Type ℓ} ⦃e : Eq A⦄ where
  -- `m.is_none_or(|x| value == x)`
  abbrev pub allows : Option A → A → Bool
  allows none value = true
  allows (some x) value = e.beq value x

  -- `m.is_none_or(|x| value == Some(x))`
  abbrev pub allows_some : Option A → Option A → Bool
  allows_some none value = true
  allows_some (some x) none = false
  allows_some (some x) (some value) = e.beq value x

unfoldable pub selects : Scenario → Event → Bool
unfolding class_eq
selects s e =
    allows_some s.selector.application_name e.startup.application_name
    && allows_some s.selector.user e.startup.user
    && allows_some s.selector.database e.startup.database
    && allows s.selector.connection_ordinal e.connection_id
    && allows s.selector.transaction e.transaction_epoch
    && allows s.selector.query_cycle e.query_cycle
    && allows s.selector.statement e.statement_index
    && allows s.selector.sql_fingerprint e.sql_fingerprint
    && (is_empty s.when.statement_class || any (class_eq e.statement_class) s.when.statement_class)
    && allows_some s.when.row e.row_index

pub record Matcher : Type 0 where
  pub scenario : Scenario
  pub seen : ℕ
  pub fired : Bool

-- `Matcher::new`
abbrev pub new_matcher : Scenario → Matcher
new_matcher s = record { scenario = s; seen = 0; fired = false }

abbrev pub or_one : Option ℕ → ℕ
or_one none = 1
or_one (some n) = n

-- The event counts: it is reliable, it is of the scenario's kind, and the scenario selects it.
abbrev pub matches : Scenario → Event → Bool
matches s e = e.semantic_reliable && str_eq e.event s.when.event && selects s e

-- `Matcher::observe`
unfoldable pub observe : Event → Matcher → Matcher × Bool
observe e m =
    let seen = u64_succ m.seen in
    if not e.semantic_reliable
      || m.fired
      || not (str_eq e.event m.scenario.when.event)
      || not (selects m.scenario e)
    then (m, false)
    else if seen == or_one m.scenario.when.occurrence
    then (record m { seen = seen; fired = true }, true)
    else (record m { seen = seen }, false)

-- `Matcher::needs_gate`
unfoldable pub needs_gate : String → Matcher → Bool
needs_gate boundary m = not m.fired && str_eq m.scenario.when.event boundary
