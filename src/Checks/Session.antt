-- ===== src/Checks/Session.antt =====
-- A session with an explicit transaction, under the scenario `ambiguous-commit`.
use pgfault.Base.{ℕ, ◌≡◌, refl, List, [], ◌∷◌, ◌++◌, String, Option, none, some, Bytes, true}
use pgfault.Checks.Base.{everything}
use pgfault.Base.Text.{codes}
use pgfault.Wire.{frame, Frame}
use pgfault.Events.{StartupMetadata}
use pgfault.State.{new}
use pgfault.Scenario.{Scenario, any_event, Side, Mode}
use pgfault.Scenario.Matcher.{new_matcher}
use pgfault.Proxy.Effects.{Effect, to_client, to_upstream, recorded, reset}
use pgfault.Proxy.Relay.{Connection, Input, client, server, run}

abbrev pub digest : Bytes → String
digest bs = ""

abbrev pub durations : String → Option ℕ
durations s = some 0

abbrev pub ambiguous_commit : Scenario
ambiguous_commit = record {
  version = 1;
  name = "ambiguous-commit";
  selector = let m = any_event in record m { application_name = some "checkout-test" };
  when = record {
    event = "transaction.commit.completed";
    occurrence = none;
    statement_class = [];
    row = none;
  };
  action = record {
    suppress = some (record { current = true });
    disconnect = some (record { side = Side.frontend; mode = Mode.reset });
    delay = none;
    truncate_result = none;
  };
}

abbrev pub checkout : StartupMetadata
checkout = record { user = some "u"; database = none; application_name = some "checkout-test" }

abbrev pub fresh : Connection
fresh = record {
  state = new 1 checkout;
  matchers = new_matcher ambiguous_commit ∷ [];
  held = [];
  held_size = 0;
  truncate = none;
}

abbrev pub query : String → Frame
query sql = frame b'Q' (codes sql ++ 0 ∷ [])

abbrev pub tagged : String → Frame
tagged command = frame b'C' (codes command ++ 0 ∷ [])

abbrev pub ready : ℕ → Frame
ready b = frame b'Z' (b ∷ [])

abbrev inputs : List Input
inputs =
    client (query "BEGIN")
    ∷ server (tagged "BEGIN")
    ∷ server (ready b'T')
    ∷ client (query "COMMIT")
    ∷ server (tagged "COMMIT")
    ∷ server (ready b'I')
    ∷ []

-- What goes over the sockets.
abbrev on_wire : List Effect → List Effect
on_wire [] = []
on_wire (recorded r ∷ es) = on_wire es
on_wire (e ∷ es) = e ∷ on_wire es

commit_is_lost :
    on_wire (run digest durations 1 inputs fresh []).0
    ≡ to_upstream (query "BEGIN").bytes
      ∷ to_client (tagged "BEGIN").bytes
      ∷ to_client (ready b'T').bytes
      ∷ to_upstream (query "COMMIT").bytes
      ∷ reset Side.frontend
      ∷ []
unfolding everything
commit_is_lost = refl
