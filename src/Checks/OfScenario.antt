-- ===== src/Checks/OfScenario.antt =====
-- The theorems on scenarios and replays, at a concrete event.
use pgfault.Base.{
  ◌≡◌, ◌≢◌, ◌↔◌, refl, true, String, Option, none, some, [], ◌∷◌, arith, All, nat_eq, string_eq,
  bytes_eq_instance,
}
use pgfault.Base.Result.{ok}
use pgfault.Base.Text.{is_blank}
use pgfault.Checks.Base.{everything}
use pgfault.Checks.Session.{durations, ambiguous_commit, checkout}
use pgfault.Events.{Event, commit}
use pgfault.Scenario.{Scenario}
use pgfault.Scenario.Validate.{validate}
use pgfault.Scenario.Matcher.{new_matcher}
use pgfault.Scenario.Conditions.{IsValid}
use pgfault.Scenario.Valid.{validate_iff}
use pgfault.Scenario.Firing.{answers, due, answers-due}
use pgfault.Trace.{Record, fault, pin, replay}
use pgfault.Trace.Again.{FiresAt, answers-pin}
use pgfault.Trace.Replay.{Valid, AllDistinct, Holds, replay_lem}

-- A commit that completed on connection 7.
abbrev completed : Event
completed = record {
  startup = checkout;
  connection_id = 7;
  semantic_reliable = true;
  transaction_epoch = 1;
  query_cycle = 2;
  statement_index = 0;
  statement_class = commit;
  sql_fingerprint = "";
  event = "transaction.commit.completed";
  occurrence = 1;
  row_index = none;
}

validate_iff_example :
    (validate durations ambiguous_commit ≡ ok tt) ↔ IsValid durations ambiguous_commit
validate_iff_example = validate_iff durations ambiguous_commit

answers-due_example :
    answers (completed ∷ completed ∷ []) (new_matcher ambiguous_commit)
    ≡ due ambiguous_commit 0 (completed ∷ completed ∷ [])
answers-due_example = answers-due ambiguous_commit (completed ∷ completed ∷ []) (omega arith)

answers-pin_example :
    FiresAt completed (pin completed ambiguous_commit) (completed ∷ completed ∷ [])
unfolding everything
answers-pin_example = answers-pin completed (new_matcher ambiguous_commit) (completed ∷ []) [] refl

abbrev read : String → Option Record
read line = some (fault completed ambiguous_commit)

abbrev name_of : Scenario → String
name_of s = s.name

replay_lem_example :
    (pin completed ambiguous_commit ∷ [] ≢ [])
    × All (Valid durations read name_of) (pin completed ambiguous_commit ∷ [])
    × AllDistinct durations read name_of (pin completed ambiguous_commit ∷ [])
    × All
        (λ line. Holds durations read name_of (pin completed ambiguous_commit ∷ []) (read line))
        ("first" ∷ "second" ∷ [])
unfolding everything validate replay pin is_blank
replay_lem_example =
    replay_lem durations read name_of ("first" ∷ "second" ∷ [])
      (pin completed ambiguous_commit ∷ []) refl
