-- ===== src/Checks/Base.antt =====
-- What the tests compute with.
use pgfault.Base.Text.{from_utf8_lossy, to_ascii_uppercase}
use pgfault.Base.Word.{u64_succ}
use pgfault.Wire.{frame, tag, body, cstr, text, decode, next, frame_length}
use pgfault.Events.{class_of}
use pgfault.Events.Lexer.{turn}
use pgfault.Events.Classify.{classify, new_statement}
use pgfault.State.{new, emit, cycle, event_at, forwarded}
use pgfault.State.{statement_of, index_of, row_of, counted}
use pgfault.State.Frontend.{
  frontend, observe, allocate_epoch, on_parse, on_bind, on_close, query_statement, portal_statement,
}
use pgfault.State.Backend.{
  backend, completion_boundary, on_parameter, on_reply, complete, on_error, ready_state, on_ready,
  completed, end_cycle,
}
use pgfault.Scenario.Matcher
use pgfault.Scenario.Matcher.{selects, needs_gate}
use pgfault.Proxy.Apply.{apply}
use pgfault.Proxy.Relay.{run}

-- Texts, the wire protocol and SQL.
unfoldable pub protocol : Unit {0}
unfolding from_utf8_lossy to_ascii_uppercase u64_succ frame tag body cstr text decode next
    frame_length class_of turn classify new_statement
protocol = tt

-- The state of a connection.
unfoldable pub observation : Unit {0}
unfolding protocol new emit cycle event_at forwarded statement_of index_of row_of counted frontend
    observe allocate_epoch on_parse on_bind on_close query_statement portal_statement backend
    completion_boundary on_parameter on_reply complete on_error ready_state on_ready completed
    end_cycle
observation = tt

-- A proxied connection.
unfoldable pub everything : Unit {0}
unfolding observation Matcher.observe selects needs_gate apply run
everything = tt
