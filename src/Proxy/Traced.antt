-- ===== src/Proxy/Traced.antt =====
-- The trace of a server, to which all its connections write, replayed.
use pgfault.Base.{
  ℕ, ◌≡◌, ◌≢◌, sym, subst, String, Option, some, none, List, [], ◌∷◌, ◌++◌, append-nil, refl, map,
  All, Bytes, nat_eq, string_eq, bytes_eq_instance,
}
use pgfault.Base.Result.{Result, ok, err}
use pgfault.Scenario.{Scenario}
use pgfault.Trace.{Record, fault, semantic, lifecycle, replay}
use pgfault.Trace.Returns.{faults_in, Pins, AllRead, HoldsAll, replay_returns}
use pgfault.Proxy.Relay.{Input}
use pgfault.Proxy.Connect.{World, Connected, waiting, relayed, connection}
use pgfault.Proxy.Serve.{closed, task}
use pgfault.Proxy.Begun.{Ends, ScenariosValid, connection-Ends}
use pgfault.Proxy.Effects.{Effect, ProxyError, recorded}
use pgfault.Proxy.Faults.{Fault}
use pgfault.Proxy.Pinnable.{Pinnable, Pinnable-concat, Refires, Pinned}
use pgfault.Proxy.Replayed.{written, written-map, records_of, faults_in-records_of}

-- The records of several tasks in one file, up to any moment: each is the next one of some task.
pub data Merges : List (List Record) → List Record → Type 0 where
  no_more : {tasks : List (List Record)} → Merges tasks []
  next_of :
      {tasks : List (List Record)} {rs : List Record} (before behind : List (List Record))
      (r : Record) (more : List Record)
      → tasks ≡ before ++ (r ∷ more) ∷ behind
      → Merges (before ++ more ∷ behind) rs
      → Merges tasks (r ∷ rs)

module _ (Q : Record → Type 0) where
  All-split :
      (before : List (List Record)) (r : Record) (more : List Record) (behind : List (List Record))
      → All (All Q) (before ++ (r ∷ more) ∷ behind)
      → Q r × All (All Q) (before ++ more ∷ behind)
  All-split [] r more behind ((q, qs), others) = (q, (qs, others))
  All-split (b ∷ before) r more behind (bs, others) =
      let (q, rest) = All-split before r more behind others in (q, (bs, rest))

  Merges-All :
      (tasks : List (List Record)) (rs : List Record)
      → Merges tasks rs
      → All (All Q) tasks
      → All Q rs
  Merges-All tasks [] no_more k = tt
  Merges-All tasks (_ ∷ rs) (next_of before behind r more e m) k =
      let (q, rest) = All-split before r more behind (subst (All (All Q)) e k) in
      (q, Merges-All (before ++ more ∷ behind) rs m rest)

module _ (P : Fault → Type 0) where
  -- Of a record, where it is a fault.
  abbrev OfFault : Record → Type 0
  OfFault (fault e s) = P (e, s)
  OfFault (semantic e) = Unit {0}
  OfFault (lifecycle id event detail) = Unit {0}

  OfFault-records : (rs : List Record) → All P (faults_in rs) → All OfFault rs
  OfFault-records [] k = tt
  OfFault-records (fault e s ∷ rs) (h, k) = (h, OfFault-records rs k)
  OfFault-records (semantic e ∷ rs) k = (tt, OfFault-records rs k)
  OfFault-records (lifecycle id event detail ∷ rs) k = (tt, OfFault-records rs k)

  faults-OfFault : (rs : List Record) → All OfFault rs → All P (faults_in rs)
  faults-OfFault [] k = tt
  faults-OfFault (fault e s ∷ rs) (h, k) = (h, faults-OfFault rs k)
  faults-OfFault (semantic e ∷ rs) (h, k) = faults-OfFault rs k
  faults-OfFault (lifecycle id event detail ∷ rs) (h, k) = faults-OfFault rs k

-- A task of the server: its number, what the configuration and the world have for it, and what comes in.
pub record Task : Type 0 where
  pub id : ℕ
  pub world : World
  pub packets : List (Result ProxyError Bytes)
  pub inputs : List Input

module _ (parse_duration : String → Option ℕ) where
  Pins-faults :
      (fs : List Fault)
      → All (Pinned parse_duration) fs
      → All (λ f. f.0.row_index ≢ some 0) fs
      → All (Pins parse_duration) fs
  Pins-faults [] k rows = tt
  Pins-faults (f ∷ fs) ((again, h), k) (row, rows) = (h row, Pins-faults fs k rows)

  Refires-faults : (fs : List Fault) → All (Pinned parse_duration) fs → All Refires fs
  Refires-faults [] k = tt
  Refires-faults (f ∷ fs) ((again, h), k) = (again, Refires-faults fs k)

module _ (digest : Bytes → String) (parse_duration : String → Option ℕ)
    (error_text : ProxyError → String) where
  -- The records that a task writes.
  abbrev pub records_by : Task → List Record
  records_by t = records_of (task digest parse_duration error_text t.id t.world t.packets t.inputs)

  abbrev pub AreValid : List Task → Type 0
  AreValid ts = All (λ t. ScenariosValid parse_duration t.world.scenarios) ts

  closed-Pinnable :
      (id : ℕ) (p : List Effect × Result ProxyError Connected)
      → Ends parse_duration p
      → Pinnable parse_duration (p.0 ++ closed error_text id p.1)
  closed-Pinnable id (w, err e) k =
      Pinnable-concat parse_duration w (recorded (lifecycle id "connection.closed" (error_text e)))
        refl k
  closed-Pinnable id (w, ok Connected.cancelled) k =
      Pinnable-concat parse_duration w (recorded (lifecycle id "connection.closed" "")) refl k
  closed-Pinnable id (w, ok (relayed none)) k =
      Pinnable-concat parse_duration w (recorded (lifecycle id "connection.closed" "")) refl k
  closed-Pinnable id (w, ok (relayed (some c))) k =
      subst (Pinnable parse_duration) (sym (append-nil w)) k
  closed-Pinnable id (w, ok waiting) k = subst (Pinnable parse_duration) (sym (append-nil w)) k
  closed-Pinnable id (w, ok Connected.panicked) k =
      subst (Pinnable parse_duration) (sym (append-nil w)) k

  task-Pinned :
      (t : Task)
      → ScenariosValid parse_duration t.world.scenarios
      → All (OfFault (Pinned parse_duration)) (records_by t)
  unfolding task
  task-Pinned t valid =
      let p = connection digest parse_duration t.id t.world t.packets t.inputs [] in
      let w = p.0 ++ closed error_text t.id p.1 in
      let pinnable =
        closed-Pinnable t.id p
          (connection-Ends parse_duration digest t.id t.world t.inputs t.packets valid) in
      OfFault-records (Pinned parse_duration) (records_of w)
        (subst (All (Pinned parse_duration)) (sym (faults_in-records_of w)) pinnable)

  tasks-Pinned :
      (ts : List Task)
      → AreValid ts
      → All (All (OfFault (Pinned parse_duration))) (map records_by ts)
  tasks-Pinned [] valid = tt
  tasks-Pinned (t ∷ ts) (v, valid) = (task-Pinned t v, tasks-Pinned ts valid)

  -- Let connections of a server with valid scenarios write to one trace file, where each record
  -- is the next one of some connection, up to any moment. If each record reads back from its
  -- text, no recorded fault is at an event numbered as row 0, and there is a recorded fault,
  -- then `replay` of the file returns scenarios. The pinned scenario of each recorded fault has
  -- its text among them, and a fresh matcher of it fires at the event of the fault.
  pub trace-replay :
      (from_json : String → Option Record) (to_json : Scenario → String) (show : Record → String)
      (ts : List Task) (rs : List Record)
      → AreValid ts
      → Merges (map records_by ts) rs
      → AllRead parse_duration from_json to_json show rs
      → All (λ f. f.0.row_index ≢ some 0) (faults_in rs)
      → faults_in rs ≢ []
      → (ss : List Scenario) × (replay parse_duration from_json to_json (written show rs [])
          ≡ ok ss)
        × HoldsAll parse_duration from_json to_json ss (faults_in rs)
        × All Refires (faults_in rs)
  trace-replay from_json to_json show ts rs valid merged reads rows some_fault =
      let pinned = faults-OfFault (Pinned parse_duration) rs (
        Merges-All (OfFault (Pinned parse_duration)) (map records_by ts) rs merged
          (tasks-Pinned ts valid)) in
      let (ss, e, held) =
        replay_returns parse_duration from_json to_json show rs reads
          (Pins-faults parse_duration (faults_in rs) pinned rows) some_fault in
      (ss, rw (written-map show rs []) e, held, Refires-faults parse_duration (faults_in rs) pinned)
