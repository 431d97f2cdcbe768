-- ===== src/State/Attribution.antt =====
-- Which statement an event is about: through `Parse`, `Bind` and `Execute` back to the SQL text.
use pgfault.Base.{
  ℕ, ◌≡◌, inl, inr, refl, ap, ◌∙◌, Bool, true, false, not, ◌||◌, String, some, List, [], ◌∷◌, ◌++◌,
  arith, Bytes, last?, update_front, last?-concat, last?-update_back, Bool-cases, Option-cases,
  nat_eq, string_eq, bytes_eq_instance,
}
use pgfault.Base.Dict.{lookup, insert, lookup-insert_self}
use pgfault.Base.Word.{u64_succ}
use pgfault.Wire.{Frame, tag, body, cstr, frame}
use pgfault.Wire.Cstr.{ZeroFree, cstr-append}
use pgfault.Wire.Decode.{frame_parts}
use pgfault.Events.{Statement, Event}
use pgfault.Events.Classify.{new_statement}
use pgfault.State.{
  needs_cycle, ConnectionState, Cycle, cycle, fresh_cycle, emit, event_at, statement_of, current,
  count,
}
use pgfault.State.Emit.{emit-state}
use pgfault.State.Frontend.{
  frontend, observe, allocate_epoch, on_parse, on_bind, start, portal_statement, query_statement,
  drop_unnamed,
}

-- All the events are about this statement.
abbrev pub About : Statement → List Event → Type 0
About st [] = Unit {0}
About st (e ∷ es) =
    (e.statement_class ≡ st.class) × (e.sql_fingerprint ≡ st.fingerprint) × About st es

emit-About :
    (front : Bool) (names : List String) (s : ConnectionState)
    → About (statement_of front (current front s)) (emit front names s).1
unfolding emit event_at
emit-About front [] s = tt
emit-About front (name ∷ names) s =
    (refl, refl, emit-About front names (record s { counters = count name s.counters }))

-- `cycle` touches neither map.
cycle_maps :
    (extended : Bool) (s : ConnectionState)
    → ((cycle extended s).prepared ≡ s.prepared) × ((cycle extended s).portals ≡ s.portals)
unfolding cycle
cycle_maps extended s = ground arith

allocate_epoch_maps :
    (t : ℕ) (s : ConnectionState)
    → ((allocate_epoch t s).prepared ≡ s.prepared) × ((allocate_epoch t s).portals ≡ s.portals)
unfolding allocate_epoch
allocate_epoch_maps t s = ground arith

module _ (digest : Bytes → String) (s : ConnectionState) where
  frontend-prepared :
      (f : Frame)
      → (frontend digest f s).0.prepared ≡ (observe digest (tag f) (body f) s).0.prepared
  unfolding frontend
  frontend-prepared f =
      ap (λ (x : ConnectionState). x.prepared) (emit-state true _ _)
      ∙ (allocate_epoch_maps (tag f) _).0

  frontend-portals :
      (f : Frame) → (frontend digest f s).0.portals ≡ (observe digest (tag f) (body f) s).0.portals
  unfolding frontend
  frontend-portals f =
      ap (λ (x : ConnectionState). x.portals) (emit-state true _ _)
      ∙ (allocate_epoch_maps (tag f) _).1

  on_parse-prepared :
      (bs name sql r r' : Bytes)
      → cstr bs ≡ some (name, r)
      → cstr r ≡ some (sql, r')
      → lookup name (on_parse digest bs s).prepared ≡ some (new_statement digest sql)
  unfolding on_parse
  on_parse-prepared bs name sql r r' e e' =
      let st = new_statement digest sql in
      rw (e, e', on_parse)
        (ap (lookup name) (
            (cycle_maps true _).0
            ∙ (cycle_maps true (record s { prepared = insert name st s.prepared })).0)
          ∙ lookup-insert_self name st s.prepared)

  on_bind-portals :
      (bs portal name r r' : Bytes) (st : Statement)
      → cstr bs ≡ some (portal, r)
      → cstr r ≡ some (name, r')
      → lookup name s.prepared ≡ some st
      → lookup portal (on_bind bs s).portals ≡ some st
  unfolding on_bind
  on_bind-portals bs portal name r r' st e e' p =
      rw (e, e', p, on_bind)
        (ap (lookup portal) (
            (cycle_maps true _).1
            ∙ (cycle_maps true (record s { portals = insert portal st s.portals })).1)
          ∙ lookup-insert_self portal st s.portals)

  -- A statement that is parsed is prepared under its name.
  frontend-parse :
      (name sql rest : Bytes)
      → ZeroFree name
      → ZeroFree sql
      → lookup name (frontend digest (frame b'P' (name ++ 0 ∷ (sql ++ 0 ∷ rest))) s).0.prepared
        ≡ some (new_statement digest sql)
  unfolding observe
  frontend-parse name sql rest zn zs =
      let bs = name ++ 0 ∷ (sql ++ 0 ∷ rest) in
      let (t, b) = frame_parts b'P' bs in
      rw (frontend-prepared (frame b'P' bs), t, b)
        (on_parse-prepared bs name sql (sql ++ 0 ∷ rest) rest (cstr-append name _ zn)
          (cstr-append sql rest zs))

  -- A portal that is bound stands for the statement that was prepared under the name.
  frontend-bind :
      (portal name rest : Bytes) (st : Statement)
      → ZeroFree portal
      → ZeroFree name
      → lookup name s.prepared ≡ some st
      → lookup portal (frontend digest (frame b'B' (portal ++ 0 ∷ (name ++ 0 ∷ rest))) s).0.portals
        ≡ some st
  unfolding observe
  frontend-bind portal name rest st zp zn h =
      let bs = portal ++ 0 ∷ (name ++ 0 ∷ rest) in
      let (t, b) = frame_parts b'B' bs in
      rw (frontend-portals (frame b'B' bs), t, b)
        (on_bind-portals bs portal name (name ++ 0 ∷ rest) rest st (cstr-append portal _ zp)
          (cstr-append name rest zn) h)

cycle_last :
    (extended : Bool) (s : ConnectionState)
    → (c : Cycle) × (last? (cycle extended s).cycles ≡ some c)
unfolding cycle
cycle_last extended s = elim (Bool-cases (not extended || needs_cycle (last? s.cycles))) [
  | inl e ↦
      let c = fresh_cycle (u64_succ s.next_cycle) extended in (c, rw e (last?-concat s.cycles c))
  | inr e ↦ elim (Option-cases (last? s.cycles)) [
    | inl f ↦ absurd (ground arith)
    | inr (c, f) ↦ (c, rw e f)
  ]
]

start_statement :
    (extended : Bool) (st : Statement) (s : ConnectionState)
    → statement_of true (last? (start extended st s).cycles) ≡ st
unfolding statement_of
start_statement extended st s =
    let (c, e) = cycle_last extended s in
    rw
      (
        last?-update_back
            (λ c. record c {
              statements = c.statements ++ st ∷ [];
              executions = u64_succ c.executions;
            })
            (cycle extended s).cycles e,
        last?-concat c.statements st,
      )
      refl

with_epoch :
    (cs : List Cycle)
    → statement_of true (last? (update_front (λ c. record c { epoch_allocated = true }) cs))
      ≡ statement_of true (last? cs)
unfolding statement_of
with_epoch [] = refl
with_epoch (c ∷ []) = refl
with_epoch (c ∷ d ∷ cs) = refl

allocate_epoch_statement :
    (t : ℕ) (s : ConnectionState)
    → statement_of true (last? (allocate_epoch t s).cycles) ≡ statement_of true (last? s.cycles)
unfolding allocate_epoch
allocate_epoch_statement t s = ground (arith, with_epoch s.cycles)

module _ (digest : Bytes → String) (s : ConnectionState) where
  frontend-About :
      (f : Frame) (extended : Bool) (st : Statement) (before : ConnectionState)
      → (observe digest (tag f) (body f) s).0 ≡ start extended st before
      → About st (frontend digest f s).1
  unfolding frontend
  frontend-About f extended st before e =
      let same =
        allocate_epoch_statement (tag f) (observe digest (tag f) (body f) s).0
        ∙ ap (λ (x : ConnectionState). statement_of true (last? x.cycles)) e
        ∙ start_statement extended st before in
      rw same at (
        emit-About true (observe digest (tag f) (body f) s).1
          (allocate_epoch (tag f) (observe digest (tag f) (body f) s).0))

  -- Every event of an `Execute` is about the statement of the portal that it names.
  frontend-execute :
      (portal rest : Bytes) (st : Statement)
      → ZeroFree portal
      → lookup portal s.portals ≡ some st
      → About st (frontend digest (frame b'E' (portal ++ 0 ∷ rest)) s).1
  unfolding observe portal_statement
  frontend-execute portal rest st z h =
      let bs = portal ++ 0 ∷ rest in
      let (t, b) = frame_parts b'E' bs in
      let found : portal_statement bs s ≡ st =
        rw (cstr-append portal rest z, portal_statement, h) refl in
      frontend-About (frame b'E' bs) true st s (rw (t, b) (ap (λ x. start true x s) found))

  -- Every event of a simple query, whose SQL text has no zero, has the class and the fingerprint
  -- of that text.
  pub frontend-query :
      (sql rest : Bytes)
      → ZeroFree sql
      → About (new_statement digest sql) (frontend digest (frame b'Q' (sql ++ 0 ∷ rest)) s).1
  unfolding observe query_statement
  frontend-query sql rest z =
      let bs = sql ++ 0 ∷ rest in
      let (t, b) = frame_parts b'Q' bs in
      let found : query_statement digest bs ≡ new_statement digest sql =
        rw (cstr-append sql rest z, query_statement) refl in
      frontend-About (frame b'Q' bs) false (new_statement digest sql) (drop_unnamed s)
        (rw (t, b) (ap (λ x. start false x (drop_unnamed s)) found))

-- After `Parse`, `Bind` and `Execute` of names and SQL text without zeros, in any state, every
-- event of the `Execute` has the class and the fingerprint of the SQL text that was parsed.
pub execute-About :
    (digest : Bytes → String) (s : ConnectionState) (name sql portal r1 r2 r3 : Bytes)
    → ZeroFree name
    → ZeroFree sql
    → ZeroFree portal
    → let s1 = (frontend digest (frame b'P' (name ++ 0 ∷ (sql ++ 0 ∷ r1))) s).0 in
      let s2 = (frontend digest (frame b'B' (portal ++ 0 ∷ (name ++ 0 ∷ r2))) s1).0 in
      About (new_statement digest sql) (frontend digest (frame b'E' (portal ++ 0 ∷ r3)) s2).1
execute-About digest s name sql portal r1 r2 r3 zn zs zp =
    let s1 = (frontend digest (frame b'P' (name ++ 0 ∷ (sql ++ 0 ∷ r1))) s).0 in
    let s2 = (frontend digest (frame b'B' (portal ++ 0 ∷ (name ++ 0 ∷ r2))) s1).0 in
    let st = new_statement digest sql in
    let bound =
      frontend-bind digest s1 portal name r2 st zp zn (frontend-parse digest s name sql r1 zn zs) in
    frontend-execute digest s2 portal r3 st zp bound
