-- ===== src/State/Cycles.antt =====
-- The cycles are a first-in first-out queue: the client's frames open them and `Z` closes the oldest.
use pgfault.Base.{
  ℕ, ◌==◌, if◌then◌else◌, ◌≡◌, refl, ap, ◌∙◌, Bool, true, false, not, ◌&&◌, ◌||◌, String, none,
  some, List, [], ◌∷◌, ◌++◌, arith, last?, tail, update_back, update_front, last?-update_back,
  last?-concat, Option-cases, inl, inr, Bytes,
}
use pgfault.Base.Dict.{lookup}
use pgfault.Base.{bytes_eq_instance}
use pgfault.Base.Word.{u64_succ}
use pgfault.Events.{Statement}
use pgfault.Wire.{Frame, tag, body, cstr}
use pgfault.State.{
  Mutation, close, ConnectionState, Cycle, cycle, fresh_cycle, needs_cycle, on_back,
}
use pgfault.State.Emit.{emit-state}
use pgfault.State.Frontend.{
  frontend, observe, allocate_epoch, on_parse, on_bind, on_close, start, push_mutation,
  drop_unnamed, query_statement, portal_statement,
}

-- The numbers of the cycles that the server has not finished, oldest first, and the last number given.
pub record Queue : Type 0 where
  pub outstanding : List ℕ
  pub issued : ℕ

abbrev pub ids : List Cycle → List ℕ
ids [] = []
ids (c ∷ cs) = c.id ∷ ids cs

abbrev pub queue : ConnectionState → Queue
queue s = record { outstanding = ids s.cycles; issued = s.next_cycle }

abbrev pub opened : Queue → Queue
opened q = record {
  outstanding = q.outstanding ++ u64_succ q.issued ∷ [];
  issued = u64_succ q.issued;
}

abbrev pub closed : Queue → Queue
closed q = record q { outstanding = tail q.outstanding }

ids-append : (xs ys : List Cycle) → ids (xs ++ ys) ≡ ids xs ++ ids ys
ids-append [] ys = refl
ids-append (x ∷ xs) ys = ap (◌∷◌ x.id) (ids-append xs ys)

pub ids-tail : (cs : List Cycle) → ids (tail cs) ≡ tail (ids cs)
ids-tail [] = refl
ids-tail (c ∷ cs) = refl

-- An edit of a cycle that leaves its number and its seal.
abbrev pub Keeps : (Cycle → Cycle) → Type 0
Keeps f = (c : Cycle) → ((f c).id ≡ c.id)

ids-update_back : (f : Cycle → Cycle) (cs : List Cycle) → Keeps f → ids (update_back f cs) ≡ ids cs
ids-update_back f [] k = refl
ids-update_back f (c ∷ []) k = ap (λ i. i ∷ []) (k c)
ids-update_back f (c ∷ d ∷ cs) k = ap (◌∷◌ c.id) (ids-update_back f (d ∷ cs) k)

pub ids-update_front :
    (f : Cycle → Cycle) (cs : List Cycle) → Keeps f → ids (update_front f cs) ≡ ids cs
ids-update_front f [] k = refl
ids-update_front f (c ∷ cs) k = ap (λ i. i ∷ ids cs) (k c)

abbrev opens : Bool → ConnectionState → Bool
opens extended s = not extended || needs_cycle (last? s.cycles)

queue-cycle :
    (extended : Bool) (s : ConnectionState)
    → queue (cycle extended s) ≡ (if opens extended s then opened (queue s) else queue s)
unfolding cycle
queue-cycle extended s =
    let n = u64_succ s.next_cycle in
    ground (arith, ids-append s.cycles (fresh_cycle n extended ∷ []))

-- Behind `cycle(true)` the last cycle takes more frames.
cycle_open : (s : ConnectionState) → needs_cycle (last? (cycle true s).cycles) ≡ false
unfolding cycle
cycle_open s = ground (arith, last?-concat s.cycles (fresh_cycle (u64_succ s.next_cycle) true))

queue-on_back : (f : Cycle → Cycle) (s : ConnectionState) → Keeps f → queue (on_back f s) ≡ queue s
queue-on_back f s k =
    ap (λ (o : List ℕ). record { outstanding = o; issued = s.next_cycle })
      (ids-update_back f s.cycles k)

-- What a frame that joins the last open cycle, or opens one, does to the queue.
abbrev pub joined : ConnectionState → Queue
joined s = if opens true s then opened (queue s) else queue s

rejoined :
    (s : ConnectionState) → needs_cycle (last? s.cycles) ≡ false → queue (cycle true s) ≡ queue s
rejoined s h = ground (arith, queue-cycle true s)

abbrev add_mutation : Mutation → Cycle → Cycle
add_mutation m c = record c { mutations = c.mutations ++ m ∷ [] }

push_mutation_open :
    (m : Mutation) (s : ConnectionState) → needs_cycle (last? (push_mutation m s).cycles) ≡ false
push_mutation_open m s = elim (Option-cases (last? (cycle true s).cycles)) [
  | inl e ↦ absurd (ground (arith, cycle_open s))
  | inr (c, e) ↦
      ground (arith, cycle_open s, last?-update_back (add_mutation m) (cycle true s).cycles e)
]

queue-push_mutation :
    (m : Mutation) (s : ConnectionState) → queue (cycle true (push_mutation m s)) ≡ joined s
queue-push_mutation m s =
    rejoined (push_mutation m s) (push_mutation_open m s)
    ∙ queue-on_back (add_mutation m) (cycle true s) (λ c. refl)
    ∙ queue-cycle true s

queue-on_parse :
    (digest : Bytes → String) (bs : Bytes) (s : ConnectionState)
    → queue (on_parse digest bs s) ≡ joined s
unfolding on_parse
queue-on_parse digest bs s = elim (Option-cases (cstr bs)) [
  | inl e ↦ rw (e, on_parse) (queue-cycle true s)
  | inr ((name, rest), e) ↦ elim (Option-cases (cstr rest)) [
    | inl e' ↦ rw (e, e', on_parse) (queue-cycle true s)
    | inr ((sql, _), e') ↦ rw (e, e', on_parse) (queue-push_mutation _ _)
  ]
]

queue-on_bind : (bs : Bytes) (s : ConnectionState) → queue (on_bind bs s) ≡ joined s
unfolding on_bind
queue-on_bind bs s = elim (Option-cases (cstr bs)) [
  | inl e ↦ rw (e, on_bind) (queue-cycle true s)
  | inr ((portal, rest), e) ↦ elim (Option-cases (cstr rest)) [
    | inl e' ↦ rw (e, e', on_bind) (queue-cycle true s)
    | inr ((name, _), e') ↦ elim (Option-cases (lookup name s.prepared)) [
      | inl e'' ↦ rw (e, e', e'', on_bind) (queue-cycle true _)
      | inr (st, e'') ↦ rw (e, e', e'', on_bind) (queue-push_mutation _ _)
    ]
  ]
]

abbrev pub names_something : Bytes → Bool
names_something [] = false
names_something (kind ∷ rest) = elim (cstr rest) [ none ↦ false | some _ ↦ true ]

queue-on_close :
    (bs : Bytes) (s : ConnectionState)
    → queue (on_close bs s) ≡ (if names_something bs then joined s else queue s)
unfolding on_close
queue-on_close [] s = refl
queue-on_close (kind ∷ rest) s = elim (Option-cases (cstr rest)) [
  | inl e ↦ rw (e, on_close, names_something)
  | inr ((name, _), e) ↦
      let m = close kind name in
      let pushed : queue (push_mutation m s) ≡ joined s =
        queue-on_back (add_mutation m) (cycle true s) (λ c. refl) ∙ queue-cycle true s in
      rw (e, on_close, names_something) (ground (arith, pushed))
]

-- Whether a frame of the client opens a cycle. A frame of the extended protocol joins the last
-- cycle until a `Sync` seals it.
abbrev pub opens_cycle : ℕ → Bytes → ConnectionState → Bool
opens_cycle t bs s =
    t == b'Q'
    || (t == b'P' || t == b'B' || t == b'E' || t == b'S' || t == b'C' && names_something bs)
      && needs_cycle (last? s.cycles)

queue-start :
    (extended : Bool) (st : Statement) (s : ConnectionState)
    → queue (start extended st s) ≡ (if opens extended s then opened (queue s) else queue s)
queue-start extended st s = queue-on_back _ (cycle extended s) (λ c. refl) ∙ queue-cycle extended s

queue-sync :
    (s : ConnectionState)
    → queue (on_back (λ c. record c { sealed = true }) (cycle true s)) ≡ joined s
queue-sync s =
    queue-on_back (λ c. record c { sealed = true }) (cycle true s) (λ c. refl) ∙ queue-cycle true s

queue-observe :
    (digest : Bytes → String) (t : ℕ) (bs : Bytes) (s : ConnectionState)
    → queue (observe digest t bs s).0 ≡ (if opens_cycle t bs s then opened (queue s) else queue s)
unfolding observe
queue-observe digest t bs s = ground (
  arith,
  queue-on_parse digest bs s,
  queue-on_bind bs s,
  queue-on_close bs s,
  queue-start false (query_statement digest bs) (drop_unnamed s),
  queue-start true (portal_statement bs s) s,
  queue-sync s,
)

queue-allocate_epoch : (t : ℕ) (s : ConnectionState) → queue (allocate_epoch t s) ≡ queue s
unfolding allocate_epoch
queue-allocate_epoch t s =
    ground (arith, ids-update_front (λ c. record c { epoch_allocated = true }) s.cycles (λ c. refl))

-- As a queue of numbered cycles, a frame of the client that opens a cycle puts the next number
-- behind the others, and every other frame leaves the queue as it is.
pub frontend-queue :
    (digest : Bytes → String) (f : Frame) (s : ConnectionState)
    → queue (frontend digest f s).0
      ≡ (if opens_cycle (tag f) (body f) s then opened (queue s) else queue s)
unfolding frontend
frontend-queue digest f s =
    ap queue (emit-state true _ _)
    ∙ queue-allocate_epoch (tag f) (observe digest (tag f) (body f) s).0
    ∙ queue-observe digest (tag f) (body f) s
