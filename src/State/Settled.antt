-- ===== src/State/Settled.antt =====
-- With nothing outstanding, the maps of a connection are what the server has confirmed: the frames of
-- the client.
use pgfault.Base.{
  by_if, ℕ, ◌==◌, ◌≡◌, inl, inr, refl, sym, ◌∙◌, Bool, true, false, not, ◌||◌, String, List, [],
  ◌∷◌, ◌++◌, arith, Bytes, last?, is_empty, update_back, update_front, Option-cases, nat_eq,
  string_eq, bytes_eq_instance,
}
use pgfault.Wire.{Frame, tag, body, cstr}
use pgfault.Events.{Statement}
use pgfault.State.{ConnectionState, Cycle, Mutation, close, cycle, on_back, needs_cycle, emit}
use pgfault.State.Emit.{emit-state}
use pgfault.State.Frontend.{
  frontend, observe, allocate_epoch, on_parse, on_bind, on_close, start, push_mutation,
  drop_unnamed, query_statement, portal_statement, forget,
}

abbrev pub IsSettled : ConnectionState → Type 0
IsSettled s =
    is_empty s.cycles ≡ true
    → (s.prepared ≡ s.confirmed_prepared) × (s.portals ≡ s.confirmed_portals)

abbrev pub IsOpen : ConnectionState → Type 0
IsOpen s = is_empty s.cycles ≡ false

pub open-IsSettled : (s : ConnectionState) → IsOpen s → IsSettled s
open-IsSettled s h k = let bad : ⊥ = cc in elim bad [ ]

pub emit-IsSettled :
    (front : Bool) (names : List String) (s : ConnectionState)
    → IsSettled s
    → IsSettled (emit front names s).0
emit-IsSettled front names s h = rw (emit-state front names s) h

is_empty-concat : (cs : List Cycle) (c : Cycle) → is_empty (cs ++ c ∷ []) ≡ false
is_empty-concat [] c = refl
is_empty-concat (x ∷ cs) c = refl

is_empty-update_back :
    (f : Cycle → Cycle) (cs : List Cycle) → is_empty (update_back f cs) ≡ is_empty cs
is_empty-update_back f [] = refl
is_empty-update_back f (c ∷ []) = refl
is_empty-update_back f (c ∷ d ∷ cs) = refl

pub is_empty-update_front :
    (f : Cycle → Cycle) (cs : List Cycle) → is_empty (update_front f cs) ≡ is_empty cs
is_empty-update_front f [] = refl
is_empty-update_front f (c ∷ cs) = refl

needs_cycle-nil : (cs : List Cycle) → needs_cycle (last? cs) ≡ false → is_empty cs ≡ false
needs_cycle-nil [] h = cc
needs_cycle-nil (c ∷ cs) h = refl

cycle-IsOpen : (extended : Bool) (s : ConnectionState) → IsOpen (cycle extended s)
unfolding cycle
cycle-IsOpen extended s =
    by_if IsOpen (not extended || needs_cycle (last? s.cycles)) _ s
      (λ fresh. is_empty-concat s.cycles _) (λ old. needs_cycle-nil s.cycles (ground arith))

on_back-IsOpen : (f : Cycle → Cycle) (s : ConnectionState) → IsOpen s → IsOpen (on_back f s)
on_back-IsOpen f s h = is_empty-update_back f s.cycles ∙ h

push_mutation-IsOpen : (m : Mutation) (s : ConnectionState) → IsOpen (push_mutation m s)
push_mutation-IsOpen m s = on_back-IsOpen _ (cycle true s) (cycle-IsOpen true s)

forget-IsOpen :
    (kind : ℕ) (name : Bytes) (s : ConnectionState) → IsOpen s → IsOpen (forget kind name s)
unfolding forget
forget-IsOpen kind name s h =
    by_if IsOpen (kind == b'S') _ _ (λ statement. h)
      (λ more. by_if IsOpen (kind == b'P') _ _ (λ portal. h) (λ other. h))

on_close-IsSettled : (bs : Bytes) (s : ConnectionState) → IsSettled s → IsSettled (on_close bs s)
unfolding on_close
on_close-IsSettled [] s h = h
on_close-IsSettled (kind ∷ rest) s h = elim (Option-cases (cstr rest)) [
  | inl bad ↦ rw (on_close, bad) h
  | inr ((name, after), good) ↦
      rw (on_close, good)
        (open-IsSettled (forget kind name (push_mutation (close kind name) s)) (
          forget-IsOpen kind name (push_mutation (close kind name) s)
            (push_mutation-IsOpen (close kind name) s)))
]

on_parse-IsOpen :
    (digest : Bytes → String) (bs : Bytes) (s : ConnectionState) → IsOpen (on_parse digest bs s)
unfolding on_parse
on_parse-IsOpen digest bs s = cycle-IsOpen true _

on_bind-IsOpen : (bs : Bytes) (s : ConnectionState) → IsOpen (on_bind bs s)
unfolding on_bind
on_bind-IsOpen bs s = cycle-IsOpen true _

start-IsOpen :
    (extended : Bool) (st : Statement) (s : ConnectionState) → IsOpen (start extended st s)
start-IsOpen extended st s = on_back-IsOpen _ (cycle extended s) (cycle-IsOpen extended s)

observe-IsSettled :
    (digest : Bytes → String) (t : ℕ) (bs : Bytes) (s : ConnectionState)
    → IsSettled s
    → IsSettled (observe digest t bs s).0
unfolding observe
observe-IsSettled digest t bs s h =
    let P : ConnectionState × List String → Type 0 = λ p. IsSettled p.0 in
    by_if P (t == b'P') _ _
      (λ p. open-IsSettled (on_parse digest bs s) (on_parse-IsOpen digest bs s))
      (λ m.
        by_if P (t == b'B') _ _ (λ p. open-IsSettled (on_bind bs s) (on_bind-IsOpen bs s))
          (λ m.
            by_if P (t == b'C') _ _ (λ p. on_close-IsSettled bs s h)
              (λ m.
                by_if P (t == b'Q') _ _
                  (λ p.
                    open-IsSettled (start false (query_statement digest bs) (drop_unnamed s))
                      (start-IsOpen false (query_statement digest bs) (drop_unnamed s)))
                  (λ m.
                    by_if P (t == b'E') _ _
                      (λ p.
                        open-IsSettled (start true (portal_statement bs s) s)
                          (start-IsOpen true (portal_statement bs s) s))
                      (λ m.
                        by_if P (t == b'S') _ _
                          (λ p.
                            open-IsSettled
                              (on_back (λ c. record c { sealed = true }) (cycle true s))
                              (on_back-IsOpen (λ c. record c { sealed = true }) (cycle true s)
                                (cycle-IsOpen true s)))
                          (λ m. h))))))

allocate_epoch-IsSettled :
    (t : ℕ) (s : ConnectionState) → IsSettled s → IsSettled (allocate_epoch t s)
unfolding allocate_epoch
allocate_epoch-IsSettled t s h =
    by_if IsSettled _ _ s
      (λ begins k.
        h (sym (is_empty-update_front (λ c. record c { epoch_allocated = true }) s.cycles) ∙ k))
      (λ more. h)

pub frontend-IsSettled :
    (digest : Bytes → String) (f : Frame) (s : ConnectionState)
    → IsSettled s
    → IsSettled (frontend digest f s).0
unfolding frontend
frontend-IsSettled digest f s h =
    let (s1, names) = observe digest (tag f) (body f) s in
    emit-IsSettled true names (allocate_epoch (tag f) s1)
      (allocate_epoch-IsSettled (tag f) s1 (observe-IsSettled digest (tag f) (body f) s h))
