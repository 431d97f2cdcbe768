-- ===== src/State/Emit.antt =====
-- The events of a frame: their names, and the counters, which is all of the state that they change.
use pgfault.Base.{ℕ, ◌≡◌, refl, ap, Bool, String, List, [], ◌∷◌, ◌++◌}
use pgfault.Base.Dict.{Dict}
use pgfault.Events.{Event}
use pgfault.State.{ConnectionState, count, emit, event_at}

abbrev pub count_all : List String → Dict String ℕ → Dict String ℕ
count_all [] m = m
count_all (name ∷ names) m = count_all names (count name m)

abbrev pub recount : List String → ConnectionState → ConnectionState
recount names s = record s { counters = count_all names s.counters }

pub emit-state :
    (front : Bool) (names : List String) (s : ConnectionState)
    → (emit front names s).0 ≡ recount names s
unfolding emit
emit-state front [] s = refl
emit-state front (name ∷ names) s =
    emit-state front names (record s { counters = count name s.counters })

abbrev pub names_of : List Event → List String
names_of [] = []
names_of (e ∷ es) = e.event ∷ names_of es

pub emit-names :
    (front : Bool) (names : List String) (s : ConnectionState)
    → names_of (emit front names s).1 ≡ names
unfolding emit event_at
emit-names front [] s = refl
emit-names front (name ∷ names) s =
    ap (◌∷◌ name) (emit-names front names (record s { counters = count name s.counters }))

pub names_of-append : (xs ys : List Event) → names_of (xs ++ ys) ≡ names_of xs ++ names_of ys
names_of-append [] ys = refl
names_of-append (x ∷ xs) ys = ap (◌∷◌ x.event) (names_of-append xs ys)
