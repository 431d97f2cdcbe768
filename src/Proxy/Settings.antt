-- ===== src/Proxy/Settings.antt =====
-- What the pairs of a startup packet set: the last value of each key that is known.
use pgfault.Base.{
  ◌≡◌, ◌≢◌, inl, inr, refl, ◌∙◌, true, false, if◌then◌else◌, String, Option, bytes_eq, bytes_eq_iff,
  none, some, List, [], ◌∷◌, arith, Bytes, Bool-cases, Option-cases, nat_eq, string_eq,
  bytes_eq_instance,
}
use pgfault.Base.Text.{codes, from_utf8_lossy}
use pgfault.Events.{StartupMetadata}
use pgfault.Proxy.Metadata.{set_parameter}

-- The pairs, one after the other.
abbrev pub set_all : List (Bytes × Bytes) → StartupMetadata → StartupMetadata
set_all [] m = m
set_all ((key, value) ∷ ps) m = set_all ps (set_parameter key (from_utf8_lossy value) m)

-- The value of the last pair with the key, if there is one.
abbrev pub last_value : Bytes → List (Bytes × Bytes) → Option Bytes
last_value key [] = none
last_value key ((k, value) ∷ ps) = elim (last_value key ps) [
  | some later ↦ some later
  | none ↦ if bytes_eq k key then some value else none
]

abbrev pub as_text : Option Bytes → Option String
as_text none = none
as_text (some value) = some (from_utf8_lossy value)

abbrev pub named_text : String → List (Bytes × Bytes) → Option String
named_text key ps = as_text (last_value (codes key) ps)

-- What stands where nothing is set anew.
abbrev else_old : Option String → Option String → Option String
else_old none old = old
else_old (some new) old = some new

abbrev over : List (Bytes × Bytes) → StartupMetadata → StartupMetadata
over ps m = record {
  user = else_old (named_text "user" ps) m.user;
  database = else_old (named_text "database" ps) m.database;
  application_name = else_old (named_text "application_name" ps) m.application_name;
}

other_key : (x key : Bytes) (k : Bytes) → x ≢ k → bytes_eq key x ≡ true → bytes_eq key k ≡ false
other_key x key k differ same = ground (arith, bytes_eq_iff key x, bytes_eq_iff key k)

user-not-database : codes "user" ≢ codes "database"
user-not-database e = cc

user-not-application : codes "user" ≢ codes "application_name"
user-not-application e = cc

database-not-application : codes "database" ≢ codes "application_name"
database-not-application e = cc

-- What a parameter sets.
set_parameter_lem :
    (key : Bytes) (v : String) (m : StartupMetadata)
    → let m' = set_parameter key v m in
      (m'.user ≡ (if bytes_eq key (codes "user") then some v else m.user))
      × (m'.database ≡ (if bytes_eq key (codes "database") then some v else m.database))
      × (m'.application_name
          ≡ (if bytes_eq key (codes "application_name") then some v else m.application_name))
unfolding set_parameter
set_parameter_lem key v m = elim (Bool-cases (bytes_eq key (codes "user"))) [
  | inl user ↦
      let no_database = other_key (codes "user") key (codes "database") user-not-database user in
      let no_application =
        other_key (codes "user") key (codes "application_name") user-not-application user in
      rw (user, no_database, no_application) (refl, refl, refl)
  | inr no_user ↦ elim (Bool-cases (bytes_eq key (codes "database"))) [
    | inl database ↦
        let no_application =
          other_key (codes "database") key (codes "application_name") database-not-application
            database in
        rw (no_user, database, no_application) (refl, refl, refl)
    | inr no_database ↦ elim (Bool-cases (bytes_eq key (codes "application_name"))) [
      | inl application ↦ rw (no_user, no_database, application) (refl, refl, refl)
      | inr no_application ↦ rw (no_user, no_database, no_application) (refl, refl, refl)
    ]
  ]
]

-- A pair in front counts only where no later pair has the key.
else_old-cons :
    (k key value : Bytes) (ps : List (Bytes × Bytes)) (old set : Option String)
    → set ≡ (if bytes_eq key k then some (from_utf8_lossy value) else old)
    → else_old (as_text (last_value k ps)) set
      ≡ else_old (as_text (last_value k ((key, value) ∷ ps))) old
else_old-cons k key value ps old set h = elim (Option-cases (last_value k ps)) [
  | inl nothing ↦ elim (Bool-cases (bytes_eq key k)) [
    | inl same ↦ rw (nothing, same) (h ∙ rw same refl)
    | inr other ↦ rw (nothing, other) (h ∙ rw other refl)
  ]
  | inr (v, later) ↦ rw later refl
]

pub else_none : (o : Option String) → else_old o none ≡ o
else_none none = refl
else_none (some s) = refl

pub metadata_eq :
    {a b c a' b' c' : Option String}
    → a ≡ a'
    → b ≡ b'
    → c ≡ c'
    → ◌≡◌ {A = StartupMetadata}
        (record { user = a; database = b; application_name = c })
        (record { user = a'; database = b'; application_name = c' })
metadata_eq p q r = rw (p, q, r) refl

pub set_all-over : (ps : List (Bytes × Bytes)) (m : StartupMetadata) → set_all ps m ≡ over ps m
set_all-over [] m = refl
set_all-over ((key, value) ∷ ps) m =
    let (user, database, application) = set_parameter_lem key (from_utf8_lossy value) m in
    set_all-over ps (set_parameter key (from_utf8_lossy value) m)
    ∙ metadata_eq (else_old-cons (codes "user") key value ps m.user _ user)
        (else_old-cons (codes "database") key value ps m.database _ database)
        (else_old-cons (codes "application_name") key value ps m.application_name _ application)
