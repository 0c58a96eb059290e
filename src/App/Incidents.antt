-- ===== src/App/Incidents.antt =====
-- The open incidents of the store under `commitTransition` of internal/app/app.go. An incident is named
-- by the clock, so its identifier is new only where the clock does not give one time twice.
pub mod Commit
pub mod Kept
pub mod Linked
pub mod Service
pub mod Serve
use text.Mathlib.TextLemmas.{append-nil, append_cancel_left}
use mathlib.Core.Path.{subst}
use forge_mini.Base.{
  ℕ, suc, ◌<◌, ◌≤◌, String, concat, ◌≡◌, refl, ap, sym, ◌∙◌, true, false, Bool, Option, none, some,
  Option-cases, Bool-cases, inl, inr, str_eq, eq_iff, eq_refl, arith, if◌then◌else◌,
}
use forge_mini.Base.Decimals.{value, EndsNumber, nanos_small, read_int, read_int-show_int}
use forge_mini.Base.Dict.{Dict, lookup, insert, lookup-insert, lookup-erase}
use forge_mini.Base.Machine.{Time, unix_nano, show_int}
use forge_mini.Incidents.{Incident, is_resolved}
use forge_mini.Store.{Memory, put_incident, get_open_incident_by_unit, incident_or_zero}
use forge_mini.Store.Reads.{read_open, get_open-read_open, get_open-put_incident}
use forge_mini.App.Committed.{open_eq}

-- The identifier that `applyIncidentAction` makes of a reading of the clock.
unfoldable pub incident_id : Time → String
unfolding unix_nano show_int
incident_id t = concat "inc-" (show_int (unix_nano t))

read_id : (t : Time) → read_int (show_int (unix_nano t)) ≡ unix_nano t
unfolding value
read_id t =
    ap read_int (sym (append-nil (show_int (unix_nano t))))
    ∙ read_int-show_int (unix_nano t) "" (nanos_small t) (λ v. refl)

incident_id-injective : (t u : Time) → incident_id t ≡ incident_id u → unix_nano t ≡ unix_nano u
unfolding incident_id
incident_id-injective t u e =
    sym (read_id t) ∙ ap read_int (append_cancel_left "inc-" _ _ e) ∙ read_id u

-- the first `n` readings of a clock are different
abbrev pub Distinct : (ℕ → Time) → ℕ → Type 0
Distinct clock n = (i j : ℕ) → i < n → j < n → unix_nano (clock i) ≡ unix_nano (clock j) → i ≡ j

-- What is stored under the identifier of a unit's open incident.
pub record IsOpen (m : Memory) (unit id : String) : Type 0 where
  pub incident : Incident
  pub stored : lookup id m.incidents_by_id ≡ some incident
  pub named : incident.id ≡ id
  pub own : incident.unit_id ≡ unit
  pub unresolved : is_resolved incident.status ≡ false

-- an identifier that was made of one of the first `n` readings
abbrev pub NamedBy : (ℕ → Time) → ℕ → String → Type 0
NamedBy clock n id = (i : ℕ) × (i < n) × (id ≡ incident_id (clock i))

abbrev pub AllOpen : (ℕ → Time) → ℕ → Memory → Type 0
AllOpen clock n m =
    (unit id : String)
    → lookup unit m.open_incident_by_unit ≡ some id
    → IsOpen m unit id × NamedBy clock n id

-- What does not touch the incidents keeps them in order.
pub same_AllOpen :
    (clock : ℕ → Time) (n : ℕ) (m m' : Memory)
    → m'.incidents_by_id ≡ m.incidents_by_id
    → m'.open_incident_by_unit ≡ m.open_incident_by_unit
    → AllOpen clock n m
    → AllOpen clock n m'
same_AllOpen clock n m m' incidents opens all unit id at =
    let (o, named) = all unit id (rw opens at at) in
    (
      record {
        incident = o.incident;
        stored = rw incidents o.stored;
        named = o.named;
        own = o.own;
        unresolved = o.unresolved;
      },
      named,
    )

-- A later reading names no less.
pub later_AllOpen :
    (clock : ℕ → Time) (n k : ℕ) (m : Memory) → n ≤ k → AllOpen clock n m → AllOpen clock k m
later_AllOpen clock n k m le all unit id at =
    let (opened, (i, below, name)) = all unit id at in (opened, (i, omega (arith, below, le), name))

-- no other unit has the identifier of an incident as that of its open one
abbrev pub IsAlone : Incident → Memory → Type 0
IsAlone incident m =
    (other : String)
    → lookup other m.open_incident_by_unit ≡ some incident.id
    → other ≡ incident.unit_id

-- the open incident of another unit is still there
still-IsOpen :
    (incident : Incident) (m : Memory) (unit id : String)
    → IsAlone incident m
    → lookup unit m.open_incident_by_unit ≡ some id
    → str_eq incident.unit_id unit ≡ false
    → IsOpen m unit id
    → IsOpen (put_incident incident m) unit id
unfolding put_incident
still-IsOpen incident m unit id alone at ne o =
    let other : str_eq incident.id id ≡ false =
      ground (arith, eq_iff incident.id id, eq_iff incident.unit_id unit, alone unit) in
    record {
      incident = o.incident;
      stored = rw (lookup-insert incident.id id, other) o.stored;
      named = o.named;
      own = o.own;
      unresolved = o.unresolved;
    }

-- the identifier that is read as that of a unit's open incident
open_at :
    (incident : Incident) (m : Memory) (unit : String)
    → lookup unit (put_incident incident m).open_incident_by_unit ≡ (
        if str_eq incident.unit_id unit
        then (if is_resolved incident.status then none else some incident.id)
        else lookup unit m.open_incident_by_unit)
unfolding put_incident
open_at incident m unit = elim (Bool-cases (is_resolved incident.status)) [
  | inl r ↦ rw (put_incident, r, lookup-erase) refl
  | inr r ↦ rw (put_incident, r, lookup-insert) refl
]

own-IsOpen :
    (incident : Incident) (m : Memory) (unit id : String) (resolved : Bool)
    → is_resolved incident.status ≡ resolved
    → str_eq incident.unit_id unit ≡ true
    → (if resolved then none else some incident.id) ≡ some id
    → (id ≡ incident.id) × IsOpen (put_incident incident m) unit id
unfolding put_incident
own-IsOpen incident m unit id true r q e = absurd (cc)
own-IsOpen incident m unit id false r q e =
    let same : incident.id ≡ id = cc in
    (
      sym same,
      record {
        incident = incident;
        stored = rw (lookup-insert incident.id id, same, eq_refl id) refl;
        named = same;
        own = ground (arith, eq_iff incident.unit_id unit);
        unresolved = r;
      },
    )

pub put-AllOpen :
    (clock : ℕ → Time) (incident : Incident) (m : Memory) (n k : ℕ)
    → n ≤ k
    → AllOpen clock n m
    → IsAlone incident m
    → NamedBy clock k incident.id
    → AllOpen clock k (put_incident incident m)
put-AllOpen clock incident m n k le all alone (i, small, made) unit id at =
    let read = open_at incident m unit in
    elim (Bool-cases (str_eq incident.unit_id unit)) [
      | inl q ↦
          let (same, opened) =
            own-IsOpen incident m unit id (is_resolved incident.status) refl q
              (sym (rw q at read) ∙ at) in
          (opened, (i, small, same ∙ made))
      | inr q ↦
          let before = rw q at read in
          let (opened, (j, below, name)) = all unit id (sym before ∙ at) in
          (
            still-IsOpen incident m unit id alone (sym before ∙ at) q opened,
            (j, omega (arith, below, le), name),
          )
    ]

pub the_same : (a b : Incident) → some a ≡ some b → a ≡ b
the_same a b e = cc

-- The open incident of a unit is stored under its identifier, is that unit's, and no other's.
read_open-IsOpen :
    (clock : ℕ → Time) (unit : String) (m : Memory) (n : ℕ) (existing : Incident)
    (o : Option String)
    → AllOpen clock n m
    → lookup unit m.open_incident_by_unit ≡ o
    → read_open o m.incidents_by_id ≡ some existing
    → IsOpen m unit existing.id
      × NamedBy clock n existing.id
      × (lookup existing.id m.incidents_by_id ≡ some existing)
unfolding read_open incident_or_zero
read_open-IsOpen clock unit m n existing none all at e = absurd (cc)
read_open-IsOpen clock unit m n existing (some id) all at e =
    let (opened, made) = all unit id at in
    let stored = opened.stored in
    let read : some opened.incident ≡ some existing = rw stored at e in
    let same = the_same opened.incident existing read in
    let named : id ≡ existing.id = sym opened.named ∙ ap (λ x. x.id) same in
    subst (λ k. IsOpen m unit k × NamedBy clock n k × (lookup k m.incidents_by_id ≡ some existing))
      named (opened, made, stored ∙ read)

-- A unit's open incident is that of no other unit.
pub existing-IsAlone :
    (clock : ℕ → Time) (unit : String) (m : Memory) (n : ℕ) (existing : Incident)
    → AllOpen clock n m
    → IsOpen m unit existing.id
    → lookup existing.id m.incidents_by_id ≡ some existing
    → IsAlone existing m
existing-IsAlone clock unit m n existing all opened stored other at =
    let (theirs, made) = all other existing.id at in
    let read = theirs.stored in
    let own = theirs.own in
    sym own ∙ ap (λ x. x.unit_id) (the_same theirs.incident existing (sym read ∙ stored))

-- An incident that is named by a new reading of the clock is that of no unit yet.
pub fresh-IsAlone :
    (clock : ℕ → Time) (m : Memory) (n N : ℕ) (incident : Incident)
    → Distinct clock N
    → n < N
    → AllOpen clock n m
    → incident.id ≡ incident_id (clock n)
    → IsAlone incident m
fresh-IsAlone clock m n N incident distinct small all made other at =
    let (opened, (i, below, name)) = all other incident.id at in
    let same : n ≡ i =
      distinct n i small (omega (arith, below, small))
        (incident_id-injective (clock n) (clock i) (sym made ∙ name)) in
    absurd (omega (arith, same, below))

pub get-IsOpen :
    (clock : ℕ → Time) (unit : String) (m : Memory) (n : ℕ) (existing : Incident)
    → AllOpen clock n m
    → get_open_incident_by_unit unit m ≡ some existing
    → IsOpen m unit existing.id
      × NamedBy clock n existing.id
      × (lookup existing.id m.incidents_by_id ≡ some existing)
get-IsOpen clock unit m n existing all e =
    read_open-IsOpen clock unit m n existing (lookup unit m.open_incident_by_unit) all refl
      (sym (get_open-read_open unit m) ∙ e)
