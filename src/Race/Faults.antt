-- ===== src/Race/Faults.antt =====
-- What the faults of the detector name, and what a race is, apart from the detector.
use fsracer.Prelude.{
  ◌≡◌, ◌≢◌, refl, ◌⊎◌, inl, inr, ◌↔◌, Bool, true, false, ◌&&◌, ◌||◌, Option, none, some, List, [],
  ◌∷◌, Text, text_ord, pair_ord, same, same_iff, arith, Bool-cases, Option-cases,
}
use fsracer.Collections.Map.{find, emplace, find-assign}
use fsracer.Operation.{consumed, consumes}
use fsracer.FilePath.{FilePath, native}
use fsracer.FsAnalyzer.{FsAccess}
use fsracer.Dependency.{DepGraph}
use fsracer.Race.{FaultDesc, FaultSet, Faults, has_conflict, insert_fault, add_fault}
use fsracer.Race.Order.{Ordered}

abbrev pub Any : {A : Type 0} → (A → Type 0) → List A → Type 0
Any P [] = ⊥
Any P (x ∷ xs) = P x ⊎ Any P xs

abbrev pub is_present : {A : Type 0} → Option A → Bool
is_present none = false
is_present (some _) = true

abbrev pub has_path_fault : Text → Option FaultSet → Bool
has_path_fault p none = false
has_path_fault p (some descs) = is_present (find p descs)

-- Whether the faults of two events name a path.
abbrev pub reported : Text × Text → Text → Faults → Bool
reported pair p faults = has_path_fault p (find pair faults)

-- Two accesses of different events, not both consuming, that the graph does not order.
abbrev pub IsRace : DepGraph → FsAccess × FsAccess → Type 0
IsRace g (a, b) =
    (a.event_id ≢ b.event_id)
    × (¬ ((a.effect_type ≡ consumed) × (b.effect_type ≡ consumed)))
    × (¬ (Ordered g a.event_id b.event_id ⊎ Ordered g b.event_id a.event_id))

-- The race is one of the two events, in this order, at the path `q`, which prints as `p`.
abbrev pub RaceAt : DepGraph → Text × Text → Text → FilePath → FsAccess × FsAccess → Type 0
RaceAt g pair p q (a, b) = (pair ≡ (a.event_id, b.event_id)) × (p ≡ native q) × IsRace g (a, b)

pub has_conflict_iff :
    (a b : FsAccess)
    → (has_conflict a b ≡ true) ↔ (¬ ((a.effect_type ≡ consumed) × (b.effect_type ≡ consumed)))
unfolding has_conflict consumes
has_conflict_iff a b = ground arith

has_path_fault-insert_fault :
    (p : Text) (desc : FaultDesc) (o : Option FaultSet)
    → has_path_fault p (some (insert_fault desc o)) ≡ (same p desc.p || has_path_fault p o)
unfolding emplace find
has_path_fault-insert_fault p desc none =
    let found = find-assign p desc.p desc [] in ground (arith, found)
has_path_fault-insert_fault p desc (some descs) = elim (Option-cases (find desc.p descs)) [
  | inl e ↦ rw (insert_fault, emplace, e) (ground (arith, find-assign p desc.p desc descs))
  | inr (d, e) ↦ rw (insert_fault, emplace, e) (ground (arith, text_ord.cmp_iff p desc.p))
]

pub reported-add_fault :
    (pair key : Text × Text) (p : Text) (desc : FaultDesc) (faults : Faults)
    → reported pair p (add_fault key desc faults)
      ≡ ((same pair key && same p desc.p) || reported pair p faults)
unfolding add_fault
reported-add_fault pair key p desc faults =
    let found = find-assign pair key (insert_fault desc (find key faults)) faults in
    let inserted = has_path_fault-insert_fault p desc (find key faults) in
    elim (Bool-cases (same pair key)) [
      | inl here ↦
          let at_key : pair ≡ key = (same_iff pair key).0 here in
          rw (found, here) (rw (inserted, at_key) refl)
      | inr other ↦ rw (found, other) refl
    ]

-- The faults after a call are those before it and those of `P`.
pub or_left : {A B : Type 0} → ¬ B → A ⊎ B → A
or_left nb (inl a) = a
or_left nb (inr b) = absurd (nb b)

pub pair_iff :
    (pair key : Text × Text) (p q : Text) (rest : Bool)
    → (((same pair key && same p q) || rest) ≡ true) ↔ ((rest ≡ true) ⊎ ((pair ≡ key) × (p ≡ q)))
pair_iff pair key p q rest = (split, back)
  where
    first : (a b c : Bool) → ((a && b) || c) ≡ true → c ≡ false → a ≡ true
    first a b c h e = ground arith

    second : (a b c : Bool) → ((a && b) || c) ≡ true → c ≡ false → b ≡ true
    second a b c h e = ground arith

    both : (a b c : Bool) → a ≡ true → b ≡ true → ((a && b) || c) ≡ true
    both a b c h e = ground arith

    right : (a c : Bool) → c ≡ true → (a || c) ≡ true
    right a c h = ground arith

    split : ((same pair key && same p q) || rest) ≡ true → (rest ≡ true) ⊎ ((pair ≡ key) × (p ≡ q))
    split h = elim (Bool-cases rest) [
      | inl r ↦ inl r
      | inr r ↦ inr (
        (same_iff pair key).0 (first (same pair key) (same p q) rest h r),
        (same_iff p q).0 (second (same pair key) (same p q) rest h r),
      )
    ]

    back : (rest ≡ true) ⊎ ((pair ≡ key) × (p ≡ q)) → ((same pair key && same p q) || rest) ≡ true
    back (inl r) = right (same pair key && same p q) rest r
    back (inr (e, f)) =
        both (same pair key) (same p q) rest ((same_iff pair key).1 e) ((same_iff p q).1 f)
