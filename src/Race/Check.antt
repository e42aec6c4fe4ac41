-- ===== src/Race/Check.antt =====
-- One pair of accesses: `GetFaults` adds it to the faults exactly if it is a race.
use fsracer.Prelude.{
  ◌≡◌, ◌≢◌, refl, ◌⊎◌, inl, inr, ◌↔◌, Bool, true, false, Text, text_ord, pair_ord, same, same_iff,
  Bool-cases, Result, ok, ∥∥₁_elim,
}
use mathlib.Core.HLevel.{⊥_prop}
use fsracer.Graph.Reach.{IsClosed}
use fsracer.FilePath.{FilePath, native}
use fsracer.FsAnalyzer.{FsAccess}
use fsracer.Dependency.{DepGraph}
use fsracer.Race.{
  Cache, FaultDesc, RaceState, has_conflict, has_dependency, note_events, report, check_pair,
}
use fsracer.Race.Order.{Ordered, IsCached, Decides, has_dependency-Decides}
use fsracer.Race.Faults.{
  reported, IsRace, RaceAt, has_conflict_iff, reported-add_fault, or_left, pair_iff,
}

-- The faults after a call are those before it and those of `P`.
pub record Reports (g : DepGraph) (P : Text × Text → Text → Type 0) (st : RaceState)
    (r : Result RaceState) : Type 0 where
  pub after : RaceState
  pub returns : r ≡ ok after
  pub cached : IsCached g after.cache_dfs
  pub exact :
      (pair : Text × Text) (p : Text)
      → (reported pair p after.faults ≡ true) ↔ ((reported pair p st.faults ≡ true) ⊎ P pair p)

not_both : {b : Bool} → b ≡ false → b ≢ true
not_both e f = cc

module _ (g : DepGraph) (q : FilePath) (a b : FsAccess) (st : RaceState) where
  with_race :
      (pair : Text × Text) (p : Text)
      → IsRace g (a, b)
      → (reported pair p st.faults ≡ true) ⊎ ((pair ≡ (a.event_id, b.event_id)) × (p ≡ native q))
      → (reported pair p st.faults ≡ true) ⊎ RaceAt g pair p q (a, b)
  with_race pair p race (inl h) = inl h
  with_race pair p race (inr (e, f)) = inr (e, f, race)

  without_race :
      (pair : Text × Text) (p : Text)
      → (reported pair p st.faults ≡ true) ⊎ RaceAt g pair p q (a, b)
      → (reported pair p st.faults ≡ true) ⊎ ((pair ≡ (a.event_id, b.event_id)) × (p ≡ native q))
  without_race pair p (inl h) = inl h
  without_race pair p (inr (e, f, _)) = inr (e, f)

  -- A pair that is no race leaves the faults as they are.
  Reports-no_race :
      (cache : Cache)
      → ¬ IsRace g (a, b)
      → IsCached g cache
      → Reports g
          (λ pair p. RaceAt g pair p q (a, b))
          st
          (ok (report q a b (note_events a b st) (true, cache)))
  Reports-no_race cache no_race cached = record {
    after = report q a b (note_events a b st) (true, cache);
    returns = refl;
    cached = cached;
    exact = λ pair p. (inl, or_left (λ (r : RaceAt g pair p q (a, b)). no_race r.2));
  }

  -- A race is added to the faults.
  Reports-race :
      (cache : Cache)
      → IsRace g (a, b)
      → IsCached g cache
      → Reports g
          (λ pair p. RaceAt g pair p q (a, b))
          st
          (ok (report q a b (note_events a b st) (false, cache)))
  Reports-race cache race cached =
      let desc : FaultDesc = record { p = native q; fs_access1 = a; fs_access2 = b } in
      record {
        after = report q a b (note_events a b st) (false, cache);
        returns = refl;
        cached = cached;
        exact = λ pair p.
            let iff =
              pair_iff pair (a.event_id, b.event_id) p (native q) (reported pair p st.faults) in
            let e = reported-add_fault pair (a.event_id, b.event_id) p desc st.faults in
            (
              λ h. with_race pair p race (iff.0 (rw e at h)),
              λ h. rw e (iff.1 (without_race pair p h)),
            );
      }

module _ (g : DepGraph) (closed : IsClosed g) (q : FilePath) (a b : FsAccess) (st : RaceState) where
  conflicting :
      same a.event_id b.event_id ≡ false
      → has_conflict a b ≡ true
      → Decides g
          (Ordered g a.event_id b.event_id ⊎ Ordered g b.event_id a.event_id)
          (has_dependency g a.event_id b.event_id st.cache_dfs)
      → Reports g (λ pair p. RaceAt g pair p q (a, b)) st (check_pair g q (a, b) st)
  unfolding check_pair
  conflicting other conflict d = elim (Bool-cases d.answer) [
    | inl dependent ↦
        rw (check_pair, other, conflict, d.returns, dependent)
          (Reports-no_race g q a b st d.cache (λ r. ∥∥₁_elim (d.holds dependent) ⊥_prop r.2)
            d.cached)
    | inr independent ↦
        let race : IsRace g (a, b) = (
          λ e. not_both other ((same_iff a.event_id b.event_id).1 e),
          (has_conflict_iff a b).0 conflict,
          d.fails independent,
        ) in
        rw (check_pair, other, conflict, d.returns, independent)
          (Reports-race g q a b st d.cache race d.cached)
  ]

  pub check_pair-Reports :
      IsCached g st.cache_dfs
      → Reports g (λ pair p. RaceAt g pair p q (a, b)) st (check_pair g q (a, b) st)
  unfolding check_pair
  check_pair-Reports cached = elim (Bool-cases (same a.event_id b.event_id)) [
    | inl own ↦
        rw (check_pair, own)
          (Reports-no_race g q a b st st.cache_dfs
            (λ r. r.0 ((same_iff a.event_id b.event_id).0 own)) cached)
    | inr other ↦ elim (Bool-cases (has_conflict a b)) [
      | inl conflict ↦
          conflicting other conflict
            (has_dependency-Decides g closed a.event_id b.event_id st.cache_dfs cached)
      | inr harmless ↦
          rw (check_pair, other, harmless)
            (Reports-no_race g q a b st st.cache_dfs
              (λ r. not_both harmless ((has_conflict_iff a b).1 r.1)) cached)
    ]
  ]
