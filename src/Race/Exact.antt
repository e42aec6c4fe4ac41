-- ===== src/Race/Exact.antt =====
-- `GetFaults` reports the races of the accesses, and nothing else.
use fsracer.Prelude.{
  ◌≡◌, ◌≢◌, refl, ◌⊎◌, inl, inr, ◌↔◌, Bool, true, false, List, [], ◌∷◌, Text, text_ord, pair_ord,
  Result, ok, ◌>>=◌,
}
use fsracer.Collections.Map.{find}
use fsracer.Utils.{get_2_combinations}
use fsracer.Graph.Reach.{IsClosed}
use fsracer.FilePath.{FilePath}
use fsracer.FsAnalyzer.{FsAccess, EffectTable}
use fsracer.Dependency.{DepGraph}
use fsracer.Race.{RaceState, check_pairs, check_paths, get_faults}
use fsracer.Race.Order.{IsCached}
use fsracer.Race.Faults.{Any, reported, RaceAt, or_left}
use fsracer.Race.Check.{Reports, check_pair-Reports}

module _ (g : DepGraph) (closed : IsClosed g) where
  -- One call after another reports what either of the two does.
  Reports-then :
      {P Q : Text × Text → Text → Type 0} {r : Result RaceState} (k : RaceState → Result RaceState)
      (st : RaceState) (first : Reports g P st r)
      → Reports g Q first.after (k first.after)
      → Reports g (λ pair p. P pair p ⊎ Q pair p) st (r >>= k)
  Reports-then {P} {Q} {r} k st first second = record {
    after = second.after;
    returns = rw first.returns second.returns;
    cached = second.cached;
    exact = λ pair p. (
      λ h. in_turn ((first.exact pair p).0) ((second.exact pair p).0 h),
      λ h. (second.exact pair p).1 (map_left ((first.exact pair p).1) (regroup h)),
    );
  }
    where
      in_turn : {B C D E : Type 0} → (B → C ⊎ D) → B ⊎ E → C ⊎ (D ⊎ E)
      in_turn f (inl b) = elim (f b) [ inl c ↦ inl c | inr d ↦ inr (inl d) ]
      in_turn f (inr e) = inr (inr e)

      regroup : {A B C : Type 0} → A ⊎ (B ⊎ C) → (A ⊎ B) ⊎ C
      regroup (inl a) = inl (inl a)
      regroup (inr (inl b)) = inl (inr b)
      regroup (inr (inr c)) = inr c

      map_left : {A B C : Type 0} → (A → B) → A ⊎ C → B ⊎ C
      map_left f (inl a) = inl (f a)
      map_left f (inr c) = inr c

  Reports-none : (st : RaceState) → IsCached g st.cache_dfs → Reports g (λ pair p. ⊥) st (ok st)
  Reports-none st cached = record {
    after = st;
    returns = refl;
    cached = cached;
    exact = λ pair p. (inl, or_left (λ h. h));
  }

  check_pairs-Reports :
      (q : FilePath) (pairs : List (FsAccess × FsAccess)) (st : RaceState)
      → IsCached g st.cache_dfs
      → Reports g (λ pair p. Any (RaceAt g pair p q) pairs) st (check_pairs g q pairs st)
  unfolding check_pairs
  check_pairs-Reports q [] st cached = Reports-none st cached
  check_pairs-Reports q ((a, b) ∷ pairs) st cached =
      let first = check_pair-Reports g closed q a b st cached in
      Reports-then _ st first (check_pairs-Reports q pairs first.after first.cached)

  check_paths-Reports :
      (table : EffectTable) (st : RaceState)
      → IsCached g st.cache_dfs
      → Reports g
          (λ pair p.
            Any (λ (q, accesses). Any (RaceAt g pair p q) (get_2_combinations accesses)) table)
          st
          (check_paths g table st)
  unfolding check_paths
  check_paths-Reports [] st cached = Reports-none st cached
  check_paths-Reports ((q, accesses) ∷ table) st cached =
      let first = check_pairs-Reports q (get_2_combinations accesses) st cached in
      Reports-then _ st first (check_paths-Reports table first.after first.cached)

  -- On a graph whose dependents are all nodes, `GetFaults` with right searches cached returns, and
  -- its faults name a path for two events exactly where two accesses of that path are a race: they
  -- stand in this order, belong to the two events, are not both consuming, and the graph orders the
  -- events in neither direction. What an earlier call found is forgotten, and the cache stays right.
  pub get_faults-Reports :
      (table : EffectTable) (st : RaceState)
      → IsCached g st.cache_dfs
      → (after : RaceState) × (get_faults g table st ≡ ok after)
        × IsCached g after.cache_dfs
        × ((pair : Text × Text) (p : Text)
            → (reported pair p after.faults ≡ true)
              ↔ Any (λ (q, accesses). Any (RaceAt g pair p q) (get_2_combinations accesses)) table)
  unfolding get_faults find
  get_faults-Reports table st cached =
      let r = check_paths-Reports table (record st { faults = [] }) cached in
      (
        r.after,
        r.returns,
        r.cached,
        λ pair p. (λ h. not_before ((r.exact pair p).0 h), λ h. (r.exact pair p).1 (inr h)),
      )
    where
      not_before : {A : Type 0} → (false ≡ true) ⊎ A → A
      not_before (inl e) = absurd (not_both refl e)
        where
          not_both : {b : Bool} → b ≡ false → b ≢ true
          not_both e f = cc
      not_before (inr a) = a
