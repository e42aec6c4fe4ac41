-- ===== src/FsAnalyzer/Collect.antt =====
-- The end of `Analyze`: the accesses of each path.
use fsracer.Prelude.{
  ◌≡◌, refl, true, List, [], ◌∷◌, ◌++◌, text_ord, same, same_iff, Bool-cases, inl, inr,
  if◌then◌else◌, append-nil, append_assoc, sym, ap,
}
use fsracer.Collections.Map.{find, assign, find-assign}
use fsracer.FilePath.{FilePath, path_ord}
use fsracer.FsAnalyzer.{FsAccess, EffectTable, BlockAccesses}
use fsracer.FsAnalyzer.Blocks.{collect, or_none}

-- The accesses to one path, in the order of the table.
abbrev pub accesses_to : FilePath → BlockAccesses → List FsAccess
accesses_to p [] = []
accesses_to p (((q, _), access) ∷ rest) =
    let others = accesses_to p rest in if same p q then access ∷ others else others

-- What a path has in the table that the detector reads is what it had before, and behind it the
-- accesses of the blocks to that path and to no other, in the order of the events.
pub collect-accesses_to :
    (p : FilePath) (accesses : BlockAccesses) (effects : EffectTable)
    → or_none (find p (collect accesses effects))
      ≡ or_none (find p effects) ++ accesses_to p accesses
unfolding collect
collect-accesses_to p [] effects = sym (append-nil (or_none (find p effects)))
collect-accesses_to p (((q, e), access) ∷ rest) effects =
    let v = or_none (find q effects) ++ access ∷ [] in
    let later = collect-accesses_to p rest (assign q v effects) in
    elim (Bool-cases (same p q)) [
      | inl here ↦
          rw (later, find-assign p q v effects, here)
            (shift (or_none (find q effects)) (or_none (find p effects)) access (accesses_to p rest)
              (same_place here))
      | inr other ↦ rw (later, find-assign p q v effects, other) refl
    ]
  where
    shift :
        (u v : List FsAccess) (a : FsAccess) (r : List FsAccess)
        → u ≡ v
        → (u ++ a ∷ []) ++ r ≡ v ++ a ∷ r
    shift u v a r e = rw e (append_assoc v (a ∷ []) r)

    same_place : same p q ≡ true → or_none (find q effects) ≡ or_none (find p effects)
    same_place here = ap (λ k. or_none (find k effects)) (sym ((same_iff p q).0 here))
