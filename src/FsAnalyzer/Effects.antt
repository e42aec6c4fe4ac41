-- ===== src/FsAnalyzer/Effects.antt =====
-- `AddPathEffect`: the accesses of one event to one path become one access, or none.
use fsracer.Prelude.{
  ◌≡◌, subst, refl, Bool, true, false, not, ◌&&◌, Option, none, some, Text, text_ord, pair_ord,
  same, same_iff, ok, ◌>>=◌, if◌then◌else◌, Ord,
}
use fsracer.Collections.Map.{find, assign, erase, find-assign, find-erase}
use fsracer.Operation.{EffectType, consumed, produced, expunged}
use fsracer.FilePath.{FilePath, path_ord}
use fsracer.Table
use fsracer.Table.{pop_entry, add_entry, get_value}
use fsracer.FsAnalyzer.{FsAccess, BlockAccesses, add_path_effect, merge, store_access}

abbrev pub reads : FsAccess → Bool
reads a = elim a.effect_type [ consumed ↦ true | produced ↦ false | expunged ↦ false ]

abbrev pub produces : FsAccess → Bool
produces a = elim a.effect_type [ consumed ↦ false | produced ↦ true | expunged ↦ false ]

abbrev expunges : FsAccess → Bool
expunges a = elim a.effect_type [ consumed ↦ false | produced ↦ false | expunged ↦ true ]

abbrev pub writes_before : Option FsAccess → Bool
writes_before none = false
writes_before (some old) = not (reads old)

abbrev pub produces_before : Option FsAccess → Bool
produces_before none = false
produces_before (some old) = produces old

-- What is kept of an access after what was kept before it: a read does not replace a write, an access that
-- expunges what the event has produced leaves none, and any other access is the one that is kept.
abbrev pub kept : Option FsAccess → FsAccess → Option FsAccess
kept before fresh =
    if reads fresh && writes_before before
    then before
    else if expunges fresh && produces_before before
    then none
    else some fresh

-- The two `switch` statements of `AddPathEffect` keep that.
merge-kept : (old fresh : FsAccess) → merge old fresh ≡ kept (some old) fresh
merge-kept old fresh = by_effect old.effect_type fresh.effect_type refl refl
  where
    by_effect :
        (e f : EffectType)
        → old.effect_type ≡ e
        → fresh.effect_type ≡ f
        → merge old fresh ≡ kept (some old) fresh
    by_effect consumed consumed e f = rw (e, f) refl
    by_effect consumed produced e f = rw (e, f) refl
    by_effect consumed expunged e f = rw (e, f) refl
    by_effect produced consumed e f = rw (e, f) refl
    by_effect produced produced e f = rw (e, f) refl
    by_effect produced expunged e f = rw (e, f) refl
    by_effect expunged consumed e f = rw (e, f) refl
    by_effect expunged produced e f = rw (e, f) refl
    by_effect expunged expunged e f = rw (e, f) refl

-- An access that does not come after another is kept.
kept-first : (fresh : FsAccess) → kept none fresh ≡ some fresh
kept-first fresh = by_effect fresh.effect_type refl
  where
    by_effect : (f : EffectType) → fresh.effect_type ≡ f → kept none fresh ≡ some fresh
    by_effect consumed f = rw f refl
    by_effect produced f = rw f refl
    by_effect expunged f = rw f refl

-- The table after it is the table before it, but for one key.
abbrev pub Updates : FilePath × Text → Option FsAccess → BlockAccesses → BlockAccesses → Type 0
Updates key o t t' = (k : FilePath × Text) → find k t' ≡ (if same k key then o else find k t)

store_access-Updates :
    (key : FilePath × Text) (old : FsAccess) (o : Option FsAccess) (t : BlockAccesses)
    → find key t ≡ some old
    → (t' : BlockAccesses) × (store_access key o t ≡ ok t') × Updates key o t t'
unfolding Table.remove_entry pop_entry
store_access-Updates key old none t e =
    (erase key t, rw (store_access, Table.remove_entry, pop_entry, e) refl, λ k. find-erase k key t)
store_access-Updates key old (some a) t e = (assign key a t, refl, λ k. find-assign k key a t)

-- `AddPathEffect` returns, and changes what the table has for the path and the event alone.
pub add_path_effect-Updates :
    (p : FilePath) (a : FsAccess) (t : BlockAccesses)
    → (t' : BlockAccesses) × (add_path_effect p a t ≡ ok t')
      × Updates (p, a.event_id) (kept (find (p, a.event_id) t) a) t t'
unfolding add_path_effect
add_path_effect-Updates p a t = go (find (p, a.event_id) t) refl
  where
    go :
        (o : Option FsAccess)
        → find (p, a.event_id) t ≡ o
        → (t' : BlockAccesses) × (add_path_effect p a t ≡ ok t')
          × Updates (p, a.event_id) (kept o a) t t'
    go none e = (
      assign (p, a.event_id) a t,
      rw (add_path_effect, e) refl,
      λ k. rw (kept-first a) (find-assign k (p, a.event_id) a t),
    )
    go (some old) e =
        let (t', returns, updates) = store_access-Updates (p, a.event_id) old (merge old a) t e in
        (
          t',
          rw (add_path_effect, e) returns,
          subst (λ o. Updates (p, a.event_id) o t t') (merge-kept old a) updates,
        )

same_refl : {A : Type 0} ⦃o : Ord A⦄ → (x : A) → same x x ≡ true
same_refl x = (same_iff x x).1 refl

kept-produced : (o : Option FsAccess) (a : FsAccess) → a.effect_type ≡ produced → kept o a ≡ some a
kept-produced none a e = rw e refl
kept-produced (some old) a e = rw e refl

kept-expunged :
    (old a : FsAccess)
    → old.effect_type ≡ produced
    → a.effect_type ≡ expunged
    → kept (some old) a ≡ none
kept-expunged old a e f = rw (f, e) refl

-- When an event produces a path and then expunges it, nothing is kept of its accesses to the path,
-- not even of a read that came before: whatever the table had, there is no access of the event then,
-- and the accesses of every other event and path stay as they were.
pub add_path_effect-produced-expunged :
    (p : FilePath) (a b : FsAccess) (t : BlockAccesses)
    → a.effect_type ≡ produced
    → b.effect_type ≡ expunged
    → a.event_id ≡ b.event_id
    → (t' : BlockAccesses) × ((add_path_effect p a t >>= add_path_effect p b) ≡ ok t')
      × Updates (p, b.event_id) none t t'
add_path_effect-produced-expunged p a b t ea eb own =
    let (t1, r1, u1) = add_path_effect-Updates p a t in
    let (t2, r2, u2) = add_path_effect-Updates p b t1 in
    let at_a : find (p, a.event_id) t1 ≡ some a =
      rw
        (
          u1 (p, a.event_id),
          same_refl {A = FilePath × Text} (p, a.event_id),
          kept-produced (find (p, a.event_id) t) a ea,
        )
        refl in
    let at_b : find (p, b.event_id) t1 ≡ some a = moved t1 at_a in
    let gone : kept (find (p, b.event_id) t1) b ≡ none = rw at_b (kept-expunged a b ea eb) in
    (
      t2,
      rw r1 r2,
      λ k. rw (u2 k, gone) (untouched k (same k (p, b.event_id)) t1 refl (moved_at k t1 (u1 k))),
    )
  where
    moved :
        (t1 : BlockAccesses) → find (p, a.event_id) t1 ≡ some a → find (p, b.event_id) t1 ≡ some a
    moved t1 h = subst (λ e. find (p, e) t1 ≡ some a) own h

    moved_at :
        (k : FilePath × Text) (t1 : BlockAccesses)
        → find k t1 ≡ (if same k (p, a.event_id) then kept (find (p, a.event_id) t) a else find k t)
        → find k t1 ≡ (if same k (p, b.event_id) then kept (find (p, b.event_id) t) a else find k t)
    moved_at k t1 h =
        subst (λ e. find k t1 ≡ (if same k (p, e) then kept (find (p, e) t) a else find k t)) own h

    untouched :
        (k : FilePath × Text) (here : Bool) (t1 : BlockAccesses)
        → same k (p, b.event_id) ≡ here
        → find k t1 ≡ (if same k (p, b.event_id) then kept (find (p, b.event_id) t) a else find k t)
        → (if here then none else find k t1) ≡ (if here then none else find k t)
    untouched k true t1 h u = refl
    untouched k false t1 h u = rw (u, h) refl
