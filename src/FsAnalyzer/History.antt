-- ===== src/FsAnalyzer/History.antt =====
-- `AddPathEffect` over all the accesses of a trace: what is left of the accesses of one event to one path.
use fsracer.Prelude.{
  ◌≡◌, refl, sym, ap, ◌∙◌, Bool, true, false, not, ◌&&◌, Option, none, some, List, [], ◌∷◌, Text,
  text_ord, pair_ord, same, same_iff, Result, ok, ◌>>=◌, if◌then◌else◌, Bool-cases, Option-cases,
  inl, inr,
}
use fsracer.Collections.Map.{find}
use fsracer.Operation.{EffectType, consumed, produced, expunged}
use fsracer.FilePath.{FilePath, path_ord}
use fsracer.FsAnalyzer.{FsAccess, BlockAccesses, add_path_effect}
use fsracer.FsAnalyzer.Effects.{
  reads, produces, writes_before, produces_before, kept, Updates, add_path_effect-Updates,
}

-- One call after another.
unfoldable pub add_all : List (FilePath × FsAccess) → BlockAccesses → Result BlockAccesses
unfolding add_path_effect
add_all [] t = ok t
add_all ((p, a) ∷ xs) t = add_path_effect p a t >>= add_all xs

-- The accesses of one event to one path, the latest first, before those that are given.
abbrev pub latest_first :
    FilePath × Text → List (FilePath × FsAccess) → List FsAccess → List FsAccess
latest_first k [] h = h
latest_first k ((p, a) ∷ xs) h = latest_first k xs (if same k (p, a.event_id) then a ∷ h else h)

abbrev latest : List FsAccess → Option FsAccess
latest [] = none
latest (a ∷ h) = some a

-- The latest access that writes, what came before it, and the reads since.
abbrev last_write : List FsAccess → Option FsAccess
last_write [] = none
last_write (a ∷ h) = if reads a then last_write h else some a

abbrev before_write : List FsAccess → List FsAccess
before_write [] = []
before_write (a ∷ h) = if reads a then before_write h else h

abbrev reads_since : List FsAccess → List FsAccess
reads_since [] = []
reads_since (a ∷ h) = if reads a then a ∷ reads_since h else []

-- Where the last two writes produce the path and expunge it, they leave no access, and only reads since then count.
abbrev is_cancelled : FsAccess → List FsAccess → Bool
is_cancelled w h = not (produces w) && produces_before (last_write (before_write h))

abbrev left_by : Option FsAccess → List FsAccess → Option FsAccess
left_by none h = latest h
left_by (some w) h = if is_cancelled w h then latest (reads_since h) else some w

-- The access that a history leaves: its last write, or, where it has none or that one is cancelled, the latest read.
abbrev pub remains : List FsAccess → Option FsAccess
remains h = left_by (last_write h) h

-- No write, or none at all.
abbrev IsNoWrite : Option FsAccess → Type 0
IsNoWrite o = (writes_before o ≡ false) × (produces_before o ≡ false)

read-IsNoWrite : (a : FsAccess) → reads a ≡ true → IsNoWrite (some a)
read-IsNoWrite a h = by_effect a.effect_type refl
  where
    by_effect : (e : EffectType) → a.effect_type ≡ e → IsNoWrite (some a)
    by_effect consumed e = rw e (refl, refl)
    by_effect produced e = let h' : false ≡ true = rw e at h in cc
    by_effect expunged e = let h' : false ≡ true = rw e at h in cc

reads_since-IsNoWrite : (h : List FsAccess) → IsNoWrite (latest (reads_since h))
reads_since-IsNoWrite [] = (refl, refl)
reads_since-IsNoWrite (a ∷ h) = elim (Bool-cases (reads a)) [
  | inl t ↦ rw t (read-IsNoWrite a t)
  | inr f ↦ rw f (refl, refl)
]

latest-IsNoWrite : (h : List FsAccess) → last_write h ≡ none → IsNoWrite (latest h)
latest-IsNoWrite [] e = (refl, refl)
latest-IsNoWrite (a ∷ h) e = elim (Bool-cases (reads a)) [
  | inl t ↦ read-IsNoWrite a t
  | inr f ↦ let e' : some a ≡ none = rw f at e in cc
]

last_write-reads : (h : List FsAccess) (w : FsAccess) → last_write h ≡ some w → reads w ≡ false
last_write-reads [] w e = cc
last_write-reads (a ∷ h) w e = elim (Bool-cases (reads a)) [
  | inl t ↦ last_write-reads h w (rw t at e)
  | inr f ↦
      let e' : some a ≡ some w = rw f at e in
      let same_access : a ≡ w = cc in ap reads (sym same_access) ∙ f
]

untrue : (b : Bool) → not b ≡ true → b ≡ false
untrue true h = cc
untrue false h = refl

cancelled-produces :
    (w : FsAccess) (h : List FsAccess) → is_cancelled w h ≡ true → produces w ≡ false
cancelled-produces w h c = untrue (produces w) (first (not (produces w)) c)
  where
    first : (b : Bool) → (b && produces_before (last_write (before_write h))) ≡ true → b ≡ true
    first true c = refl
    first false c = cc

remains-produces :
    (h : List FsAccess) → produces_before (remains h) ≡ produces_before (last_write h)
remains-produces h = elim (Option-cases (last_write h)) [
  | inl e ↦
      ap (λ o. produces_before (left_by o h)) e
      ∙ ((latest-IsNoWrite h e).1 ∙ sym (ap produces_before e))
  | inr (w, e) ↦
      ap (λ o. produces_before (left_by o h)) e ∙ (by_cancelled w ∙ sym (ap produces_before e))
]
  where
    by_cancelled : (w : FsAccess) → produces_before (left_by (some w) h) ≡ produces w
    by_cancelled w = elim (Bool-cases (is_cancelled w h)) [
      | inl t ↦ rw t ((reads_since-IsNoWrite h).1 ∙ sym (cancelled-produces w h t))
      | inr f ↦ rw f refl
    ]

-- A read behind a write that remains, and behind anything else.
kept-read-write :
    (o : Option FsAccess) (a : FsAccess)
    → a.effect_type ≡ consumed
    → writes_before o ≡ true
    → kept o a ≡ o
kept-read-write o a r h = rw (r, h) refl

kept-read-no_write :
    (o : Option FsAccess) (a : FsAccess)
    → a.effect_type ≡ consumed
    → writes_before o ≡ false
    → kept o a ≡ some a
kept-read-no_write o a r h = rw (r, h) refl

remains-read :
    (a : FsAccess) (h : List FsAccess)
    → a.effect_type ≡ consumed
    → remains (a ∷ h) ≡ kept (remains h) a
remains-read a h r = elim (Option-cases (last_write h)) [
  | inl e ↦
      ap (λ o. left_by o (a ∷ h)) (behind ∙ e)
      ∙ sym (
          ap (λ o. kept (left_by o h) a) e
          ∙ kept-read-no_write (latest h) a r ((latest-IsNoWrite h e).0))
  | inr (w, e) ↦
      ap (λ o. left_by o (a ∷ h)) (behind ∙ e)
      ∙ (by_cancelled w (last_write-reads h w e) ∙ sym (ap (λ o. kept (left_by o h) a) e))
]
  where
    behind : last_write (a ∷ h) ≡ last_write h
    behind = rw r refl

    by_cancelled :
        (w : FsAccess) → reads w ≡ false → left_by (some w) (a ∷ h) ≡ kept (left_by (some w) h) a
    by_cancelled w writes = elim (Bool-cases (is_cancelled w h)) [
      | inl t ↦
          let left : left_by (some w) (a ∷ h) ≡ some a = rw (r, t) refl in
          let right : kept (left_by (some w) h) a ≡ some a =
            rw t (kept-read-no_write (latest (reads_since h)) a r ((reads_since-IsNoWrite h).0)) in
          left ∙ sym right
      | inr f ↦
          let left : left_by (some w) (a ∷ h) ≡ some w = rw (r, f) refl in
          let right : kept (left_by (some w) h) a ≡ some w =
            rw f (kept-read-write (some w) a r (rw writes refl)) in
          left ∙ sym right
    ]

remains-kept : (a : FsAccess) (h : List FsAccess) → remains (a ∷ h) ≡ kept (remains h) a
remains-kept a h = by_effect a.effect_type refl
  where
    by_effect : (e : EffectType) → a.effect_type ≡ e → remains (a ∷ h) ≡ kept (remains h) a
    by_effect consumed e = remains-read a h e
    by_effect produced e = rw e refl
    by_effect expunged e = rw (e, remains-produces h) refl

-- One more call.
one-more :
    (p : FilePath) (a : FsAccess) (past : FilePath × Text → List FsAccess) (t t1 : BlockAccesses)
    → ((k : FilePath × Text) → find k t ≡ remains (past k))
    → Updates (p, a.event_id) (kept (find (p, a.event_id) t) a) t t1
    → (k : FilePath × Text)
    → find k t1 ≡ remains (if same k (p, a.event_id) then a ∷ past k else past k)
one-more p a past t t1 before u k = elim (Bool-cases (same k (p, a.event_id))) [
  | inl here ↦
      let at_key : k ≡ (p, a.event_id) =
        (same_iff {A = FilePath × Text} k (p, a.event_id)).0 here in
      let now : find k t1 ≡ kept (find (p, a.event_id) t) a = rw here at (u k) in
      let then_there : kept (find (p, a.event_id) t) a ≡ remains (a ∷ past k) =
        ap (λ j. kept (find j t) a) (sym at_key)
        ∙ (ap (λ o. kept o a) (before k) ∙ sym (remains-kept a (past k))) in
      now ∙ (then_there ∙ ap (λ b. remains (if b then a ∷ past k else past k)) (sym here))
  | inr other ↦
      let now : find k t1 ≡ find k t = rw other at (u k) in
      now ∙ (before k ∙ ap (λ b. remains (if b then a ∷ past k else past k)) (sym other))
]

add_all-from :
    (xs : List (FilePath × FsAccess)) (past : FilePath × Text → List FsAccess) (t : BlockAccesses)
    → ((k : FilePath × Text) → find k t ≡ remains (past k))
    → (t' : BlockAccesses) × (add_all xs t ≡ ok t')
      × ((k : FilePath × Text) → find k t' ≡ remains (latest_first k xs (past k)))
unfolding add_all
add_all-from [] past t before = (t, refl, before)
add_all-from ((p, a) ∷ xs) past t before =
    let (t1, r, u) = add_path_effect-Updates p a t in
    let (t', r', after) =
      add_all-from xs
        (λ (k : FilePath × Text). if same k (p, a.event_id) then a ∷ past k else past k) t1
        (one-more p a past t t1 before u) in
    let returns : add_all ((p, a) ∷ xs) t ≡ ok t' = rw r r' in (t', returns, after)

-- `AddPathEffect`, called for any accesses one after another on an empty table, always returns, and then the
-- table has for each path and event what the accesses of that event to that path leave: the last of them that
-- writes, or the last one at all where none writes. If the event expunges the path last and has produced it in
-- its write before, the two leave nothing, and the last read since is there, if there is one.
pub add_all-remains :
    (xs : List (FilePath × FsAccess))
    → (t : BlockAccesses) × (add_all xs [] ≡ ok t)
      × ((k : FilePath × Text) → find k t ≡ remains (latest_first k xs []))
unfolding find
add_all-remains xs = add_all-from xs (λ k. []) [] (λ k. refl)
