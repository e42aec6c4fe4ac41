-- ===== src/InodeTable/ToInode.antt =====
-- `ToInode`: it ends exactly on absolute paths, and a second call finds the inode of the first.
use fsracer.Prelude.{
  ℕ, zero, suc, ◌+◌, ◌≤◌, ◌≡◌, ◌≢◌, refl, true, false, Option, none, some, [], ◌∷◌, codes, text_ord,
  nat_ord, pair_ord, same, same_iff, arith, Bool-cases, inl, inr, ok, fail, out_of_fuel, subst, ◌⊎◌,
  if◌then◌else◌, length,
}
use fsracer.Collections.Map.{find, find-assign}
use fsracer.Trace.{drop_last}
use fsracer.FilePath.{FilePath, path_ord, root, is_absolute, parent_path, filename}
use fsracer.InodeTable.{
  InodeTable, InodeKey, to_inode, to_inode_in, inode_below, get_inode, add_new_entry, add_entry_for,
}

length-drop_last : (p : FilePath) → p ≢ [] → length (drop_last p) + 1 ≡ length p
length-drop_last [] h = absurd (h refl)
length-drop_last (e ∷ []) h = omega arith
length-drop_last (e ∷ e' ∷ p) h = ground (arith, length-drop_last (e' ∷ p) (λ q. cc))

pub is_absolute-drop_last :
    (p : FilePath) → is_absolute p ≡ true → p ≢ root → is_absolute (drop_last p) ≡ true
is_absolute-drop_last [] h r = cc
is_absolute-drop_last (e ∷ []) h r = absurd (r (ground (arith, text_ord.cmp_iff e (codes "/"))))
is_absolute-drop_last (e ∷ e' ∷ p) h r = h

relative-drop_last : (p : FilePath) → is_absolute p ≡ false → is_absolute (drop_last p) ≡ false
relative-drop_last [] h = refl
relative-drop_last (e ∷ []) h = refl
relative-drop_last (e ∷ e' ∷ p) h = h

absolute_ne_nil : (p : FilePath) → is_absolute p ≡ true → p ≢ []
absolute_ne_nil [] h = cc
absolute_ne_nil (e ∷ p) h = λ q. cc

-- The path leads to the inode by the entries of the table, one for each element below the root.
pub data Leads (t : InodeTable) : FilePath → ℕ → Type 0 where
  top : Leads t root 1
  below :
      {p : FilePath} {i j : ℕ}
      → p ≢ root
      → Leads t (parent_path p) j
      → find (j, filename p) t.table ≡ some i
      → Leads t p i

-- Each entry of the one table is an entry of the other.
abbrev pub Extends : InodeTable → InodeTable → Type 0
Extends t t' = (key : InodeKey) (i : ℕ) → find key t.table ≡ some i → find key t'.table ≡ some i

pub Leads-Extends :
    (t t' : InodeTable) → Extends t t' → (p : FilePath) (i : ℕ) → Leads t p i → Leads t' p i
Leads-Extends t t' ext p i top = top
Leads-Extends t t' ext p i (below {j = j} ne up e) =
    below ne (Leads-Extends t t' ext (parent_path p) j up) (ext (j, filename p) i e)

inode_below-Extends : (j : ℕ) (p : FilePath) (t : InodeTable) → Extends t (inode_below j p t).1
unfolding inode_below get_inode add_new_entry add_entry_for
inode_below-Extends j p t key i e = go (find (j, filename p) t.table) refl
  where
    go :
        (o : Option ℕ)
        → find (j, filename p) t.table ≡ o
        → find key (inode_below j p t).1.table ≡ some i
    go none miss =
        rw (inode_below, get_inode, miss, find-assign key (j, filename p) t.next_inode t.table)
          (fresh (Bool-cases (same key (j, filename p))) miss)
      where
        fresh :
            (same key (j, filename p) ≡ true) ⊎ (same key (j, filename p) ≡ false)
            → find (j, filename p) t.table ≡ none
            → (if same key (j, filename p) then some t.next_inode else find key t.table) ≡ some i
        fresh (inl here) miss =
            let at_key : key ≡ (j, filename p) = (same_iff key (j, filename p)).0 here in
            let e' : find (j, filename p) t.table ≡ some i =
              subst (λ k. find k t.table ≡ some i) at_key e in
            cc
        fresh (inr other) miss = rw other e
    go (some k) hit = rw (inode_below, get_inode, hit) e

inode_below-find :
    (j : ℕ) (p : FilePath) (t : InodeTable)
    → find (j, filename p) (inode_below j p t).1.table ≡ some (inode_below j p t).0
unfolding inode_below get_inode add_new_entry add_entry_for
inode_below-find j p t = go (find (j, filename p) t.table) refl
  where
    go :
        (o : Option ℕ)
        → find (j, filename p) t.table ≡ o
        → find (j, filename p) (inode_below j p t).1.table ≡ some (inode_below j p t).0
    go none miss =
        let key : InodeKey = (j, filename p) in
        rw
          (
            inode_below,
            get_inode,
            miss,
            find-assign key key t.next_inode t.table,
            (same_iff key key).1 refl,
          )
          refl
    go (some k) hit = rw (inode_below, get_inode, hit) hit

Leads-to_inode_in :
    (fuel : ℕ) (p : FilePath) (i : ℕ) (t : InodeTable)
    → length p ≤ fuel
    → is_absolute p ≡ true
    → Leads t p i
    → to_inode_in fuel p t ≡ ok (i, t)
unfolding to_inode_in inode_below get_inode
Leads-to_inode_in zero [] i t h a l = cc
Leads-to_inode_in zero (e ∷ p) i t h a l = absurd (omega arith)
Leads-to_inode_in (suc fuel) p i t h a top = refl
Leads-to_inode_in (suc fuel) p i t h a (below {j = j} ne up e) =
    let rest =
      Leads-to_inode_in fuel (parent_path p) j t
        (omega (arith, length-drop_last p (absolute_ne_nil p a))) (is_absolute-drop_last p a ne)
        up in
    let other : same p root ≡ false = ground (arith, path_ord.cmp_iff p root) in
    rw (other, rest) (rw (inode_below, get_inode, e) refl)

to_inode_in-Leads :
    (fuel : ℕ) (p : FilePath) (t : InodeTable)
    → length p ≤ fuel
    → is_absolute p ≡ true
    → (i : ℕ) × (t' : InodeTable) × (to_inode_in fuel p t ≡ ok (i, t'))
      × Extends t t'
      × Leads t' p i
unfolding to_inode_in
to_inode_in-Leads zero [] t h a = cc
to_inode_in-Leads zero (e ∷ p) t h a = absurd (omega arith)
to_inode_in-Leads (suc fuel) p t h a = elim (Bool-cases (same p root)) [
  | inl is_root ↦
      let at_root : p ≡ root = (same_iff p root).0 is_root in
      (1, t, rw is_root (ground arith), λ key i e. e, rw at_root top)
  | inr other ↦
      let ne : p ≢ root = λ q. ground (arith, path_ord.cmp_iff p root) in
      let (j, t', e, ext, up) =
        to_inode_in-Leads fuel (parent_path p) t
          (omega (arith, length-drop_last p (absolute_ne_nil p a)))
          (is_absolute-drop_last p a ne) in
      let t'' = (inode_below j p t').1 in
      let ext' = inode_below-Extends j p t' in
      (
        (inode_below j p t').0,
        t'',
        rw (other, e) refl,
        λ key i f. ext' key i (ext key i f),
        below ne (Leads-Extends t' t'' ext' (parent_path p) j up) (inode_below-find j p t'),
      )
]

-- On an absolute path `ToInode` returns, with fuel for each element. The entries that were there stay,
-- and the path leads to the inode by the entries that are there now. So it does in every later call:
-- for each absolute path that leads to an inode by the entries, `ToInode` returns that inode and
-- changes nothing.
pub to_inode-Leads :
    (p : FilePath) (t : InodeTable)
    → is_absolute p ≡ true
    → (i : ℕ) × (t' : InodeTable) × (to_inode p t ≡ ok (i, t'))
      × Extends t t'
      × Leads t' p i
      × ((q : FilePath) (j : ℕ) → is_absolute q ≡ true → Leads t' q j → to_inode q t' ≡ ok (j, t'))
unfolding to_inode
to_inode-Leads p t a =
    let (i, t', e, ext, l) = to_inode_in-Leads (suc (length p)) p t (omega arith) a in
    (i, t', e, ext, l, λ q j b m. Leads-to_inode_in (suc (length q)) q j t' (omega arith) b m)

-- On any other path the calls go on below the empty path for ever.
pub to_inode_in_diverges :
    (fuel : ℕ) (p : FilePath) (t : InodeTable)
    → is_absolute p ≡ false
    → to_inode_in fuel p t ≡ fail out_of_fuel
unfolding to_inode_in
to_inode_in_diverges zero p t a = refl
to_inode_in_diverges (suc fuel) p t a = ground (
  arith,
  path_ord.cmp_iff p root,
  to_inode_in_diverges fuel (drop_last p) t (relative-drop_last p a),
)
