-- ===== src/Driver/Rollback.antt =====
-- What the snapshot of src/mind3/core/driver.py gives back: _create_snapshot, then any change to the
-- workspace, then _restore_snapshot.
use text.Mathlib.Text.{◌==◌}
use text.Mathlib.TextEquality.{eq_iff}
use mind.Prelude.{
  String, not, [], ◌∷◌, ◌≡◌, ◌≢◌, ◌⊎◌, refl, sym, ◌∙◌, subst, ap, false, Option, none, some, keep,
  inl, inr, if◌then◌else◌, Bool-cases, arith,
}
use mind.Driver.Snapshot.{
  Entry, Entries, symlink, file, dir, empty, item, Files, copy_entry, copytree, is_mind, put,
  copy_items, create_snapshot, restore_snapshot, find, stored, restored, copy_back, placed,
}

-- A directory: no name stands twice.
abbrev pub IsDirectory : Files → Type 0
IsDirectory [] = Unit
IsDirectory ((n, e) ∷ fs) = (find n fs ≡ none) × IsDirectory fs

mutual
  unfolding copy_entry

  copy_entry_self : (e : Entry) → copy_entry e ≡ e
  copy_entry_self (symlink target) = refl
  copy_entry_self (file content) = refl
  copy_entry_self (dir es) = ap dir (copytree_self es)

  copytree_self : (es : Entries) → copytree es ≡ es
  copytree_self empty = refl
  copytree_self (item name e es) = rw (copy_entry_self e, copytree_self es)

find-put :
    (j n : String) (e : Entry) (fs : Files)
    → find j (put n e fs) ≡ (if n == j then some e else find j fs)
unfolding find put
find-put j n e [] = refl
find-put j n e ((m, x) ∷ fs) = ground (arith, eq_iff m n, eq_iff m j, eq_iff n j, find-put j n e fs)

-- The first of two entries that is there.
abbrev or_else : Option Entry → Option Entry → Option Entry
or_else none b = b
or_else (some a) b = some a

find-copy_items :
    (j : String) (fs dest : Files)
    → IsDirectory fs
    → find j (copy_items fs dest) ≡ or_else (find j fs) (find j dest)
unfolding find copy_items
find-copy_items j [] dest h = refl
find-copy_items j ((n, e) ∷ fs) dest h = ground (
  arith,
  eq_iff n j,
  find-copy_items j fs (put n (copy_entry e) dest) h.1,
  find-put j n (copy_entry e) dest,
  copy_entry_self e,
)

find-keep_mind :
    (j : String) (fs : Files)
    → find j (keep is_mind fs) ≡ (if j == ".mind" then find j fs else none)
unfolding find
find-keep_mind j [] = ground arith
find-keep_mind j ((n, e) ∷ fs) =
    ground (arith, eq_iff n j, eq_iff n ".mind", eq_iff j ".mind", find-keep_mind j fs)

find-keep_rest :
    (j : String) (fs : Files)
    → find j (keep (λ f. not (is_mind f)) fs) ≡ (if j == ".mind" then none else find j fs)
unfolding find
find-keep_rest j [] = ground arith
find-keep_rest j ((n, e) ∷ fs) =
    ground (arith, eq_iff n j, eq_iff n ".mind", eq_iff j ".mind", find-keep_rest j fs)

keep_rest-IsDirectory : (fs : Files) → IsDirectory fs → IsDirectory (keep (λ f. not (is_mind f)) fs)
keep_rest-IsDirectory [] h = tt
keep_rest-IsDirectory ((n, e) ∷ fs) h = elim (Bool-cases (n == ".mind")) [
  | inl p ↦ simp p (keep_rest-IsDirectory fs h.1)
  | inr p ↦ simp p (ground (arith, find-keep_rest n fs), keep_rest-IsDirectory fs h.1)
]

put-IsDirectory : (n : String) (e : Entry) (fs : Files) → IsDirectory fs → IsDirectory (put n e fs)
unfolding find put
put-IsDirectory n e [] h = (refl, tt)
put-IsDirectory n e ((m, x) ∷ fs) h = elim (Bool-cases (m == n)) [
  | inl p ↦ simp p h
  | inr p ↦
      simp p (ground (arith, eq_iff m n, eq_iff n m, find-put m n e fs), put-IsDirectory n e fs h.1)
]

copy_items-IsDirectory : (fs dest : Files) → IsDirectory dest → IsDirectory (copy_items fs dest)
unfolding copy_items
copy_items-IsDirectory [] dest h = h
copy_items-IsDirectory ((n, e) ∷ fs) dest h =
    copy_items-IsDirectory fs (put n (copy_entry e) dest) (put-IsDirectory n (copy_entry e) dest h)

-- No name stands in both.
abbrev Apart : Files → Files → Type 0
Apart fs dest = (j : String) → (find j fs ≡ none) ⊎ (find j dest ≡ none)

some-ne-none : {A : Type 0} {a : A} → some a ≢ none
some-ne-none e = cc

find_first : (n : String) (e : Entry) (fs : Files) → find n ((n, e) ∷ fs) ≡ some e
unfolding find
find_first n e fs = ground (arith, eq_iff n n)

find_second :
    (j n : String) (e : Entry) (fs : Files) → (n == j) ≡ false → find j ((n, e) ∷ fs) ≡ find j fs
unfolding find
find_second j n e fs p = rw p refl

-- Items that meet no other one are copied, all of them.
copy_back-items :
    (fs dest : Files)
    → IsDirectory fs
    → Apart fs dest
    → copy_back fs dest ≡ restored (copy_items fs dest)
unfolding copy_back copy_items placed
copy_back-items [] dest d a = refl
copy_back-items ((n, e) ∷ fs) dest d a =
    let free : find n dest ≡ none = elim (a n) [
      | inl p ↦ absurd (some-ne-none (sym (find_first n e fs) ∙ p))
      | inr q ↦ q
    ] in
    let rest : Apart fs (put n (copy_entry e) dest) = λ j. elim (Bool-cases (n == j)) [
      | inl p ↦ inl (subst (λ i. find i fs ≡ none) ((eq_iff n j).0 p) d.0)
      | inr p ↦ elim (a j) [
        | inl q ↦ inl (sym (find_second j n e fs p) ∙ q)
        | inr q ↦ inr (find-put j n (copy_entry e) dest ∙ rw p q)
      ]
    ] in
    rw (free, copy_back) (copy_back-items fs (put n (copy_entry e) dest) d.1 rest)

-- Restoring the snapshot of a workspace over any later workspace gives back, at every name but
-- `.mind`, what the workspace held when the snapshot was made, and leaves `.mind` as it is.
pub restore-create_snapshot :
    (ws later : Files)
    → IsDirectory ws
    → (back : Files) × (restore_snapshot (stored (create_snapshot ws).0) later ≡ restored back)
      × ((j : String) → find j back ≡ (if j == ".mind" then find j later else find j ws))
unfolding restore_snapshot create_snapshot
restore-create_snapshot ws later h =
    let items = keep (λ f. not (is_mind f)) ws in
    let snap = copy_items items [] in
    let kept = keep is_mind later in
    let snap-at : (j : String) → find j snap ≡ or_else (find j items) none =
      λ j. find-copy_items j items [] (keep_rest-IsDirectory ws h) in
    (
      copy_items snap kept,
      copy_back-items snap kept (copy_items-IsDirectory items [] tt) (λ j.
          elim (Bool-cases (j == ".mind")) [
            | inl p ↦ inl (ground (arith, snap-at j, find-keep_rest j ws, p))
            | inr p ↦ inr (ground (arith, find-keep_mind j later, p))
          ]),
      λ j. ground (
        arith,
        find-copy_items j snap kept (copy_items-IsDirectory items [] tt),
        snap-at j,
        find-keep_rest j ws,
        find-keep_mind j later,
      ),
    )
