-- ===== src/Action/Writes.antt =====
-- What a write of src/mind3/core/driver.py's _execute_action changes on the disk, and where it changes nothing.
use mind.Prelude.{
  String, Bool, true, [], ◌∷◌, ◌++◌, Option, none, some, ◌≡◌, ◌≢◌, refl, sym, ◌∙◌, ap, subst, ◌⊎◌,
  inl, inr, Bool-cases, append_assoc,
}
use mind.Driver.Host.{Result, ok, raised}
use mind.Action.Paths.{FilePath, is_relative_to, same_path}
use mind.Action.Ancestors.{relative_refl, relative_append, same_path-equal}
use mind.Action.Disk.{
  Item, file, directory, Disk, store, make_directories, write_text, write_after, write_file_at,
}

Item-cases :
    (o : Option Item) → (o ≡ none) ⊎ ((o ≡ some directory) ⊎ ((c : String) × (o ≡ some (file c))))
Item-cases none = inl refl
Item-cases (some directory) = inr (inl refl)
Item-cases (some (file c)) = inr (inr (c, refl))

store-changes :
    (path : FilePath) (item : Item) (disk : Disk) (q : FilePath)
    → (store path item disk q ≡ disk q) ⊎ (path ≡ q)
unfolding store
store-changes path item disk q = elim (Bool-cases (same_path path q)) [
  | inl e ↦ inr (same_path-equal path q e)
  | inr e ↦ inl (rw e refl)
]

-- What stands at a place is kept, or nothing stood there and the place is one of those tested.
abbrev Creates : Option Item → Option Item → Bool → Type 0
Creates before after tested = (after ≡ before) ⊎ ((before ≡ none) × (tested ≡ true))

-- A directory is made only at an ancestor of the path where nothing stood.
make_directories-changes :
    (above rest : FilePath) (disk : Disk) (q : FilePath)
    → Creates (disk q) ((make_directories above rest disk).0 q) (is_relative_to (above ++ rest) q)
unfolding make_directories
make_directories-changes above [] disk q = inl refl
make_directories-changes above (p ∷ rest) disk q =
    let here = above ++ p ∷ [] in
    let path : here ++ rest ≡ above ++ p ∷ rest = append_assoc above (p ∷ []) rest in
    let ih = make_directories-changes here rest (store here directory disk) q in
    elim (Item-cases (disk here)) [
      | inl e ↦
          rw (e, make_directories, sym path)
            (elim (store-changes here directory disk q) [
              | inr same ↦ inr (
                ap disk (sym same) ∙ e,
                subst (λ r. is_relative_to (here ++ rest) r ≡ true) same
                    (relative_append here rest here (relative_refl here)),
              )
              | inl kept ↦
                  subst
                    (λ b.
                      Creates b ((make_directories here rest (store here directory disk)).0 q)
                        (is_relative_to (here ++ rest) q))
                    kept ih
            ])
      | inr (inl e) ↦ rw (e, make_directories, sym path) (make_directories-changes here rest disk q)
      | inr (inr (c, e)) ↦ rw (e, make_directories) (inl refl)
    ]

write_text-keeps :
    (path : FilePath) (content : String) (disk : Disk) (q : FilePath)
    → path ≢ q
    → (write_text path content disk).0 q ≡ disk q
unfolding write_text
write_text-keeps path content disk q n =
    let stored : store path (file content) disk q ≡ disk q =
      elim (store-changes path (file content) disk q) [ inl e ↦ e | inr e ↦ absurd (n e) ] in
    elim (Item-cases (disk path)) [
      | inl e ↦ rw (e, write_text) stored
      | inr (inl e) ↦ rw (e, write_text) refl
      | inr (inr (c, e)) ↦ rw (e, write_text) stored
    ]

write_after-keeps :
    (path : FilePath) (content : String) (made : Disk × Result (Unit {0})) (q : FilePath)
    → path ≢ q
    → (write_after path content made).0 q ≡ made.0 q
unfolding write_after
write_after-keeps path content (disk, ok t) q n = write_text-keeps path content disk q n
write_after-keeps path content (disk, raised e) q n = refl

-- Where a write to a file changes nothing: at another place, if something stands there or it is no
-- directory above the file.
pub write_file_at-keeps :
    (parent path : FilePath) (content : String) (disk : Disk) (q : FilePath)
    → path ≢ q
    → (is_relative_to parent q ≡ true → disk q ≢ none)
    → (write_file_at parent path content disk).0 q ≡ disk q
unfolding write_file_at
write_file_at-keeps parent path content disk q n above =
    elim (make_directories-changes [] parent disk q) [
      | inr (e, r) ↦ absurd (above r e)
      | inl e ↦ write_after-keeps path content (make_directories [] parent disk) q n ∙ e
    ]
