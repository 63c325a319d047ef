-- ===== src/Cache/Contents.antt =====
-- What src/mind3/core/cache.py gives back, and what its keys tell apart.
use Prim.Native.String.{◌++◌ as append}
use text.Mathlib.Text.{◌==◌ as str_eq}
use text.Mathlib.TextEquality.{eq_iff}
use mind.Prelude.{
  ℕ, ◌+◌, String, List, [], ◌∷◌, ◌++◌, append_assoc, some, if◌then◌else◌, ◌≡◌, refl, sym, ap, ◌∙◌,
  inl, inr, Bool-cases, Option-cases, arith,
}
use mind.Driver.Trace.{Payload}
use mind.Cache.Store.{
  Loaded, malformed, no_dict, loaded_dict, Json, Cache, loaded, read_entry, write_entry, get,
  put_result, entry_of, Hasher, stream, sort_sources, insert_source, hash_sources, compute_key,
}

read_entry-write_entry :
    (key text k : String) (entries : List (String × String))
    → read_entry k (write_entry key text entries)
      ≡ (if str_eq k key then some text else read_entry k entries)
unfolding read_entry write_entry
read_entry-write_entry key text k [] = refl
read_entry-write_entry key text k ((n, t) ∷ entries) = elim (Bool-cases (str_eq key n)) [
  | inl e ↦
      let q : str_eq k key ≡ str_eq k n = ap (str_eq k) ((eq_iff key n).0 e) in
      rw (e, q) (elim (Bool-cases (str_eq k n)) [ inl p ↦ rw p refl | inr p ↦ rw p refl ])
  | inr e ↦ rw e (elim (Bool-cases (str_eq k n)) [
    | inr p ↦ rw p (read_entry-write_entry key text k entries)
    | inl p ↦ elim (Bool-cases (str_eq k key)) [
      | inr q ↦ rw (p, q) refl
      | inl q ↦
          absurd (ground (arith, e, (eq_iff key n).1 (sym ((eq_iff k key).0 q) ∙ (eq_iff k n).0 p)))
    ]
  ])
]

-- What a lookup counts does not depend on the files that stand beside its own.
same_counts :
    (j : Json) (c : Cache) (entries : List (String × String)) (l : Loaded)
    → let (d, found) = loaded j (record c { entries = entries }) l in
      let (b, before) = loaded j c l in (found ≡ before) × (d.hits ≡ b.hits) × (d.misses ≡ b.misses)
unfolding loaded
same_counts j c entries malformed = (refl, refl, refl)
same_counts j c entries no_dict = (refl, refl, refl)
same_counts j c entries (loaded_dict r) = (refl, refl, refl)

-- If JSON gives back the stored entry, a lookup behind the store returns the stored result and counts
-- a hit at its key, and at every other key it returns and counts what it did before the store.
pub get-put_result :
    (j : Json) (key gate k : String) (result : Payload) (c : Cache)
    → j.loads (j.dumps (entry_of key gate result)) ≡ loaded_dict (some result)
    → let (d, found) = get j k (put_result j key gate result c) in
      let (b, before) = get j k c in
      let same = str_eq k key in
      (found ≡ (if same then some result else before))
      × (d.hits ≡ (if same then c.hits + 1 else b.hits))
      × (d.misses ≡ (if same then c.misses else b.misses))
unfolding get put_result loaded
get-put_result j key gate k result c h =
    let read = read_entry-write_entry key (j.dumps (entry_of key gate result)) k c.entries in
    elim (Bool-cases (str_eq k key)) [
      | inl p ↦ rw (read, p, h) (refl, refl, refl)
      | inr p ↦
          rw (read, p)
            (elim (Option-cases (read_entry k c.entries)) [
              | inl q ↦ rw q (refl, refl, refl)
              | inr (text, q) ↦ rw q (same_counts j c _ (j.loads text))
            ])
    ]

stream-moved :
    (h : Hasher) (folder name moved : String) (bytes : List ℕ)
    → ((s t : String) → h.encode (append s t) ≡ h.encode s ++ h.encode t)
    → stream h (record { folder = folder; name = append name moved; bytes = some bytes } ∷ [])
      ≡ stream h
          (record { folder = folder; name = name; bytes = some (h.encode moved ++ bytes) } ∷ [])
unfolding stream
stream-moved h folder name moved bytes e =
    ap (λ l. l ++ bytes ++ []) (e name moved)
    ∙ ap (λ l. l ++ []) (append_assoc (h.encode name) (h.encode moved) bytes)

-- The hash of one source does not tell where its name ends and its contents begin: a part of the
-- name can move to the front of the bytes, so two files of one folder, with different names and
-- contents, have one key, if encoding respects concatenation.
pub compute_key-ambiguous :
    (h : Hasher) (folder name moved contract gate flags : String) (bytes : List ℕ)
    → ((s t : String) → h.encode (append s t) ≡ h.encode s ++ h.encode t)
    → compute_key h
        (record { folder = folder; name = append name moved; bytes = some bytes } ∷ [])
        contract
        gate
        flags
      ≡ compute_key h
          (record { folder = folder; name = name; bytes = some (h.encode moved ++ bytes) } ∷ [])
          contract
          gate
          flags
unfolding compute_key hash_sources stream sort_sources insert_source
compute_key-ambiguous h folder name moved contract gate flags bytes e =
    ap
      (λ d. h.sha256 (
        h.encode (
          append (h.sha256 d)
            (append "|" (append contract (append "|" (append gate (append "|" flags))))))))
      (stream-moved h folder name moved bytes e)
