-- ===== src/Cache/Store.antt =====
-- ContentAddressedCache of src/mind3/core/cache.py: its files, its counters and its keys. SHA-256, UTF-8
-- and JSON are parameters.
use Prim.Native.Nat.{Ordering}
use Prim.Native.String.{◌++◌ as append, compare}
use text.Mathlib.Text.{◌==◌ as str_eq}
use mind.Prelude.{
  ℕ, ◌+◌, String, Bool, true, false, not, List, [], ◌∷◌, ◌++◌, Option, none, some, length,
  if◌then◌else◌, ◌==◌,
}
use mind.Prelude.Keep.{is_empty}
use mind.Driver.Trace.{
  Val, str, number, flag, optional, texts, reports, dict, Payload, end, field, get_field,
}

pub record CacheEntry : Type 0 where
  pub cache_key : String
  pub gate_name : String
  pub passed : Bool
  pub result : Payload

-- What the text of a file gives: `json.loads` raises, or returns no dict, or a dict with what it has
-- at `result`.
pub data Loaded : Type 0 where
  malformed : Loaded
  no_dict : Loaded
  loaded_dict : Option Payload → Loaded

-- `json.dumps` of an entry, and `json.loads` of a text.
pub record Json : Type 0 where
  pub dumps : CacheEntry → String
  pub loads : String → Loaded

pub record Cache : Type 0 where
  pub entries : List (String × String)
  pub hits : ℕ
  pub misses : ℕ

-- The text of the file `<key>.json`.
unfoldable pub read_entry : String → List (String × String) → Option String
read_entry key [] = none
read_entry key ((k, text) ∷ entries) = if str_eq key k then some text else read_entry key entries

unfoldable pub write_entry : String → String → List (String × String) → List (String × String)
write_entry key text [] = (key, text) ∷ []
write_entry key text ((k, t) ∷ entries) =
    let rest = write_entry key text entries in
    if str_eq key k then (k, text) ∷ entries else (k, t) ∷ rest

-- `bool(value)`
unfoldable pub truth : Option Val → Bool
truth none = false
truth (some (str s)) = not (str_eq s "")
truth (some (number n)) = not (n == 0)
truth (some (flag b)) = b
truth (some (optional none)) = false
truth (some (optional (some s))) = not (str_eq s "")
truth (some (texts ts)) = not (is_empty ts)
truth (some (reports gs)) = not (is_empty gs)
truth (some (dict end)) = false
truth (some (dict (field k v p))) = true

unfoldable pub entry_of : String → String → Payload → CacheEntry
unfolding truth
entry_of key gate result = record {
  cache_key = key;
  gate_name = gate;
  passed = truth (get_field "passed" result);
  result = result;
}

module _ (j : Json) where
  miss : Cache → Cache × Option Payload
  miss c = (record c { misses = c.misses + 1 }, none)

  -- The hit is counted before `data.get` raises for what is no dict, and then a miss.
  unfoldable pub loaded : Cache → Loaded → Cache × Option Payload
  unfolding miss
  loaded c malformed = miss c
  loaded c no_dict = miss (record c { hits = c.hits + 1 })
  loaded c (loaded_dict result) = (record c { hits = c.hits + 1 }, result)

  found : Cache → Option String → Cache × Option Payload
  found c none = miss c
  found c (some text) = loaded c (j.loads text)

  -- `get`
  unfoldable pub get : String → Cache → Cache × Option Payload
  unfolding found loaded miss
  get key c = found c (read_entry key c.entries)

  -- `put`
  unfoldable pub put_result : String → String → Payload → Cache → Cache
  put_result key gate result c = record c {
    entries = write_entry key (j.dumps (entry_of key gate result)) c.entries;
  }

-- `clear`: the count of the removed files.
unfoldable pub clear : Cache → Cache × ℕ
clear c = (record { entries = []; hits = 0; misses = 0 }, length c.entries)

-- A source: its path, as the text up to its last slash and the name behind it, and its bytes if it is
-- a file.
pub record Source : Type 0 where
  pub folder : String
  pub name : String
  pub bytes : Option (List ℕ)

-- SHA-256 in hexadecimal, and `str.encode("utf-8")`.
pub record Hasher : Type 0 where
  pub sha256 : List ℕ → String
  pub encode : String → List ℕ

-- `str(src)`
unfoldable pub path_of : Source → String
path_of s = append s.folder s.name

unfoldable pub insert_source : Source → List Source → List Source
unfolding path_of
insert_source s [] = s ∷ []
insert_source s (t ∷ sources) = elim (compare (path_of s) (path_of t)) [
  | Ordering.gt ↦ t ∷ insert_source s sources
  | _ ↦ s ∷ t ∷ sources
]

-- `sorted(sources, key=lambda p: str(p))`
unfoldable pub sort_sources : List Source → List Source
sort_sources [] = []
sort_sources (s ∷ sources) = insert_source s (sort_sources sources)

-- What the hasher is fed.
unfoldable pub stream : Hasher → List Source → List ℕ
stream h [] = []
stream h (s ∷ sources) =
    let rest = stream h sources in
    elim s.bytes [ none ↦ rest | some bytes ↦ h.encode s.name ++ bytes ++ rest ]

unfoldable pub hash_sources : Hasher → List Source → String
hash_sources h sources = h.sha256 (stream h (sort_sources sources))

-- `compute_key`
unfoldable pub compute_key : Hasher → List Source → String → String → String → String
compute_key h sources contract gate flags = h.sha256 (
    h.encode (
      append (hash_sources h sources)
        (append "|" (append contract (append "|" (append gate (append "|" flags)))))))
