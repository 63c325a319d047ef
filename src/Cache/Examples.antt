-- ===== src/Cache/Examples.antt =====
-- Lookups in the cache of src/mind3/core/cache.py.
use Prim.Native.Char.{code}
use Prim.Native.String.{◌++◌ as append}
use Prim.Native.String.append
use mind.Prelude.{ℕ, String, List, [], ◌∷◌, ◌++◌, some, ◌≡◌, refl, ap, ◌∙◌}
use mind.Driver.Trace.{end}
use mind.Cache.Store.{loaded_dict, Json, Cache, get, put_result, Hasher, compute_key}
use mind.Cache.Contents.{get-put_result, compute_key-ambiguous}

-- A JSON of empty results.
abbrev json : Json
json = record { dumps = λ e. e.cache_key; loads = λ t. loaded_dict (some end) }

abbrev empty : Cache
empty = record { entries = []; hits = 0; misses = 0 }

-- UTF-8 of ASCII texts.
unfoldable bytes_of : String → List ℕ
bytes_of String.[] = []
bytes_of (String.◌∷◌ c s) = code c ∷ bytes_of s

bytes_of-append : (s t : String) → bytes_of (append s t) ≡ bytes_of s ++ bytes_of t
unfolding bytes_of
bytes_of-append String.[] t = ap bytes_of (append.nil t)
bytes_of-append (String.◌∷◌ c s) t =
    ap bytes_of (append.cons c s t) ∙ ap (λ l. code c ∷ l) (bytes_of-append s t)

abbrev hasher : Hasher
hasher = record { sha256 = λ b. "0"; encode = bytes_of }

compute_key-ambiguous_example :
    compute_key hasher
      (record { folder = "/rtl/"; name = append "a" ".v"; bytes = some (109 ∷ []) } ∷ [])
      "{}"
      "lint"
      ""
    ≡ compute_key hasher
        (record { folder = "/rtl/"; name = "a"; bytes = some (bytes_of ".v" ++ 109 ∷ []) } ∷ [])
        "{}"
        "lint"
        ""
compute_key-ambiguous_example =
    compute_key-ambiguous hasher "/rtl/" "a" ".v" "{}" "lint" "" (109 ∷ []) bytes_of-append

get-put_result_example :
    let (d, found) = get json "k" (put_result json "k" "lint" end empty) in
    (found ≡ some end) × (d.hits ≡ 1) × (d.misses ≡ 0)
get-put_result_example = get-put_result json "k" "lint" "k" end empty refl
