-- ===== src/Retention/RawHtml.antt =====
-- The raw pages of deleted articles: their locations are sorted by bucket and deleted in chunks of
-- 1000. A call of the storage that raises is logged, and its chunk is not counted.
use text.Mathlib.Text.{starts_with}
use Prim.Native.Char.{code}
use news_crawl_intelligence.Prelude.{
  ℕ, zero, suc, ◌+◌, ◌||◌, ◌&&◌, not, ◌==◌, Bool, true, false, String, List, [], ◌∷◌, ◌++◌, Option,
  none, some, take, length, str_eq, if◌then◌else◌, ◌≤◌, ◌≡◌, refl, arith, if_cases, length-append,
  count_if,
}

-- `s[n:]`
unfoldable pub drop_chars : ℕ → String → String
drop_chars zero s = s
drop_chars (suc n) String.[] = ""
drop_chars (suc n) (String.◌∷◌ c s) = drop_chars n s

-- `s.partition(...)` at the first character with the code, which is left out; `none` if there is none.
unfoldable pub partition : ℕ → String → Option (String × String)
partition k String.[] = none
partition k (String.◌∷◌ c s) =
    let rest = partition k s in
    if code c == k
    then some ("", s)
    else elim rest [ none ↦ none | some (before, behind) ↦ some (String.◌∷◌ c before, behind) ]

abbrev slash : ℕ
slash = 47

abbrev newline : ℕ
newline = 10

abbrev has_char : ℕ → String → Bool
has_char k s = elim (partition k s) [ none ↦ false | some parts ↦ true ]

-- A bucket and a key, neither of them empty; the key is on one line.
abbrev split_key : Option (String × String) → Option (String × String)
split_key none = none
split_key (some (bucket, key)) =
    if str_eq bucket "" || (str_eq key "" || has_char newline key) then none else some (bucket, key)

-- `strip` is that of the standard library.
module _ (strip : String → String) where
  unfoldable pub parse_s3_uri : String → Option (String × String)
  unfolding partition drop_chars
  parse_s3_uri location =
      let text = strip location in
      if starts_with text "s3://" then split_key (partition slash (drop_chars 5 text)) else none

-- `keys_by_bucket.setdefault(bucket, []).append(key)`, in the order in which the buckets came.
unfoldable pub add_key : String → String → List (String × List String) → List (String × List String)
add_key bucket key [] = (bucket, key ∷ []) ∷ []
add_key bucket key ((other, keys) ∷ buckets) =
    let rest = add_key bucket key buckets in
    if str_eq bucket other then (other, keys ++ key ∷ []) ∷ buckets else (other, keys) ∷ rest

-- `url_path` is the path of a URL, less the slashes before it; `default_bucket` that of the settings.
module _ (strip url_path : String → String) (default_bucket : String) where
  -- Under which bucket and key a location is found, if it is one.
  unfoldable pub key_of : String → Option (String × String)
  unfolding parse_s3_uri partition
  key_of location = elim (parse_s3_uri strip location) [
    | some found ↦ some found
    | none ↦
        if starts_with location "http://" || starts_with location "https://"
        then partition slash (url_path location)
        else some (default_bucket, location)
  ]

  abbrev add_found :
      Option (String × String) → List (String × List String) → List (String × List String)
  add_found none buckets = buckets
  add_found (some (bucket, key)) buckets = add_key bucket key buckets

  unfoldable pub keys_by_bucket :
      List String → List (String × List String) → List (String × List String)
  unfolding key_of add_key
  keys_by_bucket [] buckets = buckets
  keys_by_bucket (location ∷ locations) buckets =
      let without = keys_by_bucket locations buckets in
      let with_it = keys_by_bucket locations (add_found (key_of location) buckets) in
      if str_eq location "" then without else with_it

unfoldable pub drop {ℓ} : {A : Type ℓ} → ℕ → List A → List A
drop zero xs = xs
drop (suc n) [] = []
drop (suc n) (x ∷ xs) = drop n xs

-- The chunks of a bucket, on as much fuel as there are keys. `deletes` tells whether the storage
-- deletes a chunk, and does not raise.
module _ (deletes : String → List String → Bool) where
  unfoldable pub delete_chunks : ℕ → String → List String → ℕ
  unfolding drop
  delete_chunks zero bucket keys = 0
  delete_chunks (suc fuel) bucket [] = 0
  delete_chunks (suc fuel) bucket (key ∷ keys) =
      let chunk = take 1000 (key ∷ keys) in
      let rest = delete_chunks fuel bucket (drop 1000 (key ∷ keys)) in
      (if deletes bucket chunk then length chunk else 0) + rest

  unfoldable pub delete_buckets : List (String × List String) → ℕ
  unfolding delete_chunks
  delete_buckets [] = 0
  delete_buckets ((bucket, keys) ∷ buckets) =
      delete_chunks (length keys) bucket keys + delete_buckets buckets

module _ (strip url_path : String → String) (default_bucket : String)
    (deletes : String → List String → Bool) where
  unfoldable pub delete_raw_html_objects : List String → ℕ
  unfolding keys_by_bucket delete_buckets
  delete_raw_html_objects locations =
      delete_buckets deletes (keys_by_bucket strip url_path default_bucket locations [])

abbrev is_found : Option (String × String) → Bool
is_found none = false
is_found (some found) = true

-- Whether a location names a bucket and a key.
abbrev pub is_located : (String → String) → (String → String) → String → String → Bool
is_located strip url_path default_bucket location =
    not (str_eq location "") && is_found (key_of strip url_path default_bucket location)

-- What the storage deletes if it never raises: all keys.
module _ (deletes : String → List String → Bool)
    (never_raises : (bucket : String) (keys : List String) → deletes bucket keys ≡ true) where
  take-drop :
      (n : ℕ) (keys : List String) → length (take n keys) + length (drop n keys) ≡ length keys
  unfolding drop
  take-drop zero keys = omega arith
  take-drop (suc n) [] = omega arith
  take-drop (suc n) (key ∷ keys) = omega (arith, take-drop n keys)

  delete_chunks-all :
      (fuel : ℕ) (bucket : String) (keys : List String)
      → length keys ≤ fuel
      → delete_chunks deletes fuel bucket keys ≡ length keys
  unfolding delete_chunks drop
  delete_chunks-all zero bucket [] h = refl
  delete_chunks-all zero bucket (key ∷ keys) h = absurd (omega arith)
  delete_chunks-all (suc fuel) bucket [] h = refl
  delete_chunks-all (suc fuel) bucket (key ∷ keys) h =
      let parts = take-drop 999 keys in
      rw (never_raises bucket (take 1000 (key ∷ keys)))
        (omega (arith, parts, delete_chunks-all fuel bucket (drop 999 keys) (omega (arith, parts))))

  total : List (String × List String) → ℕ
  total [] = 0
  total ((bucket, keys) ∷ buckets) = length keys + total buckets

  delete_buckets-all :
      (buckets : List (String × List String)) → delete_buckets deletes buckets ≡ total buckets
  unfolding delete_buckets total
  delete_buckets-all [] = refl
  delete_buckets-all ((bucket, keys) ∷ buckets) =
      omega (
        arith,
        delete_chunks-all (length keys) bucket keys (omega arith),
        delete_buckets-all buckets,
      )

  add_key-total :
      (bucket key : String) (buckets : List (String × List String))
      → total (add_key bucket key buckets) ≡ suc (total buckets)
  unfolding add_key total
  add_key-total bucket key [] = refl
  add_key-total bucket key ((other, keys) ∷ buckets) =
      if_cases (λ b. total b ≡ suc (total ((other, keys) ∷ buckets))) (str_eq bucket other)
        (λ _. omega (arith, length-append keys (key ∷ [])))
        (λ _. omega (arith, add_key-total bucket key buckets))

  module _ (strip url_path : String → String) (default_bucket : String) where
    add_found-total :
        (found : Option (String × String)) (buckets : List (String × List String))
        → total (add_found strip url_path default_bucket found buckets)
          ≡ (if is_found found then 1 else 0) + total buckets
    add_found-total none buckets = omega arith
    add_found-total (some (bucket, key)) buckets = omega (arith, add_key-total bucket key buckets)

    keys_by_bucket-total :
        (locations : List String) (buckets : List (String × List String))
        → total (keys_by_bucket strip url_path default_bucket locations buckets)
          ≡ count_if (is_located strip url_path default_bucket) locations + total buckets
    unfolding keys_by_bucket count_if
    keys_by_bucket-total [] buckets = omega arith
    keys_by_bucket-total (location ∷ locations) buckets =
        let found = key_of strip url_path default_bucket location in
        let more = add_found strip url_path default_bucket found buckets in
        if_cases
          (λ b.
            total b
            ≡ count_if (is_located strip url_path default_bucket) (location ∷ locations)
              + total buckets)
          (str_eq location "")
          (λ empty. ground (arith, empty, keys_by_bucket-total locations buckets))
          (λ there.
            ground
              (arith, there, keys_by_bucket-total locations more, add_found-total found buckets))

    -- If the storage raises no error, every location that names a bucket and a key is deleted and
    -- counted, in whatever chunks.
    pub delete_raw_html_objects-all :
        (locations : List String)
        → delete_raw_html_objects strip url_path default_bucket deletes locations
          ≡ count_if (is_located strip url_path default_bucket) locations
    unfolding delete_raw_html_objects total
    delete_raw_html_objects-all locations =
        let buckets = keys_by_bucket strip url_path default_bucket locations [] in
        omega (arith, delete_buckets-all buckets, keys_by_bucket-total locations [])
