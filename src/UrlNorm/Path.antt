-- ===== src/UrlNorm/Path.antt =====
-- The path of a normalized URL.
use Prim.Native.Char.{Char, char, code}
use mathlib.Core.Path.{ap}
use text.Mathlib.TextEquality.{codes_equal}
use Prim.Native.String.{String}
use news_crawl_intelligence.Prelude.Text.{cons-ne_empty}
use news_crawl_intelligence.Prelude.{
  Bool, true, false, ◌&&◌, ◌≡◌, refl, ◌⊎◌, inl, inr, arith, str_eq, ◌==◌, if◌then◌else◌, Bool-cases,
}

abbrev is_slash : Char → Bool
is_slash c = code c == b'/'

-- `path.endswith("/")`
unfoldable pub ends_with_slash : String → Bool
ends_with_slash String.[] = false
ends_with_slash (String.◌∷◌ c String.[]) = is_slash c
ends_with_slash (String.◌∷◌ c (String.◌∷◌ d s)) = ends_with_slash (String.◌∷◌ d s)

-- `path.rstrip("/")`
unfoldable pub rstrip_slash : String → String
rstrip_slash String.[] = ""
rstrip_slash (String.◌∷◌ c s) =
    let rest = rstrip_slash s in if is_slash c && str_eq rest "" then "" else String.◌∷◌ c rest

-- `len(path) > 1`
abbrev is_longer : String → Bool
is_longer String.[] = false
is_longer (String.◌∷◌ c String.[]) = false
is_longer (String.◌∷◌ c (String.◌∷◌ d s)) = true

abbrev or_root : String → String
or_root s = if str_eq s "" then "/" else s

-- Strip the trailing slashes, except of the root path.
unfoldable pub normal_path : String → String
unfolding ends_with_slash rstrip_slash
normal_path path =
    let p = or_root path in if is_longer p && ends_with_slash p then or_root (rstrip_slash p) else p

rstrip_slash_fixed : (s : String) → ends_with_slash s ≡ false → rstrip_slash s ≡ s
unfolding ends_with_slash rstrip_slash
rstrip_slash_fixed String.[] h = refl
rstrip_slash_fixed (String.◌∷◌ c String.[]) h = ground arith
rstrip_slash_fixed (String.◌∷◌ c (String.◌∷◌ d s)) h =
    ground (arith, rstrip_slash_fixed (String.◌∷◌ d s), cons-ne_empty d s)

slash_eq : (c : Char) → is_slash c ≡ true → String.◌∷◌ c "" ≡ "/"
slash_eq c e = ap (λ d. String.◌∷◌ d "") (codes_equal c (char b'/' tt) (ground arith))

-- A path is normalized by stripping its trailing slashes, whatever its length.
pub normal_path-rstrip_slash : (path : String) → normal_path path ≡ or_root (rstrip_slash path)
unfolding normal_path
normal_path-rstrip_slash String.[] = refl
normal_path-rstrip_slash (String.◌∷◌ c String.[]) = elim (Bool-cases (is_slash c)) [
  | inl e ↦ rw (cons-ne_empty c "", e) (slash_eq c e)
  | inr e ↦ rw (cons-ne_empty c "", e, cons-ne_empty c "") refl
]
normal_path-rstrip_slash (String.◌∷◌ c (String.◌∷◌ d s)) =
    ground
      (arith, cons-ne_empty c (String.◌∷◌ d s), rstrip_slash_fixed (String.◌∷◌ c (String.◌∷◌ d s)))

ends_cons :
    (c : Char) (rest : String)
    → ends_with_slash rest ≡ false
    → ends_with_slash (if is_slash c && str_eq rest "" then "" else String.◌∷◌ c rest) ≡ false
unfolding ends_with_slash
ends_cons c String.[] h = elim (Bool-cases (is_slash c)) [ inl e ↦ rw e refl | inr e ↦ rw e e ]
ends_cons c (String.◌∷◌ d s) h = ground (arith, cons-ne_empty d s)

rstrip_slash_ends : (s : String) → ends_with_slash (rstrip_slash s) ≡ false
unfolding rstrip_slash
rstrip_slash_ends String.[] = unfold ends_with_slash in refl
rstrip_slash_ends (String.◌∷◌ c s) = ends_cons c (rstrip_slash s) (rstrip_slash_ends s)

rstrip_slash_idem : (s : String) → rstrip_slash (rstrip_slash s) ≡ rstrip_slash s
rstrip_slash_idem s = rstrip_slash_fixed (rstrip_slash s) (rstrip_slash_ends s)

root_fixed :
    (s : String)
    → rstrip_slash s ≡ s
    → ends_with_slash s ≡ false
    → (or_root (rstrip_slash (or_root s)) ≡ or_root s)
      × ((or_root s ≡ "/") ⊎ (ends_with_slash (or_root s) ≡ false))
root_fixed String.[] e h = (unfold rstrip_slash in refl, inl refl)
root_fixed (String.◌∷◌ c s) e h = rw cons-ne_empty (rw (e, cons-ne_empty) refl, inr h)

-- Normalizing a path again changes nothing, and only the root path ends in a slash.
pub normal_path_idem :
    (path : String)
    → (normal_path (normal_path path) ≡ normal_path path)
      × ((normal_path path ≡ "/") ⊎ (ends_with_slash (normal_path path) ≡ false))
normal_path_idem path =
    rw (normal_path-rstrip_slash (normal_path path), normal_path-rstrip_slash path)
      (root_fixed (rstrip_slash path) (rstrip_slash_idem path) (rstrip_slash_ends path))
