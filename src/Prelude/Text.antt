-- ===== src/Prelude/Text.antt =====
-- Texts as native strings: their lexicographic order, a prefix by characters, and pairs of texts.
use Prim.Native.Nat.{ℕ, zero, suc, Ordering, compare as compare_ℕ}
use Prim.Native.String.{String, compare}
use Prim.Native.Char.{Char, code}
use Prim.Native.String.compare as compare_laws
use text.Mathlib.TextEquality.{codes_equal, eq_iff}
use text.Mathlib.Text.{is_le, starts_with, ◌==◌}
use news_crawl_intelligence.Prelude.Tests.{if◌then◌else◌, ◌==◌ as nat_eq}
use news_crawl_intelligence.Prelude.Sorting.{IsTotalOrder}
use mathlib.Core.Path.{◌≡◌, refl}
use mathlib.Core.Bool.{Bool, true, false, ◌&&◌, ◌||◌}
use native.Mathlib.Omega.{arith}

-- `s <= t` of Python's texts: by code points.
abbrev pub str_leb : String → String → Bool
str_leb s t = is_le (compare s t)

-- `s[:n]`
unfoldable pub take_chars : ℕ → String → String
take_chars zero s = ""
take_chars (suc n) String.[] = ""
take_chars (suc n) (String.◌∷◌ c s) = String.◌∷◌ c (take_chars n s)

nil_cons : (c : Char) (s : String) → compare "" (String.◌∷◌ c s) ≡ Ordering.lt
nil_cons c s = compare_laws.nil-cons c s

cons_nil : (c : Char) (s : String) → compare (String.◌∷◌ c s) "" ≡ Ordering.gt
cons_nil c s = compare_laws.cons-nil c s

-- A text that begins with a character is not the empty one.
pub cons-ne_empty : (c : Char) (s : String) → (String.◌∷◌ c s == "") ≡ false
cons-ne_empty c s = rw cons_nil refl

-- A comparison of two texts by their first characters.
abbrev by_head : Ordering → Ordering → Ordering
by_head Ordering.lt o = Ordering.lt
by_head Ordering.eq o = o
by_head Ordering.gt o = Ordering.gt

compare-cons :
    (c d : Char) (s t : String)
    → compare (String.◌∷◌ c s) (String.◌∷◌ d t)
      ≡ by_head (compare_ℕ (code c) (code d)) (compare s t)
compare-cons c d s t = simp compare_laws.cons-cons (ground arith)

str_total : (s t : String) → str_leb s t ≡ false → str_leb t s ≡ true
str_total String.[] String.[] h = refl
str_total String.[] (String.◌∷◌ d t) h = ground (arith, nil_cons d t)
str_total (String.◌∷◌ c s) String.[] h = ground (arith, nil_cons c s)
str_total (String.◌∷◌ c s) (String.◌∷◌ d t) h =
    ground (arith, compare-cons c d s t, compare-cons d c t s, str_total s t)

str_trans : (s t u : String) → str_leb s t ≡ true → str_leb t u ≡ true → str_leb s u ≡ true
str_trans String.[] t String.[] h k = refl
str_trans String.[] t (String.◌∷◌ e u) h k = ground (arith, nil_cons e u)
str_trans (String.◌∷◌ c s) String.[] u h k = ground (arith, cons_nil c s)
str_trans (String.◌∷◌ c s) (String.◌∷◌ d t) String.[] h k = ground (arith, cons_nil d t)
str_trans (String.◌∷◌ c s) (String.◌∷◌ d t) (String.◌∷◌ e u) h k =
    ground
      (arith, compare-cons c d s t, compare-cons d e t u, compare-cons c e s u, str_trans s t u)

str_antisym : (s t : String) → str_leb s t ≡ true → str_leb t s ≡ true → s ≡ t
str_antisym String.[] String.[] h k = refl
str_antisym String.[] (String.◌∷◌ d t) h k = ground (arith, cons_nil d t)
str_antisym (String.◌∷◌ c s) String.[] h k = ground (arith, cons_nil c s)
str_antisym (String.◌∷◌ c s) (String.◌∷◌ d t) h k = cc (
  codes_equal c d (ground (arith, compare-cons c d s t, compare-cons d c t s)),
  str_antisym s t (ground (arith, compare-cons c d s t, compare-cons d c t s))
      (ground (arith, compare-cons c d s t, compare-cons d c t s)),
)

-- `(k, v) <= (k', v')` of Python's tuples.
abbrev pub pair_leb : String × String → String × String → Bool
pair_leb (k, v) (k', v') = if k == k' then str_leb v v' else str_leb k k'

pub str_order : IsTotalOrder str_leb
str_order = record { total = str_total; trans = str_trans; antisym = str_antisym }

pair_total : (p q : String × String) → pair_leb p q ≡ false → pair_leb q p ≡ true
pair_total (k, v) (k', v') h =
    ground (arith, eq_iff k k', eq_iff k' k, str_total k k', str_total v v')

pair_trans :
    (p q r : String × String) → pair_leb p q ≡ true → pair_leb q r ≡ true → pair_leb p r ≡ true
pair_trans (k, v) (k', v') (l, w) h e = ground (
  arith,
  eq_iff k k',
  eq_iff k' l,
  eq_iff k l,
  str_trans k k' l,
  str_trans v v' w,
  str_antisym k k',
)

pair_antisym : (p q : String × String) → pair_leb p q ≡ true → pair_leb q p ≡ true → p ≡ q
pair_antisym (k, v) (k', v') h e =
    ground (arith, eq_iff k k', eq_iff k' k, str_antisym k k', str_antisym v v')

-- Python's order of pairs of texts is total.
pub pair_order : IsTotalOrder pair_leb
pair_order = record { total = pair_total; trans = pair_trans; antisym = pair_antisym }

-- `s.endswith("." + t)`
unfoldable pub ends_with_dotted : String → String → Bool
ends_with_dotted String.[] t = false
ends_with_dotted (String.◌∷◌ c s) t = (nat_eq (code c) b'.' && s == t) || ends_with_dotted s t

-- `s.endswith(t)`
unfoldable pub ends_with : String → String → Bool
ends_with String.[] t = t == ""
ends_with (String.◌∷◌ c s) t = String.◌∷◌ c s == t || ends_with s t

-- `t in s`
unfoldable pub contains : String → String → Bool
contains String.[] t = t == ""
contains (String.◌∷◌ c s) t = starts_with (String.◌∷◌ c s) t || contains s t
