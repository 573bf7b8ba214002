-- ===== src/Llm/Relinked.antt =====
-- To apply an analysis again links no name twice.
use mathlib.Core.Path.{subst}
use news_crawl_intelligence.Prelude.{
  ℕ, ◌≡◌, refl, ap, ◌∙◌, ==_iff, Bool, true, false, String, List, [], ◌∷◌, ◌++◌, Option, none, some,
  any, All, str_eq, eq_iff, eq_refl, arith, if_cases, Bool-cases, inl, inr,
}
use news_crawl_intelligence.Llm.Persist.{
  Named, Link, Names, find_named, is_link, add_link, inserted_name, link_found, link_named,
  seen_key, link_names,
}

-- The article is linked to the name with the key.
record IsLinkedTo (article_id : ℕ) (key : String) (t : Names) : Type 0 where
  id : ℕ
  found : find_named key t.rows ≡ some id
  linked : any (is_link article_id id) t.links ≡ true

find_named-append :
    (key : String) (rows : List Named) (row : Named) (id : ℕ)
    → find_named key rows ≡ some id
    → find_named key (rows ++ row ∷ []) ≡ some id
unfolding find_named
find_named-append key [] row id h = cc
find_named-append key (r ∷ rows) row id h = ground (arith, h, find_named-append key rows row id)

find_named_new :
    (key : String) (rows : List Named) (row : Named)
    → find_named key rows ≡ none
    → str_eq row.key key ≡ true
    → find_named key (rows ++ row ∷ []) ≡ some row.id
unfolding find_named
find_named_new key [] row h e = rw (e) refl
find_named_new key (r ∷ rows) row h e = ground (arith, h, find_named_new key rows row)

any_append_left :
    (p : Link → Bool) (xs : List Link) (x : Link) → any p xs ≡ true → any p (xs ++ x ∷ []) ≡ true
unfolding any
any_append_left p [] x h = cc
any_append_left p (y ∷ xs) x h = ground (arith, h, any_append_left p xs x)

any_append_last :
    (p : Link → Bool) (xs : List Link) (x : Link) → p x ≡ true → any p (xs ++ x ∷ []) ≡ true
unfolding any
any_append_last p [] x h = ground (arith, h)
any_append_last p (y ∷ xs) x h = ground (arith, any_append_last p xs x h)

-- A link is there once it is added, and the other links and all names stay.
add_link-there : (a id : ℕ) (t : Names) → any (is_link a id) (add_link a id t).links ≡ true
unfolding add_link
add_link-there a id t =
    if_cases (λ (u : Names). any (is_link a id) u.links ≡ true) (any (is_link a id) t.links)
      (λ there. there)
      (λ _. any_append_last (is_link a id) t.links _ (ground (arith, ==_iff a a, ==_iff id id)))

add_link-rows : (a id : ℕ) (t : Names) → (add_link a id t).rows ≡ t.rows
unfolding add_link
add_link-rows a id t =
    if_cases (λ (u : Names). u.rows ≡ t.rows) (any (is_link a id) t.links) (λ _. refl) (λ _. refl)

add_link-keeps :
    (a id : ℕ) (p : Link → Bool) (t : Names)
    → any p t.links ≡ true
    → any p (add_link a id t).links ≡ true
unfolding add_link
add_link-keeps a id p t h =
    if_cases (λ (u : Names). any p u.links ≡ true) (any (is_link a id) t.links) (λ _. h)
      (λ _. any_append_left p t.links _ h)

link_found-IsLinkedTo :
    (a : ℕ) (name key : String) (t : Names) (o : Option ℕ)
    → find_named key t.rows ≡ o
    → IsLinkedTo a key (link_found a name key t o)
link_found-IsLinkedTo a name key t none e = record {
  id = t.next_id;
  found =
      ap (find_named key) (add_link-rows a t.next_id (inserted_name name key t))
      ∙ find_named_new key t.rows _ e (eq_refl key);
  linked = add_link-there a t.next_id (inserted_name name key t);
}
link_found-IsLinkedTo a name key t (some id) e = record {
  id = id;
  found = ap (find_named key) (add_link-rows a id t) ∙ e;
  linked = add_link-there a id t;
}

link_found-keeps :
    (a : ℕ) (name key other : String) (t : Names) (o : Option ℕ)
    → IsLinkedTo a other t
    → IsLinkedTo a other (link_found a name key t o)
link_found-keeps a name key other t none h = record {
  id = h.id;
  found =
      ap (find_named other) (add_link-rows a t.next_id (inserted_name name key t))
      ∙ find_named-append other t.rows _ h.id h.found;
  linked = add_link-keeps a t.next_id (is_link a h.id) (inserted_name name key t) h.linked;
}
link_found-keeps a name key other t (some id) h = record {
  id = h.id;
  found = ap (find_named other) (add_link-rows a id t) ∙ h.found;
  linked = add_link-keeps a id (is_link a h.id) t h.linked;
}

link_named-again :
    (a : ℕ) (name key : String) (t : Names) → IsLinkedTo a key t → link_named a name key t ≡ t
unfolding link_named add_link
link_named-again a name key t h = rw (h.found, h.linked) refl

link_names-keeps :
    (a : ℕ) (other : String) (names : List (String × String)) (seen : List String) (t : Names)
    → IsLinkedTo a other t
    → IsLinkedTo a other (link_names a names seen t)
unfolding link_names link_named
link_names-keeps a other [] seen t h = h
link_names-keeps a other ((name, key) ∷ names) seen t h =
    let skipped = link_names-keeps a other names seen t h in
    if_cases (IsLinkedTo a other) (str_eq key "") (λ _. skipped)
      (λ _.
        if_cases (IsLinkedTo a other) (seen_key key seen) (λ _. skipped)
          (λ _.
            link_names-keeps a other names (key ∷ seen) (link_named a name key t)
              (link_found-keeps a name key other t (find_named key t.rows) h)))

-- A name that is passed over, or one that is linked.
abbrev IsSettled : ℕ → Names → List String → String × String → Type 0
IsSettled a t seen (name, key) =
    str_eq key "" ≡ false → seen_key key seen ≡ false → IsLinkedTo a key t

All-each :
    (P Q : String × String → Type 0) (names : List (String × String))
    → ((n : String × String) → P n → Q n)
    → All P names
    → All Q names
All-each P Q [] f h = tt
All-each P Q (n ∷ names) f h = (f n h.0, All-each P Q names f h.1)

-- What is settled when the key has been seen, and is linked, was settled before.
before_key :
    (a : ℕ) (t : Names) (key : String) (seen : List String) (n : String × String)
    → IsLinkedTo a key t
    → IsSettled a t (key ∷ seen) n
    → IsSettled a t seen n
unfolding seen_key any
before_key a t key seen (name, other) linked h filled new = elim (Bool-cases (str_eq key other)) [
  | inl same ↦ subst (λ k. IsLinkedTo a k t) ((eq_iff key other).0 same) linked
  | inr differs ↦ h filled (ground (arith, new, differs))
]

link_names-settles :
    (a : ℕ) (names : List (String × String)) (seen : List String) (t : Names)
    → All (IsSettled a (link_names a names seen t) seen) names
unfolding link_names link_named
link_names-settles a [] seen t = tt
link_names-settles a ((name, key) ∷ names) seen t =
    let t' = link_named a name key t in
    let skips = link_names-settles a names seen t in
    let goes = link_names-settles a names (key ∷ seen) t' in
    let last = link_names a names (key ∷ seen) t' in
    let linked =
      link_names-keeps a key names (key ∷ seen) t'
        (link_found-IsLinkedTo a name key t (find_named key t.rows) refl) in
    let good = λ (u : Names). All (IsSettled a u seen) ((name, key) ∷ names) in
    if_cases good (str_eq key "")
      (λ empty. (λ filled new. absurd (ground (arith, empty, filled)), skips))
      (λ _.
        if_cases good (seen_key key seen)
          (λ old. (λ filled new. absurd (ground (arith, old, new)), skips))
          (λ _. (
            λ filled new. linked,
            All-each (IsSettled a last (key ∷ seen)) (IsSettled a last seen) names
                (λ n h. before_key a last key seen n linked h) goes,
          )))

-- Fewer names are new when a key has been seen.
after_key :
    (a : ℕ) (t : Names) (key : String) (seen : List String) (n : String × String)
    → IsSettled a t seen n
    → IsSettled a t (key ∷ seen) n
unfolding seen_key any
after_key a t key seen (name, other) h filled new = h filled (ground (arith, new))

link_names-settled :
    (a : ℕ) (names : List (String × String)) (seen : List String) (t : Names)
    → All (IsSettled a t seen) names
    → link_names a names seen t ≡ t
unfolding link_names
link_names-settled a [] seen t h = refl
link_names-settled a ((name, key) ∷ names) seen t (first, others) =
    let same = λ (u : Names). u ≡ t in
    let skips = link_names-settled a names seen t others in
    if_cases same (str_eq key "") (λ _. skips)
      (λ filled.
        if_cases same (seen_key key seen) (λ _. skips)
          (λ new.
            ap (link_names a names (key ∷ seen)) (link_named-again a name key t (first filled new))
            ∙ link_names-settled a names (key ∷ seen) t (
                All-each (IsSettled a t seen) (IsSettled a t (key ∷ seen)) names
                  (λ n h. after_key a t key seen n h) others)))

-- To link the names of an analysis a second time, as a message that is delivered again does,
-- changes nothing: no name is inserted twice, and none is linked twice.
pub link_names-link_names :
    (article_id : ℕ) (names : List (String × String)) (t : Names)
    → link_names article_id names [] (link_names article_id names [] t)
      ≡ link_names article_id names [] t
link_names-link_names article_id names t =
    link_names-settled article_id names [] (link_names article_id names [] t)
      (link_names-settles article_id names [] t)
