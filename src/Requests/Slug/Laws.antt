-- ===== src/Requests/Slug/Laws.antt =====
-- A slug is a URL-safe word of bounded length.
use skaus.Prelude.{
  ℕ, zero, suc, String, ◌≤◌, ◌≡◌, refl, inl, inr, Bool, true, false, ◌&&◌, ◌||◌, arith, Bool-cases,
  if◌then◌else◌,
}
use skaus.Requests.Slug.{
  is_letter, is_hyphen, is_space, strip_special, hyphenate, collapse, drop_first_hyphen,
  drop_last_hyphen, cut_after, or_else, to_slug, trim_start, trim_end,
}

abbrev pub size : String → ℕ
size String.[] = 0
size (String.◌∷◌ c s) = suc (size s)

hyphen : is_hyphen "-" ≡ true
unfolding is_hyphen
hyphen = refl

-- Letters and digits with single hyphens between them. Behind a hyphen none may follow.
unfoldable pub is_clean : Bool → String → Bool
is_clean after_hyphen String.[] = true
is_clean after_hyphen (String.◌∷◌ c s) =
    let behind_hyphen = is_clean true s in
    let behind_letter = is_clean false s in
    if is_hyphen c
    then (if after_hyphen then false else behind_hyphen)
    else is_letter c && behind_letter

-- What `strip_special` keeps.
unfoldable all_kept : String → Bool
all_kept String.[] = true
all_kept (String.◌∷◌ c s) = (is_letter c || is_space c || is_hyphen c) && all_kept s

unfoldable all_slug : String → Bool
all_slug String.[] = true
all_slug (String.◌∷◌ c s) = (is_letter c || is_hyphen c) && all_slug s

strip_special-all_kept : (s : String) → all_kept (strip_special s) ≡ true
unfolding strip_special all_kept
strip_special-all_kept String.[] = refl
strip_special-all_kept (String.◌∷◌ c s) =
    elim (Bool-cases (is_letter c || is_space c || is_hyphen c)) [
      | inl e ↦ rw (e, e) (strip_special-all_kept s)
      | inr e ↦ rw e (strip_special-all_kept s)
    ]

hyphenate-all_slug :
    (run : Bool) (s : String) → all_kept s ≡ true → all_slug (hyphenate run s) ≡ true
unfolding hyphenate all_kept all_slug
hyphenate-all_slug run String.[] h = refl
hyphenate-all_slug run (String.◌∷◌ c s) h =
    ground (arith, hyphen, hyphenate-all_slug true s, hyphenate-all_slug false s)

collapse-is_clean :
    (run : Bool) (s : String) → all_slug s ≡ true → is_clean run (collapse run s) ≡ true
unfolding collapse all_slug is_clean
collapse-is_clean run String.[] h = refl
collapse-is_clean run (String.◌∷◌ c s) h =
    ground (arith, hyphen, collapse-is_clean true s, collapse-is_clean false s)

drop_first_hyphen-is_clean :
    (s : String) → is_clean false s ≡ true → is_clean true (drop_first_hyphen s) ≡ true
unfolding drop_first_hyphen is_clean
drop_first_hyphen-is_clean String.[] h = refl
drop_first_hyphen-is_clean (String.◌∷◌ c s) h = ground arith

drop_last_hyphen-is_clean :
    (b : Bool) (s : String) → is_clean b s ≡ true → is_clean b (drop_last_hyphen s) ≡ true
unfolding drop_last_hyphen is_clean
drop_last_hyphen-is_clean b String.[] h = refl
drop_last_hyphen-is_clean b (String.◌∷◌ c String.[]) h = elim (Bool-cases (is_hyphen c)) [
  | inl e ↦ rw e refl
  | inr e ↦ rw e (ground arith)
]
drop_last_hyphen-is_clean b (String.◌∷◌ c (String.◌∷◌ d s)) h = ground (
  arith,
  drop_last_hyphen-is_clean true (String.◌∷◌ d s),
  drop_last_hyphen-is_clean false (String.◌∷◌ d s),
)

cut_after-is_clean :
    (n : ℕ) (b : Bool) (s : String) → is_clean b s ≡ true → is_clean b (cut_after n s) ≡ true
unfolding cut_after is_clean
cut_after-is_clean zero b s h = refl
cut_after-is_clean (suc n) b String.[] h = refl
cut_after-is_clean (suc n) b (String.◌∷◌ c s) h =
    ground (arith, cut_after-is_clean n true s, cut_after-is_clean n false s)

size-cut_after : (n : ℕ) (s : String) → size (cut_after n s) ≤ n
unfolding cut_after
size-cut_after zero s = omega arith
size-cut_after (suc n) String.[] = omega arith
size-cut_after (suc n) (String.◌∷◌ c s) = omega (arith, size-cut_after n s)

or_else-is_clean :
    (s : String)
    → is_clean true s ≡ true
    → size s ≤ 60
    → (is_clean true (or_else s "payment") ≡ true)
      × (1 ≤ size (or_else s "payment"))
      × (size (or_else s "payment") ≤ 60)
unfolding or_else is_clean is_hyphen is_letter
or_else-is_clean String.[] h k = (refl, omega arith, omega arith)
or_else-is_clean (String.◌∷◌ c s) h k = (h, omega arith, k)

-- Whatever the title and the lower-case conversion, the slug has 1 to 60 characters, all of them
-- letters a-z, digits or hyphens, does not begin with a hyphen, and has no two hyphens in a row.
to_slug-is_clean :
    (lower : String → String) (text : String)
    → let slug = to_slug lower text in
      (is_clean true slug ≡ true) × (1 ≤ size slug) × (size slug ≤ 60)
unfolding to_slug
to_slug-is_clean lower text =
    let stripped = strip_special (trim_end (trim_start (lower text))) in
    let joined = collapse false (hyphenate false stripped) in
    let clean = collapse-is_clean false (hyphenate false stripped) (
      hyphenate-all_slug false stripped
        (strip_special-all_kept (trim_end (trim_start (lower text))))) in
    let ends = drop_last_hyphen (drop_first_hyphen joined) in
    let clean_ends =
      drop_last_hyphen-is_clean true (drop_first_hyphen joined)
        (drop_first_hyphen-is_clean joined clean) in
    or_else-is_clean (cut_after 60 ends) (cut_after-is_clean 60 true ends clean_ends)
      (size-cut_after 60 ends)
