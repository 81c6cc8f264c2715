-- ===== src/Gateway/Media/Plain.antt =====
-- What is delivered as an avatar is a file with a plain name.
use mathlib.Core.Path.{subst}
use skaus.Prelude.{
  ℕ, ◌≤◌, ◌≢◌, ◌⊎◌, All, ◌≡◌, refl, ap, ◌∙◌, sym, String, true, inl, inr, some, [], ◌∷◌, ◌++◌, map,
  leb, ◌==◌, length, Bool-cases, Option-cases, arith,
}
use skaus.Prelude.Bytes.{Bytes, same_text}
use skaus.Gateway.Media.{
  is_word, all_word, lower_char, jpg, png, webp, Directory, read_file, span_word, mime_of,
  mime_behind_dot, type_of_file, served, serve_avatar,
}
use skaus.Gateway.Media.Served.{all_word-lower}

-- The characters of a name and of its extension are what stands around its one dot.
span_word-append_back :
    (xs : Bytes) → (all_word (span_word xs).0 ≡ true) × ((span_word xs).0 ++ (span_word xs).1 ≡ xs)
unfolding span_word all_word
span_word-append_back [] = (refl, refl)
span_word-append_back (x ∷ xs) =
    let (words, back) = span_word-append_back xs in
    elim (Bool-cases (is_word x)) [
      | inl e ↦ rw (e, e) (words, ap (◌∷◌ x) back)
      | inr e ↦ rw e (refl, refl)
    ]

same_text→eq : (xs ys : Bytes) → same_text xs ys ≡ true → xs ≡ ys
unfolding same_text
same_text→eq [] [] h = refl
same_text→eq [] (y ∷ ys) h = cc
same_text→eq (x ∷ xs) [] h = cc
same_text→eq (x ∷ xs) (y ∷ ys) h = ground (arith, same_text→eq xs ys)

extensions_are_words : (all_word jpg ≡ true) × (all_word png ≡ true) × (all_word webp ≡ true)
unfolding all_word is_word
extensions_are_words = (refl, refl, refl)

mime_of-all_word : (ext : Bytes) (mime : String) → mime_of ext ≡ some mime → all_word ext ≡ true
unfolding mime_of
mime_of-all_word ext mime h = elim (Bool-cases (same_text ext jpg)) [
  | inl e ↦ rw (same_text→eq ext jpg e) extensions_are_words.0
  | inr a ↦ elim (Bool-cases (same_text ext png)) [
    | inl e ↦ rw (same_text→eq ext png e) extensions_are_words.1
    | inr b ↦ elim (Bool-cases (same_text ext webp)) [
      | inl e ↦ rw (same_text→eq ext webp e) extensions_are_words.2
      | inr c ↦ let f = rw (a, b, c) at h in cc
    ]
  ]
]

-- A letter of either case, a digit, the underscore or the dash, by their codes.
pub IsNameChar : ℕ → Type 0
IsNameChar c =
    ((97 ≤ c) × (c ≤ 122)) ⊎ ((65 ≤ c) × (c ≤ 90)) ⊎ ((48 ≤ c) × (c ≤ 57)) ⊎ (c ≡ 95) ⊎ (c ≡ 45)

is_word-IsNameChar : (c : ℕ) → is_word c ≡ true → IsNameChar c
unfolding is_word IsNameChar
is_word-IsNameChar c h = ground arith

all_word-IsNameChar : (cs : Bytes) → all_word cs ≡ true → All IsNameChar cs
unfolding all_word
all_word-IsNameChar [] h = tt
all_word-IsNameChar (c ∷ cs) h = elim (Bool-cases (is_word c)) [
  | inl e ↦ (is_word-IsNameChar c e, all_word-IsNameChar cs (rw e at h))
  | inr e ↦ let f = rw e at h in cc
]

-- Two names around one dot, the first of them not empty, and no separator of paths.
pub record IsPlain (filename : Bytes) (mime : String) : Type 0 where
  pub stem : Bytes
  pub ext : Bytes
  pub parts : stem ++ 46 ∷ ext ≡ filename
  pub stem_chars : All IsNameChar stem
  pub ext_chars : All IsNameChar ext
  pub not_empty : 1 ≤ length stem
  pub no_separator : All (λ c. (c ≢ 47) × (c ≢ 92)) filename
  pub type : mime_of (map lower_char ext) ≡ some mime

no_separator-char : (c : ℕ) → IsNameChar c → (c ≢ 47) × (c ≢ 92)
unfolding IsNameChar
no_separator-char c h = (λ e. ground arith, λ e. ground arith)

no_separator-name : (cs : Bytes) → All IsNameChar cs → All (λ c. (c ≢ 47) × (c ≢ 92)) cs
no_separator-name [] h = tt
no_separator-name (c ∷ cs) (e, h) = (no_separator-char c e, no_separator-name cs h)

no_separator-parts :
    (stem ext : Bytes)
    → All IsNameChar stem
    → All IsNameChar ext
    → All (λ c. (c ≢ 47) × (c ≢ 92)) (stem ++ 46 ∷ ext)
no_separator-parts [] ext h k =
    ((λ e. omega (arith, e), λ e. omega (arith, e)), no_separator-name ext k)
no_separator-parts (c ∷ cs) ext (e, h) k = (no_separator-char c e, no_separator-parts cs ext h k)

mime_behind_dot-word :
    (rest : Bytes) (mime : String)
    → mime_behind_dot rest ≡ some mime
    → (ext : Bytes) × (rest ≡ 46 ∷ ext) × (mime_of (map lower_char ext) ≡ some mime)
mime_behind_dot-word [] mime h = cc
mime_behind_dot-word (c ∷ ext) mime h = elim (Bool-cases (c == 46)) [
  | inl e ↦ (ext, ground arith, ground arith)
  | inr e ↦ let f = rw e at h in cc
]

type_of_file-IsPlain :
    (filename : Bytes) (mime : String) → type_of_file filename ≡ some mime → IsPlain filename mime
unfolding type_of_file
type_of_file-IsPlain filename mime h =
    let parts = span_word filename in
    let (words, back) = span_word-append_back filename in
    let long : leb 1 (length parts.0) ≡ true = ground arith in
    let typed : mime_behind_dot parts.1 ≡ some mime = ground arith in
    let (ext, dotted, found) = mime_behind_dot-word parts.1 mime typed in
    let whole : parts.0 ++ 46 ∷ ext ≡ filename = ap (λ r. parts.0 ++ r) (sym dotted) ∙ back in
    let stem_chars = all_word-IsNameChar parts.0 words in
    let ext_chars =
      all_word-IsNameChar ext
        (sym (all_word-lower ext) ∙ mime_of-all_word (map lower_char ext) mime found) in
    record {
      stem = parts.0;
      ext = ext;
      parts = whole;
      stem_chars = stem_chars;
      ext_chars = ext_chars;
      not_empty = ground (arith, long);
      no_separator =
          subst (All (λ c. (c ≢ 47) × (c ≢ 92))) whole
            (no_separator-parts parts.0 ext stem_chars ext_chars);
      type = found;
    }

-- What is delivered is a file of the directory, under a name of letters, digits, underscores and dashes
-- around one dot, with at least one of them before it, so that no slash and no backslash is in it;
-- the type is that of the extension behind the dot.
pub serve_avatar-IsPlain :
    (filename : Bytes) (files : Directory) (mime : String) (bytes : Bytes)
    → serve_avatar filename files ≡ served mime bytes
    → IsPlain filename mime × (read_file filename files ≡ some bytes)
unfolding serve_avatar
serve_avatar-IsPlain filename files mime bytes h = elim (Option-cases (type_of_file filename)) [
  | inl e ↦ let f = rw (e, serve_avatar) at h in cc
  | inr (m, e) ↦ elim (Option-cases (read_file filename files)) [
    | inl r ↦ let f = rw (e, serve_avatar, r) at h in cc
    | inr (b, r) ↦
        let f : served m b ≡ served mime bytes = rw (e, serve_avatar, r) at h in
        let same : m ≡ mime = cc in
        let data_same : b ≡ bytes = cc in
        (type_of_file-IsPlain filename mime (e ∙ ap some same), r ∙ ap some data_same)
  ]
]
