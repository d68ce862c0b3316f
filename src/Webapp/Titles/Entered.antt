-- ===== src/Webapp/Titles/Entered.antt =====
-- The title that the form of packages/nouns-webapp/src/pages/CreateProposal/index.tsx puts in front of a
-- description, as packages/nouns-webapp/src/wrappers/nounsDao.ts reads it.
use unouns_monorepo.Base.{
  ℕ, true, false, Option, none, some, [], ◌∷◌, ◌++◌, All, if◌then◌else◌, ◌≡◌, ◌≢◌, refl, sym, ap,
  ◌∙◌, arith, append-nil, codes,
}
use unouns_monorepo.Base.Text.{Text, is_space, trim_start, replace_pair}
use unouns_monorepo.Webapp.CreateProposal.{describe}
use unouns_monorepo.Webapp.Titles.{
  line_of, spaces_of, group_after, after_hashes, hash_title, extract_hash_title, extract_title,
  remove_markdown_style, without_first_quote, without_last_quote, clean_description, proposal_title,
}

-- a code unit that the reading of a title does not change: no line feed, backslash, asterisk or
-- underscore
abbrev pub IsPlain : ℕ → Type 0
IsPlain c = (c ≢ b'\n') × ((c ≢ b'\\') × ((c ≢ b'*') × (c ≢ b'_')))

-- the pair does not begin in the text, so that what follows it is replaced alone
replace_pair-append :
    (a b : ℕ) (r t s : Text)
    → All (λ c. c ≢ a) t
    → replace_pair a b r (t ++ s) ≡ t ++ replace_pair a b r s
unfolding replace_pair
replace_pair-append a b r [] s h = refl
replace_pair-append a b r (c ∷ []) [] (first, rest) = refl
replace_pair-append a b r (c ∷ []) (d ∷ s) (first, rest) = ground arith
replace_pair-append a b r (c ∷ d ∷ t) s (first, rest) =
    ground (arith, replace_pair-append a b r (d ∷ t) s rest)

line_of-append : (t s : Text) → All (λ c. c ≢ b'\n') t → line_of (t ++ (b'\n' ∷ s)) ≡ t
unfolding line_of
line_of-append [] s h = refl
line_of-append (c ∷ t) s (first, rest) = ground (arith, line_of-append t s rest)

replace_pair-plain : (a b : ℕ) (r t : Text) → All (λ c. c ≢ a) t → replace_pair a b r t ≡ t
unfolding replace_pair
replace_pair-plain a b r t h =
    ap (replace_pair a b r) (sym (append-nil t)) ∙ replace_pair-append a b r t [] h ∙ append-nil t

without_last_quote-append :
    (t : Text) (x y : ℕ) (s : Text)
    → without_last_quote (t ++ (x ∷ y ∷ s)) ≡ t ++ (x ∷ without_last_quote (y ∷ s))
unfolding without_last_quote
without_last_quote-append [] x y s = refl
without_last_quote-append (c ∷ []) x y s = refl
without_last_quote-append (c ∷ d ∷ t) x y s =
    ap (λ u. c ∷ u) (without_last_quote-append (d ∷ t) x y s)

-- what the cleaning leaves of the description after the first line
abbrev cleaned : Text → Text
cleaned body = without_last_quote (b'\n' ∷ replace_pair b'\\' b'n' (b'\n' ∷ []) body)

clean_description-describe :
    (title body : Text)
    → All (λ c. c ≢ b'\\') title
    → clean_description (describe title body) ≡ b'#' ∷ b' ' ∷ (title ++ (b'\n' ∷ cleaned body))
unfolding clean_description describe
clean_description-describe title body h =
    ap (λ u. without_last_quote (without_first_quote u))
      (replace_pair-append b'\\' b'n' (b'\n' ∷ []) (b'#' ∷ b' ' ∷ title) (b'\n' ∷ b'\n' ∷ body)
          (omega arith, (omega arith, h))
        ∙ ap (λ u. b'#' ∷ b' ' ∷ (title ++ u))
            (replace_pair-append b'\\' b'n' (b'\n' ∷ []) (b'\n' ∷ b'\n' ∷ []) body
              (omega arith, (omega arith, _))))
    ∙ without_last_quote-append (b'#' ∷ b' ' ∷ title) b'\n' b'\n'
        (replace_pair b'\\' b'n' (b'\n' ∷ []) body)

spaces_of-none : (c : ℕ) (s : Text) → is_space c ≡ false → spaces_of (c ∷ s) ≡ []
unfolding spaces_of
spaces_of-none c s h = ap (λ b. elim b as (λ x. Text) [ true ↦ c ∷ spaces_of s | false ↦ [] ]) h

trim_start-none : (c : ℕ) (s : Text) → is_space c ≡ false → trim_start (c ∷ s) ≡ c ∷ s
unfolding trim_start
trim_start-none c s h = ap (λ b. if b then trim_start s else c ∷ s) h

spaces_of-space : (s : Text) → spaces_of (b' ' ∷ s) ≡ b' ' ∷ spaces_of s
unfolding spaces_of is_space
spaces_of-space s = refl

trim_start-space : (s : Text) → trim_start (b' ' ∷ s) ≡ trim_start s
unfolding trim_start is_space
trim_start-space s = refl

hash_is_no_space : is_space b'#' ≡ false
unfolding is_space
hash_is_no_space = refl

extract_hash_title-hash :
    (s : Text)
    → extract_hash_title (b'#' ∷ b' ' ∷ s) ≡ group_after (b' ' ∷ spaces_of s) (trim_start s)
unfolding extract_hash_title hash_title after_hashes
extract_hash_title-hash s =
    ap hash_title (trim_start-none b'#' (b' ' ∷ s) hash_is_no_space)
    ∙ ap (λ u. group_after u (trim_start (b' ' ∷ s))) (spaces_of-space s)
    ∙ ap (group_after (b' ' ∷ spaces_of s)) (trim_start-space s)

extract_hash_title-entered :
    (c : ℕ) (title rest : Text)
    → is_space c ≡ false
    → All (λ d. d ≢ b'\n') (c ∷ title)
    → extract_hash_title (b'#' ∷ b' ' ∷ ((c ∷ title) ++ (b'\n' ∷ rest))) ≡ some (c ∷ title)
unfolding group_after
extract_hash_title-entered c title rest h all =
    let s = title ++ (b'\n' ∷ rest) in
    extract_hash_title-hash (c ∷ s)
    ∙ ap (λ u. group_after (b' ' ∷ u) (trim_start (c ∷ s))) (spaces_of-none c s h)
    ∙ ap (group_after (b' ' ∷ [])) (trim_start-none c s h)
    ∙ ap some (line_of-append (c ∷ title) rest all)

extract_title-some :
    (c : ℕ) (body title : Text)
    → extract_hash_title (c ∷ body) ≡ some title
    → extract_title (c ∷ body) ≡ some title
unfolding extract_title
extract_title-some c body title h = ground arith

All-of : (P Q : ℕ → Type 0) (s : Text) → ((c : ℕ) → P c → Q c) → All P s → All Q s
All-of P Q [] f h = _
All-of P Q (c ∷ s) f (first, rest) = (f c first, All-of P Q s f rest)

remove_markdown_style-plain :
    (title : Text) → All IsPlain title → remove_markdown_style (some title) ≡ some title
remove_markdown_style-plain title h =
    ap (λ u. some (replace_pair b'*' b'*' [] u))
      (replace_pair-plain b'_' b'_' [] title
        (All-of IsPlain (λ c. c ≢ b'_') title (λ c p. p.1.1.1) h))
    ∙ ap some (
        replace_pair-plain b'*' b'*' [] title
          (All-of IsPlain (λ c. c ≢ b'*') title (λ c p. p.1.1.0) h))

-- A title that begins with no white space and has no line feed, backslash, asterisk or underscore is
-- read back from the description that is proposed with it, whatever the body is.
pub proposal_title-describe :
    (c : ℕ) (title body : Text)
    → is_space c ≡ false
    → All IsPlain (c ∷ title)
    → proposal_title (describe (c ∷ title) body) ≡ c ∷ title
unfolding proposal_title
proposal_title-describe c title body h plain =
    let title_of : Option Text → Text =
      λ o. elim (remove_markdown_style o) [ none ↦ codes "Untitled" | some t ↦ t ] in
    ap (λ u. title_of (extract_title u))
      (clean_description-describe (c ∷ title) body
        (All-of IsPlain (λ d. d ≢ b'\\') (c ∷ title) (λ d p. p.1.0) plain))
    ∙ ap title_of (
        extract_title-some b'#' (b' ' ∷ ((c ∷ title) ++ (b'\n' ∷ cleaned body))) (c ∷ title) (
          extract_hash_title-entered c title (cleaned body) h
            (All-of IsPlain (λ d. d ≢ b'\n') (c ∷ title) (λ d p. p.0) plain)))
    ∙ ap (λ o. elim o as (λ x. Text) [ none ↦ codes "Untitled" | some t ↦ t ])
        (remove_markdown_style-plain (c ∷ title) plain)
