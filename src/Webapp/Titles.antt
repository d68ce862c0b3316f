-- ===== src/Webapp/Titles.antt =====
-- The titles of proposals: `extractTitle` and `removeMarkdownStyle` of
-- packages/nouns-webapp/src/wrappers/nounsDao.ts, with the two regular expressions as functions.
pub mod Entered
use unouns_monorepo.Base.{
  ℕ, zero, suc, Bool, true, false, not, ◌&&◌, ◌||◌, Option, none, some, List, [], ◌∷◌, ◌++◌, ◌==◌,
  codes, if◌then◌else◌,
}
use unouns_monorepo.Base.Text.{Text, is_space, trim_start, replace_pair}

-- the text up to the first line feed
unfoldable pub line_of : Text → Text
line_of [] = []
line_of (c ∷ s) = elim (c == b'\n') [ true ↦ [] | false ↦ c ∷ line_of s ]

-- the text from the first line feed on
unfoldable pub after_line : Text → Text
after_line [] = []
after_line (c ∷ s) = elim (c == b'\n') [ true ↦ c ∷ s | false ↦ after_line s ]

-- the white space in front, up to `\S`
unfoldable pub spaces_of : Text → Text
unfolding is_space
spaces_of [] = []
spaces_of (c ∷ s) = elim (is_space c) [ true ↦ c ∷ spaces_of s | false ↦ [] ]

-- the last code unit that is no line feed
unfoldable pub last_blank : Text → Option ℕ
last_blank [] = none
last_blank (c ∷ s) = elim (last_blank s) [
  | some d ↦ some d
  | none ↦ if c == b'\n' then none else some c
]

-- `\s+([^\n]+)`: where nothing follows the white space, the last of it that is no line feed is given
-- up to the group, but for the first one
unfoldable pub group_after : Text → Text → Option Text
group_after [] rest = none
group_after (c ∷ spaces) (d ∷ rest) = some (line_of (d ∷ rest))
group_after (c ∷ spaces) [] = elim (last_blank spaces) [ none ↦ none | some d ↦ some (d ∷ []) ]

-- `#{1,6}` and what follows; a further `#` is no white space
unfoldable pub after_hashes : ℕ → Text → Text
after_hashes zero s = s
after_hashes (suc n) [] = []
after_hashes (suc n) (c ∷ s) = elim (c == b'#') [ true ↦ after_hashes n s | false ↦ c ∷ s ]

unfoldable pub hash_title : Text → Option Text
unfolding after_hashes
hash_title [] = none
hash_title (c ∷ s) =
    let rest = after_hashes 5 s in
    if c == b'#' then group_after (spaces_of rest) (trim_start rest) else none

-- `/^\s*#{1,6}\s+([^\n]+)/`
unfoldable pub extract_hash_title : Text → Option Text
extract_hash_title body = hash_title (trim_start body)

-- three times the same sign
abbrev pub begins_with_three : ℕ → Text → Bool
begins_with_three c (d ∷ e ∷ f ∷ s) = d == c && (e == c && f == c)
begins_with_three c _ = false

-- a line that `===` or `---` underlines
unfoldable pub underlined : Text → Text → Option Text
underlined [] rest = none
underlined (c ∷ line) [] = none
underlined (c ∷ line) (d ∷ rest) =
    if begins_with_three b'=' rest || begins_with_three b'-' rest then some (c ∷ line) else none

-- `/^\s*([^\n]+)\n(={3,25}|-{3,25})/`, with the longest white space first
unfoldable pub extract_equal_title : Text → Option Text
extract_equal_title [] = none
extract_equal_title (c ∷ body) = elim (is_space c) [
  | true ↦ elim (extract_equal_title body) [
    | some title ↦ some title
    | none ↦ underlined (line_of (c ∷ body)) (after_line (c ∷ body))
  ]
  | false ↦ underlined (line_of (c ∷ body)) (after_line (c ∷ body))
]

unfoldable pub extract_title : Text → Option Text
extract_title [] = none
extract_title (c ∷ body) = elim (extract_hash_title (c ∷ body)) [
  | some title ↦ some title
  | none ↦ extract_equal_title (c ∷ body)
]

abbrev pub remove_bold : Text → Text
remove_bold text = replace_pair b'*' b'*' [] text

abbrev pub remove_italics : Text → Text
remove_italics text = replace_pair b'_' b'_' [] text

abbrev pub remove_markdown_style : Option Text → Option Text
remove_markdown_style none = none
remove_markdown_style (some text) = some (remove_bold (remove_italics text))

abbrev pub is_quote : ℕ → Bool
is_quote c = c == b'\'' || c == b'"'

abbrev pub without_first_quote : Text → Text
without_first_quote [] = []
without_first_quote (c ∷ s) = if is_quote c then s else c ∷ s

unfoldable pub without_last_quote : Text → Text
without_last_quote [] = []
without_last_quote (c ∷ []) = if is_quote c then [] else c ∷ []
without_last_quote (c ∷ d ∷ s) = c ∷ without_last_quote (d ∷ s)

-- `\n` written out becomes a line feed, and a quotation mark at either end is dropped
unfoldable pub clean_description : Text → Text
clean_description description =
    without_last_quote (without_first_quote (replace_pair b'\\' b'n' (b'\n' ∷ []) description))

-- the title of `parseSubgraphProposal`
unfoldable pub proposal_title : Text → Text
proposal_title description =
    elim (remove_markdown_style (extract_title (clean_description description))) [
      | none ↦ codes "Untitled"
      | some title ↦ title
    ]
