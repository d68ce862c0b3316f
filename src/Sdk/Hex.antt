-- ===== src/Sdk/Hex.antt =====
-- packages/nouns-sdk/src/image/utils.ts, and the number conversions of ECMAScript that it uses.
-- A text is its list of code units.
pub mod Digits
pub mod RoundTrip
use unouns_monorepo.Base.{
  ℕ, zero, suc, ◌+◌, ◌-◌, ◌*◌, ◌/◌, ◌%◌, ◌<◌, ◌≡◌, refl, arith, Option, none, some, [], ◌∷◌, ◌++◌,
  ◌&&◌, ltb, leb, if◌then◌else◌, length, replicate, Bool-cases, inl, inr, ap, ◌∙◌,
}
use unouns_monorepo.Base.Text.{Text}

-- the digit of a value below 36
unfoldable pub digit : ℕ → ℕ
digit d = if ltb d 10 then 48 + d else 87 + d

-- the digits of `n` in the base `b`, on fuel; `n + 1` rounds are enough for a base of at least 2
unfoldable pub digits : ℕ → ℕ → ℕ → Text
unfolding digit
digits b zero n = []
digits b (suc fuel) n =
    let rest = digits b fuel (n / b) in if ltb n b then digit n ∷ [] else rest ++ digit (n % b) ∷ []

-- `n.toString(b)`
unfoldable pub to_string : ℕ → ℕ → Text
unfolding digits
to_string b n = digits b (suc n) n

-- `s.padStart(n, c)` for a filler of one code unit
unfoldable pub pad_start : ℕ → ℕ → Text → Text
pad_start n c s = replicate (n - length s) c ++ s

-- `pad` is 2 at every call
unfoldable pub to_padded_hex : ℕ → Text
unfolding to_string pad_start
to_padded_hex c = pad_start 2 b'0' (to_string 16 c)

unfoldable pub rgb_to_hex : ℕ → ℕ → ℕ → Text
unfolding to_padded_hex
rgb_to_hex r g b = to_padded_hex r ++ (to_padded_hex g ++ to_padded_hex b)

-- the value of a hexadecimal digit, in either case
unfoldable pub hex_value : ℕ → Option ℕ
hex_value c =
    if leb 48 c && leb c 57
    then some (c - 48)
    else if leb 97 c && leb c 102
    then some (c - 87)
    else if leb 65 c && leb c 70
    then some (c - 55)
    else none

-- every code unit is a hexadecimal digit
abbrev pub AllHex : Text → Type 0
AllHex [] = Unit
AllHex (c ∷ s) = ((d : ℕ) × (hex_value c ≡ some d)) × AllHex s

-- the longest prefix of digits
unfoldable pub parse_digits : ℕ → Text → ℕ
unfolding hex_value
parse_digits n [] = n
parse_digits n (c ∷ s) = elim (hex_value c) [ none ↦ n | some d ↦ parse_digits (n * 16 + d) s ]

-- `parseInt(s, 16)` where `s` has no sign, no white space in front and no `0x`: `none` is NaN
unfoldable pub parse_hex : Text → Option ℕ
unfolding parse_digits
parse_hex [] = none
parse_hex (c ∷ s) = elim (hex_value c) [ none ↦ none | some d ↦ some (parse_digits d s) ]

-- two digits, for a byte
pub to_padded_hex-byte : (c : ℕ) → c < 256 → to_padded_hex c ≡ digit (c / 16) ∷ digit (c % 16) ∷ []
unfolding to_padded_hex
to_padded_hex-byte zero h = refl
to_padded_hex-byte (suc c) h = elim (Bool-cases (ltb (suc c) 16)) [
  | inl small ↦ ground arith
  | inr big ↦ ground arith
]

pub hex_value-digit : (d : ℕ) → d < 16 → hex_value (digit d) ≡ some d
unfolding hex_value digit
hex_value-digit d h = ground arith

-- two digits are read with the first one in front
pub parse_hex-two :
    (a b : ℕ) → a < 16 → b < 16 → parse_hex (digit a ∷ digit b ∷ []) ≡ some (a * 16 + b)
unfolding parse_hex
parse_hex-two a b h k = ground (arith, hex_value-digit a h, hex_value-digit b k)
