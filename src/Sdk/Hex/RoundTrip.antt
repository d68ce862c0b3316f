-- ===== src/Sdk/Hex/RoundTrip.antt =====
-- packages/nouns-sdk/src/image/utils.ts: reading what was written.
use unouns_monorepo.Base.{
  ℕ, zero, suc, ◌-◌, ◌≤◌, ◌≡◌, refl, ap, ◌∙◌, arith, some, ◌++◌, length, replicate, length-append,
  length-replicate,
}
use unouns_monorepo.Base.Text.{Text}
use unouns_monorepo.Sdk.Hex.{
  digit, AllHex, to_string, to_padded_hex, hex_value-digit, pad_start, parse_digits, parse_hex,
}
use unouns_monorepo.Sdk.Hex.Digits.{
  AllHex-digits, parse_digits-digits, AllHex-append, parse_digits-first, parse_hex-AllHex,
}

pub AllHex-to_string : (n : ℕ) → AllHex (to_string 16 n)
unfolding to_string
AllHex-to_string n = AllHex-digits (suc n) n

pub parse_digits-to_string : (n : ℕ) → parse_digits 0 (to_string 16 n) ≡ n
unfolding to_string
parse_digits-to_string n = parse_digits-digits (suc n) n (omega arith)

AllHex-zeros : (n : ℕ) → AllHex (replicate n b'0')
unfolding digit
AllHex-zeros zero = tt
AllHex-zeros (suc n) = ((0, hex_value-digit 0 (omega arith)), AllHex-zeros n)

-- zeros in front do not count
parse_digits-zeros : (n : ℕ) (s : Text) → parse_digits 0 (replicate n b'0' ++ s) ≡ parse_digits 0 s
unfolding digit
parse_digits-zeros zero s = refl
parse_digits-zeros (suc n) s =
    parse_digits-first 0 b'0' (replicate n b'0' ++ s) (hex_value-digit 0 (omega arith))
    ∙ parse_digits-zeros n s

length-pad_start_le : (n c : ℕ) (s : Text) → n ≤ length (pad_start n c s)
unfolding pad_start
length-pad_start_le n c s =
    omega (arith, length-append (replicate (n - length s) c) s, length-replicate (n - length s) c)

-- A number is read back from its padded digits, a byte or not.
parse_hex-to_padded_hex : (c : ℕ) → parse_hex (to_padded_hex c) ≡ some c
unfolding to_padded_hex
parse_hex-to_padded_hex c =
    let s = to_string 16 c in
    let zeros = replicate (2 - length s) b'0' in
    let long = length-pad_start_le 2 b'0' s in
    parse_hex-AllHex (zeros ++ s)
      (AllHex-append zeros s (AllHex-zeros (2 - length s)) (AllHex-to_string c))
      (omega (arith, long))
    ∙ ap some (parse_digits-zeros (2 - length s) s ∙ parse_digits-to_string c)
