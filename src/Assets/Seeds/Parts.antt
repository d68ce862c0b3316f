-- ===== src/Assets/Seeds/Parts.antt =====
-- The part that is chosen, and the seed, by the arithmetic of the contract's seeder.
use unouns_monorepo.Base.{
  ℕ, suc, ◌-◌, ◌/◌, ◌%◌, ◌^◌, ◌≤◌, ◌<◌, ◌≡◌, ◌≢◌, inl, inr, refl, sym, subst, ap, ◌∙◌, arith, some,
  ◌∷◌, ◌==◌, if◌then◌else◌, length, drop, length-drop, Bool-cases, ◌>>=◌,
}
use unouns_monorepo.Base.Text.{Text}
use unouns_monorepo.Sdk.Hex.{AllHex, digit, hex_value-digit, to_string, parse_digits, parse_hex}
use unouns_monorepo.Assets.Seeds.{
  even_digits, BigNumbers, shift_right_and_cast, get_pseudorandom_part, NounSeed, PartCounts,
  get_noun_seed_from_block_hash,
}
use unouns_monorepo.Sdk.Hex.RoundTrip.{AllHex-to_string, parse_digits-to_string}
use unouns_monorepo.Sdk.Hex.Digits.{
  parse_digits-drop, AllHex-drop, parse_hex-AllHex, length-lt, parse_digits-first,
}

-- `uint48(pseudorandomness >> shift) % count`
abbrev pub seeder_part : ℕ → ℕ → ℕ → ℕ
seeder_part pseudorandomness count shift = pseudorandomness / 2 ^ shift % 2 ^ 48 % count

-- with or without a `0` in front
even_digits-cases :
    (P : Text → Type 0) (s : Text)
    → (length s % 2 ≡ 0 → P s)
    → (length s % 2 ≢ 0 → P (b'0' ∷ s))
    → P (even_digits s)
even_digits-cases P s even odd = elim (Bool-cases (length s % 2 == 0)) [
  | inl h ↦ subst P (sym (ap (λ b. if b then s else b'0' ∷ s) h)) (even (ground arith))
  | inr h ↦ subst P (sym (ap (λ b. if b then s else b'0' ∷ s) h)) (odd (ground arith))
]

AllHex-even_digits : (s : Text) → AllHex s → AllHex (even_digits s)
unfolding digit
AllHex-even_digits s h =
    even_digits-cases AllHex s (λ e. h) (λ o. ((0, hex_value-digit 0 (omega arith)), h))

parse_digits-even_digits : (s : Text) → parse_digits 0 (even_digits s) ≡ parse_digits 0 s
unfolding digit
parse_digits-even_digits s =
    even_digits-cases (λ t. parse_digits 0 t ≡ parse_digits 0 s) s (λ e. refl)
      (λ o. parse_digits-first 0 b'0' s (hex_value-digit 0 (omega arith)))

length-even_digits : (s : Text) → 10 < length s → 12 ≤ length (even_digits s)
length-even_digits s h =
    even_digits-cases (λ t. 12 ≤ length t) s (λ e. omega arith) (λ o. omega arith)

-- the last 12 digits of an even number of them
parse_hex-last_digits :
    (n : ℕ) (s : Text)
    → AllHex s
    → 12 ≤ length s
    → parse_digits 0 s ≡ n
    → parse_hex (drop (length s - 12) s) ≡ some (n % 2 ^ 48)
parse_hex-last_digits n s h k eq =
    let rest = drop (length s - 12) s in
    let twelve : length rest ≡ 12 = length-drop (length s - 12) s ∙ omega arith in
    parse_hex-AllHex rest (AllHex-drop (length s - 12) s h) (omega (arith, twelve))
    ∙ ap some (
        parse_digits-drop (length s - 12) s h
        ∙ ap (λ d. parse_digits 0 s % 16 ^ d) twelve
        ∙ ap (λ m. m % 2 ^ 48) eq)

length-even_digits-to_string : (n : ℕ) → 2 ^ 40 ≤ n → 12 ≤ length (even_digits (to_string 16 n))
length-even_digits-to_string n h = length-even_digits (to_string 16 n) (
    length-lt (to_string 16 n) 10 (AllHex-to_string n)
      (subst (λ m. 2 ^ 40 ≤ m) (sym (parse_digits-to_string n)) h))

after_prefix : (n : ℕ) → 12 ≤ n → suc (suc n) - 12 ≡ suc (suc (n - 12))
after_prefix n h = omega arith

-- the text that is read for the part
shift_right_and_cast-digits :
    (numbers : BigNumbers) (value shift : ℕ)
    → let s = even_digits (to_string 16 (value / 2 ^ shift)) in
      12 ≤ length s
      → shift_right_and_cast numbers value shift 48 ≡ b'0' ∷ b'x' ∷ drop (length s - 12) s
unfolding shift_right_and_cast
shift_right_and_cast-digits numbers value shift h =
    let s = even_digits (to_string 16 (value / 2 ^ shift)) in
    ap (λ t. b'0' ∷ b'x' ∷ drop (length t - 12) t)
      (numbers.to_hex_string_digits (value / 2 ^ shift))
    ∙ ap (λ k. b'0' ∷ b'x' ∷ drop k (b'0' ∷ b'x' ∷ s)) (after_prefix (length s) h)

-- The part is the one of the contract's seeder, `uint48(pseudorandomness >> shift) % count`, where what
-- is left after the shift has 41 bits or more.
pub get_pseudorandom_part-seeder_part :
    (numbers : BigNumbers) (pseudorandomness count shift : ℕ)
    → 2 ^ 40 ≤ pseudorandomness / 2 ^ shift
    → get_pseudorandom_part numbers pseudorandomness count shift
      ≡ some (seeder_part pseudorandomness count shift)
unfolding get_pseudorandom_part
get_pseudorandom_part-seeder_part numbers r count shift h =
    let n = r / 2 ^ shift in
    let s = even_digits (to_string 16 n) in
    let hex = AllHex-even_digits (to_string 16 n) (AllHex-to_string n) in
    let long = length-even_digits-to_string n h in
    ap (λ o. o >>= λ m. some (m % count))
      (ap numbers.from (shift_right_and_cast-digits numbers r shift long)
        ∙ numbers.from_digits (drop (length s - 12) s) (AllHex-drop (length s - 12) s hex)
        ∙ parse_hex-last_digits n s hex long
            (parse_digits-even_digits (to_string 16 n) ∙ parse_digits-to_string n))

-- the seed of a pseudorandom number, with the shift of each part
abbrev pub seeder_seed : PartCounts → ℕ → ℕ → NounSeed
seeder_seed counts r accessory_shift = record {
  background = seeder_part r counts.backgrounds 0;
  body = seeder_part r counts.bodies 48;
  accessory = seeder_part r counts.accessories accessory_shift;
  head = seeder_part r counts.heads 144;
  glasses = seeder_part r counts.glasses 192;
}

-- The seed of a pseudorandom number that has more than 232 bits has each part by the arithmetic of the
-- contract's seeder, with the accessory at the shift of the glasses: the shift is 192 for both.
pub get_noun_seed_from_block_hash-seeder_seed :
    (numbers : BigNumbers) (counts : PartCounts) (r : ℕ)
    → 2 ^ 40 ≤ r / 2 ^ 192
    → get_noun_seed_from_block_hash numbers counts r ≡ some (seeder_seed counts r 192)
unfolding get_noun_seed_from_block_hash
get_noun_seed_from_block_hash-seeder_seed numbers counts r h =
    let part = get_pseudorandom_part-seeder_part numbers r in
    rw (
      part counts.backgrounds 0 (omega arith),
      part counts.bodies 48 (omega arith),
      part counts.accessories 192 h,
      part counts.heads 144 (omega arith),
      part counts.glasses 192 h,
    )
