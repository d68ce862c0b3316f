-- ===== src/Assets/Seeds.antt =====
-- packages/nouns-assets/src/utils.ts: the parts of a Noun from a pseudorandom number. The hexadecimal
-- texts are those of the `BigNumber` of ethers, which is an argument, and so is the hash.
pub mod Parts
mod Tests
use unouns_monorepo.Base.{
  ℕ, zero, suc, ◌+◌, ◌-◌, ◌*◌, ◌/◌, ◌%◌, ◌^◌, ◌≡◌, Bool, Option, none, some, List, [], ◌∷◌, ◌++◌,
  ◌==◌, ◌>>=◌, if◌then◌else◌, length, drop,
}
use unouns_monorepo.Base.Text.{Text}
use unouns_monorepo.Sdk.Hex.{to_string, AllHex, parse_hex}

-- an even number of digits
abbrev pub even_digits : Text → Text
even_digits s = if length s % 2 == 0 then s else b'0' ∷ s

-- `toHexString` and `BigNumber.from` on a text, `none` where it throws: a number is written as `0x`
-- and its digits, an even number of them; `0x` and digits are read as the number that they stand for.
pub record BigNumbers : Type 0 where
  pub to_hex_string : ℕ → Text
  pub from : Text → Option ℕ
  pub to_hex_string_digits : (n : ℕ) → to_hex_string n ≡ b'0' ∷ b'x' ∷ even_digits (to_string 16 n)
  pub from_digits : (s : Text) → AllHex s → from (b'0' ∷ b'x' ∷ s) ≡ parse_hex s

-- a start of `substring` below 0 counts as 0
unfoldable pub shift_right_and_cast : BigNumbers → ℕ → ℕ → ℕ → Text
shift_right_and_cast numbers value shift_amount uint_size =
    let shifted = numbers.to_hex_string (value / 2 ^ shift_amount) in
    b'0' ∷ b'x' ∷ drop (length shifted - uint_size / 4) shifted

-- `uintSize` is 48 at every call; there is a part to choose from
unfoldable pub get_pseudorandom_part : BigNumbers → ℕ → ℕ → ℕ → Option ℕ
unfolding shift_right_and_cast
get_pseudorandom_part numbers pseudorandomness part_count shift_amount =
    let hex = shift_right_and_cast numbers pseudorandomness shift_amount 48 in
    do n ← numbers.from hex; some (n % part_count)

pub record NounSeed : Type 0 where
  pub background : ℕ
  pub body : ℕ
  pub accessory : ℕ
  pub head : ℕ
  pub glasses : ℕ

-- how many parts of each kind there are
pub record PartCounts : Type 0 where
  pub backgrounds : ℕ
  pub bodies : ℕ
  pub accessories : ℕ
  pub heads : ℕ
  pub glasses : ℕ

-- from the hash of the block hash and the id
unfoldable pub get_noun_seed_from_block_hash : BigNumbers → PartCounts → ℕ → Option NounSeed
unfolding get_pseudorandom_part
get_noun_seed_from_block_hash numbers counts pseudorandomness = do
  background ← get_pseudorandom_part numbers pseudorandomness counts.backgrounds 0
  body ← get_pseudorandom_part numbers pseudorandomness counts.bodies 48
  accessory ← get_pseudorandom_part numbers pseudorandomness counts.accessories 192
  head ← get_pseudorandom_part numbers pseudorandomness counts.heads 144
  glasses ← get_pseudorandom_part numbers pseudorandomness counts.glasses 192
  some (record {
    background = background;
    body = body;
    accessory = accessory;
    head = head;
    glasses = glasses;
  })
