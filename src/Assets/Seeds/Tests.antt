-- ===== src/Assets/Seeds/Tests.antt =====
-- Examples of the seeds.
use unouns_monorepo.Base.{
  ℕ, ◌+◌, ◌*◌, ◌^◌, ◌≡◌, refl, arith, Option, none, some, [], ◌∷◌, take, drop, if◌then◌else◌,
}
use unouns_monorepo.Base.Text.{Text, same_text}
use unouns_monorepo.Sdk.Hex.{to_string, parse_hex}
use unouns_monorepo.Assets.Seeds.{
  even_digits, BigNumbers, PartCounts, get_noun_seed_from_block_hash,
}
use unouns_monorepo.Assets.Seeds.Parts.{seeder_seed, get_noun_seed_from_block_hash-seeder_seed}

-- a reader of `0x` and digits
abbrev from_text : Text → Option ℕ
from_text s = if same_text (take 2 s) (b'0' ∷ b'x' ∷ []) then parse_hex (drop 2 s) else none

abbrev big_numbers : BigNumbers
unfolding parse_hex same_text
big_numbers = record {
  to_hex_string = λ n. b'0' ∷ b'x' ∷ even_digits (to_string 16 n);
  from = from_text;
  to_hex_string_digits = λ n. refl;
  from_digits = λ s h. refl;
}

abbrev counts : PartCounts
counts = record { backgrounds = 2; bodies = 30; accessories = 140; heads = 242; glasses = 23 }

abbrev random : ℕ
random = 2 ^ 255 + 987654321 * 2 ^ 192 + 123456789 * 2 ^ 144 + 424242 * 2 ^ 96 + 777 * 2 ^ 48 + 3

-- the accessory of the contract's seeder is another one
contract_seed : (seeder_seed counts random 96).accessory ≡ 42
contract_seed = refl

get_noun_seed_from_block_hash-seeder_seed_example :
    get_noun_seed_from_block_hash big_numbers counts random
    ≡ some (record { background = 1; body = 27; accessory = 101; head = 5; glasses = 5 })
get_noun_seed_from_block_hash-seeder_seed_example =
    get_noun_seed_from_block_hash-seeder_seed big_numbers counts random (omega arith)
