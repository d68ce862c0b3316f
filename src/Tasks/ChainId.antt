-- ===== src/Tasks/ChainId.antt =====
-- packages/nouns-contracts/tasks/types/index.ts: the numbers of the chains.
use unouns_monorepo.Base.{ℕ}

abbrev pub mainnet : ℕ
mainnet = 1

abbrev pub ropsten : ℕ
ropsten = 3

abbrev pub rinkeby : ℕ
rinkeby = 4

abbrev pub goerli : ℕ
goerli = 5

abbrev pub kovan : ℕ
kovan = 42
