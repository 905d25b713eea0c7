-- ===== src/World/Queries.antt =====
-- The `do` blocks of queries: reads that leave the state alone and may raise.
use toss_invest_ai.Models.{Result, ok, err}
use toss_invest_ai.World.Actions.{Query}

infixl 5 ◌>>=◌ ◌>>◌
abbrev pub ◌>>=◌ : {F A B : Type 0} → Query F A → (A → Query F B) → Query F B
◌>>=◌ m k w = elim (m w) [ ok a ↦ k a w | err e ↦ err e ]

abbrev pub ◌>>◌ : {F A B : Type 0} → Query F A → Query F B → Query F B
m >> k = m >>= λ _. k

module _ {F A : Type 0} where
  abbrev pub return : A → Query F A
  return a w = ok a

  abbrev pub given : Result A → Query F A
  given r w = r
