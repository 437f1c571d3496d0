-- ===== src/Xpub/Table.antt =====
-- What src/core/xpub.cpp uses of the table of subscriptions, `mtrie_t` of src/pipe/mtrie.hpp, which is not
-- modelled.
use serverlink.Prelude.{ℕ, Bool, List, Bytes}

pub data RmResult : Type 0 where
  not_found : RmResult
  last_value_removed : RmResult
  values_remain : RmResult

-- The operations of the table, of which nothing is assumed. `match` and `rm_pipe` give what the function they
-- take is called with.
pub record Subscriptions (T : Type 0) : Type 0 where
  pub add : Bytes → ℕ → T → Bool × T
  pub rm : Bytes → ℕ → T → RmResult × T
  pub rm_pipe : ℕ → Bool → T → List Bytes × T
  pub match : Bytes → T → List ℕ
