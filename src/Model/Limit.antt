-- ===== src/Model/Limit.antt =====
-- The page size that a query uses.
use go_prod_change_registry.Prelude.{◌≡◌, arith}
use go_prod_change_registry.Prelude.Int.{ℤ, pos, ◌≤ℤ◌}
use go_prod_change_registry.Model.{effective_limit, default_limit, max_limit}

-- Whatever limit is asked for, the page size lies between 1 and 200; a limit in that range is
-- kept, one of 0 or less becomes 50, and one above 200 becomes 200.
pub effective_limit_lem :
    (limit : ℤ)
    → (pos 1 ≤ℤ effective_limit limit)
      × (effective_limit limit ≤ℤ max_limit)
      × (pos 1 ≤ℤ limit → limit ≤ℤ max_limit → effective_limit limit ≡ limit)
      × (limit ≤ℤ pos 0 → effective_limit limit ≡ default_limit)
      × (pos 201 ≤ℤ limit → effective_limit limit ≡ max_limit)
unfolding effective_limit
effective_limit_lem limit = ground arith
