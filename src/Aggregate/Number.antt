-- ===== src/Aggregate/Number.antt =====
-- What the aggregates use of `double`: its arithmetic is the machine's, and no law of it is needed.
use go_prep.Base.{ℕ}

pub record Double : Type 1 where
  pub Number : Type 0
  pub zero : Number
  pub add : Number → Number → Number
  pub divide : Number → Number → Number
  -- The conversion from `uint64_t`.
  pub of_uint64 : ℕ → Number
