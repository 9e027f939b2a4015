-- ===== src/Retriever.antt =====
-- What the resolver calls of `Retriever` of retrieve/mod.rs. The retriever keeps a cache of its own,
-- so a call returns the new retriever.
use elba.Prelude.{ℕ, List}
use elba.Prelude.Outcome.{Result}
use elba.Resolve.Incompat.{Incompatibility, Summary}

pub record Retriever (P V C R : Type 0) : Type 0 where
  pub root : R → Summary P V
  pub count_versions : R → P → ℕ
  -- `best(pkg, con, false)`
  pub best : P → C → R → Result V × R
  pub incompats : Summary P V → P → R → Result (List (Incompatibility P C)) × R
  -- `res_mapping[pkg]` where there is one, and `pkg` elsewhere.
  pub mapped : R → P → P
