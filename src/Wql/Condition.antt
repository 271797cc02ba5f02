-- ===== src/Wql/Condition.antt =====
-- `MatchCondition` of wql/src/lib.rs.
use wooridb.Base.{Text}
use wooridb.Wql.Types.{Types}

mutual
  pub data MatchCondition : Type 0 where
    all any : Conditions → MatchCondition
    eq not_eq g_eq g l_eq l : Text → Types → MatchCondition

  -- Vec<MatchCondition>
  pub data Conditions : Type 0 where
    end : Conditions
    condition : MatchCondition → Conditions → Conditions
