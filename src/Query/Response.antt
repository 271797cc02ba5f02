-- ===== src/Query/Response.antt =====
-- What a query answers: `Response` of woori-db/src/schemas/query.rs.
use wooridb.Base.{ℕ, Bool, Option, List, Text}
use wooridb.Base.Map.{Map}
use wooridb.Wql.Types.{Entity, Uuid, DateTime}

mutual
  pub data Response : Type 0 where
    id intersect difference union : Entity → Response
    all : Map Uuid Entity → Response
    order : List (Uuid × Entity) → Response
    group_by : Map Text (Map Uuid Entity) → Response
    ordered_group_by : Map Text (List (Uuid × Entity)) → Response
    option_order : List (Uuid × Option Entity) → Response
    option_group_by : Map Text (Map Uuid (Option Entity)) → Response
    option_select : Map Uuid (Option Entity) → Response
    check_values : Map Text Bool → Response
    time_range : Map DateTime Entity → Response
    with_count : CountResponse → Response
    date_select : Map Text Entity → Response
    join : List Entity → Response

  -- CountResponse::new takes the two in this order
  pub data CountResponse : Type 0 where
    count_response : ℕ → Response → CountResponse
