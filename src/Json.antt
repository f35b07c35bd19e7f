-- ===== src/Json.antt =====
-- JSON values, as the JSONB columns hold them.
use scenario_pipeliner.Base.{ℕ, Bool}
use scenario_pipeliner.Text.{String}

mutual
  pub data Json : Type 0 where
    null : Json
    bool : Bool → Json
    num : ℕ → Json
    str : String → Json
    arr : Items → Json
    obj : Fields → Json

  pub data Items : Type 0 where
    nil : Items
    cons : Json → Items → Items

  pub data Fields : Type 0 where
    end : Fields
    field : String → Json → Fields → Fields
