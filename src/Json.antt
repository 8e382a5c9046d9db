-- ===== src/Json.antt =====
-- JSON values, as audit payloads hold them. Numbers are the counts and revisions that the services
-- write there.
use hara_control.Common.{ℕ, String, Bool}

mutual
  pub data Json : Type 0 where
    null : Json
    bool : Bool → Json
    num : ℕ → Json
    str : String → Json
    arr : Items → Json
    obj : Fields → Json

  pub data Items : Type 0 where
    nil : Items
    cons : Json → Items → Items

  pub data Fields : Type 0 where
    end : Fields
    field : String → Json → Fields → Fields
