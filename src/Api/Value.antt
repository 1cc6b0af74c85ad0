-- ===== src/Api/Value.antt =====
-- `serde_json::Value`, as crates/api/src/lib.rs builds it.
use alpharouting.Prelude.{ℕ, Bool}
use alpharouting.Text.{Text}

mutual
  pub data Json (F : Type 0) : Type 0 where
    string : Text → Json F
    number : ℕ → Json F
    -- An `f64`; serde_json decides how a float that is not finite is written.
    float : F → Json F
    boolean : Bool → Json F
    array : Items F → Json F
    object : Fields F → Json F

  pub data Items (F : Type 0) : Type 0 where
    end : Items F
    item : Json F → Items F → Items F

  pub data Fields (F : Type 0) : Type 0 where
    done : Fields F
    field : Text → Json F → Fields F → Fields F
