-- ===== src/Json.antt =====
-- The values of Python's `json` module, and what the source asks of a decoded object.
pub mod Int
use cross_agent_chat.Json.Int.{ℤ, pos, int_eq}
use cross_agent_chat.Prelude.{
  if◌then◌else◌, ℕ, ◌^◌, ◌≡◌, refl, ap, Bool, true, false, ◌&&◌, ◌||◌, Option, none, some, List, [],
  ◌∷◌,
}
use cross_agent_chat.Text.{Text, ◌==◌}

-- A decoded value. `real m e` is the double m / 2 ^ e; `not_finite` is `NaN` or an infinity.
mutual
  pub data Json : Type 0 where
    null : Json
    bool : Bool → Json
    int : ℤ → Json
    real : ℤ → ℕ → Json
    not_finite : Json
    str : Text → Json
    arr : Items → Json
    obj : Fields → Json

  pub data Items : Type 0 where
    nil : Items
    cons : Json → Items → Items

  pub data Fields : Type 0 where
    end : Fields
    field : Text → Json → Fields → Fields

-- `for item in raw`
unfoldable pub to_list : Items → List Json
to_list nil = []
to_list (cons j js) = j ∷ to_list js

unfoldable pub of_list : List Json → Items
of_list [] = nil
of_list (j ∷ js) = cons j (of_list js)

pub to_list-of_list : (js : List Json) → to_list (of_list js) ≡ js
unfolding to_list of_list
to_list-of_list [] = refl
to_list-of_list (j ∷ js) = ap (◌∷◌ j) (to_list-of_list js)

-- `raw.get(key)`
unfoldable pub get : Text → Fields → Option Json
get k end = none
get k (field j v fs) = if j == k then some v else get k fs

unfoldable pub keys : Fields → List Text
keys end = []
keys (field k v fs) = k ∷ keys fs

unfoldable pub member : Text → List Text → Bool
member k [] = false
member k (j ∷ js) = j == k || member k js

unfoldable pub subset : List Text → List Text → Bool
unfolding member
subset [] ks = true
subset (j ∷ js) ks = member j ks && subset js ks

-- `set(raw) == names`
unfoldable pub keys_are : List Text → Fields → Bool
unfolding subset keys
keys_are names fs = subset (keys fs) names && subset names (keys fs)

-- `value == 1`: in Python `True == 1` and `1.0 == 1` hold.
unfoldable pub equals_one : Json → Bool
unfolding int_eq
equals_one (bool b) = b
equals_one (int i) = int_eq i (pos 1)
equals_one (real m e) = int_eq m (pos (2 ^ e))
equals_one _ = false

-- `isinstance(value, str)`, with the value.
unfoldable pub as_str : Option Json → Option Text
as_str (some (str s)) = some s
as_str _ = none

-- `isinstance(value, int)` and not a `bool`, with the value.
unfoldable pub as_int : Option Json → Option ℤ
as_int (some (int i)) = some i
as_int _ = none
