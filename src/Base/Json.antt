-- ===== src/Base/Json.antt =====
-- JSON values, as `JSON.parse` makes them. A number that is no natural number is kept by its
-- spelling.
use mathlib.Core.Bool.{Bool}
use mathlib.Core.List.{List, [], ◌∷◌}
use mathlib.Core.Option.{Option, none, some}
use Prim.Native.Nat.{ℕ}
use api_whats_app.Base.Tests.{if◌then◌else◌}
use api_whats_app.Base.Strings.{Text, text_eq}

mutual
  pub data Json : Type 0 where
    null : Json
    bool : Bool → Json
    num : ℕ → Json
    real : Text → Json
    str : Text → Json
    arr : Items → Json
    obj : Fields → Json

  pub data Items : Type 0 where
    nil : Items
    cons : Json → Items → Items

  pub data Fields : Type 0 where
    end : Fields
    field : Text → Json → Fields → Fields

abbrev pub items : Items → List Json
items nil = []
items (cons j js) = j ∷ items js

abbrev pub of_list : List Json → Items
of_list [] = nil
of_list (j ∷ js) = cons j (of_list js)

-- `value.key`; `none` is `undefined`.
abbrev pub member : Text → Fields → Option Json
member k end = none
member k (field j v fs) = let rest = member k fs in if text_eq j k then some v else rest

-- `value.key` where the source has checked that the value is an object: `undefined` on anything
-- else, arrays included.
abbrev pub get : Text → Json → Option Json
get k (obj fs) = member k fs
get k _ = none

-- `Array.isArray(value) ? value : []`, `undefined` included.
abbrev pub elements : Option Json → List Json
elements (some (arr js)) = items js
elements _ = []
