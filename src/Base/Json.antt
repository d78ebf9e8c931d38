-- ===== src/Base/Json.antt =====
-- Request bodies and query objects: values of type `unknown` that the code inspects.
-- A number is kept in units of 1/10000; `nonfinite` is what JSON text such as 1e999 parses to.
use Prim.Native.String.{String}
use mathlib.Core.Bool.{Bool, true, false}
use mathlib.Core.Option.{Option, none, some}
use mathlib.Core.List.{List, [], ◌∷◌}
use text.Mathlib.Text.{◌==◌ as str_eq}
use company_erp.Base.Tests.{if◌then◌else◌}
use company_erp.Base.Int.{ℤ}

mutual
  pub data Json : Type 0 where
    undefined null nonfinite : Json
    bool : Bool → Json
    num : ℤ → Json
    str : String → Json
    arr : Items → Json
    obj : Properties → Json

  pub data Items : Type 0 where
    nil : Items
    cons : Json → Items → Items

  pub data Properties : Type 0 where
    end : Properties
    property : String → Json → Properties → Properties

abbrev pub items : Items → List Json
items nil = []
items (cons v vs) = v ∷ items vs

-- `payload[field]`, `undefined` where the object has no such property.
unfoldable pub get : String → Properties → Json
get field end = undefined
get field (property k v ps) = let rest = get field ps in if str_eq k field then v else rest

-- `!input || typeof input !== "object" || Array.isArray(input)` rejects all but an object.
abbrev pub as_object : Json → Option Properties
as_object (obj ps) = some ps
as_object _ = none

abbrev pub is_undefined : Json → Bool
is_undefined undefined = true
is_undefined _ = false
