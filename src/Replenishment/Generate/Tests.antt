-- ===== src/Replenishment/Generate/Tests.antt =====
-- A run of the generation of suggestions.
use company_erp.Base.{true, none, some, [], ◌∷◌, absent, keep}
use company_erp.Base.Int.{pos}
use company_erp.Database.{Table}
use company_erp.Database.Model.{memory, Rows}
use company_erp.Replenishment.Suggestions.{Suggestion}
use company_erp.Replenishment.Generate.{StockedMaterial, Snapshot, is_watched, generate}
use company_erp.Replenishment.Generate.Effects.{LoopEffect, generate-Effect}

abbrev rice : StockedMaterial
rice = record {
  id = "m1";
  material_code = "M1";
  material_name = "Rice";
  specification = absent;
  base_unit = "kg";
  enabled = true;
  safe_stock = some (pos 100000);
  default_warehouse_id = some "w1";
}

-- Four of ten are there.
abbrev seen : Snapshot
seen = record {
  materials = rice ∷ [];
  open_suggestions = [];
  stock = record { warehouse_id = "w1"; material_id = "m1"; quantity = pos 40000 } ∷ [];
  usage = [];
  requested = [];
  bought = [];
}

abbrev table : Table Suggestion
table = memory

abbrev empty : Rows Suggestion
empty = λ id. none

generate-Effect_example :
    LoopEffect table seen
      (keep is_watched seen.materials)
      (record { created = []; existing_open = []; skipped = 0 })
      empty
      (generate table seen empty)
generate-Effect_example = generate-Effect table seen empty
