-- ===== src/Inventory/Routes/Signs.antt =====
-- The sign of a recorded quantity, over any sequence of calls of the route.
use company_erp.Base.{
  ◌≡◌, refl, sym, ap, ◌∙◌, subst, ℕ, suc, String, Bool, Option, List, [], ◌∷◌, ◌++◌, All,
}
use company_erp.Base.Int.{ℤ, pos, negsuc}
use company_erp.Base.Json.{Json}
use company_erp.Database.{Table}
use company_erp.Audit.{AuditTable}
use company_erp.Inventory.Types.{
  MovementType, inbound, outbound, adjustment_in, adjustment_out, Movement, MovementInput,
  PurchaseLine, Receipt,
}
use company_erp.Inventory.Input.Laws.{IsMovement, normalize_movement_input-IsMovement}
use company_erp.Inventory.Store.{MovementTable, Lines}
use company_erp.Inventory.Repository.{movement_data, signed_quantity}
use company_erp.Inventory.Routes.{Directory, Response, created, World, post_movement}
use company_erp.Inventory.Routes.Effects.{MovementEffect, post_movement-Effect}

-- What leaves the warehouse is negative, what enters it positive, and neither is zero.
abbrev pub Signed : MovementType → ℤ → Type 0
Signed outbound q = (n : ℕ) × (q ≡ negsuc n)
Signed adjustment_out q = (n : ℕ) × (q ≡ negsuc n)
Signed _ q = (n : ℕ) × (q ≡ pos (suc n))

abbrev pub IsSigned : Movement → Type 0
IsSigned m = Signed m.movement_type m.quantity

signed_quantity-Signed : (t : MovementType) (n : ℕ) → Signed t (signed_quantity t (pos (suc n)))
unfolding signed_quantity
signed_quantity-Signed outbound n = (n, refl)
signed_quantity-Signed adjustment_out n = (n, refl)
signed_quantity-Signed MovementType.opening n = (n, refl)
signed_quantity-Signed inbound n = (n, refl)
signed_quantity-Signed adjustment_in n = (n, refl)

movement_data-IsSigned :
    (input : MovementInput) (stamp id : String)
    → IsMovement input
    → IsSigned (movement_data input stamp id)
unfolding movement_data
movement_data-IsSigned input stamp id m =
    subst (λ q. Signed input.movement_type (signed_quantity input.movement_type q)) (sym m.counted)
      (signed_quantity-Signed input.movement_type m.count)

module _ (M : MovementTable) {L : Table PurchaseLine} (N : Lines L) (R : Table Receipt)
    (A : AuditTable) (audited : Bool) (actor : Option String) where
  -- Calls of the route, one after another.
  pub data Reach (w : World M N R A audited actor) : World M N R A audited actor → Type 0 where
    here : Reach w w
    next :
        {v : World M N R A audited actor}
        → (configured : Bool) (d : Directory) (stamp : String) (body : Json) → Reach w v
        → Reach w (post_movement M N R A audited actor configured d stamp body v).1

  -- Rows that were put before the old ones.
  pub record Grown (w v : World M N R A audited actor) : Type 0 where
    pub new : List Movement
    pub appended : M.rows v.0.0 ≡ new ++ M.rows w.0.0
    pub signed : All IsSigned new

  grow :
      (w v : World M N R A audited actor) (d : Directory) (stamp : String) (body : Json)
      (x : Response × World M N R A audited actor)
      → Grown w v
      → MovementEffect M N R A audited actor d stamp body v x
      → Grown w x.1
  grow w v d stamp body (created m, v') g e = record {
    new = m ∷ g.new;
    appended = e.added ∙ ap (λ rows. m ∷ rows) g.appended;
    signed = (
      subst IsSigned (sym e.made) (
          movement_data-IsSigned e.input stamp e.id
            (normalize_movement_input-IsMovement body e.checked)),
      g.signed,
    );
  }
  grow w v d stamp body (Response.bad_request _, v') g e = subst (Grown w) (sym e) g
  grow w v d stamp body (Response.unavailable, v') g e = subst (Grown w) (sym e) g
  grow w v d stamp body (Response.conflict, v') g e = subst (Grown w) (sym e) g
  grow w v d stamp body (Response.server_error, v') g e = subst (Grown w) (sym e) g

  -- Whatever bodies are sent in whatever order, the route only adds movements, and each that it
  -- adds is negative if it leaves the warehouse (outbound, adjustment out) and positive else.
  pub Reach-Grown : {w v : World M N R A audited actor} → Reach w v → Grown w v
  Reach-Grown here = record { new = []; appended = refl; signed = tt }
  Reach-Grown (next {v} configured d stamp body r) =
      grow _ v d stamp body (post_movement M N R A audited actor configured d stamp body v)
        (Reach-Grown r) (post_movement-Effect M N R A audited actor configured d stamp body v)
