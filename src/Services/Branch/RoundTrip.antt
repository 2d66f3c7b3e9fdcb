-- ===== src/Services/Branch/RoundTrip.antt =====
-- What app/services/branch_service.py stores it finds again, and what it deletes it does not.
use corebank_api.Repositories.Branches
use corebank_api.Services.Branch.{NewBranch, create, get, delete, new_record}
use corebank_api.Prelude.{refl, sym, ◌≡◌, String}
use corebank_api.Database.Engine.{Engine}
use corebank_api.Database.Uow.{World, read_only}
use corebank_api.Database.Tables.{branches_table}
use corebank_api.Database.Schema.{Branch}
use corebank_api.Errors.{not_found, app, err, ok}
use corebank_api.Services.Guarded.{deleted_gone, created_found}

module _ ⦃e : Engine⦄ where
  -- A branch that was created is what `get` returns for its id.
  pub get-create :
      (data_row : NewBranch) (id : String) (w : World) (b : Branch)
      → (create data_row id w).0 ≡ ok b
      → (get id (create data_row id w).1).0 ≡ ok b
  unfolding create get Branches.insert Branches.get read_only branches_table new_record
  get-create data_row id w b h =
      let (same_row, found) =
        created_found branches_table (new_record data_row id) w (λ db rows. refl) h in
      rw found (λ i. ok (sym same_row i))

  -- After a branch was deleted `get` raises "Branch not found" for its id.
  pub get-delete :
      (id : String) (w : World) (u : Unit {0})
      → (delete id w).0 ≡ ok u
      → (get id (delete id w).1).0 ≡ err (app not_found "Branch not found")
  unfolding delete get Branches.delete Branches.get read_only branches_table
  get-delete id w u h =
      rw (deleted_gone branches_table id (app not_found "Branch not found") w (λ db rows. refl) h)
