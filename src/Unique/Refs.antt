-- ===== src/Unique/Refs.antt =====
-- `ref_uniquely`: the next reference of a project's items.
use taiga_back_schedule_mana.Base.{
  ℕ, ◌+◌, Option, none, some, List, [], ◌∷◌, length, ◌==◌, if◌then◌else◌,
}
use taiga_back_schedule_mana.Unique.Search.{first_free, is_in}

-- The project's row with its counter, and a row of the model.
pub record Project : Type 0 where
  pub id : ℕ
  pub seq_field : ℕ

pub record Item : Type 0 where
  pub project_id : ℕ
  pub ref : ℕ

abbrev pub refs_of : ℕ → List Item → List ℕ
refs_of project_id [] = []
refs_of project_id (item ∷ items) =
    if item.project_id == project_id
    then item.ref ∷ refs_of project_id items
    else refs_of project_id items

abbrev pub taken_by : Project → Option ℕ → Option (ℕ × Project)
taken_by project none = none
taken_by project (some ref) = some (ref, record project { seq_field = ref })

-- The reference and the project as it is saved.
unfoldable pub ref_uniquely : Project → List Item → Option (ℕ × Project)
ref_uniquely project items =
    let refs = refs_of project.id items in
    taken_by project
      (first_free (length refs + 1) (λ ref. is_in ◌==◌ ref refs) (project.seq_field + 1))
