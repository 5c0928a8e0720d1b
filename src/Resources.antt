-- ===== src/Resources.antt =====
-- The parts of @kubeflow/frontend that the pages use, as parameters: an artifact or execution with
-- the values that `getResourceProperty` finds for it (by name, custom or not), and a type's name.
use metadata.Prelude.{true, false, ℕ, Bool, List, [], ◌∷◌, Option, none, some, if◌then◌else◌, ◌==◌}
use metadata.Prelude.Texts.{Text}
use metadata.Value.{Value}

pub data PropertyName : Type 0 where
  name pipeline_name version all_meta state component_id workspace run_id task_id : PropertyName

pub record Resource : Type 0 where
  pub id : ℕ
  pub type_id : ℕ
  pub uri : Text
  pub property : PropertyName → (custom : Bool) → Value

-- A map from numbers; the last of equal keys wins, as with `Map.set`.
abbrev pub TypeMap : Type 0
TypeMap = List (ℕ × Text)

pub set_type : ℕ → Text → TypeMap → TypeMap
set_type i t [] = (i, t) ∷ []
set_type i t ((j, u) ∷ m) = if j == i then (j, t) ∷ m else (j, u) ∷ set_type i t m

unfoldable pub get_type : ℕ → TypeMap → Option Text
get_type i [] = none
get_type i ((j, u) ∷ m) = if j == i then some u else get_type i m

unfoldable pub type_map_from : TypeMap → TypeMap → TypeMap
unfolding set_type
type_map_from m [] = m
type_map_from m ((i, t) ∷ ts) = type_map_from (set_type i t m) ts

-- The pages ask for the types while they have none.
abbrev pub has_types : Option TypeMap → Bool
has_types none = false
has_types (some []) = false
has_types (some (t ∷ ts)) = true

abbrev pub known_types : Option TypeMap → TypeMap
known_types none = []
known_types (some m) = m
