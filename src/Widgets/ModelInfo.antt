-- ===== src/Widgets/ModelInfo.antt =====
-- components/ModelInfo.tsx: what is shown of a model, from the JSON text among its properties.
pub mod Keys
pub mod Damaged
use metadata.Prelude.{
  ℕ, ◌+◌, ◌*◌, ◌-◌, Bool, true, false, not, ◌&&◌, ◌||◌, List, [], ◌∷◌, ◌++◌, map, Option, none,
  some, if◌then◌else◌, leb, ltb, ◌==◌,
}
use metadata.Prelude.Texts.{Text, text, text_eq}
use metadata.Prelude.Numerals.{decimal, spelled}
use metadata.Value.{Value, joined, truthy}
use metadata.Resources.{Resource, all_meta}
use metadata.Json.{Json, Items, Fields, end, field, nil, cons, find, is_true, member}

abbrev pub all_digits : Text → Bool
all_digits [] = true
all_digits (d ∷ ds) = (leb 48 d && leb d 57) && all_digits ds

-- A key that JavaScript takes for an index: a number below 2^32 - 1 as `String` writes it.
unfoldable pub index_of : Text → Option ℕ
index_of [] = none
index_of (d ∷ ds) =
    if all_digits (d ∷ ds)
      && (not (d == 48) || text_eq ds [])
      && ltb (spelled 0 (d ∷ ds)) 4294967295
    then some (spelled 0 (d ∷ ds))
    else none

-- The place of a key among those that are there: indices by size, then the others as they come.
unfoldable pub goes_before : Text → Text → Bool
unfolding index_of
goes_before k j = elim (index_of k) [
  | none ↦ false
  | some m ↦ elim (index_of j) [ none ↦ true | some n ↦ ltb m n ]
]

unfoldable pub insert_entry : Text → Json → List (Text × Json) → List (Text × Json)
unfolding goes_before
insert_entry k v [] = (k, v) ∷ []
insert_entry k v ((j, w) ∷ rest) =
    let later = insert_entry k v rest in
    if goes_before k j then (k, v) ∷ (j, w) ∷ rest else (j, w) ∷ later

unfoldable pub has_key : Text → List (Text × Json) → Bool
has_key k [] = false
has_key k ((j, w) ∷ rest) = text_eq k j || has_key k rest

unfoldable pub set_entry : Text → Json → List (Text × Json) → List (Text × Json)
set_entry k v [] = []
set_entry k v ((j, w) ∷ rest) =
    let later = set_entry k v rest in if text_eq k j then (j, v) ∷ rest else (j, w) ∷ later

-- The properties of the object that `JSON.parse` makes: the last of equal keys wins, in the place of
-- the first.
unfoldable pub defined : List (Text × Json) → Fields → List (Text × Json)
unfolding insert_entry has_key set_entry
defined es end = es
defined es (field k v rest) =
    let put = insert_entry k v es in
    let replaced = set_entry k v es in defined (if has_key k es then replaced else put) rest

abbrev item_entries : ℕ → Items → List (Text × Json)
item_entries n nil = []
item_entries n (cons v vs) = (decimal n, v) ∷ item_entries (n + 1) vs

abbrev character_entries : ℕ → Text → List (Text × Json)
character_entries n [] = []
character_entries n (c ∷ s) = (decimal n, Json.str (c ∷ [])) ∷ character_entries (n + 1) s

-- `Object.entries`.
unfoldable pub object_entries : Json → List (Text × Json)
unfolding defined
object_entries (Json.obj fs) = defined [] fs
object_entries (Json.arr vs) = item_entries 0 vs
object_entries (Json.str s) = character_entries 0 s
object_entries _ = []

-- What React is given to show: a value, or a line for each hyperparameter.
pub data Child : Type 0 where
  value : Option Json → Child
  lines : List Text → Child

pub record View : Type 0 where
  pub model_type : Option Json
  pub hyperparameters : Child
  pub training_data : Text
  pub training_framework : Text
  pub logged : Bool

-- What React shows as a child: it throws for an object, and for an array that has one in it.
unfoldable mutual
  pub is_child : Json → Bool
  is_child (Json.obj fs) = false
  is_child (Json.arr vs) = are_children vs
  is_child _ = true

  pub are_children : Items → Bool
  are_children nil = true
  are_children (cons v vs) = is_child v && are_children vs

abbrev pub is_child_of : Option Json → Bool
unfolding is_child
is_child_of none = true
is_child_of (some v) = is_child v

-- `parse` is `JSON.parse`, with nothing for a `SyntaxError`, and `to_text` what a template literal
-- writes for a value, with nothing for a `TypeError`.
module _ (parse : Text → Option Json) (to_text : Option Json → Option Text) where
  -- The text that is parsed, and what the object is: with the flag of an error that is logged.
  unfoldable pub model_data : Resource → Json × Bool
  model_data m =
      let json = m.property all_meta false in
      elim (parse (if truthy json then joined json else text "{}")) [
        | none ↦ (Json.obj end, true)
        | some data_ ↦ (data_, false)
      ]

  -- The lines of the hyperparameters.
  unfoldable pub entry_lines : List (Text × Json) → Option (List Text)
  entry_lines [] = some []
  entry_lines ((k, v) ∷ es) = elim (to_text (some v)) [
    | none ↦ none
    | some t ↦ elim (entry_lines es) [ none ↦ none | some ts ↦ some ((k ++ (text ": " ++ t)) ∷ ts) ]
  ]

  unfoldable pub hyperparameter_lines : Option Json → Option Child
  unfolding entry_lines
  hyperparameter_lines none = some (value none)
  hyperparameter_lines (some h) =
      if is_true (some h)
      then elim (entry_lines (object_entries h)) [ none ↦ none | some ts ↦ some (lines ts) ]
      else some (value (some h))

  abbrev pub or_empty : Option Json → Option Json
  or_empty v = if is_true v then v else some (Json.str [])

  -- The name, and on a line of its own the version, as the literal in the source is laid out.
  unfoldable pub framework_text : Option Json → Option Text
  framework_text f =
      if is_true f
      then elim (member (text "name") f) [
        | none ↦ none
        | some n ↦ elim (member (text "version") f) [
          | none ↦ none
          | some v ↦ elim (to_text n) [
            | none ↦ none
            | some name ↦ elim (to_text (or_empty v)) [
              | none ↦ none
              | some version ↦ some (name ++ (10 ∷ text "                   " ++ version))
            ]
          ]
        ]
      ]
      else some []

  -- The view, where React can show the type.
  unfoldable pub typed_view :
      Resource → Option Json → Option Child → Option Text → Bool → Option View
  unfolding is_child
  typed_view m type hyperparameters framework logged =
      if is_child_of type
      then elim hyperparameters [
        | none ↦ none
        | some h ↦ elim framework [
          | none ↦ none
          | some f ↦ some (record {
            model_type = type;
            hyperparameters = h;
            training_data = m.uri;
            training_framework = f;
            logged = logged;
          })
        ]
      ]
      else none

  unfoldable pub view_of : Resource → Json → (logged : Bool) → Option View
  unfolding hyperparameter_lines framework_text typed_view
  view_of m data_ logged = elim (member (text "model_type") (some data_)) [
    | none ↦ none
    | some t ↦ elim (member (text "hyperparameters") (some data_)) [
      | none ↦ none
      | some h ↦ elim (member (text "training_framework") (some data_)) [
        | none ↦ none
        | some f ↦ typed_view m t (hyperparameter_lines h) (framework_text f) logged
      ]
    ]
  ]

  -- `render`, and what React does with its elements: nothing where either throws.
  unfoldable pub render : Resource → Option View
  unfolding model_data view_of
  render m = let (data_, logged) = model_data m in view_of m data_ logged
