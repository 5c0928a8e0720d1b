-- ===== src/Widgets/Info.antt =====
-- components/ArtifactLink.tsx and components/ResourceInfo.tsx: which uris can be followed, and which
-- properties are shown.
pub mod Clicking
use metadata.Prelude.{
  ℕ, Bool, true, false, not, ◌&&◌, ◌||◌, List, [], ◌∷◌, ◌++◌, map, Option, none, some,
  if◌then◌else◌, filter_by,
}
use metadata.Prelude.Texts.{Text, text, text_eq, starts_with}
use metadata.Value.{Value, is_empty}

-- The address that the link leads to, nothing where the uri is only shown.
unfoldable pub clickable_url : Option Text → Option Text
clickable_url none = none
clickable_url (some uri) =
    if not (is_empty uri) && (starts_with uri (text "http:") || starts_with uri (text "https:"))
    then some uri
    else none

-- An entry of a property map: its key and what `getMetadataValue` gives for it.
abbrev pub Entry : Type 0
Entry = Text × Value

-- What is shown of a value: itself, or the text of the JSON that it holds.
pub data Printed : Type 0 where
  plain : Value → Printed
  formatted : Text → Printed

-- What `ResourceInfo` shows: the uri is there for an artifact.
pub record InfoView : Type 0 where
  pub heading : Text
  pub uri : Option (Text × Option Text)
  pub properties : List (Text × Printed)
  pub custom_properties : List (Text × Printed)

-- `format` is `JSON.stringify(JSON.parse(value), null, 2)`, nothing where it throws; `json_of` is what
-- it gives for a value that is neither a number nor a text.
module _ (format : Text → Option Text) (json_of : Value → Option Text) where
  abbrev or_plain : Value → Option Text → Printed
  or_plain v none = plain v
  or_plain v (some t) = formatted t

  unfoldable pub pretty_print_json_value : Value → Printed
  pretty_print_json_value (Value.num n) = plain (Value.num n)
  pretty_print_json_value (Value.str s) = or_plain (Value.str s) (format s)
  pretty_print_json_value v = or_plain v (json_of v)

  unfoldable pub field : Entry → Text × Printed
  unfolding pretty_print_json_value
  field e = (e.0, pretty_print_json_value e.1)

  unfoldable pub property_fields : List Entry → List (Text × Printed)
  property_fields entries =
      map field (filter_by (λ e. not (text_eq e.0 (text "__ALL_META__"))) entries)

  unfoldable pub custom_property_fields : List Entry → List (Text × Printed)
  custom_property_fields entries = map field entries

  -- `render`: the heading, the uri of an artifact with where it leads, and the two lists.
  unfoldable pub render :
      (type_name : Text) → (uri : Option Text) → (properties custom : List Entry) → InfoView
  unfolding property_fields custom_property_fields clickable_url
  render type_name uri properties custom = record {
    heading = text "Type: " ++ type_name;
    uri = elim uri [ none ↦ none | some u ↦ some (u, clickable_url (some u)) ];
    properties = property_fields properties;
    custom_properties = custom_property_fields custom;
  }
