-- ===== src/Service/Names.antt =====
-- service/service.go: the names of types, `validTypeName`, `validNamespace` and `getNamespacedName`.
-- A text is the list of its characters.
pub mod Namespaced
use metadata.Prelude.{
  ℕ, Bool, true, false, not, ◌&&◌, ◌||◌, List, [], ◌∷◌, ◌++◌, Option, none, some, if◌then◌else◌,
  ◌==◌, leb, drop, length,
}
use metadata.Prelude.Texts.{Text, text, starts_with}
use metadata.Prelude.Results.{Result, ok, err, ◌>>=◌}
use metadata.Value.{is_empty}
use metadata.Service.{Error, empty_type_name, invalid_type_name, invalid_namespace}

abbrev pub is_alpha : ℕ → Bool
is_alpha c = (leb b'A' c && leb c b'Z') || (leb b'a' c && leb c b'z')

-- `[^ /]*$`
unfoldable pub no_space_or_slash : Text → Bool
no_space_or_slash [] = true
no_space_or_slash (c ∷ s) = not (c == b' ') && not (c == b'/') && no_space_or_slash s

-- `^[A-Za-z][^ /]*$`
unfoldable pub valid_type_name : Text → Bool
unfolding no_space_or_slash
valid_type_name [] = false
valid_type_name (c ∷ s) = is_alpha c && no_space_or_slash s

-- `[^ ]*[^/]$`
unfoldable pub namespace_tail : Text → Bool
namespace_tail [] = false
namespace_tail (c ∷ []) = not (c == b'/')
namespace_tail (c ∷ d ∷ s) = not (c == b' ') && namespace_tail (d ∷ s)

-- `^[A-Za-z][^ ]*[^/]$`
unfoldable pub valid_namespace : Text → Bool
unfolding namespace_tail
valid_namespace [] = false
valid_namespace (c ∷ s) = is_alpha c && namespace_tail s

abbrev pub after_char : ℕ → Option Text × Text → Option Text × Text
after_char c (none, name) = if c == b'/' then (some [], name) else (none, c ∷ name)
after_char c (some before, name) = (some (c ∷ before), name)

-- What `strings.Split(s, "/")` gives, with the last part apart and the parts before it, if there are
-- any, joined again: `strings.Join(ns[0:len(ns)-1], "/")`. There is always a last part, so that the
-- check for none never fails.
unfoldable pub split_last : Text → Option Text × Text
split_last [] = (none, [])
split_last (c ∷ s) = after_char c (split_last s)

abbrev pub kf_default_namespace : Text
kf_default_namespace = text "types.kubeflow.org/default"

abbrev pub namespace_of : Option Text → Text
namespace_of none = kf_default_namespace
namespace_of (some ns) = ns

abbrev pub guard : Bool → Error → Result Error (Unit {0})
guard true e = ok tt
guard false e = err e

unfoldable pub get_namespaced_name : Text → Result Error Text
unfolding split_last valid_namespace valid_type_name
get_namespaced_name n =
    let parts = split_last n in
    let name = parts.1 in
    let namespace = namespace_of parts.0 in
    guard (not (is_empty name)) (empty_type_name n) >>= λ _.
    guard (valid_namespace namespace) (invalid_namespace namespace) >>= λ _.
    guard (valid_type_name name) (invalid_type_name name) >>= λ _. ok (namespace ++ (b'/' ∷ name))

-- `strings.TrimPrefix`
abbrev pub trim_prefix : Text → Text → Text
trim_prefix s p = if starts_with s p then drop (length p) s else s
