-- ===== src/Service/Ids.antt =====
-- service/service.go: the ids in the names of artifacts and executions. What is used of regexp and
-- strconv is written out.
pub mod Named
pub mod Unnamed
use metadata.Prelude.{
  ℕ, Bool, true, false, ◌&&◌, List, [], ◌∷◌, ◌++◌, Option, none, some, if◌then◌else◌, ◌==◌, leb,
  ltb, drop, length, ◌-◌, suc,
}
use metadata.Prelude.Texts.{Text, text, starts_with}
use metadata.Prelude.Numerals.{spelled, decimal}
use metadata.Prelude.Results.{Result, ok, err}
use metadata.Value.{is_empty}
use metadata.Service.{
  Kind, types_collection, word, ℤ, pos, negsuc, Error, malformed_name, unparsed_id,
}

abbrev pub is_digit : ℕ → Bool
is_digit c = leb 48 c && leb c 57

-- `[0-9]+`, as many as there are.
unfoldable pub digits : Text → Text
digits [] = []
digits (c ∷ s) = let more = c ∷ digits s in if is_digit c then more else []

-- `{middle}([0-9]+)` at the front of a text: what the group holds.
unfoldable pub after_middle : Text → Text → Option Text
unfolding digits starts_with
after_middle m s =
    let ds = digits (drop (length m) s) in
    if starts_with s m && (ltb 0 (length ds)) then some ds else none

-- `.*{middle}([0-9]+)`: `.*` takes what it can, and no line break.
unfoldable pub last_middle : Text → Text → Option Text
unfolding after_middle
last_middle m [] = after_middle m []
last_middle m (c ∷ s) =
    let later = if c == 10 then none else last_middle m s in
    elim later [ none ↦ after_middle m (c ∷ s) | some ds ↦ some ds ]

-- `FindStringSubmatch` of `{start}.*{middle}([0-9]+)`: the first place where it fits.
unfoldable pub find_submatch : Text → Text → Text → Option Text
unfolding last_middle starts_with
find_submatch start m [] = if starts_with [] start then last_middle m [] else none
find_submatch start m (c ∷ s) =
    let here =
      if starts_with (c ∷ s) start then last_middle m (drop (length start) (c ∷ s)) else none in
    elim here [ none ↦ find_submatch start m s | some ds ↦ some ds ]

-- `/artifacts/` and `/executions/`.
abbrev pub middle : Kind → Text
middle k = b'/' ∷ (word k ++ (b'/' ∷ []))

abbrev pub all_digits : Text → Bool
all_digits [] = true
all_digits (c ∷ s) = is_digit c && all_digits s

abbrev pub max_int : ℕ
max_int = 9223372036854775807

abbrev pub unsigned : Text → Option ℕ
unsigned s = if ltb 0 (length s) && all_digits s then some (spelled 0 s) else none

abbrev pub signed : Bool → ℕ → Option ℤ
signed false n = if leb n max_int then some (pos n) else none
signed true n =
    if n == 0 then some (pos 0) else if leb (n - 1) max_int then some (negsuc (n - 1)) else none

abbrev pub signed_text : Bool → Text → Option ℤ
signed_text negative s = elim (unsigned s) [ none ↦ none | some n ↦ signed negative n ]

-- `strconv.ParseInt(s, 10, 64)`, with nothing for an error.
unfoldable pub parse_int : Text → Option ℤ
parse_int [] = none
parse_int (c ∷ s) =
    if c == b'-'
    then signed_text true s
    else if c == b'+'
    then signed_text false s
    else signed_text false (c ∷ s)

-- The id in a name, as `getStoredArtifact` and `getExecution` read it.
unfoldable pub id_in : Kind → Text → Result Error ℤ
unfolding find_submatch parse_int
id_in k name = elim (find_submatch (types_collection k) (middle k) name) [
  | none ↦ err (malformed_name name)
  | some ds ↦ elim (parse_int ds) [ none ↦ err (unparsed_id ds) | some id ↦ ok id ]
]

-- `fmt.Sprintf("%s/artifacts/%d", parent, id)`.
abbrev pub name_of : Kind → Text → ℤ → Text
name_of k parent id = parent ++ (middle k ++ shown_int id)
  where
    shown_int : ℤ → Text
    shown_int (pos n) = decimal n
    shown_int (negsuc n) = b'-' ∷ decimal (suc n)
