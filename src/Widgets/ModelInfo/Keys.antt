-- ===== src/Widgets/ModelInfo/Keys.antt =====
-- components/ModelInfo.tsx: the hyperparameters that are listed are the properties of their object.
use metadata.Prelude.{
  ◌≡◌, refl, ap, sym, ◌∙◌, true, false, ◌||◌, List, [], ◌∷◌, Option, none, some, if◌then◌else◌,
  arith, Bool-cases, Option-cases, inl, inr,
}
use metadata.Prelude.Texts.{Text, text_eq, text_eq_iff}
use metadata.Json.{Json, Fields, end, field, find}
use metadata.Widgets.ModelInfo.{insert_entry, has_key, set_entry, defined, object_entries}

abbrev pub Entries : Type 0
Entries = List (Text × Json)

-- The value of the first entry with a key.
abbrev pub lookup : Text → Entries → Option Json
lookup k [] = none
lookup k ((j, v) ∷ rest) = if text_eq j k then some v else lookup k rest

-- No key stands twice.
abbrev pub IsDistinct : Entries → Type 0
IsDistinct [] = Unit
IsDistinct ((j, v) ∷ rest) = (has_key j rest ≡ false) × IsDistinct rest

text_eq_sym : (s t : Text) → text_eq s t ≡ text_eq t s
text_eq_sym [] [] = refl
text_eq_sym [] (b ∷ t) = refl
text_eq_sym (a ∷ s) [] = refl
text_eq_sym (a ∷ s) (b ∷ t) = ground (arith, text_eq_sym s t)

same_key : (k i j : Text) → text_eq k i ≡ true → text_eq i j ≡ text_eq k j
same_key k i j e = ap (λ s. text_eq s j) (sym ((text_eq_iff k i).0 e))

shared_key : (i j k : Text) → text_eq i j ≡ true → text_eq k j ≡ true → text_eq k i ≡ true
shared_key i j k e f = (text_eq_iff k i).1 ((text_eq_iff k j).0 f ∙ sym ((text_eq_iff i j).0 e))

has_key-insert_entry :
    (j k : Text) (v : Json) (es : Entries)
    → has_key j (insert_entry k v es) ≡ (text_eq j k || has_key j es)
unfolding has_key insert_entry
has_key-insert_entry j k v [] = refl
has_key-insert_entry j k v ((i, w) ∷ es) = ground (arith, has_key-insert_entry j k v es)

has_key-set_entry :
    (j k : Text) (v : Json) (es : Entries) → has_key j (set_entry k v es) ≡ has_key j es
unfolding has_key set_entry
has_key-set_entry j k v [] = refl
has_key-set_entry j k v ((i, w) ∷ es) = ground (arith, has_key-set_entry j k v es)

insert_entry-IsDistinct :
    (k : Text) (v : Json) (es : Entries)
    → has_key k es ≡ false
    → IsDistinct es
    → IsDistinct (insert_entry k v es)
unfolding has_key insert_entry
insert_entry-IsDistinct k v [] h d = (refl, tt)
insert_entry-IsDistinct k v ((i, w) ∷ es) h (d, ds) =
    ground (arith, insert_entry-IsDistinct k v es, has_key-insert_entry i k v es, text_eq_sym i k)

set_entry-IsDistinct :
    (k : Text) (v : Json) (es : Entries) → IsDistinct es → IsDistinct (set_entry k v es)
unfolding has_key set_entry
set_entry-IsDistinct k v [] d = tt
set_entry-IsDistinct k v ((i, w) ∷ es) (d, ds) =
    ground (arith, set_entry-IsDistinct k v es ds, has_key-set_entry i k v es)

lookup-insert_entry :
    (j k : Text) (v : Json) (es : Entries)
    → has_key k es ≡ false
    → lookup j (insert_entry k v es) ≡ (if text_eq k j then some v else lookup j es)
unfolding has_key insert_entry
lookup-insert_entry j k v [] h = refl
lookup-insert_entry j k v ((i, w) ∷ es) h =
    ground (arith, λ (g : has_key k es ≡ false). lookup-insert_entry j k v es g, shared_key i j k)

lookup-set_entry :
    (j k : Text) (v : Json) (es : Entries)
    → has_key k es ≡ true
    → lookup j (set_entry k v es) ≡ (if text_eq k j then some v else lookup j es)
unfolding has_key set_entry
lookup-set_entry j k v [] h = cc
lookup-set_entry j k v ((i, w) ∷ es) h = ground (
  arith,
  λ (g : has_key k es ≡ true). lookup-set_entry j k v es g,
  shared_key i j k,
  same_key k i j,
)

-- What a property list adds to the entries that are there.
abbrev over : Option Json → Option Json → Option Json
over none old = old
over (some v) old = some v

lookup-put :
    (j k : Text) (v : Json) (es : Entries)
    → lookup j (if has_key k es then set_entry k v es else insert_entry k v es)
      ≡ (if text_eq k j then some v else lookup j es)
lookup-put j k v es = elim (Bool-cases (has_key k es)) [
  | inl e ↦ rw e (lookup-set_entry j k v es e)
  | inr e ↦ rw e (lookup-insert_entry j k v es e)
]

put-IsDistinct :
    (k : Text) (v : Json) (es : Entries)
    → IsDistinct es
    → IsDistinct (if has_key k es then set_entry k v es else insert_entry k v es)
put-IsDistinct k v es d = elim (Bool-cases (has_key k es)) [
  | inl e ↦ rw e (set_entry-IsDistinct k v es d)
  | inr e ↦ rw e (insert_entry-IsDistinct k v es e d)
]

over-find :
    (j k : Text) (v : Json) (rest : Fields) (old : Option Json)
    → over (find j rest) (if text_eq k j then some v else old) ≡ over (find j (field k v rest)) old
over-find j k v rest old = elim (Option-cases (find j rest)) [
  | inl e ↦ rw e (ground arith)
  | inr (w, e) ↦ rw e (ground arith)
]

lookup-defined :
    (j : Text) (es : Entries) (fs : Fields)
    → lookup j (defined es fs) ≡ over (find j fs) (lookup j es)
unfolding defined
lookup-defined j es end = refl
lookup-defined j es (field k v rest) =
    lookup-defined j (if has_key k es then set_entry k v es else insert_entry k v es) rest
    ∙ ap (over (find j rest)) (lookup-put j k v es)
    ∙ over-find j k v rest (lookup j es)

defined-IsDistinct : (es : Entries) (fs : Fields) → IsDistinct es → IsDistinct (defined es fs)
unfolding defined
defined-IsDistinct es end d = d
defined-IsDistinct es (field k v rest) d =
    defined-IsDistinct (if has_key k es then set_entry k v es else insert_entry k v es) rest
      (put-IsDistinct k v es d)

over-none : (o : Option Json) → over o none ≡ o
over-none none = refl
over-none (some v) = refl

-- The entries that are listed of an object are its properties: no key is listed twice, and each key's
-- entry has the value that reading the property gives, the last one of equal keys.
lookup-object_entries :
    (fs : Fields)
    → IsDistinct (object_entries (Json.obj fs))
      × ((k : Text) → lookup k (object_entries (Json.obj fs)) ≡ find k fs)
unfolding object_entries
lookup-object_entries fs =
    (defined-IsDistinct [] fs tt, λ k. lookup-defined k [] fs ∙ over-none (find k fs))
