-- ===== src/Shell/Links/Targets.antt =====
-- The links of rows lead to the pages of their resources.
use metadata.Prelude.{
  ℕ, true, false, List, [], ◌∷◌, ◌++◌, some, ◌≡◌, ◌≢◌, refl, ap, sym, ◌∙◌, arith, All, append_assoc,
  append-nil,
}
use metadata.Prelude.Texts.{Text, text}
use metadata.Prelude.Numerals.{decimal, decimal-IsDigit, IsDigit}
use metadata.Prelude.Replace.{replace, replace-here, replace-none}
use metadata.Shell.Links.{
  artifact_details_page, execution_details_page, artifact_details, artifact_type_param,
  execution_type_param, id_param, part_of, after_colon, split_colon, artifact_link, execution_link,
  row_id, build_resource_details_page_route,
}

-- A type name that is neither cut by `split` nor read as a placeholder.
abbrev pub IsPlain : Text → Type 0
IsPlain = All (λ c. (c ≢ b':') × (c ≢ b'$'))

All-append {ℓ} :
    {A : Type ℓ} (P : A → Type 0) (xs ys : List A) → All P xs → All P ys → All P (xs ++ ys)
All-append P [] ys h k = k
All-append P (x ∷ xs) ys h k = (h.0, All-append P xs ys h.1 k)

All-weaken {ℓ} :
    {A : Type ℓ} (P Q : A → Type 0) (xs : List A) → ((x : A) → P x → Q x) → All P xs → All Q xs
All-weaken P Q [] f h = tt
All-weaken P Q (x ∷ xs) f h = (f x h.0, All-weaken P Q xs f h.1)

no_colon : (t : Text) → IsPlain t → All (λ c. c ≢ b':') t
no_colon t = All-weaken (λ c. (c ≢ b':') × (c ≢ b'$')) (λ c. c ≢ b':') t (λ c h. h.0)

no_dollar : (t : Text) → IsPlain t → All (λ c. c ≢ b'$') t
no_dollar t = All-weaken (λ c. (c ≢ b':') × (c ≢ b'$')) (λ c. c ≢ b'$') t (λ c h. h.1)

decimal-IsPlain : (n : ℕ) → IsPlain (decimal n)
decimal-IsPlain n =
    All-weaken IsDigit (λ c. (c ≢ b':') × (c ≢ b'$')) (decimal n) (λ c h. omega arith)
      (decimal-IsDigit n)

-- A path of two fixed parts with a type's name between them and a text behind.
abbrev pub path_of : Text → Text → Text → Text → Text
path_of front type_name middle id = front ++ (type_name ++ (middle ++ id))

fill_id :
    (front type_name middle id : Text)
    → IsPlain front
    → IsPlain type_name
    → IsPlain middle
    → IsPlain id
    → replace (path_of front type_name middle id_param) id_param id
      ≡ path_of front type_name middle id
fill_id front type_name middle id f t m i =
    let u = front ++ (type_name ++ middle) in
    let plain : All (λ c. c ≢ b':') u =
      All-append (λ c. c ≢ b':') front (type_name ++ middle) (no_colon front f)
        (All-append (λ c. c ≢ b':') type_name middle (no_colon type_name t) (no_colon middle m)) in
    ap (λ x. replace x id_param id) (sym (regroup id_param))
    ∙ replace-here u b':' (text "id") [] id plain (no_dollar id i)
    ∙ ap (λ x. u ++ x) (append-nil id)
    ∙ regroup id
  where
    regroup :
        (x : Text) → (front ++ (type_name ++ middle)) ++ x ≡ front ++ (type_name ++ (middle ++ x))
    regroup x = simp append_assoc

-- The placeholder of the type, filled in.
fill_type :
    (front param middle type_name : Text)
    → IsPlain front
    → IsPlain type_name
    → replace (front ++ ((b':' ∷ param) ++ middle)) (b':' ∷ param) type_name
      ≡ front ++ (type_name ++ middle)
fill_type front param middle type_name f t =
    replace-here front b':' param middle type_name (no_colon front f) (no_dollar type_name t)

abbrev pub artifact_path : Text → Text → Text
artifact_path = λ t i. path_of (text "/artifact_types/") t (text "/artifacts/") i

abbrev pub execution_path : Text → Text → Text
execution_path = λ t i. path_of (text "/execution_types/") t (text "/executions/") i

artifact_filled :
    (type_name id : Text)
    → IsPlain type_name
    → IsPlain id
    → replace (replace artifact_details_page artifact_type_param type_name) id_param id
      ≡ artifact_path type_name id
artifact_filled type_name id t i =
    ap (λ x. replace x id_param id)
      (fill_type (text "/artifact_types/") (text "artifactType+") (text "/artifacts/:id") type_name
        (omega arith) t)
    ∙ fill_id (text "/artifact_types/") type_name (text "/artifacts/") id (omega arith) t
        (omega arith) i

execution_filled :
    (type_name id : Text)
    → IsPlain type_name
    → IsPlain id
    → replace (replace execution_details_page execution_type_param type_name) id_param id
      ≡ execution_path type_name id
execution_filled type_name id t i =
    ap (λ x. replace x id_param id)
      (fill_type (text "/execution_types/") (text "executionType+") (text "/executions/:id")
        type_name (omega arith) t)
    ∙ fill_id (text "/execution_types/") type_name (text "/executions/") id (omega arith) t
        (omega arith) i

artifact_path-IsPlain :
    (type_name id : Text) → IsPlain type_name → IsPlain id → IsPlain (artifact_path type_name id)
artifact_path-IsPlain type_name id t i =
    let P = λ (c : ℕ). (c ≢ b':') × (c ≢ b'$') in
    All-append P (text "/artifact_types/") (type_name ++ (text "/artifacts/" ++ id)) (omega arith) (
      All-append P type_name (text "/artifacts/" ++ id) t
        (All-append P (text "/artifacts/") id (omega arith) i))

part_of-append : (t u : Text) → IsPlain t → part_of (t ++ b':' ∷ u) ≡ t
unfolding part_of
part_of-append [] u h = refl
part_of-append (c ∷ t) u h = ground (arith, h.0.0, part_of-append t u h.1)

part_of-plain : (t : Text) → IsPlain t → part_of t ≡ t
unfolding part_of
part_of-plain [] h = refl
part_of-plain (c ∷ t) h = ground (arith, h.0.0, part_of-plain t h.1)

after_colon-append : (t u : Text) → IsPlain t → after_colon (t ++ b':' ∷ u) ≡ some u
unfolding after_colon
after_colon-append [] u h = refl
after_colon-append (c ∷ t) u h = ground (arith, h.0.0, after_colon-append t u h.1)

split_colon-row_id :
    (type_name : Text) (id : ℕ)
    → IsPlain type_name
    → split_colon (row_id type_name id) ≡ (type_name, some (decimal id))
unfolding split_colon row_id
split_colon-row_id type_name id t = rw (
  part_of-append type_name (decimal id) t,
  after_colon-append type_name (decimal id) t,
  part_of-plain (decimal id) (decimal-IsPlain id),
)

-- For a type name without `:` and `$` the cells of a row link to the details page of the row's
-- type and id, for artifacts and for executions, and the lineage view links to the same pages.
pub links-row_id :
    (type_name : Text) (id : ℕ)
    → IsPlain type_name
    → (artifact_link (row_id type_name id) ≡ artifact_path type_name (decimal id))
      × (execution_link (row_id type_name id) ≡ execution_path type_name (decimal id))
      × (artifact_details type_name id ≡ artifact_path type_name (decimal id))
      × (build_resource_details_page_route false id type_name
          ≡ execution_path type_name (decimal id))
      × (build_resource_details_page_route true id type_name ≡ artifact_path type_name (decimal id))
unfolding artifact_link execution_link artifact_details build_resource_details_page_route
links-row_id type_name id t =
    let d = decimal-IsPlain id in
    let split = split_colon-row_id type_name id t in
    (
      rw split (artifact_filled type_name (decimal id) t d),
      rw split (execution_filled type_name (decimal id) t d),
      artifact_filled type_name (decimal id) t d,
      execution_filled type_name (decimal id) t d,
      ap (λ x. replace x id_param (decimal id)) (artifact_filled type_name (decimal id) t d)
          ∙ replace-none (artifact_path type_name (decimal id)) b':' (text "id") (decimal id) (
              no_colon (artifact_path type_name (decimal id))
                (artifact_path-IsPlain type_name (decimal id) t d)),
    )
