-- ===== src/Widgets/ModelInfo/Damaged.antt =====
-- components/ModelInfo.tsx: JSON that is missing, cannot be read, or holds what cannot be shown.
use mathlib.Core.Path.{subst}
use metadata.Prelude.{
  ◌≡◌, ◌⊎◌, ◌∙◌, ap, refl, sym, Bool, true, false, List, [], ◌∷◌, ◌++◌, Option, none, some,
  if◌then◌else◌, ◌&&◌, Option-cases, Bool-cases, inl, inr,
}
use metadata.Prelude.Texts.{Text, text}
use metadata.Value.{truthy, joined}
use metadata.Resources.{Resource, all_meta}
use metadata.Json.{Json, Items, nil, cons, null, bool, num, str, arr, obj, end, member, is_true}
use metadata.Widgets.ModelInfo.{
  lines, view_of, typed_view, value, model_data, entry_lines, hyperparameter_lines, framework_text,
  or_empty, render, is_child, are_children, is_child_of, object_entries,
}

pub data ItemOf (v : Json) : Items → Type 0 where
  first : {vs : Items} → ItemOf v (cons v vs)
  later : {w : Json} {vs : Items} → ItemOf v vs → ItemOf v (cons w vs)

-- An object, or an array that has an object in it, however deep.
pub data HasObject : Json → Type 0 where
  itself : (fs : metadata.Json.Fields) → HasObject (obj fs)
  inside : {v : Json} {vs : Items} → ItemOf v vs → HasObject v → HasObject (arr vs)

mutual
  unfolding is_child are_children

  child-HasObject : (v : Json) → is_child v ≡ false → HasObject v
  child-HasObject (obj fs) h = itself fs
  child-HasObject (arr vs) h = let (v, item, has) = children-HasObject vs h in inside item has
  child-HasObject null h = cc
  child-HasObject (bool b) h = cc
  child-HasObject (num n) h = cc
  child-HasObject (str s) h = cc

  children-HasObject :
      (vs : Items) → are_children vs ≡ false → (v : Json) × ItemOf v vs × HasObject v
  children-HasObject nil h = cc
  children-HasObject (cons v vs) h = elim (Bool-cases (is_child v)) [
    | inr refused ↦ (v, first, child-HasObject v refused)
    | inl fine ↦
        let (w, item, has) =
          children-HasObject vs (sym (ap (λ b. b && are_children vs) fine) ∙ h) in
        (w, later item, has)
  ]

-- JSON that the page cannot show: `null`, or an object whose type is one or has one in it.
pub data Unshowable : Json → Type 0 where
  nothing : Unshowable null
  object_type :
      {v t : Json}
      → member (text "model_type") (some v) ≡ some (some t)
      → HasObject t
      → Unshowable v

is_null : (v : Json) → (v ≡ null) ⊎ (v ≡ null → ⊥)
is_null null = inl refl
is_null (bool b) = inr (λ e. cc)
is_null (num n) = inr (λ e. cc)
is_null (str s) = inr (λ e. cc)
is_null (arr vs) = inr (λ e. cc)
is_null (obj fs) = inr (λ e. cc)

-- `null`, alone among what `JSON.parse` makes, has no properties to read.
member-some :
    (k : Text) (v : Json) → (v ≡ null → ⊥) → (o : Option Json) × (member k (some v) ≡ some o)
member-some k null ne = absurd (ne refl)
member-some k (bool b) ne = (none, refl)
member-some k (num n) ne = (none, refl)
member-some k (str s) ne = (none, refl)
member-some k (arr vs) ne = (none, refl)
member-some k (obj fs) ne = (_, refl)

module _ (parse : Text → Option Json) (to_text : Option Json → Option Text) where
  -- Some value cannot be written as a text, as an object whose `toString` is no function.
  abbrev pub HasNoText : Type 0
  HasNoText = (w : Option Json) × (to_text w ≡ none)

  abbrev pub json_text : Resource → Text
  json_text m =
      if truthy (m.property all_meta false) then joined (m.property all_meta false) else text "{}"

  entry_lines-none : (es : List (Text × Json)) → entry_lines parse to_text es ≡ none → HasNoText
  unfolding entry_lines
  entry_lines-none [] h = cc
  entry_lines-none ((k, v) ∷ es) h = elim (Option-cases (to_text (some v))) [
    | inl e ↦ (some v, e)
    | inr (t, e) ↦ elim (Option-cases (entry_lines parse to_text es)) [
      | inl more ↦ entry_lines-none es more
      | inr (ts, more) ↦
          let full : entry_lines parse to_text ((k, v) ∷ es) ≡ some ((k ++ (text ": " ++ t)) ∷ ts) =
            rw (entry_lines, e, more) refl in
          absurd (cc)
    ]
  ]

  hyperparameter_lines-none :
      (h : Option Json) → hyperparameter_lines parse to_text h ≡ none → HasNoText
  unfolding hyperparameter_lines
  hyperparameter_lines-none none e = cc
  hyperparameter_lines-none (some h) e =
      elim (Option-cases (entry_lines parse to_text (object_entries h))) [
        | inl fails ↦ entry_lines-none (object_entries h) fails
        | inr (ts, works) ↦ elim (Bool-cases (is_true (some h))) [
          | inl t ↦
              let full : hyperparameter_lines parse to_text (some h) ≡ some (lines ts) =
                rw (hyperparameter_lines, t, works) refl in
              absurd (cc)
          | inr f ↦
              let full : hyperparameter_lines parse to_text (some h) ≡ some (value (some h)) =
                rw (hyperparameter_lines, f) refl in
              absurd (cc)
        ]
      ]

  framework_text-none : (f : Option Json) → framework_text parse to_text f ≡ none → HasNoText
  unfolding framework_text
  framework_text-none none e = cc
  framework_text-none (some v) e = elim (Bool-cases (is_true (some v))) [
    | inr f ↦
        let full : framework_text parse to_text (some v) ≡ some [] = rw (framework_text, f) refl in
        absurd (cc)
    | inl t ↦
        let ne : v ≡ null → ⊥ = λ k. let h = ap (λ w. is_true (some w)) k in cc in
        let (n, name) = member-some (text "name") v ne in
        let (w, version) = member-some (text "version") v ne in
        elim (Option-cases (to_text n)) [
          | inl fails ↦ (n, fails)
          | inr (a, x) ↦ elim (Option-cases (to_text (or_empty parse to_text w))) [
            | inl fails ↦ (or_empty parse to_text w, fails)
            | inr (b, y) ↦
                let full : framework_text parse to_text (some v)
                    ≡ some (a ++ (10 ∷ text "                   " ++ b)) =
                  rw (framework_text, t, name, version, x, y) refl in
                absurd (cc)
          ]
        ]
  ]

  -- The type can be shown.
  typed_view-none :
      (m : Resource) (t h f : Option Json) (logged : Bool)
      → is_child_of t ≡ true
      → typed_view parse to_text m t
          (hyperparameter_lines parse to_text h)
          (framework_text parse to_text f)
          logged
        ≡ none
      → HasNoText
  unfolding typed_view
  typed_view-none m t h f logged c e = elim (Option-cases (hyperparameter_lines parse to_text h)) [
    | inl fails ↦ hyperparameter_lines-none h fails
    | inr (ls, x) ↦ elim (Option-cases (framework_text parse to_text f)) [
      | inl fails ↦ framework_text-none f fails
      | inr (a, y) ↦
          let full : typed_view parse to_text m t (hyperparameter_lines parse to_text h)
                (framework_text parse to_text f) logged
              ≡ some (record {
                model_type = t;
                hyperparameters = ls;
                training_data = m.uri;
                training_framework = a;
                logged = logged;
              }) =
            rw (x, y, typed_view, c) refl in
          absurd (cc)
    ]
  ]

  view_of-typed :
      (m : Resource) (v : Json) (logged : Bool) (t : Option Json)
      → (v ≡ null → ⊥)
      → member (text "model_type") (some v) ≡ some t
      → (h : Option Json) × (f : Option Json) × (view_of parse to_text m v logged
          ≡ typed_view parse to_text m t
              (hyperparameter_lines parse to_text h)
              (framework_text parse to_text f)
              logged)
  unfolding view_of
  view_of-typed m v logged t ne e =
      let (h, hs) = member-some (text "hyperparameters") v ne in
      let (f, fs) = member-some (text "training_framework") v ne in
      (h, f, rw (view_of, e, hs, fs) refl)

  view_of-none :
      (m : Resource) (v : Json) → view_of parse to_text m v false ≡ none → Unshowable v ⊎ HasNoText
  unfolding is_child_of
  view_of-none m v e = elim (is_null v) [
    | inl n ↦ inl (subst Unshowable (sym n) nothing)
    | inr ne ↦
        let (t, ts) = member-some (text "model_type") v ne in
        let (h, f, same) = view_of-typed m v false t ne ts in typed t h f ts (sym same ∙ e)
  ]
    where
      typed :
          (t h f : Option Json)
          → member (text "model_type") (some v) ≡ some t
          → typed_view parse to_text m t
              (hyperparameter_lines parse to_text h)
              (framework_text parse to_text f)
              false
            ≡ none
          → Unshowable v ⊎ HasNoText
      typed none h f ts k = inr (typed_view-none m none h f false refl k)
      typed (some w) h f ts k = elim (Bool-cases (is_child w)) [
        | inl shown ↦ inr (typed_view-none m (some w) h f false shown k)
        | inr object ↦ inl (object_type ts (child-HasObject w object))
      ]

  view_of-parsed :
      (m : Resource) (v : Json)
      → parse (json_text m) ≡ some v
      → render parse to_text m ≡ view_of parse to_text m v false
  unfolding render model_data
  view_of-parsed m v e = rw (render, model_data, e) refl

  view_of-broken :
      (m : Resource)
      → parse (json_text m) ≡ none
      → render parse to_text m ≡ view_of parse to_text m (obj end) true
  unfolding render model_data
  view_of-broken m e = rw (render, model_data, e) refl

  render-broken :
      (m : Resource)
      → parse (json_text m) ≡ none
      → render parse to_text m
        ≡ some (record {
          model_type = none;
          hyperparameters = value none;
          training_data = m.uri;
          training_framework = [];
          logged = true;
        })
  unfolding view_of typed_view hyperparameter_lines framework_text
  render-broken m e = view_of-broken m e

  fails :
      (m : Resource)
      → render parse to_text m ≡ none
      → (v : Json) × (parse (json_text m) ≡ some v) × (Unshowable v ⊎ HasNoText)
  fails m none_shown = elim (Option-cases (parse (json_text m))) [
    | inl e ↦ let h = render-broken m e in absurd (cc)
    | inr (v, e) ↦ (v, e, view_of-none m v (sym (view_of-parsed m v e) ∙ none_shown))
  ]
