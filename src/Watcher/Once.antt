-- ===== src/Watcher/Once.antt =====
-- No resource is logged twice.
use mathlib.Core.Path.{subst}
use metadata.Prelude.{
  ◌≡◌, ◌⊎◌, refl, sym, ap, ◌∙◌, Bool, true, false, List, [], ◌∷◌, ◌++◌, Option, none, some,
  Option-cases, inl, inr, arith,
}
use metadata.Prelude.Texts.{Text, text_eq, text_eq_iff}
use metadata.Prelude.Results.{Result, ok, err, lookup, Result-cases}
use metadata.Watcher.{
  Artifact, Client, MetaLogger, Object, Added, object, tombstone, other, Heard, added, updated,
  deleted, metadata_artifact_type, version_of, has_version, artifact_of, if_exists, logged,
  log_object, on_add, on_update, on_delete, hear, hear_all,
}

-- What the metadata store documents: it has lists of artifacts by type, and reading a type gives its
-- list; writing an artifact of the logger's type puts it at the end of that list, or nothing where it
-- answers with an error, and perhaps even then.
pub record Documented (c : Client) (l : MetaLogger) : Type 0 where
  pub contents : c.State → List Artifact
  pub reads :
      (s : c.State) (artifacts : List Artifact)
      → c.get_artifacts_by_type s (metadata_artifact_type l.resource) ≡ ok artifacts
      → artifacts ≡ contents s
  pub writes :
      (s : c.State) (a : Artifact)
      → (contents (c.put_artifacts s (a ∷ [])).0 ≡ contents s)
        ⊎ (contents (c.put_artifacts s (a ∷ [])).0 ≡ contents s ++ a ∷ [])

-- No two artifacts have the same version, which is the uid of the resource.
abbrev pub AreDistinct : List Artifact → Type 0
AreDistinct [] = Unit {0}
AreDistinct (a ∷ rest) = (has_version (version_of a) rest ≡ false) × AreDistinct rest

has_version-append :
    (uid : Text) (as' : List Artifact) (a : Artifact)
    → has_version uid as' ≡ false
    → text_eq (version_of a) uid ≡ false
    → has_version uid (as' ++ a ∷ []) ≡ false
unfolding has_version
has_version-append uid [] a h e = ground arith
has_version-append uid (b ∷ rest) a h e =
    let ih = has_version-append uid rest a (ground arith) e in ground arith

text_eq-sym : (a b : Text) → text_eq a b ≡ false → text_eq b a ≡ false
text_eq-sym a b h = ground (arith, text_eq_iff a b, text_eq_iff b a)

AreDistinct-append :
    (as' : List Artifact) (a : Artifact)
    → AreDistinct as'
    → has_version (version_of a) as' ≡ false
    → AreDistinct (as' ++ a ∷ [])
unfolding has_version
AreDistinct-append [] a h n = (refl, tt)
AreDistinct-append (b ∷ rest) a (new, h) n =
    let other : text_eq (version_of b) (version_of a) ≡ false = ground arith in
    (
      has_version-append (version_of b) rest a new
          (text_eq-sym (version_of b) (version_of a) other),
      AreDistinct-append rest a h (ground arith),
    )

version_of-artifact_of :
    (l : MetaLogger) (o : Object) (json : Text) → version_of (artifact_of l o json) ≡ o.uid
unfolding version_of lookup
version_of-artifact_of l o json = refl

logged-state : (c : Client) (p : c.State × Result Text (Unit {0})) → (logged c p).0 ≡ p.0
logged-state c (s, ok u) = refl
logged-state c (s, err e) = refl

module _ (c : Client) (marshal : Added → Option Text) (l : MetaLogger) (d : Documented c l) where
  if_exists-false :
      (s : c.State) (uid : Text)
      → if_exists c l s uid ≡ ok false
      → has_version uid (d.contents s) ≡ false
  unfolding if_exists
  if_exists-false s uid h =
      through (c.get_artifacts_by_type s (metadata_artifact_type l.resource)) (d.reads s) h
    where
      through :
          (r : Result Text (List Artifact))
          → ((as' : List Artifact) → r ≡ ok as' → as' ≡ d.contents s)
          → elim r [ err e ↦ err e | ok as' ↦ ok (has_version uid as') ] ≡ ok false
          → has_version uid (d.contents s) ≡ false
      through (err e) k q = cc
      through (ok as') k q = rw (← k as' refl) (cc)

  written-AreDistinct :
      (s : c.State) (o : Object) (json : Text)
      → AreDistinct (d.contents s)
      → has_version o.uid (d.contents s) ≡ false
      → AreDistinct (d.contents (logged c (c.put_artifacts s (artifact_of l o json ∷ []))).0)
  written-AreDistinct s o json h new =
      let a = artifact_of l o json in
      let new' : has_version (version_of a) (d.contents s) ≡ false =
        ap (λ u. has_version u (d.contents s)) (version_of-artifact_of l o json) ∙ new in
      subst (λ t. AreDistinct (d.contents t)) (sym (logged-state c (c.put_artifacts s (a ∷ []))))
        (elim (d.writes s a) [
          | inl nothing ↦ subst AreDistinct (sym nothing) h
          | inr last ↦ subst AreDistinct (sym last) (AreDistinct-append (d.contents s) a h new')
        ])

  module _ (s : c.State) (obj : Added) (o : Object) (h : AreDistinct (d.contents s)) where
    looked_up :
        (b : Bool)
        → if_exists c l s o.uid ≡ ok b
        → AreDistinct (d.contents (log_object c marshal l s obj o).0)
    unfolding log_object
    looked_up true q = rw (q, log_object) h
    looked_up false q = elim (Option-cases (marshal obj)) [
      | inl m ↦ rw (q, log_object, m) h
      | inr (json, m) ↦
          rw (q, log_object, m) (written-AreDistinct s o json h (if_exists-false s o.uid q))
    ]

    log_object-AreDistinct : AreDistinct (d.contents (log_object c marshal l s obj o).0)
    unfolding log_object
    log_object-AreDistinct = elim (Result-cases (if_exists c l s o.uid)) [
      | inl (b, q) ↦ looked_up b q
      | inr (e, q) ↦ rw (q, log_object) h
    ]

  hear-AreDistinct :
      (s : c.State) (x : Heard)
      → AreDistinct (d.contents s)
      → AreDistinct (d.contents (hear c marshal l s x))
  unfolding hear on_add on_update on_delete
  hear-AreDistinct s (added (object o)) h = log_object-AreDistinct s (object o) o h
  hear-AreDistinct s (added (tombstone (some o))) h =
      log_object-AreDistinct s (tombstone (some o)) o h
  hear-AreDistinct s (added (tombstone none)) h = h
  hear-AreDistinct s (added other) h = h
  hear-AreDistinct s (updated old new) h = h
  hear-AreDistinct s (deleted obj) h = h

-- Whatever the watcher hears of, in any order and however often, and whichever calls fail, no two
-- artifacts of the logger's type have the same version, if none had: each resource of the cluster is
-- logged once at most. The store is taken to do what it documents.
pub hear_all-AreDistinct :
    (c : Client) (marshal : Added → Option Text) (l : MetaLogger) (d : Documented c l) (s : c.State)
    (hs : List (Heard))
    → AreDistinct (d.contents s)
    → AreDistinct (d.contents (hear_all c marshal l s hs))
unfolding hear_all
hear_all-AreDistinct c marshal l d s [] h = h
hear_all-AreDistinct c marshal l d s (x ∷ hs) h =
    hear_all-AreDistinct c marshal l d (hear c marshal l s x) hs
      (hear-AreDistinct c marshal l d s x h)
