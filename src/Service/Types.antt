-- ===== src/Service/Types.antt =====
-- service/service.go: the handlers of artifact types and execution types.
use metadata.Prelude.{ℕ, zero, suc, true, false, List, Option, none, some}
use metadata.Prelude.Texts.{Text}
use metadata.Prelude.Results.{Result, ok, err, map_err}
use metadata.Service.{
  Kind, TypeMessage, PutTypeOptions, Store, Error, store_error, unspecified, not_implemented,
  types_collection,
}
use metadata.Service.Names.{trim_prefix}

-- `Close` calls itself: for any number of calls it has not returned.
unfoldable pub close : ℕ → Option (Unit {0})
close zero = none
close (suc fuel) = close fuel

module _ (st : Store) where
  open st use {State}

  -- `getArtifactType` and `getExecutionType`.
  unfoldable pub get_resource_type : Kind → State → Text → Result Error TypeMessage
  get_resource_type k s name =
      map_err store_error (st.get_type k s (trim_prefix name (types_collection k)))

  -- `PutArtifactType`, and the type read back.
  unfoldable pub put_and_get :
      Kind → PutTypeOptions → State → Option TypeMessage → State × Result Error TypeMessage
  put_and_get k opts s none = (s, err unspecified)
  put_and_get k opts s (some t) =
      let (s', r) = st.put_type k s t opts in
      elim r [ err e ↦ (s', err (store_error e)) | ok _ ↦ (s', get_resource_type k s' t.name) ]

  unfoldable pub create_type : Kind → State → Option TypeMessage → State × Result Error TypeMessage
  unfolding put_and_get
  create_type k = put_and_get k (record { all_fields_must_match = true; can_add_fields = false })

  unfoldable pub update_type : Kind → State → Option TypeMessage → State × Result Error TypeMessage
  unfolding put_and_get
  update_type k = put_and_get k (record { all_fields_must_match = true; can_add_fields = true })

  unfoldable pub list_types : Kind → State → Result Error (List TypeMessage)
  list_types k s = map_err store_error (st.get_types k s)

  unfoldable pub delete_type : Kind → State → Text → State × Result Error (Unit {0})
  delete_type k s name = (s, err not_implemented)
