-- ===== src/Controllers/Finalization.antt =====
-- pkg/controllers/nodeclass/controller.go, `finalize` and `validate`. The answers of the API server are
-- arguments; log lines are left out.
pub mod Conditions
use karpenter_provider_cleve.Base.{
  ℕ, ◌*◌, Bool, true, false, not, Option, none, some, List, [], ◌∷◌, Text, codes, text_eq, text_lt,
  Map, any, if◌then◌else◌, is_some,
}
use karpenter_provider_cleve.Api.NodeClaim.{NodeClaim, NodeClassReference}
use karpenter_provider_cleve.Api.Labels.{
  LabelSyntax, LabelError, validate_node_class_label, is_legacy_node_class_label,
}
use karpenter_provider_cleve.Api.NodeClass.{CleverNodeClass, entries}
use karpenter_provider_cleve.Provider.Backoff.{second}
use karpenter_provider_cleve.Provider.Identity.{value_of}
use karpenter_provider_cleve.Controllers.ProviderId.{Patch, patched, gone, refused}

-- `TerminationFinalizer`
abbrev pub termination_finalizer : Text
termination_finalizer = codes "karpenter.clever-cloud.com/termination"

-- What a finalization returns: nothing more to do, a time to come back, or an error.
pub data Finalized : Type 0 where
  settled : Finalized
  requeue : ℕ → Finalized
  failed : Finalized

-- `ref != nil && ref.Name == nodeClass.Name`
unfoldable pub references : Text → NodeClaim → Bool
references name claim = elim claim.class_ref [ none ↦ false | some ref ↦ text_eq ref.name name ]

-- `controllerutil.RemoveFinalizer`
unfoldable pub without_finalizer : List Text → List Text
without_finalizer [] = []
without_finalizer (f ∷ finalizers) =
    if text_eq f termination_finalizer
    then without_finalizer finalizers
    else f ∷ without_finalizer finalizers

-- The patch that removes the finalizer.
unfoldable pub remove_finalizer : Patch → CleverNodeClass → Finalized × CleverNodeClass
unfolding without_finalizer
remove_finalizer patched class =
    (settled, record class { finalizers = without_finalizer class.finalizers })
remove_finalizer gone class = (settled, class)
remove_finalizer refused class = (failed, class)

-- What the list of the NodeClaims leads to; `none` is its error.
unfoldable pub finalize_listed :
    Option (List NodeClaim) → Patch → CleverNodeClass → Finalized × CleverNodeClass
unfolding remove_finalizer
finalize_listed none reply class = (failed, class)
finalize_listed (some claims) reply class =
    if any (references class.name) claims
    then (requeue (30 * second), class)
    else remove_finalizer reply class

-- `finalize`
unfoldable pub finalize :
    Option (List NodeClaim) → Patch → CleverNodeClass → Finalized × CleverNodeClass
unfolding finalize_listed
finalize claims reply class =
    if not (any (text_eq termination_finalizer) class.finalizers)
    then (settled, class)
    else finalize_listed claims reply class

-- `slices.Sorted(maps.Keys(m))`
unfoldable pub insert_key : Text → List Text → List Text
insert_key k [] = k ∷ []
insert_key k (x ∷ xs) = if text_lt k x then k ∷ x ∷ xs else x ∷ insert_key k xs

unfoldable pub sorted_keys : Map Text → List Text
unfolding insert_key
sorted_keys [] = []
sorted_keys (e ∷ m) = insert_key e.0 (sorted_keys m)

-- What `validate` returns.
pub record Validation : Type 0 where
  pub ignored : List Text
  pub error : Option LabelError

-- The loop of `validate`; the first error wins.
unfoldable pub validate_keys : LabelSyntax → Map Text → List Text → Validation
validate_keys syntax labels [] = record { ignored = []; error = none }
validate_keys syntax labels (k ∷ keys) =
    let rest = validate_keys syntax labels keys in
    let v = value_of labels k in
    elim (validate_node_class_label syntax k v) [
      | none ↦ rest
      | some rejection ↦
          if is_legacy_node_class_label k v
          then record rest { ignored = k ∷ rest.ignored }
          else record rest { error = some rejection }
    ]

-- `validate`
unfoldable pub validate : LabelSyntax → CleverNodeClass → Validation
unfolding validate_keys sorted_keys
validate syntax class =
    let labels = entries class.spec.labels in validate_keys syntax labels (sorted_keys labels)
