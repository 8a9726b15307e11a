-- ===== src/Controllers/Finalization/Conditions.antt =====
-- When the finalizer of a NodeClass goes, and when its labels pass.
use karpenter_provider_cleve.Base.{
  ◌≡◌, refl, subst, ◌↔◌, ◌⊎◌, inl, inr, true, false, Option, none, some, List, [], ◌∷◌, Text,
  text_eq, text_eq_iff, arith, any, All, All-of, All-at, IsIn, Bool-cases, Option-cases, Map, map,
}
use karpenter_provider_cleve.Api.NodeClaim.{NodeClaim}
use karpenter_provider_cleve.Api.Labels.{
  LabelSyntax, validate_node_class_label, is_legacy_node_class_label,
}
use karpenter_provider_cleve.Api.NodeClass.{CleverNodeClass, entries}
use karpenter_provider_cleve.Provider.Identity.{value_of}
use karpenter_provider_cleve.Controllers.ProviderId.{Patch, patched, gone, refused}
use karpenter_provider_cleve.Controllers.Finalization.{
  termination_finalizer, references, without_finalizer, remove_finalizer, finalize_listed, finalize,
  insert_key, sorted_keys, validate_keys, validate,
}

-- The class carries the termination finalizer.
abbrev pub HasFinalizer : CleverNodeClass → Type 0
HasFinalizer class = any (text_eq termination_finalizer) class.finalizers ≡ true

without_finalizer-free :
    (finalizers : List Text)
    → any (text_eq termination_finalizer) (without_finalizer finalizers) ≡ false
unfolding without_finalizer any
without_finalizer-free [] = refl
without_finalizer-free (f ∷ finalizers) = ground (
  arith,
  without_finalizer-free finalizers,
  text_eq_iff f termination_finalizer,
  text_eq_iff termination_finalizer f,
)

remove_finalizer_iff :
    (class : CleverNodeClass) (listed : List NodeClaim) (r : Patch)
    → HasFinalizer class
    → any (references class.name) listed ≡ false
    → (any (text_eq termination_finalizer) (remove_finalizer r class).1.finalizers ≡ false) ↔ (
        (l : List NodeClaim) × (some listed ≡ some l)
        × (any (references class.name) l ≡ false)
        × (r ≡ patched))
unfolding remove_finalizer
remove_finalizer_iff class listed patched has free =
    (λ h. (listed, refl, free, refl), λ h. without_finalizer-free class.finalizers)
remove_finalizer_iff class listed gone has free = (λ h. cc, λ (l, e, f, q). cc)
remove_finalizer_iff class listed refused has free = (λ h. cc, λ (l, e, f, q). cc)

-- A finalization takes the termination finalizer off a NodeClass that has it exactly when the NodeClaims
-- could be listed, none of them references the class, and the patch is accepted.
pub finalize_iff :
    (claims : Option (List NodeClaim)) (reply : Patch) (class : CleverNodeClass)
    → HasFinalizer class
    → (any (text_eq termination_finalizer) (finalize claims reply class).1.finalizers ≡ false) ↔ (
        (listed : List NodeClaim) × (claims ≡ some listed)
        × (any (references class.name) listed ≡ false)
        × (reply ≡ patched))
unfolding finalize finalize_listed remove_finalizer
finalize_iff none reply class has =
    (λ h. cc (rw (has, finalize, finalize_listed) at h), λ (listed, e, _, _). cc)
finalize_iff (some listed) reply class has =
    elim (Bool-cases (any (references class.name) listed)) [
      | inl used ↦ (
        λ h. cc (rw (has, used, finalize, finalize_listed) at h),
        λ (other, e, free, _).
            let same : listed ≡ other = cc in
            cc (subst (λ z. any (references class.name) z ≡ true) same used),
      )
      | inr free ↦
          rw (has, free, finalize, finalize_listed)
            (remove_finalizer_iff class listed reply has free)
    ]

IsIn-insert_key : (k x : Text) (xs : List Text) → IsIn x (insert_key k xs) ↔ ((k ≡ x) ⊎ IsIn x xs)
unfolding insert_key
IsIn-insert_key k x [] = ground arith
IsIn-insert_key k x (y ∷ xs) = ground (arith, IsIn-insert_key k x xs)

-- The sorted keys are the keys.
pub IsIn-sorted_keys :
    (x : Text) (m : Map Text) → IsIn x (sorted_keys m) ↔ IsIn x (map (λ (e : Text × Text). e.0) m)
unfolding sorted_keys
IsIn-sorted_keys x [] = ground arith
IsIn-sorted_keys x (e ∷ m) =
    ground (arith, IsIn-insert_key e.0 x (sorted_keys m), IsIn-sorted_keys x m)

module _ (syntax : LabelSyntax) (labels : Map Text) where
  -- The label reaches the nodes, or it is one that an earlier version accepted.
  abbrev pub IsTolerated : Text → Type 0
  IsTolerated k =
      (validate_node_class_label syntax k (value_of labels k) ≡ none)
      ⊎ (is_legacy_node_class_label k (value_of labels k) ≡ true)

  validate_keys_iff :
      (keys : List Text)
      → ((validate_keys syntax labels keys).error ≡ none)
        ↔ ((k : Text) → IsIn k keys → IsTolerated k)
  unfolding validate_keys
  validate_keys_iff [] = (λ h k i. elim i [ ], λ h. refl)
  validate_keys_iff (k ∷ keys) =
      let rest = validate_keys_iff keys in
      elim (Option-cases (validate_node_class_label syntax k (value_of labels k))) [
        | inl p ↦ (
          λ h x i. elim i [
            | inl e ↦
                inl (subst (λ z. validate_node_class_label syntax z (value_of labels z) ≡ none) e p)
            | inr j ↦ rest.0 (rw (p, validate_keys) at h) x j
          ],
          λ h. rw (p, validate_keys) (rest.1 (λ x j. h x (inr j))),
        )
        | inr (r, p) ↦ elim (Bool-cases (is_legacy_node_class_label k (value_of labels k))) [
          | inl legacy ↦ (
            λ h x i. elim i [
              | inl e ↦
                  inr
                    (subst (λ z. is_legacy_node_class_label z (value_of labels z) ≡ true) e legacy)
              | inr j ↦ rest.0 (rw (p, legacy, validate_keys) at h) x j
            ],
            λ h. rw (p, legacy, validate_keys) (rest.1 (λ x j. h x (inr j))),
          )
          | inr newer ↦ (
            λ h. cc (rw (p, newer, validate_keys) at h),
            λ h. elim (h k (inl refl)) [ inl q ↦ cc | inr q ↦ cc ],
          )
        ]
      ]

-- The labels of a NodeClass pass exactly if each of them is delivered or is tolerated as a legacy one,
-- whatever the order of the map.
pub validate_iff :
    (syntax : LabelSyntax) (class : CleverNodeClass)
    → ((validate syntax class).error ≡ none)
      ↔ All
          (IsTolerated syntax (entries class.spec.labels))
          (map (λ (e : Text × Text). e.0) (entries class.spec.labels))
unfolding validate
validate_iff syntax class =
    let labels = entries class.spec.labels in
    let rest = validate_keys_iff syntax labels (sorted_keys labels) in
    (
      λ h.
          All-of (IsTolerated syntax labels) _
            (λ k i. rest.0 h k ((IsIn-sorted_keys k labels).1 i)),
      λ h.
          rest.1
            (λ k i. All-at (IsTolerated syntax labels) k _ h ((IsIn-sorted_keys k labels).0 i)),
    )
