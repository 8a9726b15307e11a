-- ===== src/Provider/Admission.antt =====
-- pkg/providers/nodegroup/nodegroup.go, `admissionFlavorRefusal`: whether an error of the create call
-- refuses the flavor. An Invalid error's causes are the field and the message of each; `none` is an
-- error that has no details.
use karpenter_provider_cleve.Base.{
  ◌≡◌, refl, ◌↔◌, ◌⊎◌, inl, inr, true, ◌||◌, Option, none, some, List, [], ◌∷◌, Text, codes,
  text_eq, text_eq_iff, is_empty, is_empty_iff, arith, if◌then◌else◌, All, is_some,
}

pub record Cause : Type 0 where
  pub field : Text
  pub message : Text

abbrev pub flavor_field : Text
flavor_field = codes "spec.flavor"

abbrev pub fieldless_cause : Text
fieldless_cause = codes "<nil>"

-- The flavor, the reason and the message of `ErrFlavorRejected`.
pub record FlavorRejected : Type 0 where
  pub flavor : Text
  pub reason : Text
  pub message : Text

-- The loop over the causes; `none` for its `return nil`, and for a refusal that is still nil.
unfoldable pub refusal_from : Text → Option FlavorRejected → List Cause → Option FlavorRejected
refusal_from flavor refusal [] = refusal
refusal_from flavor refusal (cause ∷ causes) =
    let names_flavor =
      refusal_from flavor
        (elim refusal [
          | none ↦
              some (record { flavor = flavor; reason = codes "Invalid"; message = cause.message })
          | some r ↦ some r
        ])
        causes in
    let names_nothing = refusal_from flavor refusal causes in
    if is_empty cause.field || text_eq cause.field fieldless_cause
    then names_nothing
    else if text_eq cause.field flavor_field
    then names_flavor
    else none

-- `admissionFlavorRefusal`, on an error for which `IsInvalid` holds
unfoldable pub admission_flavor_refusal : Option (List Cause) → Text → Option FlavorRejected
unfolding refusal_from
admission_flavor_refusal details flavor = elim details [
  | none ↦ none
  | some causes ↦ refusal_from flavor none causes
]

-- A cause names no field, or the flavor's.
abbrev IsBlank : Cause → Type 0
IsBlank cause = (cause.field ≡ []) ⊎ (cause.field ≡ fieldless_cause)

abbrev pub IsBlankOrFlavor : Cause → Type 0
IsBlankOrFlavor cause = IsBlank cause ⊎ (cause.field ≡ flavor_field)

-- Some cause names the flavor's field.
abbrev pub NamesFlavor : List Cause → Type 0
NamesFlavor [] = ⊥
NamesFlavor (cause ∷ causes) = (cause.field ≡ flavor_field) ⊎ NamesFlavor causes

abbrev first_cause : Text → Cause → FlavorRejected
first_cause flavor cause = record {
  flavor = flavor;
  reason = codes "Invalid";
  message = cause.message;
}

refusal_from-All :
    (flavor : Text) (refusal : Option FlavorRejected) (causes : List Cause)
    → is_some (refusal_from flavor refusal causes) ≡ true
    → All IsBlankOrFlavor causes × ((is_some refusal ≡ true) ⊎ NamesFlavor causes)
unfolding refusal_from
refusal_from-All flavor refusal [] h = (tt, inl h)
refusal_from-All flavor none (cause ∷ causes) h = ground (
  arith,
  is_empty_iff cause.field,
  text_eq_iff cause.field fieldless_cause,
  text_eq_iff cause.field flavor_field,
  refusal_from-All flavor none causes,
  refusal_from-All flavor (some (first_cause flavor cause)) causes,
)
refusal_from-All flavor (some r) (cause ∷ causes) h = ground (
  arith,
  is_empty_iff cause.field,
  text_eq_iff cause.field fieldless_cause,
  text_eq_iff cause.field flavor_field,
  refusal_from-All flavor (some r) causes,
)

refusal_from-some :
    (flavor : Text) (r : FlavorRejected) (causes : List Cause)
    → All IsBlankOrFlavor causes
    → refusal_from flavor (some r) causes ≡ some r
unfolding refusal_from
refusal_from-some flavor r [] h = refl
refusal_from-some flavor r (cause ∷ causes) h = ground (
  arith,
  is_empty_iff cause.field,
  text_eq_iff cause.field fieldless_cause,
  text_eq_iff cause.field flavor_field,
  refusal_from-some flavor r causes,
)

refusal_from-none :
    (flavor : Text) (causes : List Cause)
    → All IsBlankOrFlavor causes
    → NamesFlavor causes
    → is_some (refusal_from flavor none causes) ≡ true
unfolding refusal_from
refusal_from-none flavor [] h n = absurd n
refusal_from-none flavor (cause ∷ causes) h n = ground (
  arith,
  is_empty_iff cause.field,
  text_eq_iff cause.field fieldless_cause,
  text_eq_iff cause.field flavor_field,
  refusal_from-none flavor causes,
  refusal_from-some flavor (first_cause flavor cause) causes,
)

-- An Invalid error refuses the flavor exactly if some cause names the flavor's field and no cause names
-- another one.
pub admission_flavor_refusal_iff :
    (causes : List Cause) (flavor : Text)
    → (is_some (admission_flavor_refusal (some causes) flavor) ≡ true)
      ↔ (All IsBlankOrFlavor causes × NamesFlavor causes)
unfolding admission_flavor_refusal
admission_flavor_refusal_iff causes flavor = (
  λ h. let a = refusal_from-All flavor none causes h in (a.0, elim a.1 [ inl e ↦ cc | inr n ↦ n ]),
  λ h. refusal_from-none flavor causes h.0 h.1,
)

refusal_from-flavor :
    (flavor : Text) (refusal : Option FlavorRejected) (causes : List Cause) (r : FlavorRejected)
    → ((q : FlavorRejected) → refusal ≡ some q → q.flavor ≡ flavor)
    → refusal_from flavor refusal causes ≡ some r
    → r.flavor ≡ flavor
unfolding refusal_from
refusal_from-flavor flavor refusal [] r own h = own r h
refusal_from-flavor flavor none (cause ∷ causes) r own h = ground (
  arith,
  refusal_from-flavor flavor none causes r own,
  refusal_from-flavor flavor (some (first_cause flavor cause)) causes r (λ q e. ground arith),
)
refusal_from-flavor flavor (some q) (cause ∷ causes) r own h =
    ground (arith, refusal_from-flavor flavor (some q) causes r own)

-- A refusal at admission is of the flavor that was asked for.
pub admission_flavor_refusal-flavor :
    (details : Option (List Cause)) (flavor : Text) (r : FlavorRejected)
    → admission_flavor_refusal details flavor ≡ some r
    → r.flavor ≡ flavor
unfolding admission_flavor_refusal
admission_flavor_refusal-flavor none flavor r h = cc
admission_flavor_refusal-flavor (some causes) flavor r h =
    refusal_from-flavor flavor none causes r (λ q e. cc) h
