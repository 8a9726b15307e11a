-- ===== src/Api/NodeClass.antt =====
-- pkg/apis/v1alpha1/clevernodeclass.go: the CleverNodeClass and the generations of its hash. The
-- hashing itself is the hashstructure package's, a parameter: what it makes of a spec with the given
-- labels, under the options of `hashOf`. A nil map of labels is `none`.
pub mod Drift
use karpenter_provider_cleve.Base.{
  ℕ, Bool, true, false, not, ◌&&◌, ◌||◌, Option, none, some, List, [], ◌∷◌, Text, codes, text_eq,
  Map, any, if◌then◌else◌, is_empty,
}
use karpenter_provider_cleve.Api.Labels.{LabelSyntax, validate_node_class_label}

-- `CleverNodeClassSpec`
pub record CleverNodeClassSpec : Type 0 where
  pub labels : Option (Map Text)

abbrev pub Hashing : Type 0
Hashing = CleverNodeClassSpec → Text

-- A map read through a nil pointer is empty.
abbrev pub entries : Option (Map Text) → Map Text
entries none = []
entries (some m) = m

-- The labels that `normalised` keeps.
unfoldable pub delivered : LabelSyntax → Map Text → Map Text
delivered syntax [] = []
delivered syntax (e ∷ m) = elim (validate_node_class_label syntax e.0 e.1) [
  | none ↦ e ∷ delivered syntax m
  | some rejection ↦ delivered syntax m
]

-- An empty map becomes a nil one.
unfoldable pub nil_if_empty : Map Text → Option (Map Text)
nil_if_empty [] = none
nil_if_empty (e ∷ m) = some (e ∷ m)

-- `normalised`
unfoldable pub normalised : LabelSyntax → CleverNodeClassSpec → CleverNodeClassSpec
unfolding delivered nil_if_empty
normalised syntax spec = record { labels = nil_if_empty (delivered syntax (entries spec.labels)) }

-- `Hash`
unfoldable pub hash : Hashing → LabelSyntax → CleverNodeClassSpec → Text
hash hash_of syntax spec = hash_of (normalised syntax spec)

-- `hashV1`
unfoldable pub hash_v1 : Hashing → CleverNodeClassSpec → List Text
hash_v1 hash_of spec =
    if is_empty (entries spec.labels)
    then hash_of (record { labels = none }) ∷ hash_of (record { labels = some [] }) ∷ []
    else hash_of (record { labels = some (entries spec.labels) }) ∷ []

-- `hashV2`
unfoldable pub hash_v2 : Hashing → CleverNodeClassSpec → List Text
unfolding nil_if_empty
hash_v2 hash_of spec = hash_of (record { labels = nil_if_empty (entries spec.labels) }) ∷ []

-- `frozenHashGeneration`
pub record FrozenHashGeneration : Type 0 where
  pub fields : List Text
  pub hashes : CleverNodeClassSpec → List Text

-- `previousNodeClassHashes[version]`
unfoldable pub previous_node_class_hashes : Hashing → Text → Option FrozenHashGeneration
unfolding hash_v1 hash_v2
previous_node_class_hashes hash_of version =
    if text_eq version (codes "v1")
    then some (record { fields = codes "Labels" ∷ []; hashes = hash_v1 hash_of })
    else if text_eq version (codes "v2")
    then some (record { fields = codes "Labels" ∷ []; hashes = hash_v2 hash_of })
    else none

-- `setsOnly`, whose reflection goes over the one field that the spec has
unfoldable pub sets_only : CleverNodeClassSpec → List Text → Bool
unfolding any
sets_only spec fields = elim spec.labels [
  | none ↦ true
  | some m ↦ any (text_eq (codes "Labels")) fields
]

abbrev pub node_class_hash_version : Text
node_class_hash_version = codes "v3"

-- `HashMatches`: `some match` where the generation is known
unfoldable pub hash_matches :
    Hashing → LabelSyntax → CleverNodeClassSpec → Text → Text → Option Bool
hash_matches hash_of syntax spec version stamp =
    if text_eq version node_class_hash_version
    then some (text_eq stamp (hash hash_of syntax spec))
    else let generation = if is_empty version then codes "v1" else version in
      elim (previous_node_class_hashes hash_of generation) [
        | none ↦ none
        | some previous ↦
            if not (sets_only (normalised syntax spec) previous.fields)
            then some false
            else some (any (text_eq stamp) (previous.hashes spec))
      ]

-- `CleverNodeClass`: `ready` says that its Ready condition is True.
pub record CleverNodeClass : Type 0 where
  pub name : Text
  pub spec : CleverNodeClassSpec
  pub deleted : Option ℕ
  pub finalizers : List Text
  pub ready : Bool
