-- ===== src/Api/NodeClass/Drift.antt =====
-- When a stamp on a NodeGroup says that its NodeClass has changed.
use karpenter_provider_cleve.Base.{
  ◌≡◌, refl, ap, ◌≢◌, ◌↔◌, true, false, Option, none, some, [], ◌∷◌, ◌++◌, Text, text_eq,
  text_eq_refl, text_eq_iff, codes, Map, arith, any, Bool-cases, inl, inr,
}
use karpenter_provider_cleve.Api.Labels.{LabelSyntax, validate_node_class_label}
use karpenter_provider_cleve.Api.NodeClass.{
  CleverNodeClassSpec, Hashing, entries, delivered, nil_if_empty, normalised, hash, hash_v1,
  hash_v2, hash_matches, node_class_hash_version, previous_node_class_hashes, sets_only,
}

module _ (syntax : LabelSyntax) where
  delivered-append :
      (xs ys : Map Text) → delivered syntax (xs ++ ys) ≡ delivered syntax xs ++ delivered syntax ys
  unfolding delivered
  delivered-append [] ys = refl
  delivered-append (e ∷ xs) ys = ground (arith, delivered-append xs ys)

  delivered-drop :
      (key value : Text) (ys : Map Text)
      → validate_node_class_label syntax key value ≢ none
      → delivered syntax ((key, value) ∷ ys) ≡ delivered syntax ys
  unfolding delivered
  delivered-drop key value ys h = ground arith

  module _ (hash_of : Hashing) where
    -- A label that does not reach a node, wherever it stands in the map, does not count: adding or
    -- removing it leaves the hash as it was.
    pub hash_ignores_undelivered :
        (xs ys : Map Text) (key value : Text)
        → validate_node_class_label syntax key value ≢ none
        → hash hash_of syntax (record { labels = some (xs ++ ((key, value) ∷ ys)) })
          ≡ hash hash_of syntax (record { labels = some (xs ++ ys) })
    unfolding hash normalised
    hash_ignores_undelivered xs ys key value h = rw (
      delivered-append xs ((key, value) ∷ ys),
      delivered-drop key value ys h,
      delivered-append xs ys,
    )

    -- Nor does it matter whether a map without labels is empty or absent.
    hash_nil :
        hash hash_of syntax (record { labels = none })
        ≡ hash hash_of syntax (record { labels = some [] })
    unfolding hash normalised
    hash_nil = refl

    stamp_v1 :
        (labels : Option (Map Text))
        → any
            (text_eq (hash_of (record { labels = labels })))
            (hash_v1 hash_of (record { labels = labels }))
          ≡ true
    unfolding any hash_v1
    stamp_v1 none = ground (arith, text_eq_refl (hash_of (record { labels = none })))
    stamp_v1 (some []) = ground (arith, text_eq_refl (hash_of (record { labels = some [] })))
    stamp_v1 (some (e ∷ m)) =
        ground (arith, text_eq_refl (hash_of (record { labels = some (e ∷ m) })))

    sets_labels :
        (labels : Option (Map Text))
        → sets_only (record { labels = labels }) (codes "Labels" ∷ []) ≡ true
    unfolding sets_only text_eq any
    sets_labels none = refl
    sets_labels (some m) = refl

    -- A stamp that a generation computed from the present spec matches it, so that no upgrade reads as
    -- drift: a stamp of v1, with or without its version, over the raw spec; of v2, over the spec with an
    -- empty map made nil; of the current generation.
    pub own_stamp_matches :
        (spec : CleverNodeClassSpec)
        → (hash_matches hash_of syntax spec [] (hash_of spec) ≡ some true)
          × (hash_matches hash_of syntax spec (codes "v1") (hash_of spec) ≡ some true)
          × (hash_matches hash_of syntax spec
                (codes "v2")
                (hash_of (record { labels = nil_if_empty (entries spec.labels) }))
              ≡ some true)
          × (hash_matches hash_of syntax spec (codes "v3") (hash hash_of syntax spec) ≡ some true)
    unfolding hash_matches previous_node_class_hashes text_eq hash_v2 any
    own_stamp_matches spec =
        let labels_only = sets_labels (normalised syntax spec).labels in
        (
          ground (arith, labels_only, stamp_v1 spec.labels),
          ground (arith, labels_only, stamp_v1 spec.labels),
          ground (
            arith,
            labels_only,
            text_eq_refl (hash_of (record { labels = nil_if_empty (entries spec.labels) })),
          ),
          ground (arith, text_eq_refl (hash hash_of syntax spec)),
        )

    -- With a hashing that gives no two specs one value, a stamp of the current generation reads as
    -- changed exactly if what the two specs deliver differs.
    pub current_stamp_exact :
        ((a b : CleverNodeClassSpec) → hash_of a ≡ hash_of b → a ≡ b)
        → (stamped spec : CleverNodeClassSpec)
        → (hash_matches hash_of syntax spec node_class_hash_version (hash hash_of syntax stamped)
            ≡ some false)
          ↔ (normalised syntax stamped ≢ normalised syntax spec)
    unfolding hash_matches hash text_eq
    current_stamp_exact injective stamped spec = (
      λ h same. ground (arith, ap hash_of same, text_eq_refl (hash_of (normalised syntax spec))),
      λ differ.
          elim (Bool-cases
            (text_eq (hash_of (normalised syntax stamped)) (hash_of (normalised syntax spec)))) [
              | inr e ↦ ap some e
              | inl e ↦ absurd (differ (injective _ _ ((text_eq_iff _ _).0 e)))
            ],
    )

    -- A stamp of a generation that this controller does not know is never evaluated.
    pub unknown_generation :
        (spec : CleverNodeClassSpec) (version stamp : Text)
        → version ≢ []
        → version ≢ codes "v1"
        → version ≢ codes "v2"
        → version ≢ codes "v3"
        → hash_matches hash_of syntax spec version stamp ≡ none
    unfolding hash_matches previous_node_class_hashes
    unknown_generation spec [] stamp h1 h2 h3 h4 = absurd (h1 refl)
    unknown_generation spec (c ∷ version) stamp h1 h2 h3 h4 = ground (
      arith,
      text_eq_iff (c ∷ version) (codes "v1"),
      text_eq_iff (c ∷ version) (codes "v2"),
      text_eq_iff (c ∷ version) (codes "v3"),
    )
