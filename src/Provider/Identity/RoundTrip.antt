-- ===== src/Provider/Identity/RoundTrip.antt =====
-- Round trips between a NodeGroup's name, its provider ID and the names of its nodes.
use karpenter_provider_cleve.Base.{
  ◌≡◌, refl, ap, ◌∙◌, ◌≢◌, true, false, none, some, [], ◌∷◌, ◌++◌, Text, text_eq, text_eq_iff,
  arith, cut_prefix, cut_prefix-eq, trim_prefix, Option-cases, is_empty, ◌||◌, if◌then◌else◌, inl,
  inr, length, length-append,
}
use karpenter_provider_cleve.Provider.Identity.{
  provider_id_prefix, provider_id, parse_provider_id, node_name_infix, all_digits, cut_last,
  node_group_of_node,
}

longer : (p r : Text) → length p ≢ 0 → text_eq r (p ++ r) ≡ false
longer p r h =
    ground (arith, text_eq_iff r (p ++ r), ap length {x = r} {y = p ++ r}, length-append p r)

-- Reading a provider ID back gives the name that it was made from.
pub parse_provider_id-provider_id :
    (name : Text) → name ≢ [] → parse_provider_id (provider_id name) ≡ some name
unfolding parse_provider_id provider_id trim_prefix text_eq cut_prefix
parse_provider_id-provider_id [] h = absurd (h refl)
parse_provider_id-provider_id (c ∷ name) h =
    ground (arith, longer provider_id_prefix (c ∷ name) (omega arith))

parsed :
    (id rest name : Text)
    → (if text_eq rest id || is_empty rest then none else some rest) ≡ some name
    → (rest ≢ id) × (rest ≡ name) × (name ≢ [])
parsed id [] name h = ground (arith, text_eq_iff [] id)
parsed id (c ∷ rest) name h = ground (arith, text_eq_iff (c ∷ rest) id)

-- Only the provider ID of a name that is not empty is read, and the name comes back.
pub parse_provider_id-eq :
    (id name : Text) → parse_provider_id id ≡ some name → (id ≡ provider_id name) × (name ≢ [])
unfolding parse_provider_id provider_id trim_prefix text_eq cut_prefix
parse_provider_id-eq id name h = elim (Option-cases (cut_prefix id provider_id_prefix)) [
  | inl e ↦ absurd ((parsed id id name (rw e at h)).0 refl)
  | inr (rest, e) ↦
      let p = parsed id rest name (rw e at h) in
      (cut_prefix-eq id provider_id_prefix name (e ∙ ap some p.1), p.2)
]

-- No occurrence of the infix starts inside an index.
cut_last-digits : (index : Text) → all_digits index ≡ true → cut_last index node_name_infix ≡ none
unfolding cut_last cut_prefix all_digits
cut_last-digits [] h = refl
cut_last-digits (c ∷ s) h = ground (arith, cut_last-digits s)

cut_last-infix :
    (group index : Text)
    → all_digits index ≡ true
    → cut_last (group ++ (node_name_infix ++ index)) node_name_infix ≡ some (group, index)
unfolding cut_last cut_prefix
cut_last-infix [] index h = rw (cut_last-digits index h)
cut_last-infix (c ∷ group) index h = rw (cut_last-infix group index h) refl

cut_last-eq :
    (s before after : Text)
    → cut_last s node_name_infix ≡ some (before, after)
    → s ≡ before ++ (node_name_infix ++ after)
unfolding cut_last
cut_last-eq [] before after h = ground (arith, cut_prefix-eq [] node_name_infix after)
cut_last-eq (c ∷ s) before after h = elim (Option-cases (cut_last s node_name_infix)) [
  | inr (found, e) ↦ ground (arith, cut_last-eq s found.0 found.1)
  | inl e ↦ ground (arith, cut_prefix-eq (c ∷ s) node_name_infix after)
]

-- The group of a node is read back from the node's name, also where the group's own name holds the
-- infix.
pub node_group_of_node-node :
    (group index : Text)
    → group ≢ []
    → index ≢ []
    → all_digits index ≡ true
    → node_group_of_node (group ++ (node_name_infix ++ index)) ≡ some group
unfolding node_group_of_node cut_last
node_group_of_node-node [] index g i d = absurd (g refl)
node_group_of_node-node (c ∷ group) [] g i d = absurd (i refl)
node_group_of_node-node (c ∷ group) (k ∷ index) g i d =
    rw (cut_last-infix (c ∷ group) (k ∷ index) d, d) refl

-- And a group is read off the names of that shape only.
pub node_group_of_node-eq :
    (name group : Text)
    → node_group_of_node name ≡ some group
    → (index : Text) × (name ≡ group ++ (node_name_infix ++ index))
      × (group ≢ [])
      × (index ≢ [])
      × (all_digits index ≡ true)
unfolding node_group_of_node
node_group_of_node-eq name group h = elim (Option-cases (cut_last name node_name_infix)) [
  | inl e ↦ absurd (ground arith)
  | inr (([], index), e) ↦ absurd (ground arith)
  | inr ((c ∷ rest, []), e) ↦ absurd (ground arith)
  | inr ((c ∷ rest, k ∷ index), e) ↦ (
    k ∷ index,
    cut_last-eq name (c ∷ rest) (k ∷ index) e
        ∙ ap (λ (g : Text). g ++ (node_name_infix ++ k ∷ index)) {x = c ∷ rest} (ground arith),
    ground arith,
    ground arith,
    ground arith,
  )
]
