-- ===== src/Controllers/ProviderId/Stamps.antt =====
-- What the two patches of the provider ID controller leave unique.
use karpenter_provider_cleve.Base.{
  ◌≡◌, ◌≢◌, refl, sym, ap, subst, ◌∙◌, ◌⊎◌, inl, inr, true, false, List, [], ◌∷◌, Text, text_eq,
  text_eq_iff, arith, IsIn, any, any_iff, Bool-cases, Option-cases, lookup, lookup-erase, erase,
}
use karpenter_provider_cleve.Provider.Identity.{provider_id}
use karpenter_provider_cleve.Provider.Payload.{core_node_pool_label}
use karpenter_provider_cleve.Controllers.ProviderId.{
  Node, node_group_node_label, is_in_group, carries, stamp, strip,
}

-- The node is one of the group and carries the group's provider ID.
abbrev pub Holds : Text → Node → Type 0
Holds group n = (is_in_group group n ≡ true) × (n.provider_id ≡ provider_id group)

-- Of the nodes of any one group, at most one carries the group's provider ID.
pub record IsUnique (nodes : List Node) : Type 0 where
  pub unique :
      (group : Text) (a b : Node)
      → IsIn a nodes
      → IsIn b nodes
      → Holds group a
      → Holds group b
      → a.name ≡ b.name

provider_id_injective : (a b : Text) → provider_id a ≡ provider_id b → a ≡ b
unfolding provider_id
provider_id_injective a b h = ground arith

-- A node of the stamped cluster was there before, and is as it was unless it was the stamped one.
IsIn-stamp :
    (name id : Text) (x : Node) (nodes : List Node)
    → IsIn x (stamp name id nodes)
    → (n : Node) × IsIn n nodes
      × (n.name ≡ x.name)
      × (n.labels ≡ x.labels)
      × (((x.name ≡ name) × (x.provider_id ≡ id)) ⊎ ((x.name ≢ name) × (n ≡ x)))
unfolding stamp
IsIn-stamp name id x [] i = elim i [ ]
IsIn-stamp name id x (n ∷ nodes) (inr i) =
    let (m, j, a, b, c) = IsIn-stamp name id x nodes i in (m, inr j, a, b, c)
IsIn-stamp name id x (n ∷ nodes) (inl e) = elim (Bool-cases (text_eq n.name name)) [
  | inl same ↦
      let p : record n { provider_id = id } ≡ x = rw (same, stamp) at e in
      (
        n,
        inl refl,
        ap (λ (z : Node). z.name) p,
        ap (λ (z : Node). z.labels) p,
        inl (
          sym (ap (λ (z : Node). z.name) p) ∙ (text_eq_iff n.name name).0 same,
          sym (ap (λ (z : Node). z.provider_id) p),
        ),
      )
  | inr other ↦
      let p : n ≡ x = rw (other, stamp) at e in
      (
        n,
        inl refl,
        ap (λ (z : Node). z.name) p,
        ap (λ (z : Node). z.labels) p,
        inr (λ q. cc ((text_eq_iff n.name name).1 (ap (λ (z : Node). z.name) p ∙ q)), p),
      )
]

IsIn-strip :
    (name : Text) (x : Node) (nodes : List Node)
    → IsIn x (strip name nodes)
    → (n : Node) × IsIn n nodes
      × (n.name ≡ x.name)
      × (n.provider_id ≡ x.provider_id)
      × (lookup node_group_node_label n.labels ≡ lookup node_group_node_label x.labels)
unfolding strip lookup text_eq
IsIn-strip name x [] i = elim i [ ]
IsIn-strip name x (n ∷ nodes) (inr i) =
    let (m, j, a, b, c) = IsIn-strip name x nodes i in (m, inr j, a, b, c)
IsIn-strip name x (n ∷ nodes) (inl e) = elim (Bool-cases (text_eq n.name name)) [
  | inl same ↦
      let p : record n { labels = erase core_node_pool_label n.labels } ≡ x =
        rw (same, strip) at e in
      (
        n,
        inl refl,
        ap (λ (z : Node). z.name) p,
        ap (λ (z : Node). z.provider_id) p,
        sym (lookup-erase core_node_pool_label node_group_node_label n.labels)
            ∙ ap (λ (z : Node). lookup node_group_node_label z.labels) p,
      )
  | inr other ↦
      let p : n ≡ x = rw (other, strip) at e in
      (
        n,
        inl refl,
        ap (λ (z : Node). z.name) p,
        ap (λ (z : Node). z.provider_id) p,
        ap (λ (z : Node). lookup node_group_node_label z.labels) p,
      )
]

Holds-is_in_group :
    (group : Text) (n x : Node)
    → lookup node_group_node_label n.labels ≡ lookup node_group_node_label x.labels
    → is_in_group group x ≡ true
    → is_in_group group n ≡ true
unfolding is_in_group
Holds-is_in_group group n x e h = elim (Option-cases (lookup node_group_node_label x.labels)) [
  | inl p ↦ cc (rw (p, is_in_group) at h)
  | inr (v, p) ↦
      let q = e ∙ p in
      let r : text_eq v group ≡ true = rw (p, is_in_group) at h in rw (q, is_in_group) r
]

-- A holder of the ID under another name keeps the check from passing.
free_of_holders :
    (group name : Text) (nodes : List Node) (n : Node)
    → any (carries group name) nodes ≡ false
    → IsIn n nodes
    → Holds group n
    → n.name ≢ name
    → ⊥
unfolding carries
free_of_holders group name nodes n none_carries i (inside, id) other =
    let differs : text_eq n.name name ≡ false = ground (arith, text_eq_iff n.name name) in
    let same = (text_eq_iff n.provider_id (provider_id group)).1 id in
    let bad : carries group name n ≡ true = rw (inside, differs, same, carries) refl in
    cc ((any_iff (carries group name) nodes).1 (n, i, bad))

pub stamp-IsUnique :
    (group name : Text) (nodes : List Node)
    → any (carries group name) nodes ≡ false
    → IsUnique nodes
    → IsUnique (stamp name (provider_id group) nodes)
stamp-IsUnique group name nodes free v = record {
  unique = λ g a b i j p q.
      let (na, ia, naname, nalabels, ca) = IsIn-stamp name (provider_id group) a nodes i in
      let (nb, ib, nbname, nblabels, cb) = IsIn-stamp name (provider_id group) b nodes j in
      elim ca [
        | inl (ea, ida) ↦ elim cb [
          | inl (eb, idb) ↦ ea ∙ sym eb
          | inr (nbn, eb) ↦
              let same = provider_id_injective g group (sym p.1 ∙ ida) in
              absurd (
                free_of_holders group name nodes b free (subst (λ z. IsIn z nodes) eb ib)
                  (subst (λ z. Holds z b) same q) nbn)
        ]
        | inr (nan, ea) ↦ elim cb [
          | inl (eb, idb) ↦
              let same = provider_id_injective g group (sym q.1 ∙ idb) in
              absurd (
                free_of_holders group name nodes a free (subst (λ z. IsIn z nodes) ea ia)
                  (subst (λ z. Holds z a) same p) nan)
          | inr (nbn, eb) ↦
              v.unique g a b (subst (λ z. IsIn z nodes) ea ia) (subst (λ z. IsIn z nodes) eb ib) p q
        ]
      ];
}

pub strip-IsUnique :
    (name : Text) (nodes : List Node) → IsUnique nodes → IsUnique (strip name nodes)
strip-IsUnique name nodes v = record {
  unique = λ g a b i j p q.
      let (na, ia, naname, naid, nalabel) = IsIn-strip name a nodes i in
      let (nb, ib, nbname, nbid, nblabel) = IsIn-strip name b nodes j in
      sym naname
      ∙ v.unique g na nb ia ib (Holds-is_in_group g na a nalabel p.0, naid ∙ p.1)
          (Holds-is_in_group g nb b nblabel q.0, nbid ∙ q.1)
      ∙ nbname;
}
