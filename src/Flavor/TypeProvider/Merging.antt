-- ===== src/Flavor/TypeProvider/Merging.antt =====
-- A report, recorded or refused, keeps the provider well formed.
use karpenter_provider_cleve.Base.{
  ◌≡◌, refl, subst, ◌⊎◌, inl, inr, true, ◌||◌, none, some, Text, text_eq, Option-cases, Bool-cases,
  if◌then◌else◌,
}
use karpenter_provider_cleve.Flavor.Numbers.{
  Doubles, cpu, memory, ResourceList, Quantities, IsOrdered,
}
use karpenter_provider_cleve.Flavor.Reports.{
  ObservedCapacity, filter_generalizable, figure, without_disk, delete_disk, is_disk, smaller,
  min_merge, check_consistent, check_observation,
}
use karpenter_provider_cleve.Flavor.Reports.Minimum.{
  check_consistent-merge, check_consistent-without_disk, check_consistent-empty,
}
use karpenter_provider_cleve.Flavor.TypeProvider.{TypeProvider}
use karpenter_provider_cleve.Flavor.TypeProvider.Reporting.{
  reference, has_legacy_disk, with_legacy_disk, previous, merge_observed, record_bounded,
  record_observed_capacity,
}
use karpenter_provider_cleve.Flavor.TypeProvider.States.{HasNoDisk, IsSound}

module _ {Q W : Type 0} (q : Quantities Q W) (d : Doubles W) where
  pub without_disk-HasNoDisk : (o : ObservedCapacity Q) → HasNoDisk q d (without_disk o)
  unfolding without_disk delete_disk is_disk
  without_disk-HasNoDisk o = (refl, refl)

  previous-consistent :
      (p : TypeProvider Q W) (flavor : Text)
      → IsSound q d p
      → check_consistent q (previous q d p flavor) ≡ none
  unfolding previous
  previous-consistent p flavor s = elim (Option-cases (p.observed flavor)) [
    | inl h ↦ simp (h, previous) (check_consistent-empty q)
    | inr (o, h) ↦ simp (h, previous) (s.consistent flavor o h)
  ]

  previous-HasNoDisk :
      (p : TypeProvider Q W) (flavor : Text)
      → IsSound q d p
      → p.ephemeral_storage_required ≡ true
      → HasNoDisk q d (previous q d p flavor)
  unfolding previous
  previous-HasNoDisk p flavor s r = elim (Option-cases (p.observed flavor)) [
    | inl h ↦ simp (h, previous) (refl, refl)
    | inr (o, h) ↦ simp (h, previous) (s.no_disk r flavor o h)
  ]

  merge_observed-IsSound :
      (p : TypeProvider Q W) (flavor : Text) (o : ObservedCapacity Q)
      → IsOrdered q
      → IsSound q d p
      → check_consistent q o ≡ none
      → (p.ephemeral_storage_required ≡ true → HasNoDisk q d o)
      → IsSound q d (merge_observed q d p flavor o)
  unfolding merge_observed min_merge smaller
  merge_observed-IsSound p flavor o ordered s c n = record {
    consistent = λ name x e. elim (at_name name x e) [
      | inl same ↦
          subst (λ z. check_consistent q z ≡ none) same
            (check_consistent-merge q (previous q d p flavor) o ordered
              (previous-consistent p flavor s) c)
      | inr h ↦ s.consistent name x h
    ];
    no_disk = λ r name x e. elim (at_name name x e) [
      | inl same ↦
          let before = previous-HasNoDisk p flavor s r in
          subst (HasNoDisk q d) same
            (simp (before.0, smaller) (n r).0, simp (before.1, smaller) (n r).1)
      | inr h ↦ s.no_disk r name x h
    ];
    enabled = s.enabled;
    ready = s.ready;
    within = s.within;
  }
    where
      both : ObservedCapacity Q
      both = record {
        capacity = min_merge q (previous q d p flavor).capacity o.capacity;
        allocatable = min_merge q (previous q d p flavor).allocatable o.allocatable;
      }

      at_name :
          (name : Text) (x : ObservedCapacity Q)
          → (if text_eq flavor name then some both else p.observed name) ≡ some x
          → (both ≡ x) ⊎ (p.observed name ≡ some x)
      at_name name x e = elim (Bool-cases (text_eq flavor name)) [
        | inl h ↦ inl (cc (rw h at e))
        | inr h ↦ inr (rw h at e)
      ]

  -- An observation that passes the tests against an entry is consistent.
  check_observation-consistent :
      (ref o : ObservedCapacity Q)
      → check_observation q d ref o ≡ none
      → check_consistent q o ≡ none
  unfolding check_observation
  check_observation-consistent ref o h = elim (Option-cases (check_consistent q o)) [
    | inl p ↦ p
    | inr (e, p) ↦ cc (rw (p, check_observation) at h)
  ]

  record_bounded-IsSound :
      (p : TypeProvider Q W) (flavor : Text) (o : ObservedCapacity Q)
      → IsOrdered q
      → IsSound q d p
      → (p.ephemeral_storage_required ≡ true → HasNoDisk q d o)
      → IsSound q d (record_bounded q d p flavor o).0
  unfolding record_bounded
  record_bounded-IsSound p flavor o ordered s n = elim (Option-cases (reference q d p flavor)) [
    | inl h ↦ elim (Option-cases (check_consistent q o)) [
      | inl c ↦ simp (h, c, record_bounded) (merge_observed-IsSound p flavor o ordered s c n)
      | inr (e, c) ↦ simp (h, c, record_bounded) s
    ]
    | inr (ref, h) ↦ elim (Bool-cases (has_legacy_disk q d o)) [
      | inl l ↦ elim (Option-cases (check_observation q d (with_legacy_disk q d ref) o)) [
        | inl c ↦
            simp (h, l, c, record_bounded)
              (merge_observed-IsSound p flavor (without_disk o) ordered s
                (check_consistent-without_disk q o
                  (check_observation-consistent (with_legacy_disk q d ref) o c))
                (λ r. without_disk-HasNoDisk o))
        | inr (e, c) ↦ simp (h, l, c, record_bounded) s
      ]
      | inr l ↦ elim (Option-cases (check_observation q d ref o)) [
        | inl c ↦
            simp (h, l, c, record_bounded)
              (merge_observed-IsSound p flavor o ordered s (check_observation-consistent ref o c) n)
        | inr (e, c) ↦ simp (h, l, c, record_bounded) s
      ]
    ]
  ]

  pub record_observed_capacity-IsSound :
      (p : TypeProvider Q W) (flavor : Text) (capacity allocatable : ResourceList Q)
      → IsOrdered q
      → IsSound q d p
      → IsSound q d (record_observed_capacity q d p flavor capacity allocatable).0
  unfolding record_observed_capacity
  record_observed_capacity-IsSound p flavor capacity allocatable ordered s =
      let o : ObservedCapacity Q = record {
        capacity = filter_generalizable capacity;
        allocatable = filter_generalizable allocatable;
      } in
      elim (Bool-cases
        (q.is_zero (figure q (capacity cpu)) || q.is_zero (figure q (capacity memory)))) [
          | inl z ↦ simp (z, record_observed_capacity) s
          | inr z ↦ elim (Bool-cases p.ephemeral_storage_required) [
            | inr r ↦
                simp (z, r, record_observed_capacity)
                  (record_bounded-IsSound p flavor o ordered s (λ r'. cc))
            | inl r ↦ elim (Option-cases (check_consistent q o)) [
              | inl c ↦
                  simp (z, r, c, record_observed_capacity)
                    (record_bounded-IsSound p flavor (without_disk o) ordered s
                      (λ r'. without_disk-HasNoDisk o))
              | inr (e, c) ↦ simp (z, r, c, record_observed_capacity) s
            ]
          ]
        ]
