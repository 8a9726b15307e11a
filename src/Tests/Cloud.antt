-- ===== src/Tests/Cloud.antt =====
-- The theorems on the cloud provider, on concrete inputs.
use karpenter_provider_cleve.Base.{
  ℕ, ◌≡◌, ◌≢◌, refl, ◌⊎◌, true, false, none, some, List, [], ◌∷◌, Text, codes, map,
}
use karpenter_provider_cleve.Flavor.TypeProvider.{TypeProvider, new_provider, sizing}
use karpenter_provider_cleve.Flavor.TypeProvider.Types.{InstanceType}
use karpenter_provider_cleve.Api.NodeGroup.{NodeGroup}
use karpenter_provider_cleve.Provider.Identity.{provider_id, is_managed}
use karpenter_provider_cleve.Provider.Backoff.{new_backoff}
use karpenter_provider_cleve.Provider.Create.{already_exists, not_got, resolve_and_create}
use karpenter_provider_cleve.Provider.Create as Creation
use karpenter_provider_cleve.Provider.Payload.{Launch}
use karpenter_provider_cleve.Controllers.Reads.{Answer, got, nothing}
use karpenter_provider_cleve.Controllers.GarbageCollection.{list_managed}
use karpenter_provider_cleve.CloudProvider.Outcome.{done, fails, CloudError, plain, no_flavor}
use karpenter_provider_cleve.CloudProvider.Selection.{
  Scheduling, Demand, View, instance_types, is_unavailable, resolve_instance_type,
}
use karpenter_provider_cleve.CloudProvider.Selection.Loop.{IsCheapest}
use karpenter_provider_cleve.CloudProvider.Selection.Cheapest.{resolve_instance_type-IsCheapest}
use karpenter_provider_cleve.CloudProvider.Claims.{list_claims, get_claim}
use karpenter_provider_cleve.CloudProvider.Claims.Described.{claim_of, list_claims-get_claim}
use karpenter_provider_cleve.CloudProvider.Launching.{Reads, resolver, finish, create}
use karpenter_provider_cleve.CloudProvider.Launching.Wanted.{IsWanted, create-IsWanted}
use karpenter_provider_cleve.Tests.Fixtures.{
  claim, class, group_with, ready_condition, syntax, hashing,
}
use karpenter_provider_cleve.Tests.Arithmetic.{counts, counts-IsRanked}
use karpenter_provider_cleve.Tests.Quantities.{Difference, differences}

abbrev started : TypeProvider Difference ℕ
started = new_provider differences counts (codes "par") [] []

abbrev up : NodeGroup
up = group_with (ready_condition ∷ [])

-- Requirements that every type meets.
abbrev permissive : Scheduling Unit Difference
permissive = record {
  intersects = λ requirements r. true;
  is_compatible = λ requirements r. true;
  fits = λ requests l. true;
}

abbrev demand : Demand Unit Difference
demand = record { requirements = tt; requests = λ r. none; node_pool = [] }

abbrev quiet : View
quiet = record { now = λ flavor. 1; backoff = λ flavor. new_backoff }

resolve_instance_type-IsCheapest_example :
    ((it : InstanceType Difference ℕ)
      → resolve_instance_type differences counts permissive started quiet (λ name. nothing) demand
        ≡ done it
      → IsCheapest differences counts permissive demand
          (some it)
          (instance_types differences counts started quiet).0
        × (is_unavailable differences counts started quiet it.name ≡ false))
    × ((n : ℕ)
        → resolve_instance_type differences counts permissive started quiet (λ name. nothing) demand
          ≡ fails (plain (no_flavor n))
        → IsCheapest differences counts permissive demand none
            (instance_types differences counts started quiet).0)
resolve_instance_type-IsCheapest_example =
    resolve_instance_type-IsCheapest differences counts permissive demand started quiet
      (λ name. nothing) counts-IsRanked (λ x i. refl)

list_claims-get_claim_example :
    ((list_claims differences counts started (some (up ∷ [])) []).0
      ≡ done (map (claim_of differences counts started) (list_managed (up ∷ []))))
    × ((ng : NodeGroup)
        → (claim_of differences counts started ng).provider_id ≡ provider_id ng.name)
    × ((ng : NodeGroup) (group : Text → Answer NodeGroup) (warned' : List Text)
        → ng.name ≢ []
        → group ng.name ≡ got ng
        → is_managed ng ≡ true
        → ng.deleted ≡ none
        → (get_claim differences counts started group (provider_id ng.name) warned').0
          ≡ done (claim_of differences counts started ng))
list_claims-get_claim_example = list_claims-get_claim differences counts started (up ∷ []) []

-- The API server knows the claim and its class, and no group of the claim.
abbrev reads : Reads Difference
reads = record {
  claim = got claim;
  class = got class;
  group = nothing;
  node_pool = λ name. nothing;
}

abbrev world : Creation.World
world = record {
  fast_fail_now = 1;
  fast_fail_later = 1;
  mark_calls = [];
  reply = already_exists;
  existing = not_got [];
  create_calls = [];
  reply_now = 2;
  cancelled_parent = false;
  polls = [];
  end_calls = [];
  end_now = 3;
}

create-IsWanted_example :
    ((e : CloudError) × (create differences counts permissive hashing syntax world started started
          quiet reads claim demand [] new_backoff
        ≡ record {
          result = fails e;
          warned = (resolver differences counts permissive started quiet reads claim demand []).1;
          backoff = new_backoff;
          effects = [];
        }))
    ⊎ ((l : Launch) × (it : InstanceType Difference ℕ) × IsWanted differences counts permissive
          started quiet reads claim demand l it
        × (create differences counts permissive hashing syntax world started started quiet reads
              claim demand [] new_backoff
            ≡ finish differences counts permissive started it
                (resolver differences counts permissive started quiet reads claim demand []).1
                (resolve_and_create
                  (sizing differences counts started)
                  claim
                  hashing
                  syntax
                  world
                  l
                  new_backoff)))
create-IsWanted_example =
    create-IsWanted differences counts permissive hashing syntax world started started quiet reads
      claim demand [] new_backoff
