-- ===== src/Api/NodeClaim.antt =====
-- The fields of karpenter-core's NodeClaim (a third-party type) that the program reads.
use karpenter_provider_cleve.Base.{ℕ, Bool, Option, Text, codes, Map}

pub record NodeClassReference : Type 0 where
  pub group : Text
  pub kind : Text
  pub name : Text

-- `launched` and `registered` say that the status condition is True, `drifted` that the condition is
-- there at all.
pub record NodeClaim : Type 0 where
  pub name : Text
  pub uid : Text
  pub resource_version : Text
  pub labels : Map Text
  pub created : ℕ
  pub deleted : Option ℕ
  pub class_ref : Option NodeClassReference
  pub provider_id : Text
  pub launched : Bool
  pub registered : Bool
  pub drifted : Bool

abbrev pub clever_group : Text
clever_group = codes "karpenter.clever-cloud.com"
