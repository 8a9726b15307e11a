-- ===== src/Controllers/Reads.antt =====
-- The API server's answer to the read of one object: the object, a NotFound error, or another error.
pub data Answer {ℓ} (A : Type ℓ) : Type ℓ where
  got : A → Answer A
  nothing : Answer A
  broken : Answer A
