-- ===== src/Outcome.antt =====
-- What the server gets from reclaim and the tracer: success, or -1 with the message in `errbuf`.
use hsed.Base.{ℕ, List, ◌≡◌, refl, ◌⊎◌, inl, inr}

pub data Outcome (A : Type 0) : Type 0 where
  ok : A → Outcome A
  err : List ℕ → Outcome A

pub Outcome-cases :
    {A : Type 0} (o : Outcome A) → ((reason : List ℕ) × (o ≡ err reason)) ⊎ ((a : A) × (o ≡ ok a))
Outcome-cases (err reason) = inl (reason, refl)
Outcome-cases (ok a) = inr (a, refl)
