-- ===== src/Resolver/Counting.antt =====
-- resolver.go: the counter totalWorkflowAllocated, a vector of one label. The registry of
-- prometheus serves it as it is.
use tempura.Common.{
  ℕ, ◌+◌, ◌||◌, Bool, false, Option, none, some, List, [], ◌∷◌, Text, codes, if◌then◌else◌,
}
use tempura.Common.Keys.{text_eq}
use tempura.Redis.{Redis}
use tempura.VirtualNamespace.{VirtualNamespace}
use tempura.Registry
use tempura.Resolver.{Resolver}

-- prometheus.CounterOpts, and the names of the labels
pub record CounterVec : Type 0 where
  pub name : Text
  pub help : Text
  pub labels : List Text

abbrev pub total_workflow_allocated : CounterVec
total_workflow_allocated = record {
  name = codes "total_workflow_allocated";
  help = codes "Total workflow allocated per namespace.";
  labels = codes "namespace" ∷ [];
}

unfoldable pub is_registered : Text → List CounterVec → Bool
is_registered name [] = false
is_registered name (c ∷ collectors) = text_eq c.name name || is_registered name collectors

-- prometheus.MustRegister of one counter; `none` is its panic, where the name is taken
unfoldable pub must_register : CounterVec → List CounterVec → Option (List CounterVec)
unfolding is_registered
must_register c collectors = if is_registered c.name collectors then none else some (c ∷ collectors)

unfoldable pub init : List CounterVec → Option (List CounterVec)
unfolding must_register
init collectors = must_register total_workflow_allocated collectors

-- the counter under one label, after it was incremented under each of these
unfoldable pub value_of : Text → List Text → ℕ
value_of label [] = 0
value_of label (phys_ns ∷ allocated) =
    (if text_eq phys_ns label then 1 else 0) + value_of label allocated
