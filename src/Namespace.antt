-- ===== src/Namespace.antt =====
-- virtualnamespace.go: Namespace, Cluster, and the text that stands for a physical namespace.
pub mod Parse
use tempura.Common.{Option, none, some, List, [], ◌∷◌, Text, codes}
use tempura.Common.Strings.{split, join}

pub record Cluster : Type 0 where
  pub address : Text

-- `cluster` is a pointer; most of the code leaves it nil.
pub record Namespace : Type 0 where
  pub cluster : Option Cluster
  pub name : Text

abbrev pub delim : Text
delim = codes "::"

unfoldable pub build_physical_namespace : Text → Text → Text
unfolding join
build_physical_namespace actual_name cluster_address =
    join (actual_name ∷ cluster_address ∷ []) delim

-- What parsePhysicalNamespace returns: a namespace whose cluster is set.
pub record Target : Type 0 where
  pub name : Text
  pub address : Text

-- `s[0]` and `s[1]`; `none` is the panic of an index out of range
unfoldable pub first_two : List Text → Option Target
first_two (name ∷ address ∷ rest) = some (record { name = name; address = address })
first_two (name ∷ []) = none
first_two [] = none

unfoldable pub parse_physical_namespace : Text → Option Target
unfolding first_two split
parse_physical_namespace physical_namespace = first_two (split physical_namespace delim)
