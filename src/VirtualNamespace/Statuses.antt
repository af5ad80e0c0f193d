-- ===== src/VirtualNamespace/Statuses.antt =====
-- virtualnamespace.go: what the two listings of a virtual namespace report.
use tempura.Common.{ℕ, ◌+◌, ◌≡◌, refl, List, [], ◌∷◌, ◌++◌, arith, Text, if◌then◌else◌}
use tempura.Common.GoMap
use tempura.Common.GoMap.{GoMap, is_some}
use tempura.Common.GoMap.Range.{Unique}
use tempura.Common.Keys.{text_eq, text_eq_iff, string_key}
use tempura.VirtualNamespace.{
  VirtualNamespace, NamespaceStatus, copy_statuses, get_all_namespaces_with_status, append_names,
  get_all_namespaces,
}

-- how often a text occurs in a list
unfoldable pub occurrences : List Text → Text → ℕ
occurrences [] k = 0
occurrences (t ∷ ts) k = (if text_eq t k then 1 else 0) + occurrences ts k

occurrences-append :
    (a b : List Text) (k : Text) → occurrences (a ++ b) k ≡ occurrences a k + occurrences b k
unfolding occurrences
occurrences-append [] b k = omega arith
occurrences-append (t ∷ a) b k = ground (arith, occurrences-append a b k)

get-copy_statuses :
    (entries result : GoMap Text NamespaceStatus) (k : Text)
    → Unique entries
    → GoMap.get (copy_statuses entries result) k
      ≡ (if is_some (GoMap.get entries k) then GoMap.get entries k else GoMap.get result k)
unfolding copy_statuses GoMap.get
get-copy_statuses [] result k u = refl
get-copy_statuses ((j, val) ∷ entries) result k (fresh, u) = ground (
  arith,
  get-copy_statuses entries (GoMap.put j val result) k u,
  GoMap.get-put j k val result,
  text_eq_iff j k,
)

pub get-get_all_namespaces_with_status :
    (v : VirtualNamespace) (k : Text)
    → Unique v.namespaces
    → GoMap.get (get_all_namespaces_with_status v) k ≡ GoMap.get v.namespaces k
unfolding get_all_namespaces_with_status GoMap.get
get-get_all_namespaces_with_status v k u = ground (arith, get-copy_statuses v.namespaces [] k u)

occurrences-append_names :
    (entries : GoMap Text NamespaceStatus) (result : List Text) (k : Text)
    → Unique entries
    → occurrences (append_names entries result) k
      ≡ occurrences result k + (if is_some (GoMap.get entries k) then 1 else 0)
unfolding append_names GoMap.get occurrences
occurrences-append_names [] result k u = omega arith
occurrences-append_names ((j, val) ∷ entries) result k (fresh, u) = ground (
  arith,
  occurrences-append_names entries (result ++ (j ∷ [])) k u,
  occurrences-append result (j ∷ []) k,
  text_eq_iff j k,
)

pub occurrences-get_all_namespaces :
    (v : VirtualNamespace) (k : Text)
    → Unique v.namespaces
    → occurrences (get_all_namespaces v) k ≡ (if is_some (GoMap.get v.namespaces k) then 1 else 0)
unfolding get_all_namespaces occurrences
occurrences-get_all_namespaces v k u = ground (arith, occurrences-append_names v.namespaces [] k u)
