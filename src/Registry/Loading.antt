-- ===== src/Registry/Loading.antt =====
-- virtualnamespace.go: what the start of a registry makes of a schema, and which schema a registry
-- is written as.
use tempura.Common.{
  ◌≡◌, ◌∙◌, refl, ap, true, Option, none, some, [], ◌∷◌, arith, Text, if◌then◌else◌, Bool-cases,
  inl, inr,
}
use tempura.Common.GoMap
use tempura.Common.GoMap.{GoMap, is_some}
use tempura.Common.GoMap.Range.{Unique, put-Unique}
use tempura.Common.Keys.{text_eq, text_eq_iff, string_key}
use tempura.Ring.Hash.{Murmur3}
use tempura.VirtualNamespace.{
  VirtualNamespace, NamespaceStatus, namespace_active, new_virtual_namespace, add,
  get_all_namespaces_with_status,
}
use tempura.VirtualNamespace.Routing.{IsValid, add-IsValid}
use tempura.Registry.{VirtualNamespaceRegistry}
use tempura.Registry.Checkpoint.{Schema, load_slot, load_slots, load_schema, collect_schema}

module _ ⦃murmur3 : Murmur3⦄ where
  get-load_slot :
      (slot : Text) (status : NamespaceStatus) (v : VirtualNamespace) (k : Text)
      → GoMap.get (load_slot slot status v).namespaces k
        ≡ (if text_eq slot k then some status else GoMap.get v.namespaces k)
  unfolding load_slot add
  get-load_slot slot status v k = ground (
    arith,
    GoMap.get-put slot k namespace_active v.namespaces,
    GoMap.get-put slot k status v.namespaces,
    text_eq_iff status namespace_active,
  )

  -- Loading lists each slot with its status, and nothing else is changed.
  pub get-load_slots :
      (slots : GoMap Text NamespaceStatus) (v : VirtualNamespace) (k : Text)
      → Unique slots
      → GoMap.get (load_slots slots v).namespaces k
        ≡ (if is_some (GoMap.get slots k) then GoMap.get slots k else GoMap.get v.namespaces k)
  unfolding load_slots GoMap.get
  get-load_slots [] v k u = refl
  get-load_slots ((slot, status) ∷ slots) v k (fresh, u) = ground (
    arith,
    get-load_slots slots (load_slot slot status v) k u,
    get-load_slot slot status v k,
    text_eq_iff slot k,
  )

  -- A slot that is not listed can be loaded with any status.
  load_slot-IsValid :
      (slot : Text) (status : NamespaceStatus) (v : VirtualNamespace)
      → GoMap.get v.namespaces slot ≡ none
      → IsValid v
      → IsValid (load_slot slot status v)
  unfolding load_slot
  load_slot-IsValid slot status v fresh valid =
      elim (Bool-cases (text_eq status namespace_active)) [
        | inl active ↦ rw active (add-IsValid (record { cluster = none; name = slot }) v valid)
        | inr other ↦ rw other (record {
          consistent = valid.consistent;
          width = valid.width;
          unique = put-Unique slot status v.namespaces valid.unique;
          active = λ x t h. ground (
            arith,
            valid.active x t,
            fresh,
            GoMap.get-put slot t status v.namespaces,
            text_eq_iff slot t,
            h,
          );
        })
      ]

  pub load_slots-IsValid :
      (slots : GoMap Text NamespaceStatus) (v : VirtualNamespace)
      → Unique slots
      → ((k : Text) → is_some (GoMap.get slots k) ≡ true → GoMap.get v.namespaces k ≡ none)
      → IsValid v
      → IsValid (load_slots slots v)
  unfolding load_slots GoMap.get
  load_slots-IsValid [] v u fresh valid = valid
  load_slots-IsValid ((slot, status) ∷ slots) v (once, u) fresh valid =
      load_slots-IsValid slots (load_slot slot status v) u
        (λ k here.
          ground (arith, here, once, fresh k, get-load_slot slot status v k, text_eq_iff slot k))
        (load_slot-IsValid slot status v (ground (arith, fresh slot, text_eq_iff slot slot)) valid)

  abbrev pub loaded :
      Text → Option (GoMap Text NamespaceStatus) → Option VirtualNamespace → Option VirtualNamespace
  loaded name none other = other
  loaded name (some slots) other = some (load_slots slots (new_virtual_namespace name))

  pub get-load_schema :
      (schema : Schema) (vr : VirtualNamespaceRegistry) (name : Text)
      → Unique schema
      → GoMap.get (load_schema schema vr).namespaces name
        ≡ loaded name (GoMap.get schema name) (GoMap.get vr.namespaces name)
  unfolding load_schema GoMap.get
  get-load_schema [] vr name u = refl
  get-load_schema ((n, slots) ∷ schema) vr name (once, u) =
      let vr' : VirtualNamespaceRegistry = record {
        namespaces = GoMap.put n (load_slots slots (new_virtual_namespace n)) vr.namespaces;
      } in
      elim (Bool-cases (text_eq n name)) [
        | inl same ↦
            let e : n ≡ name = (text_eq_iff n name).0 same in
            let gone : GoMap.get schema name ≡ none = rw (← e) once in
            get-load_schema schema vr' name u
            ∙ rw (gone, same)
                (GoMap.get-put n name (load_slots slots (new_virtual_namespace n)) vr.namespaces
                  ∙ rw same
                      (ap (λ (t : Text). some (load_slots slots (new_virtual_namespace t))) e))
        | inr other ↦
            get-load_schema schema vr' name u
            ∙ rw other (
                ap (loaded name (GoMap.get schema name)) (
                  GoMap.get-put n name (load_slots slots (new_virtual_namespace n)) vr.namespaces
                  ∙ rw other refl))
      ]

abbrev pub statuses_of :
    Option VirtualNamespace
    → Option (GoMap Text NamespaceStatus)
    → Option (GoMap Text NamespaceStatus)
statuses_of none other = other
statuses_of (some v) other = some (get_all_namespaces_with_status v)

pub get-collect_schema :
    (namespaces : GoMap Text VirtualNamespace) (schema : Schema) (name : Text)
    → Unique namespaces
    → GoMap.get (collect_schema namespaces schema) name
      ≡ statuses_of (GoMap.get namespaces name) (GoMap.get schema name)
unfolding collect_schema GoMap.get
get-collect_schema [] schema name u = refl
get-collect_schema ((n, v) ∷ namespaces) schema name (once, u) =
    let schema' = GoMap.put n (get_all_namespaces_with_status v) schema in
    elim (Bool-cases (text_eq n name)) [
      | inl same ↦
          let e : n ≡ name = (text_eq_iff n name).0 same in
          let gone : GoMap.get namespaces name ≡ none = rw (← e) once in
          get-collect_schema namespaces schema' name u
          ∙ rw (gone, same)
              (GoMap.get-put n name (get_all_namespaces_with_status v) schema ∙ rw same refl)
      | inr other ↦
          get-collect_schema namespaces schema' name u
          ∙ rw other (
              ap (statuses_of (GoMap.get namespaces name))
                (GoMap.get-put n name (get_all_namespaces_with_status v) schema ∙ rw other refl))
    ]
