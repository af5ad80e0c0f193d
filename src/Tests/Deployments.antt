-- ===== src/Tests/Deployments.antt =====
-- The start of the proxy by the test harness, and the registration of a namespace with it. The JSON
-- codec reads the texts between quotes, a URL's host is what follows http://, and the numbers are
-- those of two digits.
use tempura.Common.{
  ℕ, ◌+◌, ◌*◌, ◌-◌, not, Bool, false, Option, none, some, List, [], ◌∷◌, ◌++◌, Bytes, Text, codes,
  drop, ◌==◌, if◌then◌else◌,
}
use tempura.Common.GoMap
use tempura.Common.Keys.{string_key}
use tempura.Common.Result.{Result, ok, err}
use tempura.VirtualNamespace.{VirtualNamespace}
use tempura.Registry
use tempura.Registry.{VirtualNamespaceRegistry}
use tempura.Admin.{Json, CreateVirtualNamespaceRequest, ManagePhysicalNamespaceRequest}
use tempura.Startup.{Urls}
use tempura.Deployed.CommandLine.{Numerals}
use tempura.Tests.Base.{polynomial}

abbrev two_digits : Text → Option ℕ
two_digits (a ∷ b ∷ []) = some ((a - 48) * 10 + (b - 48))
two_digits text = none

instance abbrev small_numerals : Numerals
small_numerals = record { parse_int = two_digits }

instance abbrev plain_urls : Urls
plain_urls = record { parse_host = λ url. some (drop 7 url) }

-- the texts between quotes; `inside` says that one has begun, and `text` is what was read since
abbrev read_byte : Bool → Text → ℕ → (Bool × Text) × List Text
read_byte inside text c =
    if c == 34
    then ((not inside, []), if inside then text ∷ [] else [])
    else ((inside, text ++ (c ∷ [])), [])

abbrev quoted : Bool → Text → Bytes → List Text
quoted inside text [] = []
quoted inside text (c ∷ bytes) =
    let ((inside', text'), whole) = read_byte inside text c in whole ++ quoted inside' text' bytes

abbrev created_name : List Text → Result Text CreateVirtualNamespaceRequest
created_name (key ∷ name ∷ []) = ok (record { name = name })
created_name texts = err (codes "EOF")

abbrev managed_names : List Text → Result Text ManagePhysicalNamespaceRequest
managed_names (a ∷ virtual ∷ b ∷ physical ∷ c ∷ address ∷ []) = ok (record {
  virtual_namespace = virtual;
  physical_namespace = physical;
  cluster_address = address;
})
managed_names texts = err (codes "EOF")

instance abbrev quoted_json : Json
quoted_json = record {
  decode_create = λ body. created_name (quoted false [] body);
  decode_manage = λ body. managed_names (quoted false [] body);
}

abbrev empty_registry : VirtualNamespaceRegistry
empty_registry = record { namespaces = [] }

abbrev tests : Text
tests = codes "tests"

abbrev address : Text
address = codes "127.0.0.1:7233"
