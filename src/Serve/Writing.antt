-- ===== src/Serve/Writing.antt =====
-- proxy.go, writeProxyResponse: what the client gets of a response.
use tempura.Common.{
  ◌≡◌, ◌∙◌, refl, true, false, Bool, List, [], ◌∷◌, ◌++◌, arith, Text, codes, length, leb,
  if◌then◌else◌, Bool-cases, inl, inr,
}
use tempura.Common.GoMap
use tempura.Common.GoMap.{GoMap, is_some}
use tempura.Common.GoMap.Range.{Unique}
use tempura.Common.Keys.{text_eq, text_eq_iff, string_key}
use tempura.Common.Strings.{starts_with}
use tempura.Http.{Header, Response}
use tempura.Serve.{copy_header, add_values, add_trailers, write_proxy_response}

starts_with-append : (p s : Text) → starts_with p (p ++ s) ≡ true
unfolding starts_with
starts_with-append [] s = refl
starts_with-append (c ∷ p) s = ground (arith, starts_with-append p s)

prefix_ne : (p s k : Text) → starts_with p k ≡ false → text_eq (p ++ s) k ≡ false
prefix_ne p s k other = elim (Bool-cases (text_eq (p ++ s) k)) [
  | inl same ↦
      let e : p ++ s ≡ k = (text_eq_iff (p ++ s) k).0 same in
      cc (other, rw e at (starts_with-append p s))
  | inr ne ↦ ne
]

get-copy_header :
    (entries header : Header) (k : Text)
    → Unique entries
    → GoMap.get (copy_header entries header) k
      ≡ (if is_some (GoMap.get entries k) then GoMap.get entries k else GoMap.get header k)
unfolding copy_header GoMap.get
get-copy_header [] header k u = refl
get-copy_header ((j, v) ∷ entries) header k (fresh, u) = ground (
  arith,
  get-copy_header entries (GoMap.put j v header) k u,
  GoMap.get-put j k v header,
  text_eq_iff j k,
)

get-add_values :
    (name : Text) (values : List Text) (header : Header) (k : Text)
    → text_eq name k ≡ false
    → GoMap.get (add_values name values header) k ≡ GoMap.get header k
unfolding add_values
get-add_values name [] header k other = refl
get-add_values name (v ∷ values) header k other =
    get-add_values name values _ k other ∙ GoMap.get-put name k _ header ∙ rw other refl

get-add_trailers :
    (entries header : Header) (k : Text)
    → starts_with (codes "Trailer:") k ≡ false
    → GoMap.get (add_trailers entries header) k ≡ GoMap.get header k
unfolding add_trailers
get-add_trailers [] header k other = refl
get-add_trailers ((j, v) ∷ entries) header k other =
    get-add_trailers entries _ k other
    ∙ get-add_values (codes "Trailer:" ++ j) v header k (prefix_ne (codes "Trailer:") j k other)

get-announced :
    (none_there : Bool) (names : List Text) (header : Header) (k : Text)
    → text_eq (codes "Trailer") k ≡ false
    → GoMap.get (if none_there then header else GoMap.put (codes "Trailer") names header) k
      ≡ GoMap.get header k
get-announced true names header k other = refl
get-announced false names header k other =
    GoMap.get-put (codes "Trailer") k names header ∙ rw other refl

get-copied :
    (entries : Header) (k : Text)
    → Unique entries
    → GoMap.get (copy_header entries []) k ≡ GoMap.get entries k
unfolding GoMap.get
get-copied entries k u = ground (arith, get-copy_header entries [] k u)

-- Into an empty response writeProxyResponse puts the status, the body and each header of the
-- answer as they are, except for headers under Trailer or a name that begins with Trailer:, which
-- may be changed, if the answer has each header name once.
pub write_proxy_response-keeps :
    (resp : Response) (k : Text)
    → Unique resp.header
    → text_eq (codes "Trailer") k ≡ false
    → starts_with (codes "Trailer:") k ≡ false
    → (GoMap.get (write_proxy_response resp []).header k ≡ GoMap.get resp.header k)
      × ((write_proxy_response resp []).status_code ≡ resp.status_code)
      × ((write_proxy_response resp []).body ≡ resp.body)
unfolding write_proxy_response
write_proxy_response-keeps resp k u other no_trailer = (
  get-add_trailers resp.trailer _ k no_trailer
      ∙ get-announced (leb (length resp.trailer) 0) _ (copy_header resp.header []) k other
      ∙ get-copied resp.header k u,
  refl,
  refl,
)
