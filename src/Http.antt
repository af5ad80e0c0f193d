-- ===== src/Http.antt =====
-- The parts of net/http's Request and Response that the proxy reads or writes.
use tempura.Common.{ℕ, Option, none, some, List, Bytes, Text, codes}
use tempura.Common.GoMap
use tempura.Common.GoMap.{GoMap}
use tempura.Common.Keys.{string_key}

-- http.Header, with canonical names
abbrev pub Header : Type 0
Header = GoMap Text (List Text)

-- `body` is what reading it to the end gives: `none` is an error.
pub record Request : Type 0 where
  pub method : Text
  pub path : Text
  pub scheme : Text
  pub url_host : Text
  pub host : Text
  pub request_uri : Text
  -- `none` is -1, an unknown length
  pub content_length : Option ℕ
  pub header : Header
  pub body : Option Bytes

pub record Response : Type 0 where
  pub status_code : ℕ
  pub header : Header
  pub body : Option Bytes
  pub trailer : Header

-- r.URL.Host = address; r.Host = address
unfoldable pub set_host : Text → Request → Request
set_host address r = record r { url_host = address; host = address }

-- r.ContentLength = -1; r.Header.Del("Content-Length")
unfoldable pub forget_length : Request → Request
forget_length r = record r {
  content_length = none;
  header = GoMap.delete (codes "Content-Length") r.header;
}

-- r.Body = io.NopCloser(bytes.NewBuffer(body))
unfoldable pub set_body : Bytes → Request → Request
set_body body r = record r { body = some body }
