-- ===== src/Tests.antt =====
-- The properties at concrete inputs. The parameters are small functions: a polynomial hash, a
-- server that is a map, codecs that write a message field by field, a gzip that unpacks nothing.
pub mod Base
pub mod Codecs
pub mod Rings
pub mod Namespaces
pub mod Requests
pub mod Tokens
pub mod Polls
pub mod Admins
pub mod Serving
pub mod Deployments
pub mod Schemas
pub mod Calls
