-- ===== src/Tests/Base.antt =====
-- A hash and a server for the tests.
use tempura.Common.{
  ℕ, suc, ◌+◌, ◌*◌, ◌%◌, ◌^◌, ◌<◌, ◌≡◌, ◌≢◌, refl, Bool, true, false, Option, none, some, [], ◌∷◌,
  arith, length, Text, if◌then◌else◌, Option-cases, inl, inr,
}
use tempura.Common.GoMap
use tempura.Common.GoMap.{GoMap}
use tempura.Common.GoMap.Range.{Unique, put-Unique, delete-Unique}
use tempura.Common.Keys.{string_key, text_eq}
use tempura.Ring.Hash.{Murmur3}
use tempura.Redis.{Redis, Reply, value, missing, failed}

unfoldable pub hash31 : ℕ → Text → ℕ
hash31 acc [] = acc % 2 ^ 32
hash31 acc (c ∷ key) = hash31 ((acc * 31 + c) % 2 ^ 32) key

pub hash31_lt : (acc : ℕ) (key : Text) → hash31 acc key < 2 ^ 32
unfolding hash31
hash31_lt acc [] = omega arith
hash31_lt acc (c ∷ key) = hash31_lt ((acc * 31 + c) % 2 ^ 32) key

instance abbrev pub polynomial : Murmur3
polynomial = record { sum32 = hash31 7; sum32_lt = hash31_lt 7 }

pub record Server : Type 0 where
  pub up : Bool
  pub entries : GoMap Text Text

abbrev pub reply_of : Option Text → Reply
reply_of none = missing
reply_of (some v) = value v

abbrev pub server_get : Server → Text → Reply
server_get db k = if db.up then reply_of (GoMap.get db.entries k) else failed

abbrev pub IsServing : Server → Type 0
IsServing db = (db.up ≡ true) × Unique db.entries

pub length-delete_new :
    (k : Text) (m : GoMap Text Text) → GoMap.get m k ≡ none → length (GoMap.delete k m) ≡ length m
unfolding GoMap.get GoMap.delete
length-delete_new k [] h = refl
length-delete_new k ((j, v) ∷ m) h = ground (arith, length-delete_new k m)

pub length-delete_old :
    (k v : Text) (m : GoMap Text Text)
    → Unique m
    → GoMap.get m k ≡ some v
    → suc (length (GoMap.delete k m)) ≡ length m
unfolding GoMap.get GoMap.delete
length-delete_old k v [] u h = cc
length-delete_old k v ((j, w) ∷ m) (fresh, u) h =
    ground (arith, length-delete_old k v m u, length-delete_new k m, string_key.same_iff j k)

pub server_get_up : (db : Server) (k : Text) → IsServing db → server_get db k ≢ failed
server_get_up db k (up, u) = elim (Option-cases (GoMap.get db.entries k)) [
  | inl gone ↦ rw (up, gone) (λ e. cc e)
  | inr (v, held) ↦ rw (up, held) (λ e. cc e)
]

pub reply_if :
    (b : Bool) (v : Text) (o : Option Text)
    → reply_of (if b then some v else o) ≡ (if b then value v else reply_of o)
reply_if true v o = refl
reply_if false v o = refl

pub reply_unless :
    (b : Bool) (o : Option Text)
    → reply_of (if b then none else o) ≡ (if b then missing else reply_of o)
reply_unless true o = refl
reply_unless false o = refl

pub reply_missing : (o : Option Text) → reply_of o ≡ missing → o ≡ none
reply_missing none h = refl
reply_missing (some v) h = cc

pub reply_value : (o : Option Text) (w : Text) → reply_of o ≡ value w → o ≡ some w
reply_value none w h = cc
reply_value (some v) w h = ground arith

abbrev pub server_size : Server → Option ℕ
server_size db = if db.up then some (length db.entries) else none

abbrev pub server_set : Server → Text → Text → Server
server_set db k v = record db { entries = GoMap.put k v db.entries }

pub server_get-flush :
    (db : Server) (k : Text) → IsServing db → server_get (record db { entries = [] }) k ≡ missing
unfolding GoMap.get
server_get-flush db k (up, u) = rw up

pub server_size-new :
    (db : Server) (k v : Text) (n : ℕ)
    → IsServing db
    → server_get db k ≡ missing
    → server_size db ≡ some n
    → server_size (server_set db k v) ≡ some (n + 1)
unfolding GoMap.put
server_size-new db k v n (up, u) gone size = rw up (
    ground (arith, rw up at size, length-delete_new k db.entries (reply_missing _ (rw up at gone))))

pub server_size-old :
    (db : Server) (k v w : Text)
    → IsServing db
    → server_get db k ≡ value w
    → server_size (server_set db k v) ≡ server_size db
unfolding GoMap.put
server_size-old db k v w (up, u) held =
    rw up (ground (arith, length-delete_old k w db.entries u (reply_value _ w (rw up at held))))

abbrev pub server : Redis
server = record {
  Db = Server;
  new_client = λ address. record { up = true; entries = [] };
  get = server_get;
  set = server_set;
  del = λ db k. record db { entries = GoMap.delete k db.entries };
  db_size = server_size;
  flush_db = λ db. record db { entries = [] };
  IsUp = IsServing;
  get_up = server_get_up;
  set_up = λ db k v (up, u). (up, put-Unique k v db.entries u);
  del_up = λ db k (up, u). (up, delete-Unique k db.entries u);
  flush_up = λ db (up, u). (up, tt);
  get-set = λ db k j v (up, u).
      rw (up, GoMap.get-put k j v db.entries) (reply_if (text_eq k j) v (GoMap.get db.entries j));
  get-del = λ db k j (up, u).
      rw (up, GoMap.get-delete k j db.entries)
        (reply_unless (text_eq k j) (GoMap.get db.entries j));
  get-flush = server_get-flush;
  size-flush = λ db (up, u). rw up;
  size-set_new = server_size-new;
  size-set_old = server_size-old;
}
