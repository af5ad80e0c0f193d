-- ===== src/Redis.antt =====
-- github.com/redis/go-redis and the server behind it: a parameter. The operations are those that
-- mappings.go and virtualnamespace.go call; the laws are the documented behaviour of GET, SET,
-- DEL, DBSIZE and FLUSHDB while the server answers.
use tempura.Common.{ℕ, ◌+◌, ◌≡◌, ◌≢◌, Option, some, Text, if◌then◌else◌}
use tempura.Common.Keys.{text_eq}

-- the result of `Get(ctx, key).Result()`: a value, the error `redis.Nil`, or another error
pub data Reply : Type 0 where
  value : Text → Reply
  missing : Reply
  failed : Reply

pub record Redis : Type 1 where
  pub Db : Type 0
  pub new_client : Text → Db
  pub get : Db → Text → Reply
  pub set : Db → Text → Text → Db
  pub del : Db → Text → Db
  -- `none` is an error
  pub db_size : Db → Option ℕ
  pub flush_db : Db → Db
  -- the server answers, and goes on answering
  pub IsUp : Db → Type 0
  pub get_up : (db : Db) (k : Text) → IsUp db → get db k ≢ failed
  pub set_up : (db : Db) (k v : Text) → IsUp db → IsUp (set db k v)
  pub del_up : (db : Db) (k : Text) → IsUp db → IsUp (del db k)
  pub flush_up : (db : Db) → IsUp db → IsUp (flush_db db)
  pub get-set :
      (db : Db) (k j v : Text)
      → IsUp db
      → get (set db k v) j ≡ (if text_eq k j then value v else get db j)
  pub get-del :
      (db : Db) (k j : Text)
      → IsUp db
      → get (del db k) j ≡ (if text_eq k j then missing else get db j)
  pub get-flush : (db : Db) (k : Text) → IsUp db → get (flush_db db) k ≡ missing
  pub size-flush : (db : Db) → IsUp db → db_size (flush_db db) ≡ some 0
  pub size-set_new :
      (db : Db) (k v : Text) (n : ℕ)
      → IsUp db
      → get db k ≡ missing
      → db_size db ≡ some n
      → db_size (set db k v) ≡ some (n + 1)
  pub size-set_old :
      (db : Db) (k v w : Text) → IsUp db → get db k ≡ value w → db_size (set db k v) ≡ db_size db
