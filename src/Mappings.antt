-- ===== src/Mappings.antt =====
-- mappings.go: the routing cache, a Redis client with two counters. The context is always
-- `context.Background()`, and `Ping` only logs.
use tempura.Common.{ℕ, ◌+◌, none, some, [], Text, codes, ◌||◌, if◌then◌else◌}
use tempura.Common.Keys.{text_eq}
use tempura.Redis.{Redis, Reply, value, missing, failed}

-- the address that the client is made for
unfoldable pub mappings_address : Text → Text
mappings_address redis_addr =
    if text_eq redis_addr [] || text_eq redis_addr (codes "./data/mappings.json")
    then codes "localhost:6379"
    else redis_addr

module _ (redis : Redis) where
  open redis use {Db}

  pub record Mappings : Type 0 where
    pub client : Db
    pub cache_hit_count : ℕ
    pub cache_miss_count : ℕ

  unfoldable pub new_mappings : Text → Mappings
  unfolding mappings_address
  new_mappings redis_addr = record {
    client = redis.new_client (mappings_address redis_addr);
    cache_hit_count = 0;
    cache_miss_count = 0;
  }

  -- a missing key and a failure are both a miss, with the empty text
  unfoldable pub get_reply : Reply → Mappings → Text × Mappings
  get_reply (value val) m = (val, record m { cache_hit_count = m.cache_hit_count + 1 })
  get_reply missing m = ([], record m { cache_miss_count = m.cache_miss_count + 1 })
  get_reply failed m = ([], record m { cache_miss_count = m.cache_miss_count + 1 })

  unfoldable pub get : Text → Mappings → Text × Mappings
  unfolding get_reply
  get key m = get_reply (redis.get m.client key) m

  unfoldable pub put : Text → Text → Mappings → Mappings
  put key val m = record m { client = redis.set m.client key val }

  unfoldable pub delete : Text → Mappings → Mappings
  delete key m = record m { client = redis.del m.client key }

  -- the error is dropped, and the size is then 0
  unfoldable pub size : Mappings → ℕ
  size m = elim (redis.db_size m.client) [ none ↦ 0 | some n ↦ n ]

  unfoldable pub clear : Mappings → Mappings
  clear m = record m { client = redis.flush_db m.client }
