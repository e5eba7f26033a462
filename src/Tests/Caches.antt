-- ===== src/Tests/Caches.antt =====
-- A Redis in memory, the member cache over it, and lists of ids as JSON.
use chatroom_server.Base.{
  ◌≡◌, refl, String, true, Option, none, some, [], ◌∷◌, if◌then◌else◌, arith,
}
use chatroom_server.MemberCache.{IsCache, hit, miss}
use chatroom_server.Cache.{
  Reply, bytes, nil, Redis, IsRedis, key, get_members, set_members, invalidate_members, redis_cache,
}
use chatroom_server.Cache.Refinement.{redis_cache-IsCache}
use chatroom_server.Text.Decimal.{format_int}
use chatroom_server.Text.Json.{marshal_ids, unmarshal_ids}
use text.Mathlib.Text.{◌==◌}
use text.Mathlib.TextEquality.{eq_iff}

program : Unit {0}
unfolding format_int marshal_ids unmarshal_ids key get_members set_members invalidate_members
program = tt

abbrev reply : Option String → Reply
reply none = nil
reply (some d) = bytes d

abbrev memory_redis : Redis
memory_redis = record {
  State = String → Option String;
  get = λ s k. (reply (s k), s);
  set = λ s k d ttl. (true, λ j. if j == k then some d else s j);
  del = λ s k. (true, λ j. if j == k then none else s j);
  value = λ s k. s k;
}

memory_redis-IsRedis : IsRedis memory_redis
memory_redis-IsRedis = record {
  get-bytes = λ s k d h. ground arith;
  value-get = λ s k j d h. h;
  value-set = λ s k d ttl j e h. ground (arith, eq_iff j k);
  value-del_self = λ s k h. ground (arith, (eq_iff k k).1 refl);
  value-del = λ s k j d h. ground arith;
}

redis_cache-IsCache_example : IsCache (redis_cache memory_redis)
redis_cache-IsCache_example = redis_cache-IsCache memory_redis memory_redis-IsRedis

entry :
    (set_members memory_redis (λ k. none) 12 (7 ∷ (30 ∷ [])) 60).1 "chatroom:group_members:12"
    ≡ some "[7,30]"
unfolding program
entry = refl

read_back :
    (get_members memory_redis (set_members memory_redis (λ k. none) 12 (7 ∷ (30 ∷ [])) 60).1 12).0
    ≡ hit (7 ∷ (30 ∷ []))
unfolding program
read_back = refl

other_group :
    (get_members memory_redis (set_members memory_redis (λ k. none) 12 (7 ∷ []) 60).1 1).0 ≡ miss
unfolding program
other_group = refl

spaced : unmarshal_ids " [ 7 , 30 ] " ≡ some (7 ∷ (30 ∷ []))
unfolding program
spaced = refl

null_list : unmarshal_ids "null" ≡ some []
unfolding program
null_list = refl

null_element : unmarshal_ids "[null,3]" ≡ some (0 ∷ (3 ∷ []))
unfolding program
null_element = refl

leading_zero : unmarshal_ids "[07]" ≡ none
unfolding program
leading_zero = refl
