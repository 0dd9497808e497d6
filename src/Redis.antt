-- ===== src/Redis.antt =====
-- The commands of a Redis server that the code calls, as an interface: the server is not part of
-- this repository. `now` is the server's clock in seconds.
use ulov_backend.Prelude.{ℕ, suc, ◌+◌, ◌≡◌, Bool, Option, none, some}
use ulov_backend.Prelude.Tests.{ltb, is_some, if◌then◌else◌}
use ulov_backend.Prelude.Text.{Text, text_eq}

-- What a key holds: a hash with the fields `code` and `attempts`, a string, or a counter.
pub data Entry : Type 0 where
  hash : Text → ℕ → Entry
  string : Text → Entry
  counter : ℕ → Entry

-- An entry with its deadline, if it has one.
abbrev pub Slot : Type 0
Slot = Option (Entry × Option ℕ)

-- A slot whose deadline has come holds nothing.
abbrev pub live : ℕ → Slot → Slot
live now none = none
live now (some (e, none)) = some (e, none)
live now (some (e, some t)) = if ltb now t then some (e, some t) else none

-- The fields of a hash; a key that holds nothing has none.
abbrev pub hash_of : Slot → Option (Text × ℕ)
hash_of (some (hash code attempts, _)) = some (code, attempts)
hash_of _ = none

-- A key that holds nothing counts from 0.
abbrev pub count_of : Slot → ℕ
count_of (some (counter n, _)) = n
count_of _ = 0

abbrev pub deadline_of : Slot → Option ℕ
deadline_of none = none
deadline_of (some (_, t)) = t

-- The key `k` is given a slot.
abbrev pub put : Text → Slot → (Text → Slot) → Text → Slot
put k s view j = if text_eq k j then s else view j

pub record Redis (R : Type 0) : Type 0 where
  -- What each key holds, dead entries included.
  pub view : R → Text → Slot
  pub exists : ℕ → Text → R → Bool
  pub delete : Text → R → R
  -- `HSET` of both fields
  pub hset : Text → Text → ℕ → R → R
  pub expire : ℕ → Text → ℕ → R → R
  pub hgetall : ℕ → Text → R → Option (Text × ℕ)
  -- `HINCRBY` of the field `attempts` by 1, with the new value
  pub hincrby : ℕ → Text → R → ℕ × R
  pub setex : ℕ → Text → ℕ → Text → R → R
  -- `INCR`, with the new value
  pub incr : ℕ → Text → R → ℕ × R

-- The documented behaviour of each command, where the code calls it.
pub record IsRedis {R : Type 0} (redis : Redis R) : Type 0 where
  pub exists_law :
      (now : ℕ) (k : Text) (r : R) → redis.exists now k r ≡ is_some (live now (redis.view r k))
  pub delete_law :
      (k j : Text) (r : R) → redis.view (redis.delete k r) j ≡ put k none (redis.view r) j
  -- on a key that holds nothing
  pub hset_law :
      (k code : Text) (attempts : ℕ) (j : Text) (r : R)
      → redis.view r k ≡ none
      → redis.view (redis.hset k code attempts r) j
        ≡ put k (some (hash code attempts, none)) (redis.view r) j
  -- on a key that holds an entry
  pub expire_law :
      (now : ℕ) (k : Text) (ttl : ℕ) (j : Text) (r : R) (e : Entry) (t : Option ℕ)
      → live now (redis.view r k) ≡ some (e, t)
      → redis.view (redis.expire now k ttl r) j
        ≡ put k (some (e, some (now + ttl))) (redis.view r) j
  pub hgetall_law :
      (now : ℕ) (k : Text) (r : R) → redis.hgetall now k r ≡ hash_of (live now (redis.view r k))
  -- on a key that holds a hash
  pub hincrby_law :
      (now : ℕ) (k j : Text) (r : R) (code : Text) (attempts : ℕ) (t : Option ℕ)
      → live now (redis.view r k) ≡ some (hash code attempts, t)
      → ((redis.hincrby now k r).0 ≡ suc attempts)
        × (redis.view (redis.hincrby now k r).1 j
            ≡ put k (some (hash code (suc attempts), t)) (redis.view r) j)
  pub setex_law :
      (now : ℕ) (k : Text) (ttl : ℕ) (v j : Text) (r : R)
      → redis.view (redis.setex now k ttl v r) j
        ≡ put k (some (string v, some (now + ttl))) (redis.view r) j
  pub incr_law :
      (now : ℕ) (k j : Text) (r : R)
      → let s = live now (redis.view r k) in
        ((redis.incr now k r).0 ≡ suc (count_of s))
        × (redis.view (redis.incr now k r).1 j
            ≡ put k (some (counter (suc (count_of s)), deadline_of s)) (redis.view r) j)
