-- ===== src/Tests/Redis.antt =====
-- A Redis that holds a slot for each key.
use ulov_backend.Prelude.{ℕ, suc, ◌+◌, refl, none, some}
use ulov_backend.Prelude.Tests.{is_some}
use ulov_backend.Prelude.Text.{Text}
use ulov_backend.Redis.{
  Redis, IsRedis, Slot, hash, string, counter, live, hash_of, count_of, deadline_of, put,
}

abbrev pub Store : Type 0
Store = Text → Slot

abbrev bump : Text → Slot → Store → ℕ × Store
bump k (some (hash code n, t)) r = (suc n, put k (some (hash code (suc n), t)) r)
bump k _ r = (1, r)

abbrev renew : ℕ → Text → ℕ → Slot → Store → Store
renew now k ttl none r = r
renew now k ttl (some (e, _)) r = put k (some (e, some (now + ttl))) r

abbrev pub store : Redis Store
store = record {
  view = λ r. r;
  exists = λ now k r. is_some (live now (r k));
  delete = λ k r. put k none r;
  hset = λ k code n r. put k (some (hash code n, deadline_of (r k))) r;
  expire = λ now k ttl r. renew now k ttl (live now (r k)) r;
  hgetall = λ now k r. hash_of (live now (r k));
  hincrby = λ now k r. bump k (live now (r k)) r;
  setex = λ now k ttl v r. put k (some (string v, some (now + ttl))) r;
  incr = λ now k r.
      let n = suc (count_of (live now (r k))) in
      (n, put k (some (counter n, deadline_of (live now (r k)))) r);
}

pub store_laws : IsRedis store
store_laws = record {
  exists_law = λ now k r. refl;
  delete_law = λ k j r. refl;
  hset_law = λ k code n j r e. rw e refl;
  expire_law = λ now k ttl j r e t h. rw h refl;
  hgetall_law = λ now k r. refl;
  hincrby_law = λ now k j r code n t h. (rw h refl, rw h refl);
  setex_law = λ now k ttl v j r. refl;
  incr_law = λ now k j r. (refl, refl);
}

abbrev pub empty : Store
empty _ = none
