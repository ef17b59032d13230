-- ===== src/Intents/Redis.antt =====
-- What the live store asks of Redis, which is a service: sets, hashes and values by key, as its
-- documentation gives the commands.
use arkd.Base.{
  ◌≡◌, refl, String, Bool, false, not, ◌&&◌, ◌||◌, List, [], ◌∷◌, Option, none, some, str_eq,
  if◌then◌else◌, All, arith,
}
use arkd.Base.Maps.{find}

-- Whether a list names a key.
abbrev pub names : String → List String → Bool
names k [] = false
names k (j ∷ js) = str_eq j k || names k js

-- A hash also stands for the values under the keys of one prefix: HSET is then SET, and HDEL is DEL.
pub record Redis : Type 1 where
  pub Set : Type 0
  pub no_members : Set
  pub sadd : String → Set → Set
  pub srem : String → Set → Set
  pub sismember : String → Set → Bool
  pub smembers : Set → List String
  pub sismember-no_members : (k : String) → sismember k no_members ≡ false
  pub sismember-sadd :
      (k j : String) (s : Set) → sismember k (sadd j s) ≡ (str_eq j k || sismember k s)
  pub sismember-srem :
      (k j : String) (s : Set) → sismember k (srem j s) ≡ (not (str_eq j k) && sismember k s)
  pub names-smembers : (k : String) (s : Set) → names k (smembers s) ≡ sismember k s
  pub Hash : Type 0 → Type 0
  pub no_fields : {V : Type 0} → Hash V
  pub hset : {V : Type 0} → String → V → Hash V → Hash V
  pub hdel : {V : Type 0} → String → Hash V → Hash V
  pub hget : {V : Type 0} → String → Hash V → Option V
  pub hgetall : {V : Type 0} → Hash V → List (String × V)
  pub hget-no_fields : {V : Type 0} (k : String) → hget {V = V} k no_fields ≡ none
  pub hget-hset :
      {V : Type 0} (k j : String) (v : V) (h : Hash V)
      → hget k (hset j v h) ≡ (if str_eq j k then some v else hget k h)
  pub hget-hdel :
      {V : Type 0} (k j : String) (h : Hash V)
      → hget k (hdel j h) ≡ (if str_eq j k then none else hget k h)
  -- HGETALL has an entry for each field, with the value of the field.
  pub find-hgetall : {V : Type 0} (k : String) (h : Hash V) → find k (hgetall h) ≡ hget k h
  pub hget_all : {V : Type 0} (h : Hash V) → All (λ e. hget e.0 h ≡ some e.1) (hgetall h)

-- Commands with several keys.
module _ (redis : Redis) where
  open redis use {
    Set, sadd, srem, sismember, sismember-sadd, sismember-srem, Hash, hset, hdel, hget, hget-hset,
    hget-hdel,
  }

  unfoldable pub sadd_all : List String → Set → Set
  sadd_all [] s = s
  sadd_all (k ∷ ks) s = sadd_all ks (sadd k s)

  unfoldable pub srem_all : List String → Set → Set
  srem_all [] s = s
  srem_all (k ∷ ks) s = srem_all ks (srem k s)

  unfoldable pub hdel_all : {V : Type 0} → List String → Hash V → Hash V
  hdel_all [] h = h
  hdel_all (k ∷ ks) h = hdel_all ks (hdel k h)

  -- The same value for each of the fields.
  unfoldable pub hset_all : {V : Type 0} → List String → V → Hash V → Hash V
  hset_all [] v h = h
  hset_all (k ∷ ks) v h = hset_all ks v (hset k v h)

  pub sismember-sadd_all :
      (k : String) (ks : List String) (s : Set)
      → sismember k (sadd_all ks s) ≡ (names k ks || sismember k s)
  unfolding sadd_all
  sismember-sadd_all k [] s = refl
  sismember-sadd_all k (j ∷ ks) s =
      ground (arith, sismember-sadd_all k ks (sadd j s), sismember-sadd k j s)

  pub sismember-srem_all :
      (k : String) (ks : List String) (s : Set)
      → sismember k (srem_all ks s) ≡ (not (names k ks) && sismember k s)
  unfolding srem_all
  sismember-srem_all k [] s = refl
  sismember-srem_all k (j ∷ ks) s =
      ground (arith, sismember-srem_all k ks (srem j s), sismember-srem k j s)

  pub hget-hdel_all :
      {V : Type 0} (k : String) (ks : List String) (h : Hash V)
      → hget k (hdel_all ks h) ≡ (if names k ks then none else hget k h)
  unfolding hdel_all
  hget-hdel_all k [] h = refl
  hget-hdel_all k (j ∷ ks) h = ground (arith, hget-hdel_all k ks (hdel j h), hget-hdel k j h)

  pub hget-hset_all :
      {V : Type 0} (k : String) (ks : List String) (v : V) (h : Hash V)
      → hget k (hset_all ks v h) ≡ (if names k ks then some v else hget k h)
  unfolding hset_all
  hget-hset_all k [] v h = refl
  hget-hset_all k (j ∷ ks) v h =
      ground (arith, hget-hset_all k ks v (hset j v h), hget-hset k j v h)
