-- ===== src/Intents/Tables.antt =====
-- The interface of arkd.Intents.Redis, which internal/infrastructure/live-store/redis calls, over lists of
-- keys without an order and association lists.
use arkd.Base.{
  ◌≡◌, refl, String, false, not, ◌&&◌, ◌||◌, List, [], ◌∷◌, Option, some, str_eq, eq_iff,
  if◌then◌else◌, All, arith, Bool-cases, inl, inr,
}
use arkd.Base.Maps.{insert, find, remove, find-insert_any, find-remove_any}
use arkd.Intents.Redis.{Redis, names}

module _ {V : Type 0} where
  -- The fields of an association list: of several entries for a key, the first one.
  pub entries : List (String × V) → List (String × V)
  entries [] = []
  entries ((k, v) ∷ m) = (k, v) ∷ remove k (entries m)

  pub find-entries : (k : String) (m : List (String × V)) → find k (entries m) ≡ find k m
  unfolding entries
  find-entries k [] = refl
  find-entries k ((j, v) ∷ m) = ground (arith, find-remove_any k j (entries m), find-entries k m)

  -- An entry whose value is found still is after a removal of another key.
  All-remove :
      (f g : String → Option V) (j : String) (m : List (String × V))
      → ((k : String) → str_eq j k ≡ false → g k ≡ f k)
      → All (λ e. f e.0 ≡ some e.1) m
      → All (λ e. g e.0 ≡ some e.1) (remove j m)
  All-remove f g j [] same h = tt
  All-remove f g j ((k, v) ∷ m) same (e, h) = elim (Bool-cases (str_eq k j)) [
    | inl eq ↦ rw eq (All-remove f g j m same h)
    | inr ne ↦ rw ne (ground (arith, same k, eq_iff k j, eq_iff j k, e), All-remove f g j m same h)
  ]

  pub find_all : (m : List (String × V)) → All (λ e. find e.0 m ≡ some e.1) (entries m)
  unfolding entries
  find_all [] = tt
  find_all ((k, v) ∷ m) = (
    ground (arith, eq_iff k k),
    All-remove (λ i. find i m) (λ i. find i ((k, v) ∷ m)) k (entries m) (λ i ne. rw ne refl)
        (find_all m),
  )

pub drop : String → List String → List String
drop k [] = []
drop k (j ∷ js) = if str_eq k j then drop k js else j ∷ drop k js

pub names-drop :
    (k j : String) (s : List String) → names k (drop j s) ≡ (not (str_eq j k) && names k s)
unfolding drop
names-drop k j [] = ground arith
names-drop k j (i ∷ s) = ground (arith, names-drop k j s, eq_iff j i, eq_iff i k, eq_iff j k)

pub names-add :
    (k j : String) (s : List String) → names k (j ∷ drop j s) ≡ (str_eq j k || names k s)
names-add k j s = ground (arith, names-drop k j s)

unfoldable pub tables : Redis
unfolding drop entries
tables = record {
  Set = List String;
  no_members = [];
  sadd = λ k s. k ∷ drop k s;
  srem = drop;
  sismember = names;
  smembers = λ s. s;
  sismember-no_members = λ k. refl;
  sismember-sadd = names-add;
  sismember-srem = names-drop;
  names-smembers = λ k s. refl;
  Hash = λ V. List (String × V);
  no_fields = [];
  hset = insert;
  hdel = remove;
  hget = find;
  hgetall = entries;
  hget-no_fields = λ k. refl;
  hget-hset = find-insert_any;
  hget-hdel = find-remove_any;
  find-hgetall = find-entries;
  hget_all = find_all;
}
