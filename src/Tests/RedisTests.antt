-- ===== src/Tests/RedisTests.antt =====
-- internal/infra/redis/cache.go over a Redis in memory, whose patterns end in a star.
use Prim.Native.Char.{code}
use text.Mathlib.TextLemmas.{cons-append, nil-append}
use search_engine_service.Base.{
  ◌≡◌, ◌≢◌, refl, sym, subst, ◌⊎◌, inl, inr, String, ◌<>◌, List, [], ◌∷◌, Option, none, some, Bool,
  true, false, ◌&&◌, ◌||◌, All, In, arith, ==_iff, ◌==◌, string_eq, nat_eq, if◌then◌else◌,
  Bool-cases,
}
use search_engine_service.Base.Effects.{redis_nil, Result, ok, err}
use search_engine_service.Base.Dict.{lookup, insert, erase, lookup-insert, lookup-erase}
use search_engine_service.Domain.Ports.{Bytes}
use search_engine_service.Service.Search.Answers.{CacheContract}
use search_engine_service.Infra.Redis.{RedisClient, RedisCache, as_cache, build_key, clear}
use search_engine_service.Infra.Redis.Contract.{
  KeepsValues, KeepsKeys, Stored, as_cache-CacheContract, IsLiteralPrefix, IsCleared,
  clear-IsCleared,
}

abbrev pub Memory : Type 0
Memory = List (String × Bytes)

unfoldable glob : String → String → Bool
glob String.[] String.[] = true
glob String.[] (String.◌∷◌ d s) = false
glob (String.◌∷◌ c p) String.[] = code c == 42
glob (String.◌∷◌ c p) (String.◌∷◌ d s) =
    let rest = glob p s in code c == 42 || (code c == code d && rest)

unfoldable keys : String → Memory → List String
unfolding glob
keys p [] = []
keys p ((k, v) ∷ m) = let rest = keys p m in if glob p k then k ∷ rest else rest

unfoldable erase_all : List String → Memory → Memory
erase_all [] m = m
erase_all (k ∷ ks) m = erase k (erase_all ks m)

abbrev pub found_or_nil : Option Bytes → Result Bytes
found_or_nil none = err redis_nil
found_or_nil (some b) = ok b

abbrev memory : RedisClient Memory
memory = record {
  get = λ k w. (found_or_nil (lookup k w), w);
  set = λ k v ttl w. (ok tt, insert k v w);
  del = λ ks w. (ok tt, erase_all ks w);
  scan = λ p w. (ok (keys p w), w);
}

abbrev pub Held : Memory → String → Bytes → Type 0
Held w k b = lookup k w ≡ some b

pub found_or_nil-ok : (o : Option Bytes) (b : Bytes) → found_or_nil o ≡ ok b → o ≡ some b
found_or_nil-ok none b e = cc
found_or_nil-ok (some c) b e = ground arith

pub insert-Held :
    (k j : String) (v b : Bytes) (w : Memory)
    → Held (insert k v w) j b
    → ((j ≡ k) × (b ≡ v)) ⊎ Held w j b
insert-Held k j v b w h = ground (arith, lookup-insert k j v w, ==_iff k j)

memory-KeepsValues : KeepsValues Held memory
memory-KeepsValues = record {
  get_found = λ k w b e. found_or_nil-ok (lookup k w) b e;
  get_keeps = λ k w j b held. held;
  set_keeps = λ k v ttl w j b held. insert-Held k j v b w held;
}

erase_all-keeps :
    (ks : List String) (w : Memory) (j : String) (b : Bytes)
    → Held (erase_all ks w) j b
    → Held w j b
unfolding erase_all
erase_all-keeps [] w j b h = h
erase_all-keeps (k ∷ ks) w j b h =
    erase_all-keeps ks w j b (ground (arith, lookup-erase k j (erase_all ks w)))

erase_all-removes :
    (ks : List String) (w : Memory) (j : String) (b : Bytes) → Held (erase_all ks w) j b → ¬ In j ks
unfolding erase_all
erase_all-removes [] w j b h i = elim i [ ]
erase_all-removes (k ∷ ks) w j b h (inl e) =
    ground (arith, lookup-erase k j (erase_all ks w), ==_iff k j)
erase_all-removes (k ∷ ks) w j b h (inr later) =
    erase_all-removes ks w j b (ground (arith, lookup-erase k j (erase_all ks w))) later

erase_all-spares :
    (ks : List String) (w : Memory) (j : String) (b : Bytes)
    → ¬ In j ks
    → Held w j b
    → Held (erase_all ks w) j b
unfolding erase_all
erase_all-spares [] w j b other h = h
erase_all-spares (k ∷ ks) w j b other h =
    let before = erase_all-spares ks w j b (λ i. other (inr i)) h in
    let different : k ≢ j = λ e. other (inl (sym e)) in
    ground (arith, lookup-erase k j (erase_all ks w), ==_iff k j)

abbrev Matches : String → String → Type 0
Matches p k = glob p k ≡ true

keys-Matches : (p : String) (w : Memory) → All (Matches p) (keys p w)
unfolding keys
keys-Matches p [] = tt
keys-Matches p ((k, v) ∷ w) = elim (Bool-cases (glob p k)) [
  | inl hit ↦ rw hit (hit, keys-Matches p w)
  | inr miss ↦ rw miss (keys-Matches p w)
]

keys_whole :
    (p : String) (w : Memory) (j : String) (b : Bytes) → Held w j b → Matches p j → In j (keys p w)
unfolding keys lookup
keys_whole p [] j b h m = cc
keys_whole p ((k, v) ∷ w) j b h m = elim (Bool-cases (k == j)) [
  | inl same ↦
      let e = (==_iff k j).0 same in rw (subst (λ x. glob p x ≡ true) (sym e) m) (inl (sym e))
  | inr other ↦
      let later = keys_whole p w j b (ground arith) m in
      elim (Bool-cases (glob p k)) [ inl hit ↦ rw hit (inr later) | inr miss ↦ rw miss later ]
]

ok-injective : (a b : List String) → ok a ≡ ok b → a ≡ b
ok-injective a b e = ground arith

memory-KeepsKeys : KeepsKeys Held Matches memory
memory-KeepsKeys = record {
  del_removes = λ ks w j b done held. erase_all-removes ks w j b held;
  del_keeps = erase_all-keeps;
  del_spares = erase_all-spares;
  scan_idle = λ p w. refl;
  scan_matches = λ p w ks e. subst (All (Matches p)) (ok-injective _ ks e) (keys-Matches p w);
  scan_whole =
      λ p w ks j b e held m. subst (In j) (ok-injective _ ks e) (keys_whole p w j b held m);
}

glob-append : (p q k : String) → glob q k ≡ true → glob (p <> q) (p <> k) ≡ true
unfolding glob
glob-append String.[] q k h =
    subst (λ x. glob x (String.[] <> k) ≡ true) (sym (nil-append q))
      (subst (λ x. glob q x ≡ true) (sym (nil-append k)) h)
glob-append (String.◌∷◌ c p) q k h =
    let rest = glob-append p q k h in rw (cons-append c p q, cons-append c p k) (ground arith)

glob_star : (k : String) → glob "*" k ≡ true
unfolding glob
glob_star String.[] = refl
glob_star (String.◌∷◌ d s) = refl

abbrev cache : RedisCache Memory
cache = record { client = memory; key_prefix = "ses" }

cache-IsLiteralPrefix : IsLiteralPrefix Held Matches cache
unfolding build_key
cache-IsLiteralPrefix k = glob-append "ses" ":*" (":" <> k) (glob-append ":" "*" k (glob_star k))

as_cache_example : CacheContract (Stored Held cache) (as_cache cache)
as_cache_example = as_cache-CacheContract Held cache memory-KeepsValues

abbrev held_before : Memory
held_before = ("ses:a", 1 ∷ []) ∷ ("lock:x", 2 ∷ []) ∷ ("ses:b", 3 ∷ []) ∷ []

clear_test : (clear cache held_before).1 ≡ ("lock:x", 2 ∷ []) ∷ []
unfolding clear erase_all keys erase
clear_test = refl

clear_example : IsCleared Held Matches cache held_before (clear cache held_before).1
unfolding clear keys
clear_example =
    clear-IsCleared Held Matches cache memory-KeepsKeys cache-IsLiteralPrefix held_before refl
