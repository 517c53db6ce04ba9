-- ===== src/Infra/Redis/Contract.antt =====
-- internal/infra/redis/cache.go and the contract of its port, and what `Clear` takes away. `Held w k b`
-- says that Redis holds `b` under the full key `k`.
use text.Mathlib.TextLemmas.{append_cancel_left}
use search_engine_service.Base.{
  ◌≡◌, refl, sym, ◌⊎◌, inl, inr, String, ◌<>◌, List, [], ◌∷◌, some, All, In, All-In, arith, subst,
}
use search_engine_service.Base.Effects.{Result, ok, err}
use search_engine_service.Domain.Content.{Duration}
use search_engine_service.Domain.Ports.{Bytes}
use search_engine_service.Service.Search.Answers.{CacheContract}
use search_engine_service.Infra.Redis.{
  RedisClient, RedisCache, build_key, of_get, as_cache, clear, delete_found,
}

module _ {W : Type 0} (Held : W → String → Bytes → Type 0) where
  -- What Redis documents of `GET` and `SET`: a value that is read is there, a reading adds nothing,
  -- and a writing adds the one entry.
  pub record KeepsValues (client : RedisClient W) : Type 0 where
    pub get_found : (k : String) (w : W) (b : Bytes) → (client.get k w).0 ≡ ok b → Held w k b
    pub get_keeps :
        (k : String) (w : W) (j : String) (b : Bytes) → Held (client.get k w).1 j b → Held w j b
    pub set_keeps :
        (k : String) (v : Bytes) (ttl : Duration) (w : W) (j : String) (b : Bytes)
        → Held (client.set k v ttl w).1 j b
        → ((j ≡ k) × (b ≡ v)) ⊎ Held w j b

  -- What Redis documents of `DEL` and of a whole `SCAN`: the keys that are named go, and no others;
  -- a scan returns keys that match the pattern, all those that are there, and changes nothing.
  pub record KeepsKeys (Matches : String → String → Type 0) (client : RedisClient W) : Type 0 where
    pub del_removes :
        (ks : List String) (w : W) (j : String) (b : Bytes)
        → (client.del ks w).0 ≡ ok tt
        → Held (client.del ks w).1 j b
        → ¬ In j ks
    pub del_keeps :
        (ks : List String) (w : W) (j : String) (b : Bytes)
        → Held (client.del ks w).1 j b
        → Held w j b
    pub del_spares :
        (ks : List String) (w : W) (j : String) (b : Bytes)
        → ¬ In j ks
        → Held w j b
        → Held (client.del ks w).1 j b
    pub scan_idle : (pattern : String) (w : W) → (client.scan pattern w).1 ≡ w
    pub scan_matches :
        (pattern : String) (w : W) (ks : List String)
        → (client.scan pattern w).0 ≡ ok ks
        → All (Matches pattern) ks
    pub scan_whole :
        (pattern : String) (w : W) (ks : List String) (j : String) (b : Bytes)
        → (client.scan pattern w).0 ≡ ok ks
        → Held w j b
        → Matches pattern j
        → In j ks

  -- What the cache holds: the entries under its prefix.
  abbrev pub Stored : RedisCache W → W → String → Bytes → Type 0
  Stored c w k b = Held w (build_key c k) b

  build_key-injective : (c : RedisCache W) (j k : String) → build_key c j ≡ build_key c k → j ≡ k
  unfolding build_key
  build_key-injective c j k e =
      append_cancel_left ":" j k (append_cancel_left c.key_prefix (":" <> j) (":" <> k) e)

  of_get-some : (r : Result Bytes) (b : Bytes) → of_get r ≡ ok (some b) → r ≡ ok b
  unfolding of_get
  of_get-some (ok found) b e = ground arith
  of_get-some (err x) b e = ground arith

  -- Over a Redis that keeps values, the cache keeps the contract of its port, its keys told apart
  -- under the prefix.
  pub as_cache-CacheContract :
      (c : RedisCache W) → KeepsValues c.client → CacheContract (Stored c) (as_cache c)
  unfolding as_cache
  as_cache-CacheContract c h = record {
    get_found = λ k w b e. h.get_found _ w b (of_get-some _ b e);
    get_keeps = λ k w j b held. h.get_keeps _ w _ b held;
    set_keeps = λ k v ttl w j b held. elim (h.set_keeps _ v ttl w _ b held) [
      | inl (key, value) ↦ inl (build_key-injective c j k key, value)
      | inr before ↦ inr before
    ];
  }

  module _ (Matches : String → String → Type 0) (c : RedisCache W) where
    abbrev pub pattern : String
    pattern = c.key_prefix <> ":*"

    -- A prefix with none of the characters that a pattern gives a meaning to.
    abbrev pub IsLiteralPrefix : Type 0
    IsLiteralPrefix = (k : String) → Matches pattern (build_key c k)

    -- The keys that are not of this cache are kept, and those that are go.
    abbrev pub IsCleared : W → W → Type 0
    IsCleared w w' =
        ((k : String) (b : Bytes) → ¬ Stored c w' k b)
        × ((j : String) (b : Bytes) → ¬ Matches pattern j → Held w j b → Held w' j b)

    module _ (h : KeepsKeys Matches c.client) (literal : IsLiteralPrefix) where
      delete_found-IsCleared :
          (w : W) (found : Result (List String))
          → (c.client.scan pattern w).0 ≡ found
          → (delete_found c found w).0 ≡ ok tt
          → IsCleared w (delete_found c found w).1
      unfolding delete_found
      delete_found-IsCleared w (ok []) e done = (
        λ k b held. elim (h.scan_whole pattern w [] _ b e held (literal k)) [ ],
        λ j b other held. held,
      )
      delete_found-IsCleared w (ok (x ∷ ks)) e done = (
        λ k b held.
            h.del_removes (x ∷ ks) w _ b done held
              (h.scan_whole pattern w (x ∷ ks) _ b e (h.del_keeps (x ∷ ks) w _ b held) (literal k)),
        λ j b other held.
            h.del_spares (x ∷ ks) w j b
              (λ m. other (All-In (Matches pattern) (x ∷ ks) (h.scan_matches pattern w _ e) m))
              held,
      )
      delete_found-IsCleared w (err x) e done = cc

      -- Over a Redis that keeps what it documents of DEL and SCAN, and for a key prefix without a
      -- character that a pattern gives a meaning to, so that the cache's own pattern matches each of
      -- its keys: a `Clear` that reports no error leaves nothing in the cache, and takes away no entry
      -- whose key does not match the pattern.
      pub clear-IsCleared : (w : W) → (clear c w).0 ≡ ok tt → IsCleared w (clear c w).1
      unfolding clear
      clear-IsCleared w done =
          let idle = h.scan_idle pattern w in
          subst
            (λ v.
              (delete_found c (c.client.scan pattern w).0 v).0 ≡ ok tt
              → IsCleared w (delete_found c (c.client.scan pattern w).0 v).1)
            (sym idle) (delete_found-IsCleared w (c.client.scan pattern w).0 refl) done
