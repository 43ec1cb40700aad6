-- ===== src/Cache/Local.antt =====
-- `LocalCache` of src/cache/localcache.ts, on the package node-cache: the record `NodeCache` has the calls
-- that are used, and what the package documents of them between two instants at which an entry expires.
use lydia_bg_back.Prelude.{
  ℕ, zero, suc, Text, List, [], ◌∷◌, ◌++◌, Bool, true, false, ◌≡◌, Option, none, some, filter,
  is_empty, contains, starts_with, ◌==◌, if◌then◌else◌,
}

abbrev pub is_some : {V : Type 0} → Option V → Bool
is_some none = false
is_some (some v) = true

-- A store of type `S`; `set` takes a time to live, and `del` gives the number of deleted keys.
pub record NodeCache (V S : Type 0) : Type 0 where
  pub fetch : Text → S → Option V
  pub put : Text → V → ℕ → S → S
  pub has : Text → S → Bool
  pub del : List Text → S → ℕ × S
  pub keys : S → List Text
  pub fetch_put :
      (k j : Text) (v : V) (ttl : ℕ) (s : S)
      → fetch j (put k v ttl s) ≡ (if k == j then some v else fetch j s)
  pub fetch_del :
      (ks : List Text) (j : Text) (s : S)
      → fetch j (del ks s).1 ≡ (if contains j ks then none else fetch j s)
  pub contains_keys : (j : Text) (s : S) → contains j (keys s) ≡ is_some (fetch j s)

-- `${this.module}:${key}`
abbrev pub build_key : Text → Text → Text
build_key module_name key = module_name ++ (58 ∷ key)

-- The beginning of the keys that `keys` and `deleteAll` look for.
abbrev pub key_filter : Text → Option Text → Text
key_filter module_name none = build_key module_name []
key_filter module_name (some criteria) =
    build_key module_name [] ++ (if is_empty criteria then [] else criteria ++ (58 ∷ []))

module _ {V S : Type 0} (cache : NodeCache V S) (default_ttl : ℕ) (module_name : Text) where
  abbrev pub get_value : Text → S → Option V
  get_value key s = cache.fetch (build_key module_name key) s

  -- `ttl || this.conf.TTL`
  unfoldable pub set_value : Text → V → ℕ → S → S
  set_value key v zero s = cache.put (build_key module_name key) v default_ttl s
  set_value key v (suc n) s = cache.put (build_key module_name key) v (suc n) s

  abbrev pub has_value : Text → S → Bool
  has_value key s = cache.has (build_key module_name key) s

  unfoldable pub delete_value : Text → S → ℕ × S
  delete_value key s = cache.del (build_key module_name key ∷ []) s

  abbrev pub keys_of : Option Text → S → List Text
  keys_of criteria s = filter (λ k. starts_with k (key_filter module_name criteria)) (cache.keys s)

  unfoldable pub delete_all : Option Text → S → ℕ × S
  delete_all criteria s =
      if is_empty (keys_of criteria s) then (0, s) else cache.del (keys_of criteria s) s

-- The calls that change the store.
pub data Call (V : Type 0) : Type 0 where
  sets : Text → V → ℕ → Call V
  deletes : Text → Call V
  deletes_all : Option Text → Call V

module _ {V S : Type 0} (cache : NodeCache V S) (default_ttl : ℕ) where
  unfoldable pub perform : Text → Call V → S → S
  unfolding set_value delete_value delete_all
  perform module_name (sets key v ttl) s = set_value cache default_ttl module_name key v ttl s
  perform module_name (deletes key) s = (delete_value cache default_ttl module_name key s).1
  perform module_name (deletes_all criteria) s =
      (delete_all cache default_ttl module_name criteria s).1

  -- Calls of any modules, one after the other.
  unfoldable pub perform_all : List (Text × Call V) → S → S
  unfolding perform
  perform_all [] s = s
  perform_all ((name, call) ∷ calls) s = perform_all calls (perform name call s)
