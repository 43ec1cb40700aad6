-- ===== src/Cache/Separate.antt =====
-- What the shared store is to each module: a map of its own.
use lydia_bg_back.Prelude.{
  ℕ, zero, suc, Text, List, [], ◌∷◌, ◌++◌, Bool, true, false, ◌&&◌, ◌||◌, ◌≡◌, refl, ap, ◌∙◌,
  Option, none, some, inl, inr, filter, is_empty, nat_eq, nat_eq_iff, contains, starts_with, ◌==◌,
  eq_iff, All, if◌then◌else◌, arith, Bool-cases,
}
use mathlib.Core.Path.{fun_ext}
use mathlib.Core.List.{append-nil, append_assoc}
use lydia_bg_back.Cache.Local.{
  is_some, NodeCache, build_key, key_filter, get_value, set_value, delete_value, keys_of,
  delete_all, Call, sets, deletes, deletes_all, perform, perform_all,
}

-- A map of a module, and the calls on it.
abbrev pub in_group : Option Text → Text → Bool
in_group none key = true
in_group (some criteria) key = is_empty criteria || starts_with key (criteria ++ (58 ∷ []))

abbrev pub changed : {V : Type 0} → Call V → (Text → Option V) → Text → Option V
changed (sets k v ttl) values key = if k == key then some v else values key
changed (deletes k) values key = if k == key then none else values key
changed (deletes_all criteria) values key = if in_group criteria key then none else values key

-- The calls of one module, on its map.
unfoldable pub own_calls :
    {V : Type 0} → Text → List (Text × Call V) → (Text → Option V) → Text → Option V
own_calls name [] values = values
own_calls name ((other, call) ∷ calls) values =
    own_calls name calls (if other == name then changed call values else values)

-- A name without a colon.
abbrev pub IsName : Text → Type 0
IsName name = All (λ c. nat_eq c 58 ≡ false) name

build_key_eq :
    (m n a b : Text) → IsName m → IsName n → (build_key m a == build_key n b) ≡ (m == n && a == b)
unfolding ◌==◌
build_key_eq [] [] a b h k = refl
build_key_eq [] (y ∷ n) a b h k = ground (arith, k.0, nat_eq_iff y 58, nat_eq_iff 58 y)
build_key_eq (x ∷ m) [] a b h k = ground (arith, h.0)
build_key_eq (x ∷ m) (y ∷ n) a b h k = ground (arith, build_key_eq m n a b h.1 k.1)

starts_with-build_key :
    (m n a b : Text)
    → IsName m
    → IsName n
    → starts_with (build_key m a) (build_key n b) ≡ (n == m && starts_with a b)
unfolding ◌==◌ starts_with
starts_with-build_key [] [] a b h k = refl
starts_with-build_key [] (y ∷ n) a b h k = ground (arith, k.0, nat_eq_iff y 58, nat_eq_iff 58 y)
starts_with-build_key (x ∷ m) [] a b h k = ground (arith, h.0)
starts_with-build_key (x ∷ m) (y ∷ n) a b h k =
    ground (arith, starts_with-build_key m n a b h.1 k.1, nat_eq_iff x y, nat_eq_iff y x)

starts_with-key_filter :
    (m n a : Text) (criteria : Option Text)
    → IsName m
    → IsName n
    → starts_with (build_key m a) (key_filter n criteria) ≡ (n == m && in_group criteria a)
unfolding starts_with
starts_with-key_filter m n a none h k = starts_with-build_key m n a [] h k
starts_with-key_filter m n a (some criteria) h k = elim (Bool-cases (is_empty criteria)) [
  | inl t ↦ rw t (
      ap (starts_with (build_key m a)) (append-nil (build_key n []))
      ∙ starts_with-build_key m n a [] h k)
  | inr t ↦ rw t (
      ap (starts_with (build_key m a)) (append_assoc n (58 ∷ []) (criteria ++ (58 ∷ [])))
      ∙ starts_with-build_key m n a (criteria ++ (58 ∷ [])) h k)
]

contains-filter :
    (p : Text → Bool) (k : Text) (ks : List Text)
    → contains k (filter p ks) ≡ (p k && contains k ks)
unfolding contains
contains-filter p k [] = ground arith
contains-filter p k (x ∷ ks) = elim (Bool-cases (x == k)) [
  | inl t ↦
      let same : p x ≡ p k = ap p ((eq_iff x k).0 t) in
      ground (arith, t, same, contains-filter p k ks)
  | inr t ↦ ground (arith, t, contains-filter p k ks)
]

module _ {V S : Type 0} (cache : NodeCache V S) (default_ttl : ℕ) where
  -- The map of a module.
  abbrev pub values_of : Text → S → Text → Option V
  values_of name s key = get_value cache default_ttl name key s

  fetch-delete_all :
      (n : Text) (criteria : Option Text) (j : Text) (s : S)
      → cache.fetch j (delete_all cache default_ttl n criteria s).1
        ≡ (if contains j (keys_of cache default_ttl n criteria s) then none else cache.fetch j s)
  unfolding delete_all contains
  fetch-delete_all n criteria j s =
      elim (Bool-cases (is_empty (keys_of cache default_ttl n criteria s))) [
        | inl t ↦ rw t (none_left (keys_of cache default_ttl n criteria s) t)
        | inr t ↦ rw t (cache.fetch_del (keys_of cache default_ttl n criteria s) j s)
      ]
    where
      none_left :
          (ks : List Text)
          → is_empty ks ≡ true
          → cache.fetch j s ≡ (if contains j ks then none else cache.fetch j s)
      none_left [] h = refl
      none_left (k ∷ ks) h = cc

  values_of-perform :
      (m n : Text) (call : Call V) (s : S) (key : Text)
      → IsName m
      → IsName n
      → values_of m (perform cache default_ttl n call s) key
        ≡ (if n == m then changed call (values_of m s) key else values_of m s key)
  unfolding perform set_value delete_value contains
  values_of-perform m n (sets k v zero) s key h i =
      cache.fetch_put (build_key n k) (build_key m key) v default_ttl s
      ∙ rw (build_key_eq n m k key i h) (ground arith)
  values_of-perform m n (sets k v (suc ttl)) s key h i =
      cache.fetch_put (build_key n k) (build_key m key) v (suc ttl) s
      ∙ rw (build_key_eq n m k key i h) (ground arith)
  values_of-perform m n (deletes k) s key h i =
      cache.fetch_del (build_key n k ∷ []) (build_key m key) s
      ∙ rw (build_key_eq n m k key i h) (ground arith)
  values_of-perform m n (deletes_all criteria) s key h i =
      fetch-delete_all n criteria (build_key m key) s
      ∙ rw
          (
            contains-filter (λ k. starts_with k (key_filter n criteria)) (build_key m key)
                (cache.keys s),
            starts_with-key_filter m n key criteria h i,
            cache.contains_keys (build_key m key) s,
          )
          (group (n == m) (in_group criteria key) (cache.fetch (build_key m key) s))
    where
      group :
          (b c : Bool) (o : Option V)
          → (if (b && c) && is_some o then none else o) ≡ (if b then (if c then none else o) else o)
      group b c none = ground arith
      group b c (some v) = ground arith

  -- If no module's name has a colon, then to each module the shared store is a map of its own: after any
  -- calls of any modules, it finds at each key what its own calls alone make of its map, where
  -- `deleteAll` deletes all keys, or those with the criteria and a colon before them.
  pub perform_all-own_calls :
      (m : Text) (calls : List (Text × Call V)) (s : S) (key : Text)
      → IsName m
      → All (λ (c : Text × Call V). IsName c.0) calls
      → get_value cache default_ttl m key (perform_all cache default_ttl calls s)
        ≡ own_calls m calls (λ k. get_value cache default_ttl m k s) key
  unfolding perform_all own_calls
  perform_all-own_calls m [] s key h i = refl
  perform_all-own_calls m ((n, call) ∷ calls) s key h i =
      perform_all-own_calls m calls (perform cache default_ttl n call s) key h i.1
      ∙ elim (Bool-cases (n == m)) [
        | inl t ↦ rw t (
            ap (λ f. own_calls m calls f key)
              (fun_ext (λ k. values_of-perform m n call s k h i.0 ∙ rw t refl)))
        | inr t ↦ rw t (
            ap (λ f. own_calls m calls f key)
              (fun_ext (λ k. values_of-perform m n call s k h i.0 ∙ rw t refl)))
      ]
