-- ===== src/Cache/Tests.antt =====
-- Two modules on one store, kept as an association list.
use lydia_bg_back.Prelude.{
  ℕ, Text, codes, List, [], ◌∷◌, not, ◌≡◌, refl, ap, none, some, inl, inr, filter, map, length,
  contains, lookup, starts_with, ◌==◌, eq_iff, if◌then◌else◌, arith, Bool-cases,
}
use lydia_bg_back.Cache.Local.{is_some, NodeCache, get_value, Call, sets, deletes_all, perform_all}
use lydia_bg_back.Cache.Separate.{own_calls, perform_all-own_calls}

abbrev Store : Type 0
Store = List (Text × ℕ)

abbrev without : List Text → Store → Store
without ks s = filter (λ e. not (contains e.0 ks)) s

lookup-without :
    (ks : List Text) (j : Text) (s : Store)
    → lookup j (without ks s) ≡ (if contains j ks then none else lookup j s)
unfolding lookup
lookup-without ks j [] = ground arith
lookup-without ks j ((k, v) ∷ s) = elim (Bool-cases (k == j)) [
  | inl t ↦
      let same : contains k ks ≡ contains j ks = ap (λ z. contains z ks) ((eq_iff k j).0 t) in
      ground (arith, t, same, lookup-without ks j s)
  | inr t ↦ ground (arith, t, lookup-without ks j s)
]

contains-names : (j : Text) (s : Store) → contains j (map (λ e. e.0) s) ≡ is_some (lookup j s)
unfolding lookup contains
contains-names j [] = refl
contains-names j ((k, v) ∷ s) = ground (arith, contains-names j s)

lookup-put :
    (k j : Text) (v : ℕ) (s : Store)
    → lookup j ((k, v) ∷ s) ≡ (if k == j then some v else lookup j s)
unfolding lookup
lookup-put k j v s = refl

abbrev listed : NodeCache ℕ Store
listed = record {
  fetch = λ k s. lookup k s;
  put = λ k v ttl s. (k, v) ∷ s;
  has = λ k s. is_some (lookup k s);
  del = λ ks s. (length ks, without ks s);
  keys = λ s. map (λ e. e.0) s;
  fetch_put = λ k j v ttl s. lookup-put k j v s;
  fetch_del = lookup-without;
  contains_keys = contains-names;
}

abbrev calls : List (Text × Call ℕ)
calls =
    (codes "instance", sets (codes "a") 1 0)
    ∷ (codes "groups", sets (codes "a") 2 60)
    ∷ (codes "groups", sets (codes "x:b") 3 0)
    ∷ (codes "instance", deletes_all none)
    ∷ (codes "groups", deletes_all (some (codes "x")))
    ∷ []

perform_all-own_calls_example :
    get_value listed 0 (codes "groups") (codes "a") (perform_all listed 0 calls []) ≡ some 2
unfolding own_calls lookup ◌==◌ starts_with
perform_all-own_calls_example =
    perform_all-own_calls listed 0 (codes "groups") calls [] (codes "a")
      (refl, (refl, (refl, (refl, (refl, (refl, tt))))))
      (
        (refl, (refl, (refl, (refl, (refl, (refl, (refl, (refl, tt)))))))),
        (
          (refl, (refl, (refl, (refl, (refl, (refl, tt)))))),
          (
            (refl, (refl, (refl, (refl, (refl, (refl, tt)))))),
            (
              (refl, (refl, (refl, (refl, (refl, (refl, (refl, (refl, tt)))))))),
              ((refl, (refl, (refl, (refl, (refl, (refl, tt)))))), tt),
            ),
          ),
        ),
      )
