-- ===== src/Risk/Sizing/Cache.antt =====
-- The caches of `PipResolver` in src/risk/position_sizing.py.
use forex_ea.Prelude.{◌≡◌, Option, none, some, List, [], ◌∷◌, String, arith, inl, inr, Option-cases}
use forex_ea.Table.{lookup, upsert, string_eq, lookup-upsert, lookup-upsert_self}
use forex_ea.Float.{Float}
use forex_ea.Risk.Sizing.{
  SymbolInfo, PipResolver, resolver_pip_size, resolver_pip_value, Query, asks_size, asks_value,
  after_queries,
}

module _ {F : Type 0} ⦃f : Float F⦄ where
  -- Each cached size stays: the other resolver has every entry of the first.
  IsKept : PipResolver F → PipResolver F → Type 0
  IsKept r r' =
      (s : String) (size : F)
      → lookup s r.size_cache ≡ some size
      → lookup s r'.size_cache ≡ some size

  upsert-IsKept :
      (r : PipResolver F) (symbol : String) (size : F)
      → lookup symbol r.size_cache ≡ none
      → IsKept r (record r { size_cache = upsert symbol size r.size_cache })
  unfolding IsKept
  upsert-IsKept r symbol size miss = λ s old e.
      ground (arith, lookup-upsert symbol s size r.size_cache, string_eq.beq_iff symbol s)

  resolver_pip_size-IsKept :
      (info : String → Option (SymbolInfo F)) (symbol : String) (r : PipResolver F)
      → IsKept r (resolver_pip_size info symbol r).1
  unfolding resolver_pip_size IsKept
  resolver_pip_size-IsKept info symbol r = λ s old e.
      elim (Option-cases (lookup symbol r.size_cache)) [
        | inl miss ↦ rw miss (unfold IsKept in upsert-IsKept r symbol _ miss s old e)
        | inr (size, hit) ↦ rw hit e
      ]

  resolver_pip_value-IsKept :
      (info : String → Option (SymbolInfo F)) (symbol : String) (lots : F) (r : PipResolver F)
      → IsKept r (resolver_pip_value info symbol lots r).1
  unfolding resolver_pip_value IsKept
  resolver_pip_value-IsKept info symbol lots r = λ s old e.
      elim (Option-cases (lookup symbol r.value_cache)) [
        | inl miss ↦ rw miss e
        | inr (per_lot, hit) ↦ rw hit e
      ]

  after_queries-IsKept : (qs : List (Query F)) (r : PipResolver F) → IsKept r (after_queries qs r)
  unfolding after_queries IsKept
  after_queries-IsKept [] r = λ s size e. e
  after_queries-IsKept (asks_size info symbol ∷ qs) r =
      λ s size e. after_queries-IsKept qs _ s size (resolver_pip_size-IsKept info symbol r s size e)
  after_queries-IsKept (asks_value info symbol lots ∷ qs) r = λ s size e.
      after_queries-IsKept qs _ s size (resolver_pip_value-IsKept info symbol lots r s size e)

  cached_after :
      (info : String → Option (SymbolInfo F)) (symbol : String) (r : PipResolver F)
      → let (size, r') = resolver_pip_size info symbol r in lookup symbol r'.size_cache ≡ some size
  unfolding resolver_pip_size
  cached_after info symbol r = elim (Option-cases (lookup symbol r.size_cache)) [
    | inl miss ↦ rw miss (lookup-upsert_self symbol _ r.size_cache)
    | inr (size, hit) ↦ rw hit hit
  ]

  hit_returns :
      (info : String → Option (SymbolInfo F)) (symbol : String) (r : PipResolver F) (size : F)
      → lookup symbol r.size_cache ≡ some size
      → resolver_pip_size info symbol r ≡ (size, r)
  unfolding resolver_pip_size
  hit_returns info symbol r size hit = rw hit

  -- The pip size of a symbol never changes after its first query: after any run of queries, whatever
  -- the terminal answers meanwhile and now, the resolver returns the same size and keeps its caches.
  pip_size_stable :
      (info later : String → Option (SymbolInfo F)) (symbol : String) (qs : List (Query F))
      (r : PipResolver F)
      → let (size, r₁) = resolver_pip_size info symbol r in
        let r₂ = after_queries qs r₁ in resolver_pip_size later symbol r₂ ≡ (size, r₂)
  unfolding IsKept
  pip_size_stable info later symbol qs r =
      let (size, r₁) = resolver_pip_size info symbol r in
      hit_returns later symbol (after_queries qs r₁) size
        (after_queries-IsKept qs r₁ symbol size (cached_after info symbol r))
