-- ===== src/Types/PoolFacts.antt =====
-- nimbusmesh_x/types.py: the state of a pool.
use nimbus_mesh_x.Base.{
  ◌≤◌, ◌<◌, ◌≡◌, refl, arith, ok, List, [], ◌∷◌, filter, length, All, All-filter, length-filter-le,
  ap, >>=-eq-ok,
}
use nimbus_mesh_x.Float.{Float, ◌≼◌, ◌≺◌, ◌<?◌, ◌⊖◌, ◌⊗◌, of_ℕ, max, minimum}
use nimbus_mesh_x.Float.Laws.{IsFloat, le_refl, le-max, max-le, minimum-le, nonneg_of_ℕ}
use nimbus_mesh_x.Types.{
  PoolRuntime, refresh, still_inflight, inflight_count, earliest_slot, queue_delay_ms,
  memory_headroom_gb,
}

module _ {F : Type 0} ⦃f : Float F⦄ (laws : IsFloat F) where
  open laws use {
    le_trans, le_total, minus_mono, minus_self, minus_zero, times_mono, times_nonneg, zero_times,
  }

  later_filter :
      (now later : F) (ms : List (F × F))
      → now ≼ later
      → still_inflight later (still_inflight now ms) ≡ still_inflight later ms
  later_filter now later [] h = refl
  later_filter now later (m ∷ ms) h =
      ground (arith, later_filter now later ms h, le_trans m.0 now later)

  -- To refresh a pool at one time and again at a later one is to refresh it at the later time
  -- alone.
  refresh-refresh :
      (now later : F) (p : PoolRuntime F)
      → now ≼ later
      → refresh later (refresh now p) ≡ refresh later p
  unfolding refresh
  refresh-refresh now later p h = rw (later_filter now later p.inflight_memory h)

  -- After a refresh exactly the requests that end later than `now` are in flight.
  pub inflight-refresh :
      (now : F) (p : PoolRuntime F) → All (λ m. now ≺ m.0) (refresh now p).inflight_memory
  unfolding refresh
  inflight-refresh now p = All-filter (λ m. now <? m.0) p.inflight_memory

  below_of_free :
      (now low : F) (xs : List F)
      → length (filter (λ ts. now <? ts) xs) < length xs
      → All (λ x. low ≼ x) xs
      → low ≼ now
  below_of_free now low [] h k = absurd (omega arith)
  below_of_free now low (x ∷ xs) h k = ground (arith, below_of_free now low xs, le_trans low x now)

  minimum_of_free :
      (now x : F) (xs : List F)
      → length (filter (λ ts. now <? ts) (x ∷ xs)) < length (x ∷ xs)
      → minimum x xs ≼ now
  minimum_of_free now x xs h = below_of_free now (minimum x xs) (x ∷ xs) h (minimum-le laws x xs)

  max_zero : (x now : F) → x ≼ now → max (of_ℕ 0) (x ⊖ now) ≡ of_ℕ 0
  unfolding max
  max_zero x now h = ground (
    arith,
    minus_mono x now now now h (le_refl laws now),
    minus_self now,
    le_trans (x ⊖ now) (now ⊖ now) (of_ℕ 0),
  )

  queue_delay_zero_of_slots :
      (now : F) (p : PoolRuntime F) (slots : List F)
      → p.slot_available_at ≡ slots
      → length (filter (λ ts. now <? ts) slots) < length slots
      → queue_delay_ms now p ≡ ok (of_ℕ 0)
  unfolding queue_delay_ms
  queue_delay_zero_of_slots now p [] e h = absurd (omega arith)
  queue_delay_zero_of_slots now p (x ∷ xs) e h =
      rw (e, max_zero (minimum x xs) now (minimum_of_free now x xs h))
        (ap ok (zero_times (of_ℕ 1000) (nonneg_of_ℕ laws 1000)))

  -- While fewer slots are busy than the pool has, its queue delay is zero.
  pub queue_delay_zero :
      (now : F) (p : PoolRuntime F)
      → inflight_count now p < length p.slot_available_at
      → queue_delay_ms now p ≡ ok (of_ℕ 0)
  unfolding inflight_count
  queue_delay_zero now p h = queue_delay_zero_of_slots now p p.slot_available_at refl h

  queue_delay_nonneg : (now d : F) (p : PoolRuntime F) → queue_delay_ms now p ≡ ok d → of_ℕ 0 ≼ d
  unfolding queue_delay_ms
  queue_delay_nonneg now d p h =
      let (earliest, _, e) =
        >>=-eq-ok (earliest_slot p.slot_available_at)
          (λ earliest. ok (max (of_ℕ 0) (earliest ⊖ now) ⊗ of_ℕ 1000)) h in
      let same : max (of_ℕ 0) (earliest ⊖ now) ⊗ of_ℕ 1000 ≡ d = cc in
      rw (← same)
        (times_nonneg _ _ (le-max laws (of_ℕ 0) (earliest ⊖ now)).0 (nonneg_of_ℕ laws 1000))

  -- The headroom of a pool is not negative and not more than its memory, if its memory, its active
  -- memory and its cache reservation are not negative.
  pub memory_headroom_bounds :
      (p : PoolRuntime F)
      → of_ℕ 0 ≼ p.memory_gb
      → of_ℕ 0 ≼ p.active_memory_gb
      → of_ℕ 0 ≼ p.cache_reserved_gb
      → (of_ℕ 0 ≼ memory_headroom_gb p) × (memory_headroom_gb p ≼ p.memory_gb)
  unfolding memory_headroom_gb
  memory_headroom_bounds p m a c =
      let low = (le-max laws (of_ℕ 0) (p.memory_gb ⊖ p.active_memory_gb ⊖ p.cache_reserved_gb)).0 in
      (
        low,
        max-le laws _ _ _ m (
            le_trans _ (p.memory_gb ⊖ of_ℕ 0 ⊖ of_ℕ 0) _
              (minus_mono _ _ _ _ (minus_mono _ _ _ _ (le_refl laws p.memory_gb) a) c)
              (le_trans _ (p.memory_gb ⊖ of_ℕ 0) _ (minus_zero _).0 (minus_zero _).0)),
      )

-- A pool never counts more requests in flight than it has slots.
pub inflight_count-le :
    {F : Type 0} ⦃f : Float F⦄ (now : F) (p : PoolRuntime F)
    → inflight_count now p ≤ length p.slot_available_at
unfolding inflight_count
inflight_count-le now p = length-filter-le (λ ts. now <? ts) p.slot_available_at
