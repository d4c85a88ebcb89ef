-- ===== src/Cache/Score.antt =====
-- cache_directory/directory.py: the result of `score`.
use Prim.Native.Nat.{min as least}
use nimbus_mesh_x.Base.{
  ℕ, ◌≤◌, ◌^◌, String, string_eq, true, false, ◌≡◌, refl, ap, arith, List, [], ◌∷◌, All, Elem,
  All_of_Elem, ◌⊎◌, ◌==◌, ◌∙◌, sym, subst, ok, ok-injective, >>=-eq-ok, >>=-eq_of_ok,
}
use nimbus_mesh_x.Float.{Float, ◌≼◌, ◌≺◌, ◌⊗◌, of_ℕ, decimal, round, trunc}
use nimbus_mesh_x.Float.Laws.{
  IsFloat, le_refl, le-max, min-le, le-min, decimal_nonneg, nonneg_of_ℕ, round_nonneg,
}
use nimbus_mesh_x.Types.{InferenceRequest}
use nimbus_mesh_x.Cache.{
  CacheEntry, Directory, stands_at, location_bonus, freshness, hit_ratio, better, best_entry,
  bucket_of, prepare, score,
}

module _ {F : Type 0} ⦃f : Float F⦄ (laws : IsFloat F) where
  open laws use {
    le_trans, le_total, times_mono, times_nonneg, times_one, decimal_mono, round_mono,
    round_decimal, trunc_mono, trunc_of_ℕ,
  }

  location_bonus_nonneg : (c p : String) (e : CacheEntry F) → of_ℕ 0 ≼ location_bonus c p e
  unfolding location_bonus
  location_bonus_nonneg c p e =
      ground (arith, decimal_nonneg laws 10 1, decimal_nonneg laws 7 1, decimal_nonneg laws 35 2)

  freshness_nonneg : (ttl now : F) (e : CacheEntry F) → of_ℕ 0 ≼ freshness ttl now e
  unfolding freshness
  freshness_nonneg ttl now e = le_trans _ _ _ (decimal_nonneg laws 1 1) (le-max laws _ _).0

  pub hit_ratio_bounds :
      (ttl now : F) (c p : String) (e : CacheEntry F)
      → (of_ℕ 0 ≼ hit_ratio ttl c p now e) × (hit_ratio ttl c p now e ≼ decimal 95 2)
  hit_ratio_bounds ttl now c p e =
      unfold hit_ratio in
      (
        le-min laws _ _ _ (decimal_nonneg laws 95 2)
            (times_nonneg _ _ (freshness_nonneg ttl now e) (location_bonus_nonneg c p e)),
        (min-le laws _ _).0,
      )

  saved-le :
      (size prompt : ℕ) (ratio : F)
      → of_ℕ 0 ≼ ratio
      → ratio ≼ decimal 95 2
      → prompt ≤ 2 ^ 53
      → trunc (of_ℕ (least size prompt) ⊗ ratio) ≤ prompt
  saved-le size prompt ratio low high small =
      let part : of_ℕ {F = F} (least size prompt) ≼ of_ℕ prompt =
        decimal_mono (least size prompt) 0 prompt 0 (omega arith) in
      let below : ratio ≼ of_ℕ 1 = le_trans _ _ _ high (decimal_mono 95 2 1 0 (omega arith)) in
      let product : of_ℕ (least size prompt) ⊗ ratio ≼ of_ℕ prompt =
        le_trans _ _ _ (times_mono _ _ _ _ (nonneg_of_ℕ laws _) part low below) (times_one _).0 in
      omega (arith, trunc_mono _ _ product, trunc_of_ℕ prompt small)

  module _ (ttl now : F) (request : InferenceRequest F) (c p : String) where
    abbrev InRange : F × ℕ → Type 0
    InRange best = (of_ℕ 0 ≼ best.0) × (best.0 ≼ decimal 95 2) × (best.1 ≤ request.prompt_tokens)

    better-InRange :
        (best next : F × ℕ) (e : CacheEntry F)
        → request.prompt_tokens ≤ 2 ^ 53
        → InRange best
        → better ttl request c p now best e ≡ ok next
        → InRange next
    unfolding better
    better-InRange best next e small h made =
        let (low, high) = hit_ratio_bounds ttl now c p e in
        let part =
          saved-le e.size_tokens request.prompt_tokens (hit_ratio ttl c p now e) low high small in
        ground arith

    best_entry-InRange :
        (bucket : List (CacheEntry F)) (best last : F × ℕ)
        → request.prompt_tokens ≤ 2 ^ 53
        → InRange best
        → best_entry ttl request c p now best bucket ≡ ok last
        → InRange last
    unfolding best_entry
    best_entry-InRange [] best last small h made = subst InRange (ok-injective best last made) h
    best_entry-InRange (e ∷ bucket) best last small h made =
        let (next, one, rest) = >>=-eq-ok (better ttl request c p now best e) _ made in
        best_entry-InRange bucket next last small (better-InRange best next e small h one) rest

    better-ge :
        (best next : F × ℕ) (e : CacheEntry F)
        → better ttl request c p now best e ≡ ok next
        → (best.0 ≼ next.0) × (e.available_ts ≼ now → hit_ratio ttl c p now e ≼ next.0)
    unfolding better
    better-ge best next e made = (
      ground (arith, le_refl laws best.0, le_total best.0 (hit_ratio ttl c p now e)),
      λ ready. ground (arith, le_refl laws (hit_ratio ttl c p now e)),
    )

    best_entry-ge :
        (bucket : List (CacheEntry F)) (best last : F × ℕ)
        → best_entry ttl request c p now best bucket ≡ ok last
        → (best.0 ≼ last.0)
          × All (λ e. e.available_ts ≼ now → hit_ratio ttl c p now e ≼ last.0) bucket
    unfolding best_entry
    best_entry-ge [] best last made = (
      subst (λ (b : F × ℕ). best.0 ≼ b.0) (ok-injective best last made) (le_refl laws best.0),
      tt,
    )
    best_entry-ge (e ∷ bucket) best last made =
        let (next, one, later) = >>=-eq-ok (better ttl request c p now best e) _ made in
        let (rises, here) = better-ge best next e one in
        let (above, rest) = best_entry-ge bucket next last later in
        (le_trans _ _ _ rises above, ((λ ready. le_trans _ _ _ (here ready) above), rest))

    best_entry_pending :
        (bucket : List (CacheEntry F)) (best : F × ℕ)
        → All (λ e. now ≺ e.available_ts) bucket
        → best_entry ttl request c p now best bucket ≡ ok best
    unfolding best_entry better
    best_entry_pending [] best h = refl
    best_entry_pending (e ∷ bucket) best h = rw h.0 (best_entry_pending bucket best h.1)

  -- What a score that does not raise consists of.
  score-eq-ok :
      (now : F) (request : InferenceRequest F) (c p : String) (d : Directory F)
      (result : (F × ℕ) × Directory F)
      → score request c p now d ≡ ok result
      → let ready = prepare request now d in
        (best : F × ℕ) × (best_entry ready.ttl_s request c p now
            (of_ℕ 0, 0)
            (bucket_of request ready)
          ≡ ok best)
        × (result.0.0 ≡ round best.0 4)
        × (result.0.1 ≡ best.1)
  unfolding score
  score-eq-ok now request c p d result h =
      let ready = prepare request now d in
      let (best, made, e) =
        >>=-eq-ok (best_entry ready.ttl_s request c p now (of_ℕ 0, 0) (bucket_of request ready)) _
          h in
      let same = ok-injective _ result e in
      (best, made, ap (λ r. r.0.0) (sym same), ap (λ r. r.0.1) (sym same))

  -- For a prompt of at most 2 ^ 53 tokens the hit ratio that `score` returns, if it does not
  -- raise, lies between 0 and 0.95, and no more tokens are saved than the prompt has.
  pub score_bounds :
      (now : F) (request : InferenceRequest F) (c p : String) (d : Directory F)
      (result : (F × ℕ) × Directory F)
      → request.prompt_tokens ≤ 2 ^ 53
      → score request c p now d ≡ ok result
      → (of_ℕ 0 ≼ result.0.0) × (result.0.0 ≼ decimal 95 2) × (result.0.1 ≤ request.prompt_tokens)
  score_bounds now request c p d result small h =
      let ready = prepare request now d in
      let (best, made, ratio, saved) = score-eq-ok now request c p d result h in
      let (low, high, part) =
        best_entry-InRange ready.ttl_s now request c p (bucket_of request ready) (of_ℕ 0, 0) best
          small (le_refl laws _, decimal_nonneg laws 95 2, omega arith) made in
      (
        rw ratio (round_nonneg laws _ low),
        rw ratio (rw (← round_decimal 95 2 (omega arith)) (round_mono _ _ 4 high)),
        rw saved part,
      )

  -- `score`, if it does not raise, returns no less than the rounded hit ratio of any complete
  -- entry of the request's bucket.
  pub score-ge :
      (now : F) (request : InferenceRequest F) (c p : String) (d : Directory F) (e : CacheEntry F)
      (result : (F × ℕ) × Directory F)
      → Elem e (bucket_of request (prepare request now d))
      → e.available_ts ≼ now
      → score request c p now d ≡ ok result
      → round (hit_ratio (prepare request now d).ttl_s c p now e) 4 ≼ result.0.0
  score-ge now request c p d e result held complete h =
      let ready = prepare request now d in
      let (best, made, ratio, _) = score-eq-ok now request c p d result h in
      let (_, all) =
        best_entry-ge ready.ttl_s now request c p (bucket_of request ready) (of_ℕ 0, 0) best made in
      rw ratio (
        round_mono _ _ 4 (
          All_of_Elem (λ x. x.available_ts ≼ now → hit_ratio ready.ttl_s c p now x ≼ best.0) e _ all
            held complete))

  -- If no entry of the bucket is complete by `now`, then `score` does not raise, whatever `ttl_s`
  -- is, and returns no hit and nothing saved; it leaves the directory purged, with the bucket read
  -- back from Redis if there was none.
  pub score_pending :
      (now : F) (request : InferenceRequest F) (c p : String) (d : Directory F)
      → All (λ e. now ≺ e.available_ts) (bucket_of request (prepare request now d))
      → score request c p now d ≡ ok ((of_ℕ 0, 0), prepare request now d)
  unfolding score
  score_pending now request c p d pending =
      let ready = prepare request now d in
      >>=-eq_of_ok _ _ (
        best_entry_pending ready.ttl_s now request c p (bucket_of request ready) (of_ℕ 0, 0)
          pending)
      ∙ ap (λ x. ok ((x, 0), ready)) (round_decimal 0 0 (omega arith))

  location_bonus_order :
      (c p : String) (near far : CacheEntry F)
      → (stands_at c p near ≡ true) ⊎ ((near.cluster_id == c) ≡ true) × (stands_at c p far ≡ false)
      → location_bonus c p far ≼ location_bonus c p near
  unfolding location_bonus
  location_bonus_order c p near far h = ground (
    arith,
    decimal_mono 7 1 10 1 (omega arith),
    decimal_mono 35 2 10 1 (omega arith),
    decimal_mono 35 2 7 1 (omega arith),
    le_refl laws (decimal 10 1),
    le_refl laws (decimal 7 1),
  )

  -- Of two entries touched at the same time, one in the pool itself has no lower hit ratio than
  -- any other, and one in the cluster no lower ratio than any outside the pool.
  pub hit_ratio_local :
      (ttl now : F) (c p : String) (near far : CacheEntry F)
      → near.last_touched ≡ far.last_touched
      → (stands_at c p near ≡ true) ⊎ ((near.cluster_id == c) ≡ true) × (stands_at c p far ≡ false)
      → hit_ratio ttl c p now far ≼ hit_ratio ttl c p now near
  unfolding hit_ratio
  hit_ratio_local ttl now c p near far same h =
      let fresh : freshness ttl now far ≡ freshness ttl now near = unfold freshness in rw same in
      let product =
        times_mono _ _ _ _ (freshness_nonneg ttl now near) (le_refl laws (freshness ttl now near))
          (location_bonus_nonneg c p far) (location_bonus_order c p near far h) in
      let (cap, own) =
        min-le laws (decimal 95 2) (freshness ttl now near ⊗ location_bonus c p far) in
      rw fresh (le-min laws _ _ _ cap (le_trans _ _ _ own product))
