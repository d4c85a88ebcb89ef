-- ===== src/Cache/Facts.antt =====
-- cache_directory/directory.py: what eviction keeps.
use nimbus_mesh_x.Base.{
  String, string_eq, true, false, ◌≡◌, refl, arith, List, [], ◌∷◌, filter, All, is_nonempty,
  if◌then◌else◌, ◌≢◌, Bool-cases, inl, inr, eq_of_beq, ◌==◌, sym, ◌∙◌,
}
use nimbus_mesh_x.Base.Dict.{Dict, get_or, get_or-cons, get_or_absent, Distinct}
use nimbus_mesh_x.Float.{Float, ◌≼◌}
use nimbus_mesh_x.Float.Laws.{IsFloat, le_refl}
use nimbus_mesh_x.Cache.{CacheEntry, Directory, is_fresh, evict_buckets, evict_stale}

module _ {F : Type 0} ⦃f : Float F⦄ where
  evict_buckets-absent :
      (ttl now : F) (k : String) (es : Dict String (List (CacheEntry F)))
      → All (λ q. q.0 ≢ k) es
      → All (λ q. q.0 ≢ k) (evict_buckets ttl now es)
  unfolding evict_buckets
  evict_buckets-absent ttl now k [] h = tt
  evict_buckets-absent ttl now k ((j, b) ∷ es) h =
      elim (Bool-cases (is_nonempty (filter (is_fresh ttl now) b))) [
        | inl kept ↦ rw kept (h.0, evict_buckets-absent ttl now k es h.1)
        | inr gone ↦ rw gone (evict_buckets-absent ttl now k es h.1)
      ]

  pub evict_buckets-Distinct :
      (ttl now : F) (es : Dict String (List (CacheEntry F)))
      → Distinct es
      → Distinct (evict_buckets ttl now es)
  unfolding evict_buckets
  evict_buckets-Distinct ttl now [] h = tt
  evict_buckets-Distinct ttl now ((j, b) ∷ es) h =
      elim (Bool-cases (is_nonempty (filter (is_fresh ttl now) b))) [
        | inl kept ↦
            rw kept (evict_buckets-absent ttl now j es h.0, evict_buckets-Distinct ttl now es h.1)
        | inr gone ↦ rw gone (evict_buckets-Distinct ttl now es h.1)
      ]

  nil_of_empty : (b : List (CacheEntry F)) → is_nonempty b ≡ false → b ≡ []
  nil_of_empty [] h = refl
  nil_of_empty (e ∷ b) h = cc

  get_or-evict_buckets :
      (ttl now : F) (k : String) (es : Dict String (List (CacheEntry F)))
      → Distinct es
      → get_or k [] (evict_buckets ttl now es) ≡ filter (is_fresh ttl now) (get_or k [] es)
  unfolding evict_buckets
  get_or-evict_buckets ttl now k [] h = unfold get_or in refl
  get_or-evict_buckets ttl now k ((j, b) ∷ es) h =
      let rest = get_or-evict_buckets ttl now k es h.1 in
      elim (Bool-cases (is_nonempty (filter (is_fresh ttl now) b))) [
        | inl kept ↦ rw (kept, get_or-cons, get_or-cons) (get_or_same rest)
        | inr gone ↦ rw (gone, get_or-cons) (get_or_gone gone rest)
      ]
    where
      get_or_same :
          get_or k [] (evict_buckets ttl now es) ≡ filter (is_fresh ttl now) (get_or k [] es)
          → (if k == j then filter (is_fresh ttl now) b else get_or k [] (evict_buckets ttl now es))
            ≡ filter (is_fresh ttl now) (if k == j then b else get_or k [] es)
      get_or_same rest = ground arith

      get_or_gone :
          is_nonempty (filter (is_fresh ttl now) b) ≡ false
          → get_or k [] (evict_buckets ttl now es) ≡ filter (is_fresh ttl now) (get_or k [] es)
          → get_or k [] (evict_buckets ttl now es)
            ≡ filter (is_fresh ttl now) (if k == j then b else get_or k [] es)
      get_or_gone gone rest = elim (Bool-cases (k == j)) [
        | inl same ↦ rw same (
            get_or_absent k [] _ (evict_buckets-absent ttl now k es (rw (eq_of_beq k j same) h.0))
            ∙ sym (nil_of_empty _ gone))
        | inr other ↦ rw other rest
      ]

  -- In a directory where no key stands twice, eviction leaves of the bucket of a key exactly the
  -- entries that were touched within the last `ttl_s` seconds, in their order.
  pub bucket-evict_stale :
      (now : F) (d : Directory F) (k : String)
      → Distinct d.entries
      → get_or k [] (evict_stale now d).entries
        ≡ filter (is_fresh d.ttl_s now) (get_or k [] d.entries)
  unfolding evict_stale
  bucket-evict_stale now d k h = get_or-evict_buckets d.ttl_s now k d.entries h

  module _ (laws : IsFloat F) (ttl now later : F) (h : now ≼ later) where
    fresh_before : (e : CacheEntry F) → is_fresh ttl later e ≡ true → is_fresh ttl now e ≡ true
    fresh_before e fresh =
        laws.le_trans _ _ _
          (laws.minus_mono now later e.last_touched e.last_touched h (le_refl laws _)) fresh

    filter_later :
        (b : List (CacheEntry F))
        → filter (is_fresh ttl later) (filter (is_fresh ttl now) b) ≡ filter (is_fresh ttl later) b
    filter_later [] = refl
    filter_later (e ∷ b) = ground (arith, filter_later b, fresh_before e)

    evict_buckets_later :
        (es : Dict String (List (CacheEntry F)))
        → evict_buckets ttl later (evict_buckets ttl now es) ≡ evict_buckets ttl later es
    unfolding evict_buckets
    evict_buckets_later [] = refl
    evict_buckets_later ((j, b) ∷ es) =
        elim (Bool-cases (is_nonempty (filter (is_fresh ttl now) b))) [
          | inl kept ↦ rw kept (rw (filter_later b, evict_buckets_later es))
          | inr gone ↦ rw gone (rw (← filter_later b, nil_of_empty _ gone) (evict_buckets_later es))
        ]

  -- To evict at one time and again at a later one leaves what an eviction at the later time alone
  -- leaves.
  pub evict_stale-evict_stale :
      (laws : IsFloat F) (now later : F) (d : Directory F)
      → now ≼ later
      → evict_stale later (evict_stale now d) ≡ evict_stale later d
  unfolding evict_stale
  evict_stale-evict_stale laws now later d h =
      rw (evict_buckets_later laws d.ttl_s now later h d.entries)
