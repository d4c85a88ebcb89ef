-- ===== src/Pipeline/Limited.antt =====
-- data_pipeline/normalizers.py: how many rows a normalizer makes.
use nimbus_mesh_x.Base.{
  ℕ, suc, ◌+◌, ◌≤◌, ◌≡◌, inl, inr, arith, leb, String, string_eq, Bool-cases, List, [], ◌∷◌, length,
  Option, some, none, Result, ok, ◌>>=◌, >>=-eq-ok, Yields, >>=-Yields, >>=-Yields_any, Yields-ok,
}
use nimbus_mesh_x.Base.Int.{ℤ}
use nimbus_mesh_x.Float.{Float}
use nimbus_mesh_x.Json.{Value, Formats}
use nimbus_mesh_x.Pipeline.{
  NormalizedWorkloadRow, is_full, collect, Normalizer, Dataset, records_in, normalize,
}

module _ {F : Type 0} where
  collect-length-le :
      (body : ℕ → Value F → Result (Option (NormalizedWorkloadRow F))) (limit index kept : ℕ)
      (records : List (Value F))
      → kept ≤ limit
      → Yields (λ rows. kept + length rows ≤ limit) (collect body (some limit) index kept records)
  unfolding collect is_full
  collect-length-le body limit index kept [] h =
      Yields-ok (λ rows. kept + length rows ≤ limit) [] (omega arith)
  collect-length-le body limit index kept (v ∷ vs) h = elim (Bool-cases (leb limit kept)) [
    | inl full ↦ rw full (Yields-ok (λ rows. kept + length rows ≤ limit) [] (omega arith))
    | inr room ↦ rw room (
        >>=-Yields_any (λ rows. kept + length rows ≤ limit) (body index v) _
          (λ o.
            elim o
              as (λ o.
                Yields {V = List (NormalizedWorkloadRow F)} (λ rows. kept + length rows ≤ limit)
                  (elim o [
                    | none ↦ collect body (some limit) (suc index) kept vs
                    | some row ↦ collect body (some limit) (suc index) (suc kept) vs >>= λ rows.
                        ok (row ∷ rows)
                  ])) [
                    | none ↦ collect-length-le body limit (suc index) kept vs h
                    | some row ↦
                        >>=-Yields (λ rows. suc kept + length rows ≤ limit)
                          (λ rows. kept + length rows ≤ limit) _ _
                          (collect-length-le body limit (suc index) (suc kept) vs (ground arith))
                          (λ rows l.
                            Yields-ok (λ rows. kept + length rows ≤ limit) (row ∷ rows)
                              (omega arith))
                  ]))
  ]

module _ {F : Type 0} ⦃f : Float F⦄ (formats : Formats F) (hash : Value F → Result ℤ) where
  -- A normalizer that is given a limit makes no more rows than the limit.
  length-normalize-le :
      (normalizer : Normalizer) (dataset : Dataset F) (limit : ℕ) (default_model : String)
      (rows : List (NormalizedWorkloadRow F))
      → normalize formats hash normalizer dataset (some limit) default_model ≡ ok rows
      → length rows ≤ limit
  unfolding normalize
  length-normalize-le normalizer dataset limit default_model rows h =
      let (records, _, made) = >>=-eq-ok (records_in dataset) _ h in
      let bound = (collect-length-le _ limit 0 0 records (omega arith)).holds rows made in
      omega arith
