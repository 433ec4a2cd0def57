-- ===== src/Reorganiser/Buffer.antt =====
-- The vertex buffer after splitLargeMesh of
-- bouncer/src/repo/manipulator/modelutility/repo_mesh_map_reorganiser.cpp: the vertices of the large mesh are
-- replaced in their place.
use drepobouncer.Prelude.{
  ℕ, ◌+◌, ◌-◌, ◌<◌, ◌≡◌, refl, sym, ap, ◌∙◌, List, ◌++◌, ltb, length, take, drop, replicate,
  length-append, take-prefix, drop-prefix, take-drop, length-take, length-replicate, append_assoc,
  arith, Bool-cases, inl, inr,
}
use drepobouncer.Reorganiser.{Env}
use drepobouncer.Reorganiser.Large.{erase_at, insert_at, copy_to, resize_region}

module _ {V B : Type 0} (env : Env V B) where
  copy_to-place :
      (done region ws rest : List V) (from : ℕ)
      → length done ≡ from
      → length region ≡ length ws
      → copy_to env from ws (done ++ (region ++ rest)) ≡ done ++ (ws ++ rest)
  copy_to-place done region ws rest from e same =
      let begins = take-prefix from done (region ++ rest) e in
      let both : length (done ++ region) ≡ from + length ws =
        omega (arith, length-append done region) in
      let ends = drop-prefix (from + length ws) (done ++ region) rest both in
      let ends' : drop (from + length ws) (done ++ (region ++ rest)) ≡ rest =
        ap (drop (from + length ws)) (sym (append_assoc done region rest)) ∙ ends in
      rw (begins, ends') refl

  -- A buffer with room for `total` vertices behind `done`.
  record Room (done rest : List V) (total : ℕ) (vs : List V) : Type 0 where
    region : List V
    long : length region ≡ total
    whole : vs ≡ done ++ (region ++ rest)

  erase_at-Room :
      (done region rest : List V) (from total n : ℕ)
      → length done ≡ from
      → length region ≡ n
      → total < n
      → Room done rest total (erase_at env (from + total) (n - total) (done ++ (region ++ rest)))
  erase_at-Room done region rest from total n e long less =
      let kept = take total region in
      let kept_long : length kept ≡ total = length-take total region (omega arith) in
      let split : done ++ (region ++ rest) ≡ (done ++ kept) ++ (drop total region ++ rest) = sym (
        append_assoc done kept (drop total region ++ rest)
        ∙ ap (◌++◌ done) (
            sym (append_assoc kept (drop total region) rest)
            ∙ ap (λ vs. vs ++ rest) (take-drop total region))) in
      let upto : take (from + total) (done ++ (region ++ rest)) ≡ done ++ kept =
        ap (take (from + total)) split
        ∙ take-prefix (from + total) (done ++ kept) (drop total region ++ rest)
            (omega (arith, length-append done kept)) in
      let beyond : drop ((from + total) + (n - total)) (done ++ (region ++ rest)) ≡ rest =
        ap (drop ((from + total) + (n - total))) (sym (append_assoc done region rest))
        ∙ drop-prefix ((from + total) + (n - total)) (done ++ region) rest
            (omega (arith, length-append done region)) in
      record {
        region = kept;
        long = kept_long;
        whole = rw (upto, beyond) (append_assoc done kept rest);
      }

  insert_at-Room :
      (done region rest : List V) (from total n : ℕ)
      → length done ≡ from
      → length region ≡ n
      → n < total
      → Room done rest total (insert_at env from (total - n) (done ++ (region ++ rest)))
  insert_at-Room done region rest from total n e long less =
      let begins = take-prefix from done (region ++ rest) e in
      let ends = drop-prefix from done (region ++ rest) e in
      let blanks = length-replicate (total - n) env.blank in
      record {
        region = replicate (total - n) env.blank ++ region;
        long = omega (arith, blanks, length-append (replicate (total - n) env.blank) region);
        whole = rw (begins, ends, append_assoc (replicate (total - n) env.blank) region rest) refl;
      }

  resize_region-Room :
      (done region rest : List V) (from total n last_end : ℕ)
      → length done ≡ from
      → length region ≡ n
      → last_end ≡ from + total
      → Room done rest total (resize_region env n total from last_end (done ++ (region ++ rest)))
  unfolding resize_region
  resize_region-Room done region rest from total n last_end e long e_end =
      elim (Bool-cases (ltb total n)) [
        | inl less ↦
            rw (resize_region, less, e_end)
              (erase_at-Room done region rest from total n e long (ground (arith, less)))
        | inr not_less ↦ elim (Bool-cases (ltb n total)) [
          | inl more ↦
              rw (resize_region, not_less, more)
                (insert_at-Room done region rest from total n e long (ground (arith, more)))
          | inr not_more ↦
              rw (resize_region, not_less, not_more)
                (record {
                  region = region;
                  long = ground (arith, not_less, not_more);
                  whole = refl;
                })
        ]
      ]

  -- The region of the large mesh becomes the vertices ws.
  pub copy_to-resize_region :
      (done region ws rest : List V) (from n last_end : ℕ)
      → length done ≡ from
      → length region ≡ n
      → last_end ≡ from + length ws
      → copy_to env from ws
          (resize_region env n (length ws) from last_end (done ++ (region ++ rest)))
        ≡ done ++ (ws ++ rest)
  copy_to-resize_region done region ws rest from n last_end e long e_end =
      let r = resize_region-Room done region rest from (length ws) n last_end e long e_end in
      rw r.whole (copy_to-place done r.region ws rest from e r.long)
