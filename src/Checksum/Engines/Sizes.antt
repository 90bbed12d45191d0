-- ===== src/Checksum/Engines/Sizes.antt =====
-- What the factory's engines promise of their digests.
use offline_media_catalog.Base.{
  if◌then◌else◌, ℕ, ◌≡◌, refl, sym, ap, ◌∙◌, List, Option, none, some, length, Bool-cases, arith,
  inl, inr, subst,
}
use offline_media_catalog.Base.Text.{bytes_of, same_text, same_text→eq}
use offline_media_catalog.Checksum.Crc32
use offline_media_catalog.Checksum.Sha256
use offline_media_catalog.Checksum.Md5
use offline_media_catalog.Checksum.Sha256.Laws.{compute_shape, compute_lem as sha256_compute_lem}
use offline_media_catalog.Checksum.Md5.Laws.{md5_compute_shape, compute_lem as md5_compute_lem}
use offline_media_catalog.Checksum.Engines.{
  ChecksumEngine, crc32_checksum, sha256_checksum, md5_checksum, name, digest_size, update_engine,
  finalize_engine, create_checksum_engine,
}

-- What holds of every engine that the factory returns.
abbrev Promise : List ℕ → List ℕ → ChecksumEngine → Type 0
Promise algorithm bytes e =
    (name e ≡ algorithm) × (length (finalize_engine (update_engine e bytes)) ≡ digest_size e)

sha256-Promise : (bytes : List ℕ) → Promise (bytes_of "sha256") bytes (sha256_checksum Sha256.reset)
unfolding name digest_size update_engine finalize_engine
sha256-Promise bytes = (refl, ap length (sym (sha256_compute_lem bytes)) ∙ (compute_shape bytes).1)

md5-Promise : (bytes : List ℕ) → Promise (bytes_of "md5") bytes (md5_checksum Md5.reset)
unfolding name digest_size update_engine finalize_engine
md5-Promise bytes = (refl, ap length (sym (md5_compute_lem bytes)) ∙ (md5_compute_shape bytes).1)

crc32-Promise : (bytes : List ℕ) → Promise (bytes_of "crc32") bytes (crc32_checksum Crc32.reset)
unfolding name digest_size update_engine finalize_engine
crc32-Promise bytes = (refl, unfold Crc32.finalize in refl)

created :
    {A : Type 0} (P : A → Type 0) (algorithm text : List ℕ) (a e : A) (rest : Option A)
    → (if same_text algorithm text then some a else rest) ≡ some e
    → (algorithm ≡ text → P a)
    → (rest ≡ some e → P e)
    → P e
created P algorithm text a e rest h found missing = elim (Bool-cases (same_text algorithm text)) [
  | inl t ↦
      let same : a ≡ e = ground (arith, t, h) in
      subst P same (found (same_text→eq algorithm text t))
  | inr t ↦ missing (ground (arith, t, h))
]

-- An engine that the factory returns has the name that was asked for, and its digest of any bytes has
-- the size that it announces.
pub create_checksum_engine-size :
    (algorithm bytes : List ℕ) (e : ChecksumEngine)
    → create_checksum_engine algorithm ≡ some e
    → (name e ≡ algorithm) × (length (finalize_engine (update_engine e bytes)) ≡ digest_size e)
unfolding create_checksum_engine
create_checksum_engine-size algorithm bytes e h =
    let P : ChecksumEngine → Type 0 = Promise algorithm bytes in
    created P algorithm (bytes_of "sha256") _ e _ h
      (λ q.
        subst (λ t. Promise t bytes (sha256_checksum Sha256.reset)) (sym q) (sha256-Promise bytes))
      (λ h2.
        created P algorithm (bytes_of "md5") _ e _ h2
          (λ q. subst (λ t. Promise t bytes (md5_checksum Md5.reset)) (sym q) (md5-Promise bytes))
          (λ h3.
            created P algorithm (bytes_of "crc32") _ e none h3
              (λ q.
                subst (λ t. Promise t bytes (crc32_checksum Crc32.reset)) (sym q)
                  (crc32-Promise bytes))
              (λ k. absurd (ground (arith, k)))))
