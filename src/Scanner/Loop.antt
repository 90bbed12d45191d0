-- ===== src/Scanner/Loop.antt =====
-- What the body of the loop over a directory keeps, the scan of the directory keeps.
use offline_media_catalog.Base.{◌≡◌, ◌⊎◌, inl, inr, refl, Bool-cases, ◌==◌}
use offline_media_catalog.Types.{ℤ, Error, ScanOptions}
use offline_media_catalog.Database.{Result-cases}
use offline_media_catalog.Scanner.{Environment, Scan, FileInfo, Listing, look, add_error}
use offline_media_catalog.Scanner.Directory.{Step, scan_item, scan_listing, scan_directory}

pub Step-cases :
    (step : Step)
    → (step ≡ Step.next)
      ⊎ ((e : Error) × (step ≡ Step.stop e))
      ⊎ ((id : ℤ) × (step ≡ Step.enter id))
Step-cases Step.next = inl refl
Step-cases (Step.stop e) = inr (inl (e, refl))
Step-cases (Step.enter id) = inr (inr (id, refl))

module _ {S : Type 0} (env : Environment S) (options : ScanOptions) (source_id : ℤ)
    (Q : Scan S → Type 0)
    (item : (parent_id : ℤ) (info : FileInfo) (st : Scan S)
      → Q st
      → Q (scan_item env options source_id parent_id info st).1)
    (looked : (st : Scan S) → Q st → Q (look env st).1)
    (failed : (st : Scan S) → Q st → Q (add_error st)) where
  pub scan_listing_keeps :
      (listing : Listing) (parent_id : ℤ) (st : Scan S)
      → Q st
      → Q (scan_listing env options source_id parent_id listing st).1
  unfolding scan_listing
  scan_listing_keeps Listing.end parent_id st p = p
  scan_listing_keeps (Listing.unreadable rest) parent_id st p =
      scan_listing_keeps rest parent_id (add_error st) (failed st p)
  scan_listing_keeps (Listing.entry info children rest) parent_id st p =
      let (step, st1) = scan_item env options source_id parent_id info st in
      let q = item parent_id info st p in
      let k = looked st1 q in
      elim (Step-cases step) [
        | inl e ↦ rw (scan_listing, e) (scan_listing_keeps rest parent_id st1 q)
        | inr (inl (x, e)) ↦ rw (scan_listing, e) q
        | inr (inr (id, e)) ↦ elim (Bool-cases (look env st1).0) [
          | inl c ↦ rw (scan_listing, e, c) k
          | inr c ↦
              (let (sub, st2) = scan_listing env options source_id id children (look env st1).1 in
                let m = scan_listing_keeps children id (look env st1).1 k in
                elim (Result-cases sub) [
                  | inl (a, r) ↦
                      rw (scan_listing, e, c, r) (scan_listing_keeps rest parent_id st2 m)
                  | inr (x, r) ↦ elim (Bool-cases (x.code == 0)) [
                    | inl z ↦ rw (scan_listing, e, c, r, z) m
                    | inr z ↦
                        rw (scan_listing, e, c, r, z)
                          (scan_listing_keeps rest parent_id (add_error st2) (failed st2 m))
                  ]
                ])
        ]
      ]

  pub scan_directory_keeps :
      (parent_id : ℤ) (listing : Listing) (st : Scan S)
      → Q st
      → Q (scan_directory env options source_id parent_id listing st).1
  unfolding scan_directory
  scan_directory_keeps parent_id listing st p = elim (Bool-cases (look env st).0) [
    | inl c ↦ rw (scan_directory, c) (looked st p)
    | inr c ↦
        rw (scan_directory, c) (scan_listing_keeps listing parent_id (look env st).1 (looked st p))
  ]
