-- ===== src/IsoProvider/Levels.antt =====
-- The expansion of images inside images ends with the levels that it is given.
use offline_media_catalog.Base.{
  ℕ, zero, suc, ◌+◌, ◌≤◌, ◌<◌, ◌≡◌, refl, ap, ◌∙◌, Bool, true, false, List, Option, none, some, ltb,
  arith,
}
use offline_media_catalog.Types.{ℤ, pos, Result, ok, err, ContainerOptions}
use offline_media_catalog.Catalog.Records.{insert_container}
use offline_media_catalog.Iso9660.{IsoEntry}
use offline_media_catalog.Iso9660.Volume.{Outcome}
use offline_media_catalog.IsoProvider.{negsuc, RrRelocation}
use offline_media_catalog.IsoProvider.Agree.{if_same, walk_iso_directory-Same}
use offline_media_catalog.IsoProvider.Formats.{
  Expander, ProviderEnvironment, after_udf, at_least_one, image_of, iso_environment, opens_iso,
  scan_formats, scan_iso9660, scan_tree, scan_udf, start_walk, udf_environment, walk_iso_root,
  walk_udf_root,
}
use offline_media_catalog.IsoProvider.Scan.{disk_of, expand_nested, if_registered, scan_opened}
use offline_media_catalog.IsoProvider.UdfAgree.{walk_udf_directory-Same}
use offline_media_catalog.Joliet.{JolietVolume, open_joliet}
use offline_media_catalog.Scanner.Files.{iso_container}
use offline_media_catalog.Udf.{Disk, UdfEntry, UdfParser}
use offline_media_catalog.Udf.Root.{read_root_directory}
use offline_media_catalog.Udf.Volume.{open_udf}

abbrev Agree : {S : Type 0} → Expander S → Expander S → ContainerOptions → Type 0
Agree {S} x y options =
    ltb (at_least_one options.current_depth) (at_least_one options.max_depth) ≡ true
    → (content : List ℕ) (id : ℤ) (s : S)
    → x content id (suc (at_least_one options.current_depth)) s
      ≡ y content id (suc (at_least_one options.current_depth)) s

module _ {S : Type 0} (env : ProviderEnvironment S) where
  module _ (x y : Expander S) (disk : Disk) (source_id container_id : ℤ)
      (options : ContainerOptions) (agree : Agree x y options) where
    walk_udf_root-Same :
        (root : Option (List UdfEntry) × UdfParser) (s : S)
        → walk_udf_root env x disk source_id container_id options root s
          ≡ walk_udf_root env y disk source_id container_id options root s
    unfolding walk_udf_root
    walk_udf_root-Same (none, parser) s = refl
    walk_udf_root-Same (some entries, parser) s =
        ap (λ w. (true, w.store))
          (walk_udf_directory-Same
            (udf_environment env x disk parser source_id container_id options) y agree entries
            container_id 1 (start_walk (env.clock container_id) options s))

    scan_udf-Same :
        (s : S)
        → scan_udf env x disk source_id container_id options s
          ≡ scan_udf env y disk source_id container_id options s
    unfolding scan_udf
    scan_udf-Same s =
        let root = read_root_directory disk (open_udf disk).1 in
        if_same (open_udf disk).0 (walk_udf_root env x disk source_id container_id options root s)
          (false, s) (walk_udf_root env y disk source_id container_id options root s) (false, s)
          (λ h. walk_udf_root-Same root s) (λ h. refl)

    walk_iso_root-Same :
        (reader : ℕ → ℕ → Outcome) (rr : List IsoEntry → RrRelocation)
        (root : Option (List IsoEntry)) (s : S)
        → walk_iso_root env x disk reader rr source_id container_id options root s
          ≡ walk_iso_root env y disk reader rr source_id container_id options root s
    unfolding walk_iso_root
    walk_iso_root-Same reader rr none s = refl
    walk_iso_root-Same reader rr (some entries) s =
        ap (λ w. (true, w.store))
          (walk_iso_directory-Same
            (iso_environment env x disk reader (rr entries) source_id container_id options) y agree
            entries container_id 1 (start_walk (env.clock container_id) options s))

    scan_tree-Same :
        (joliet : Option JolietVolume) (s : S)
        → scan_tree env x disk joliet source_id container_id options s
          ≡ scan_tree env y disk joliet source_id container_id options s
    unfolding scan_tree
    scan_tree-Same (some volume) s = walk_iso_root-Same _ _ _ s
    scan_tree-Same none s =
        if_same (opens_iso disk) _ (false, s) _ (false, s) (λ h. walk_iso_root-Same _ _ _ s)
          (λ h. refl)

    after_udf-Same :
        (r : Bool × S)
        → after_udf env x disk source_id container_id options r
          ≡ after_udf env y disk source_id container_id options r
    unfolding after_udf scan_iso9660
    after_udf-Same (true, s) = refl
    after_udf-Same (false, s) =
        if_same (opens_iso disk) (scan_iso9660 env x disk source_id container_id options s)
          (false, s) (scan_iso9660 env y disk source_id container_id options s) (false, s)
          (λ h. scan_tree-Same (open_joliet (image_of disk)) s) (λ h. refl)

    scan_formats-Same :
        (s : S)
        → scan_formats env x disk source_id container_id options s
          ≡ scan_formats env y disk source_id container_id options s
    unfolding scan_formats
    scan_formats-Same s =
        ap (after_udf env x disk source_id container_id options) (scan_udf-Same s)
        ∙ after_udf-Same (scan_udf env y disk source_id container_id options s)

  if_registered-Same :
      (r : Result ℤ × S) (next next' : S → S)
      → ((s : S) → next s ≡ next' s)
      → if_registered r next ≡ if_registered r next'
  unfolding if_registered
  if_registered-Same (ok id, s) next next' k = k s
  if_registered-Same (err x, s) next next' k = refl

  expand_nested-Same :
      (f g : ℕ) (source_id : ℤ) (options : ContainerOptions) (content : List ℕ) (id : ℤ) (depth : ℕ)
      (s : S)
      → suc depth ≤ at_least_one options.max_depth
      → at_least_one options.max_depth < f + suc depth
      → at_least_one options.max_depth < g + suc depth
      → expand_nested env f source_id options content id (suc depth) s
        ≡ expand_nested env g source_id options content id (suc depth) s
  unfolding expand_nested
  expand_nested-Same zero g source_id options content id depth s b h k =
      absurd (omega (arith, b, h))
  expand_nested-Same (suc f) zero source_id options content id depth s b h k =
      absurd (omega (arith, b, k))
  expand_nested-Same (suc f) (suc g) source_id options content id depth s b h k =
      let nopt : ContainerOptions = record options { current_depth = pos (suc depth) } in
      if_registered-Same (insert_container env.db (iso_container id) s) _ _ (λ s1.
        ap (λ r. r.1)
          (scan_formats-Same (expand_nested env f source_id nopt)
            (expand_nested env g source_id nopt) (disk_of env content) source_id id nopt
            (λ below content' id' s'.
              expand_nested-Same f g source_id nopt content' id' (suc depth) s'
                (ground (arith, below)) (omega (arith, h)) (omega (arith, k)))
            s1))

  positive : (n : ℤ) → 1 ≤ at_least_one n
  positive (pos zero) = omega arith
  positive (pos (suc n)) = omega arith
  positive (negsuc n) = omega arith

  -- Images inside images need no more levels than the greatest depth, which the provider gives: with
  -- more of them a scan of an open file has the same result and leaves the same database.
  pub scan_opened-enough_levels :
      (disk : Disk) (source_id container_id : ℤ) (options : ContainerOptions) (s : S) (levels : ℕ)
      → at_least_one options.max_depth ≤ levels
      → scan_formats env
          (expand_nested env levels source_id options)
          disk
          source_id
          container_id
          options
          s
        ≡ scan_opened env (some disk) source_id container_id options s
  unfolding scan_opened
  scan_opened-enough_levels disk source_id container_id options s levels enough =
      let most = at_least_one options.max_depth in
      scan_formats-Same (expand_nested env levels source_id options)
        (expand_nested env most source_id options) disk source_id container_id options
        (λ below content id s'.
          expand_nested-Same levels most source_id options content id
            (at_least_one options.current_depth) s' (ground (arith, below))
            (omega (arith, enough, positive options.current_depth))
            (omega (arith, positive options.current_depth)))
        s
