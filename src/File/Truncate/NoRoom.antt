-- ===== src/File/Truncate/NoRoom.antt =====
-- `_FAT_ftruncate_r` of a file that would need another cluster, on a volume that is full.
use libfat.Base.{
  ℕ, ◌-◌, ◌*◌, ◌/◌, ◌%◌, ◌^◌, ◌≤◌, ◌<◌, ◌≡◌, ◌≢◌, ◌⊎◌, inl, inr, true, false, some, arith, ltb, not,
  ◌==◌, refl, ap, ◌∙◌,
}
use libfat.Base.Lists.{List, [], ◌∷◌, last_of}
use libfat.Cache.Invariant.{Sectors}
use libfat.Store.{SectorStore, IsStore}
use libfat.Partition.State.{Partition, Volume}
use libfat.Fat.Entry.{cluster_first, cluster_eof, cluster_free, is_valid_cluster}
use libfat.Fat.Entry.Places.{mod_bounds, div_mod_unique}
use libfat.Fat.Table.{IsFat}
use libfat.Fat.Chain.{link_free_cluster, last_cluster}
use libfat.Fat.Chain.Clear.{IsFat-small}
use libfat.Fat.Chain.Shows.{Links, Shows}
use libfat.Fat.Chain.Chains.{IsChain}
use libfat.Fat.Chain.Link.{link_free_cluster_lem}
use libfat.Fat.Chain.Trim.{last_cluster_lem}
use libfat.File.State.{FileStruct, FilePosition, Errno, enospc, file_max_size}
use libfat.File.Seek.{pos}
use libfat.File.Extend.{Extending, new_cluster, extend_start, end_extend, file_extend_r}
use libfat.File.Truncate.{TruncateCall, expand_start, expand_to, expand, truncate_to, ftruncate_r}

-- The last cluster of a chain is one of the partition, and links to none.
last_of-ends :
    (last : ℕ) (links : Links) (c : ℕ) (xs : List ℕ)
    → IsChain last links c (c ∷ xs)
    → (last_of c xs ≤ last)
      × ((links (last_of c xs) ≡ cluster_eof) ⊎ (links (last_of c xs) ≡ cluster_free))
last_of-ends last links c [] (e, lo, hi, end) = (hi, end)
last_of-ends last links c (x ∷ xs) (e, lo, hi, (e', lo', hi', rest)) =
    last_of-ends last links x xs (refl, lo', hi', rest)

module _ (store : SectorStore) (p : Partition) where
  -- Where the file ends, when its end is at a border of clusters.
  abbrev at_border : ℕ → FilePosition
  at_border last = record { cluster = last; sector = 0; byte = 0 }

  extend_start-border :
      (v : Volume store) (errno : Errno) (file : FileStruct) (last : ℕ) (st : store.State)
      → last_cluster store p v.cache file.start_cluster ≡ some (last, st)
      → 0 < file.filesize
      → file.filesize < file.current_position
      → file.filesize % p.bytes_per_cluster / p.bytes_per_sector ≡ 0
      → file.filesize % p.bytes_per_sector ≡ 0
      → extend_start store p v errno file
        ≡ new_cluster store p (record {
          volume = record v { cache = st };
          remain = file.current_position - file.filesize;
          position = at_border last;
          no_error = true;
          errno = errno;
        })
  unfolding extend_start
  extend_start-border v errno file last st e some_bytes less sector byte =
      let t : ltb 0 (file.current_position - file.filesize) ≡ true = ground arith in
      let t' : ltb 0 file.filesize ≡ true = ground arith in rw (e, sector, byte, t, t') refl

  new_cluster-none :
      (x : Extending store p) (r : ℕ × Volume store)
      → link_free_cluster store p x.volume x.position.cluster ≡ some r
      → is_valid_cluster p r.0 ≡ false
      → new_cluster store p x ≡ some (record x { volume = r.1; no_error = false; errno = enospc })
  unfolding new_cluster
  new_cluster-none x r e t = rw (e, t) refl

  file_extend_r-fails :
      (v : Volume store) (errno : Errno) (file : FileStruct) (x : Extending store p)
      → extend_start store p v errno file ≡ some x
      → x.no_error ≡ false
      → file_extend_r store p v errno file
        ≡ some (record { returned = false; file = file; volume = x.volume; errno = x.errno })
  unfolding file_extend_r end_extend
  file_extend_r-fails v errno file x e t = rw (e, t) refl

  expand_to-fails :
      (v : Volume store) (errno : Errno) (file : FileStruct) (n : ℕ) (x : Extending store p)
      → (file.start_cluster == cluster_free) ≡ false
      → extend_start store p v errno (record file { current_position = n }) ≡ some x
      → x.no_error ≡ false
      → (c : TruncateCall store p) × (expand store p v errno file n ≡ some c)
        × (c.ok ≡ false)
        × (c.errno ≡ x.errno)
        × (c.file.filesize ≡ n)
        × (c.file.start_cluster ≡ file.start_cluster)
        × (c.volume ≡ x.volume)
  unfolding expand expand_start expand_to
  expand_to-fails v errno file n x started e f =
      let e' = file_extend_r-fails v errno (record file { current_position = n }) x e f in
      rw (started, e') (_, refl, refl, refl, refl, refl, refl)

  ftruncate_r-expands :
      (v : Volume store) (errno : Errno) (file : FileStruct) (n : ℕ)
      → n < 2 ^ 32
      → file.in_use ≡ true
      → file.write ≡ true
      → file.filesize < n
      → ftruncate_r store p v errno file (pos n) ≡ expand store p v errno file n
  unfolding ftruncate_r truncate_to
  ftruncate_r-expands v errno file n small used writes more =
      let t : ltb file_max_size n ≡ false = ground arith in
      let t' : not file.in_use ≡ false = ground (arith, used) in
      let t'' : not file.write ≡ false = ground (arith, writes) in
      let t3 : ltb file.filesize n ≡ true = ground arith in rw (t, t', t'', t3) refl

  module _ (size : ℕ) (laws : IsStore store size p.bytes_per_sector) (fat : IsFat p size)
      (base : Sectors) (links : Links) where
    abbrev Now : store.State → Links → Type 0
    Now = Shows store size p laws fat base

    -- On a full volume nothing can be linked behind the end of a chain.
    link_free_cluster-full :
        (v : Volume store) (c : ℕ) (xs : List ℕ)
        → Now v.cache links
        → IsChain p.fat.last_cluster links c (c ∷ xs)
        → v.first_free ≤ p.fat.last_cluster
        → ((d : ℕ) → cluster_first ≤ d → d ≤ p.fat.last_cluster → links d ≢ cluster_free)
        → (r : ℕ × Volume store) × (link_free_cluster store p v (last_of c xs) ≡ some r)
          × (is_valid_cluster p r.0 ≡ false)
          × Now r.1.cache links
    unfolding is_valid_cluster
    link_free_cluster-full v c xs now chain start full =
        let (inside, ends) = last_of-ends p.fat.last_cluster links c xs chain in
        let (_, lo, hi, _) = chain in
        let (r, e, outcome) =
          link_free_cluster_lem store size p laws fat base links v (last_of c xs) now inside
            (omega (arith, lo, hi)) start in
        let (invalid, shows) : (is_valid_cluster p r.0 ≡ false) × Now r.1.cache links =
          elim outcome [
            | inl kept ↦ absurd (ground (arith, kept.lo, kept.hi, ends, IsFat-small fat))
            | inr (unlinked, inl new) ↦ absurd (full r.0 new.lo new.hi new.was_free)
            | inr (unlinked, inr none_left) ↦
                (ground (arith, none_left.error, IsFat-small fat), none_left.shows)
          ] in
        (r, e, invalid, shows)

    -- Expanding an open file that fills its clusters on a volume without a free cluster ends with
    -- -1 and ENOSPC and leaves the table as it was, but the file has the new size: its chain does not
    -- reach so far.
    pub ftruncate_r-no_room :
        (v : Volume store) (errno : Errno) (file : FileStruct) (xs : List ℕ) (n : ℕ)
        → Now v.cache links
        → IsChain p.fat.last_cluster links file.start_cluster (file.start_cluster ∷ xs)
        → v.first_free ≤ p.fat.last_cluster
        → ((d : ℕ) → cluster_first ≤ d → d ≤ p.fat.last_cluster → links d ≢ cluster_free)
        → p.bytes_per_cluster ≡ p.sectors_per_cluster * p.bytes_per_sector
        → 0 < p.bytes_per_cluster
        → file.filesize % p.bytes_per_cluster ≡ 0
        → 0 < file.filesize
        → file.filesize < n
        → n < 2 ^ 32
        → file.in_use ≡ true
        → file.write ≡ true
        → (c : TruncateCall store p) × (ftruncate_r store p v errno file (pos n) ≡ some c)
          × (c.ok ≡ false)
          × (c.errno ≡ enospc)
          × Now c.volume.cache links
          × (c.file.start_cluster ≡ file.start_cluster)
          × (c.file.filesize ≡ n)
    ftruncate_r-no_room v errno file xs n now chain start full cluster_size wide border nonempty
          more small used writes =
        let c = file.start_cluster in
        let (_, lo, _, _) = chain in
        let some_sector : 0 < p.bytes_per_sector = omega (arith, fat.some_bytes) in
        let (zero_sector, _) = div_mod_unique 0 0 0 p.bytes_per_sector (omega arith) some_sector in
        let (whole, _) = mod_bounds file.filesize p.bytes_per_cluster wide in
        let k = file.filesize / p.bytes_per_cluster in
        let (_, byte) =
          div_mod_unique file.filesize (k * p.sectors_per_cluster) 0 p.bytes_per_sector
            (omega (arith, whole, border, ap (λ (t : ℕ). k * t) cluster_size)) some_sector in
        let sector : file.filesize % p.bytes_per_cluster / p.bytes_per_sector ≡ 0 =
          ap (λ (t : ℕ). t / p.bytes_per_sector) border ∙ zero_sector in
        let (st, e, now') =
          last_cluster_lem store size p laws fat base links v.cache c xs now chain in
        let v' = record v { cache = st } in
        let (r, e', invalid, now'') = link_free_cluster-full v' c xs now' chain start full in
        let x : Extending store p = record {
          volume = v';
          remain = n - file.filesize;
          position = at_border (last_of c xs);
          no_error = true;
          errno = errno;
        } in
        let extended =
          extend_start-border v errno (record file { current_position = n }) (last_of c xs) st e
            nonempty more sector byte
          ∙ new_cluster-none x r e' invalid in
        let started : (c == cluster_free) ≡ false = ground (arith, lo) in
        let (call, f, failed, why, size', same, left) =
          expand_to-fails v errno file n _ started extended refl in
        (
          call,
          ftruncate_r-expands v errno file n small used writes more ∙ f,
          failed,
          why,
          rw left now'',
          same,
          size',
        )
