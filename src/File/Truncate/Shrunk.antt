-- ===== src/File/Truncate/Shrunk.antt =====
-- What `_FAT_ftruncate_r` leaves of a file that is cut.
use libfat.Base.{
  ℕ, suc, ◌+◌, ◌*◌, ◌%◌, ◌/◌, ap, inl, inr, ◌^◌, ◌<◌, ◌≡◌, Bool, true, false, some, arith, ltb, not,
  ◌==◌, if◌then◌else◌, refl,
}
use libfat.Base.Lists.{List, ◌∷◌, take, drop, last_of}
use libfat.Cache.Invariant.{Sectors}
use libfat.Store.{SectorStore, IsStore}
use libfat.Partition.State.{Partition, Volume}
use libfat.Fat.Entry.{cluster_eof}
use libfat.Fat.Table.{IsFat}
use libfat.Fat.Chain.Shows.{Links, Shows, set}
use libfat.Fat.Chain.Chains.{IsChain, freed}
use libfat.Fat.Chain.Trim.{trim_chain_lem}
use libfat.File.State.{FileStruct, FilePosition, Errno, file_max_size}
use libfat.File.Seek.{pos}
use libfat.File.Content.{IsData, IsAt, some_bytes, some_cluster, offset_parts}
use libfat.Fat.Entry.Places.{mod_bounds, div_mod_unique}
use native.Mathlib.Decide.{ℕ_discrete}
use libfat.File.Truncate.{TruncateCall, end_position, shrink, truncate_to, ftruncate_r}

if_start :
    (b : Bool) (file : FileStruct) (q : FilePosition)
    → (if b then record file { append_position = q } else file).start_cluster ≡ file.start_cluster
if_start true file q = refl
if_start false file q = refl

if_append :
    (b : Bool) (file : FileStruct) (q : FilePosition)
    → b ≡ true
    → (if b then record file { append_position = q } else file).append_position ≡ q
if_append true file q e = refl
if_append false file q e = absurd cc

module _ (store : SectorStore) (p : Partition) where
  module _ (size : ℕ) (laws : IsStore store size p.bytes_per_sector) (fat : IsFat p size)
      (base : Sectors) (links : Links) where
    -- The volume holds a table.
    abbrev Now : store.State → Links → Type 0
    Now = Shows store size p laws fat base

    -- How many clusters behind the first a file of `n + 1` bytes needs.
    abbrev pub needed : ℕ → ℕ
    needed n = n / p.bytes_per_cluster

    -- The clusters of a chain: cluster 0 is the first.
    abbrev pub chain_cluster : ℕ → List ℕ → ℕ → ℕ
    chain_cluster c xs i = last_of c (take i xs)

    end_position-IsAt :
        (d : IsData p size) (n c : ℕ) (xs : List ℕ)
        → IsAt p
            (chain_cluster c xs)
            (needed n + 1)
            (end_position store p (suc n) (chain_cluster c xs (needed n)))
            (suc n)
    unfolding end_position
    end_position-IsAt d n c xs =
        let w = p.bytes_per_cluster in
        let v = p.bytes_per_sector in
        let i = n / w in
        let wide = some_cluster p size d in
        let (e, lt) = mod_bounds n w wide in
        elim (ℕ_discrete (n % w + 1) w) [
          | yes full ↦
              let (q, r) = div_mod_unique (suc n) (i + 1) 0 w (omega (arith, e, full)) wide in
              let (_, b) =
                div_mod_unique (suc n) ((i + 1) * p.sectors_per_cluster) 0 v
                  (omega (arith, e, full, ap (λ (t : ℕ). (i + 1) * t) d.cluster_size))
                  (some_bytes p size d) in
              let t : (suc n % w == 0) ≡ true = ground (arith, r) in
              rw (t, b)
                (record {
                  index = i;
                  inside = omega arith;
                  cluster = refl;
                  offset = omega (arith, e, full, d.cluster_size);
                  byte = some_bytes p size d;
                  sector = inr (refl, refl);
                })
          | no more ↦
              let (q, r) =
                div_mod_unique (suc n) i (n % w + 1) w (omega (arith, e)) (omega arith) in
              let (at, inside, byte) = offset_parts p size d (suc n) in
              let t : (suc n % w == 0) ≡ false = ground (arith, r) in
              rw t (record {
                index = i;
                inside = omega arith;
                cluster = refl;
                offset = rw q at at;
                byte = byte;
                sector = inl inside;
              })
        ]

    -- Cutting an open file to a smaller size above 0, on a medium without faults and a whole chain,
    -- succeeds: the chain then ends with the cluster that holds the last byte, the clusters behind it
    -- are free, no other entry of the table has changed, and the position of a file that is open for
    -- appending then stands for the new size, in that chain.
    pub ftruncate_r-Shrunk :
        (d : IsData p size) (v : Volume store) (errno : Errno) (file : FileStruct) (xs : List ℕ)
        (n : ℕ)
        → Now v.cache links
        → IsChain p.fat.last_cluster links file.start_cluster (file.start_cluster ∷ xs)
        → file.in_use ≡ true
        → file.write ≡ true
        → file.filesize < 2 ^ 32
        → suc n < file.filesize
        → let kept = last_of file.start_cluster (take (needed n) xs) in
          (c : TruncateCall store p) × (ftruncate_r store p v errno file (pos (suc n)) ≡ some c)
          × (c.ok ≡ true)
          × (c.file.filesize ≡ suc n)
          × (c.file.start_cluster ≡ file.start_cluster)
          × Now c.volume.cache (set (freed links (drop (needed n) xs)) kept cluster_eof)
          × (file.append ≡ true
              → IsAt p
                  (chain_cluster file.start_cluster xs)
                  (needed n + 1)
                  c.file.append_position
                  (suc n))
    unfolding ftruncate_r truncate_to shrink
    ftruncate_r-Shrunk d v errno file xs n now chain used writes small less =
        let c = file.start_cluster in
        let (v', e, shows, _) =
          trim_chain_lem store size p laws fat base links v c xs (needed n) now chain in
        let t : ltb file_max_size (suc n) ≡ false = ground arith in
        let t' : not file.in_use ≡ false = ground (arith, used) in
        let t'' : not file.write ≡ false = ground (arith, writes) in
        let t3 : ltb file.filesize (suc n) ≡ false = ground arith in
        let t4 : ltb (suc n) file.filesize ≡ true = ground arith in
        let appended =
          if_append file.append file
            (end_position store p (suc n) (chain_cluster c xs (needed n))) in
        let at = end_position-IsAt d n c xs in
        rw (t, t', t'', t3, t4, e)
          (_, refl, refl, refl, if_start file.append file _, shows, λ a. rw (← appended a) at at)
