-- ===== src/File/Read/Border.antt =====
-- `_FAT_read_r` from a position behind the last sector of a cluster, of less than a sector.
use libfat.Base.{
  ℕ, zero, suc, ◌+◌, ◌-◌, ◌*◌, ◌/◌, ◌^◌, ◌<◌, ◌≡◌, ◌≢◌, Bool, true, false, ◌&&◌, ◌||◌, not, Buffer,
  some, arith, u32, sub32, leb, ltb, ◌==◌, if◌then◌else◌, refl, ◌∙◌, ap, Bool-cases, inl, inr,
}
use libfat.Cache.Invariant.{Sectors}
use libfat.Store.{SectorStore, IsStore}
use libfat.Partition.State.{Partition}
use libfat.Fat.Entry.{cluster_free, cluster_eof, is_valid_cluster, next_cluster}
use libfat.Fat.Entry.Places.{div_mod_unique}
use libfat.File.State.{
  FileStruct, Errno, eoverflow, readable, position_sector, at_ptr, with_ptr, to_cluster_end,
  to_sector_end,
}
use libfat.File.Content.{IsData, some_bytes, some_cluster_bytes, sectors_small}
use libfat.File.Read.{
  Reading, read_to_sector, read_to_cluster, move_on, read_next_cluster, read_clusters,
  read_last_sectors, read_last_bytes, read_stages, Call, end_read, read_r,
}

module _ (store : SectorStore) (size : ℕ) (p : Partition)
    (laws : IsStore store size p.bytes_per_sector) (d : IsData p size) where
  -- The two have the same bytes, and no more is to be read into either.
  abbrev SameBytes : Reading store p → Reading store p → Type 0
  SameBytes x y = (y.remain ≡ x.remain) × (y.buffer ≡ x.buffer)

  move_on-SameBytes :
      (x : Reading store p) (last next : ℕ) → SameBytes x (move_on store p x last next)
  unfolding move_on
  move_on-SameBytes x last next = elim (Bool-cases (x.remain == 0 && next == cluster_eof)) [
    | inl t ↦ rw t (refl, refl)
    | inr t ↦ rw t (elim (Bool-cases (is_valid_cluster p next)) [
      | inl v ↦ rw v (refl, refl)
      | inr v ↦ rw v (refl, refl)
    ])
  ]

  read_next_cluster-SameBytes : (x : Reading store p) → SameBytes x (read_next_cluster store p x)
  unfolding read_next_cluster
  read_next_cluster-SameBytes x =
      elim (Bool-cases (leb p.sectors_per_cluster x.position.sector && x.no_error)) [
        | inl t ↦
            let (next, st) = next_cluster store p x.cache x.position.cluster in
            rw t (move_on-SameBytes (record x { cache = st }) x.position.cluster next)
        | inr t ↦ rw t (refl, refl)
      ]

  -- Where nothing is left to read, the later stages read nothing.
  read_clusters-none :
      (fuel : ℕ) (x : Reading store p) → x.remain ≡ 0 → read_clusters store p fuel x ≡ some x
  unfolding read_clusters
  read_clusters-none zero x z =
      let t : leb p.bytes_per_cluster x.remain ≡ false =
        ground (arith, d.fat.some_bytes, some_cluster_bytes p size d) in
      rw t refl
  read_clusters-none (suc fuel) x z =
      let t : leb p.bytes_per_cluster x.remain ≡ false =
        ground (arith, d.fat.some_bytes, some_cluster_bytes p size d) in
      rw t refl

  no_sectors : (x : Reading store p) → x.remain ≡ 0 → x.remain / p.bytes_per_sector ≡ 0
  no_sectors x z =
      let e : 0 ≡ 0 * p.bytes_per_sector + 0 = omega arith in
      rw z (div_mod_unique 0 0 0 p.bytes_per_sector e (some_bytes p size d)).0

  read_last-none :
      (x : Reading store p)
      → x.remain ≡ 0
      → read_last_bytes store p (read_last_sectors store p x) ≡ x
  unfolding read_last_bytes read_last_sectors
  read_last-none x z =
      let t : (x.remain / p.bytes_per_sector == 0) ≡ true = ground (arith, no_sectors x z) in
      let t' : ltb 0 x.remain ≡ false = ground arith in rw t (rw t' refl)

  no_cluster_end :
      (x : Reading store p)
      → x.remain ≡ 0
      → x.position.sector ≡ p.sectors_per_cluster
      → to_cluster_end p x.position x.remain ≡ 0
  no_cluster_end x z full =
      let none_left : sub32 p.sectors_per_cluster x.position.sector ≡ 0 =
        omega (arith, sectors_small p size d) in
      let t : ltb (u32 (0 * p.bytes_per_sector)) x.remain ≡ false = ground arith in
      rw none_left (rw t (no_sectors x z))

  read_to_cluster-none :
      (x : Reading store p)
      → x.remain ≡ 0
      → x.position.sector ≡ p.sectors_per_cluster
      → read_to_cluster store p x ≡ x
  unfolding read_to_cluster
  read_to_cluster-none x z full =
      let t : (to_cluster_end p x.position x.remain == 0) ≡ true =
        ground (arith, no_cluster_end x z full) in
      rw t refl

  -- What a read of less than a sector finds behind the last sector of a cluster.
  abbrev border_read : Reading store p → record { ok : Bool; buffer : Buffer; state : store.State }
  border_read x =
      store.read_partial_sector x.cache (at_ptr x.buffer x.ptr) (position_sector p x.position)
        x.position.byte x.remain

  abbrev after_border : Reading store p → Reading store p
  after_border x = record x {
    cache = (border_read x).state;
    buffer = with_ptr x.buffer x.ptr (border_read x).buffer;
    ptr = x.ptr + x.remain;
    remain = x.remain - x.remain;
    position = record x.position { byte = x.position.byte + x.remain };
  }

  read_to_sector-border :
      (x : Reading store p)
      → x.no_error ≡ true
      → x.position.byte ≡ 0
      → x.remain < p.bytes_per_sector
      → read_to_sector store p x ≡ after_border x
  unfolding read_to_sector
  read_to_sector-border x fine at_start few =
      let left : sub32 p.bytes_per_sector x.position.byte ≡ p.bytes_per_sector =
        omega (arith, at_start, d.cluster_small, some_cluster_bytes p size d) in
      let less : ltb x.remain p.bytes_per_sector ≡ true = ground arith in
      let e : to_sector_end p x.position x.remain ≡ x.remain = rw (left, less) refl in
      let t : ltb x.remain p.bytes_per_sector ≡ true = ground arith in
      let t' : leb p.bytes_per_sector (x.position.byte + x.remain) ≡ false = ground arith in
      rw (e, t, t', fine) refl

  read_stages-border :
      (x : Reading store p)
      → x.no_error ≡ true
      → x.position.byte ≡ 0
      → x.position.sector ≡ p.sectors_per_cluster
      → x.remain < p.bytes_per_sector
      → (y : Reading store p) × (read_stages store p x ≡ some y)
        × (y.remain ≡ 0)
        × (y.buffer ≡ (after_border x).buffer)
  unfolding read_stages
  read_stages-border x fine at_start full few =
      let x1 = after_border x in
      let z1 : x1.remain ≡ 0 = omega arith in
      let x2 = read_next_cluster store p x1 in
      let (same, same') = read_next_cluster-SameBytes x1 in
      let z2 : x2.remain ≡ 0 = same ∙ z1 in
      let e : read_next_cluster store p (read_to_cluster store p (read_to_sector store p x)) ≡ x2 =
        ap (λ (y : Reading store p). read_next_cluster store p (read_to_cluster store p y))
          (read_to_sector-border x fine at_start few)
        ∙ ap (read_next_cluster store p) (read_to_cluster-none x1 z1 full) in
      rw (e, read_clusters-none (x2.remain + 1) x2 z2)
        (x2, ap some (read_last-none x2 z2), z2, same')

  -- A read of less than a sector, from a position behind the last sector of a cluster, returns the
  -- bytes of the sector that follows the cluster on the medium, whichever cluster is the next of the
  -- file.
  pub read_r-border :
      (st : store.State) (sectors : Sectors) (errno : Errno) (file : FileStruct) (buffer : Buffer)
      (len : ℕ)
      → laws.Holds st sectors
      → 0 < len
      → len + file.current_position < 2 ^ 32
      → file.in_use ≡ true
      → file.read ≡ true
      → file.start_cluster ≢ cluster_free
      → file.current_position < file.filesize
      → file.rw_position.sector ≡ p.sectors_per_cluster
      → file.rw_position.byte ≡ 0
      → position_sector p file.rw_position < size
      → readable file len < p.bytes_per_sector
      → (c : Call store p) × (read_r store p st errno file buffer len ≡ some c)
        × (c.returned ≡ some (readable file len))
        × ((k : ℕ)
            → k < readable file len
            → c.buffer k ≡ sectors (position_sector p file.rw_position) k)
  unfolding read_r end_read
  read_r-border st sectors errno file buffer len h pos wrap used reads started before full at_start
        inside few =
      let n = readable file len in
      let q = file.rw_position in
      let x : Reading store p = record {
        cache = st;
        buffer = buffer;
        ptr = 0;
        remain = n;
        position = q;
        no_error = true;
        errno = if ltb file.filesize (len + file.current_position) then eoverflow else errno;
      } in
      let (_, bytes, _) =
        laws.reads_part st sectors (at_ptr buffer 0) (position_sector p q) q.byte n h inside
          (omega arith) in
      let (y, e, z, same) = read_stages-border x refl at_start full few in
      let u : u32 (len + file.current_position) ≡ len + file.current_position = omega arith in
      let t : (len == 0) ≡ false = ground arith in
      let t' : (not file.in_use || not file.read) ≡ false = ground (arith, used, reads) in
      let t'' : (leb file.filesize file.current_position || file.start_cluster == cluster_free)
          ≡ false =
        ground (arith, started) in
      rw (t, t', t'', u, e)
        (
          end_read store p file n y,
          refl,
          ap some (omega (arith, z)),
          λ k hk.
              let sector = position_sector p q in
              let there = (border_read x).buffer in
              let skip : with_ptr buffer 0 there k ≡ there k = ground arith in
              ap (λ (b : Buffer). b k) same
              ∙ skip
              ∙ bytes k hk
              ∙ ap (sectors sector) (omega (arith, at_start)),
        )
