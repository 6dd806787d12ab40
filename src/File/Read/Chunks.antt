-- ===== src/File/Read/Chunks.antt =====
-- The loop of `_FAT_read_r` over whole clusters, on a file whose chain is whole: a chunk of clusters
-- that follow one another in each round.
use libfat.Base.{
  ℕ, zero, suc, ◌+◌, ◌*◌, ◌/◌, ◌^◌, ◌≤◌, ◌<◌, ◌≡◌, ◌⊎◌, inl, inr, true, false, ◌&&◌, some,
  Bool-cases, arith, u32, leb, ◌==◌, ap, refl, ◌∙◌, sym,
}
use native.Mathlib.Decide.{dec_lt, dec_le}
use libfat.Cache.Invariant.{Sectors}
use libfat.Cache.Sector.Update.{row_after}
use libfat.Store.{SectorStore, IsStore}
use libfat.Partition.State.{Partition}
use libfat.Fat.Entry.{cluster_to_sector, next_cluster}
use libfat.Fat.Entry.Places.{div_mod_unique}
use libfat.Fat.Table.{table}
use libfat.Fat.Chain.Clear.{IsFat-small}
use libfat.File.State.{Errno, FilePosition}
use libfat.File.Content.{IsData, IsClusters, run_inside, some_bytes, some_cluster_bytes}
use libfat.File.Read.{Reading, move_on, Chunk, chunk_from, read_whole, read_chunk, read_clusters}
use libfat.File.Read.Clusters.{next_of, move_on-Got}
use libfat.File.Read.Copied.{Got, run_copied, run_done, run_end}

module _ (store : SectorStore) (size : ℕ) (p : Partition)
    (laws : IsStore store size p.bytes_per_sector) (d : IsData p size) (sectors : Sectors)
    (cl : ℕ → ℕ) (m : ℕ) (clusters : IsClusters p (table sectors p) cl m) (start len : ℕ)
    (errno : Errno) (bound : start + len ≤ m * p.bytes_per_cluster)
    (small : len + p.bytes_per_cluster < 2 ^ 32) where
  open p use {bytes_per_sector, sectors_per_cluster, bytes_per_cluster}

  abbrev Here : Reading store p → Type 0
  Here x = Got store size p laws d sectors cl m clusters start len errno x

  -- The clusters of a chunk from cluster `i` of the file on: `more` behind it.
  record IsChunk (i remain : ℕ) (c : Chunk store p) : Type 0 where
    more : ℕ
    inside : i + more < m
    contiguous : (k : ℕ) → k < more + 1 → cl (i + k) ≡ cl i + k
    last : c.chunk_end ≡ cl (i + more)
    next : c.next_chunk_start ≡ table sectors p c.chunk_end
    bytes : c.chunk_size ≡ (more + 1) * bytes_per_cluster
    fits : c.chunk_size ≤ remain
    holds : laws.Holds c.cache sectors

  le_cancel : (a b w : ℕ) → 0 < w → a * w ≤ b * w → a ≤ b
  le_cancel a b w pos h = elim (dec_le a b) [
    | yes le ↦ le
    | no gt ↦ absurd (omega (arith, row_after w b a (omega arith)))
  ]

  chunk_from-IsChunk :
      (fuel : ℕ) (st : store.State) (c i t remain size' : ℕ)
      → laws.Holds st sectors
      → i + t < m
      → c ≡ cl (i + t)
      → size' ≡ t * bytes_per_cluster
      → ((k : ℕ) → k < t + 1 → cl (i + k) ≡ cl i + k)
      → (t + 1) * bytes_per_cluster ≤ remain
      → i * bytes_per_cluster + remain ≤ m * bytes_per_cluster
      → remain ≤ (t + fuel) * bytes_per_cluster
      → remain ≤ len
      → (r : Chunk store p) × (chunk_from store p fuel st c size' remain ≡ some r)
        × IsChunk i remain r
  unfolding chunk_from
  chunk_from-IsChunk zero st c i t remain size' h inside e sz run le room enough short =
      absurd (omega (arith, d.fat.some_bytes, some_cluster_bytes p size d))
  chunk_from-IsChunk (suc fuel) st c i t remain size' h inside e sz run le room enough short =
      let (l, h') =
        next_of store size p laws d sectors cl m clusters start len errno bound st c (i + t) h
          inside e in
      let r = next_cluster store p st c in
      let (lo, hi) = clusters.valid (i + t) inside in
      let pos : 0 < bytes_per_cluster =
        omega (arith, d.fat.some_bytes, some_cluster_bytes p size d) in
      let u : u32 (c + 1) ≡ c + 1 = omega (arith, IsFat-small d.fat) in
      let wide : u32 (size' + bytes_per_cluster + bytes_per_cluster)
          ≡ size' + bytes_per_cluster + bytes_per_cluster =
        omega (arith, sz, le, short, small) in
      rw (u, wide)
        (elim (Bool-cases
          (r.0 == c + 1 && leb (size' + bytes_per_cluster + bytes_per_cluster) remain)) [
            | inl goes_on ↦
                let n : r.0 ≡ c + 1 = ground (arith, goes_on) in
                let le' : (t + 2) * bytes_per_cluster ≤ remain = ground (arith, goes_on) in
                let more : i + t + 2 ≤ m =
                  le_cancel (i + t + 2) m bytes_per_cluster pos (omega arith) in
                let e' : r.0 ≡ cl (i + (t + 1)) =
                  l
                  ∙ ap (table sectors p) e
                  ∙ clusters.linked (i + t) (omega arith)
                  ∙ ap cl (omega arith) in
                let run' : (k : ℕ) → k < t + 1 + 1 → cl (i + k) ≡ cl i + k = λ k hk.
                  elim (dec_lt k (t + 1)) [
                    | yes before ↦ run k before
                    | no at ↦
                        let z : k ≡ t + 1 = omega arith in
                        rw z (sym e' ∙ n ∙ omega (arith, e, run t (omega arith)))
                  ] in
                rw goes_on (
                  chunk_from-IsChunk fuel r.1 r.0 i (t + 1) remain (size' + bytes_per_cluster) h'
                    (omega arith) e' (omega (arith, sz)) run' (omega arith) room (omega arith)
                    short)
            | inr stops ↦ rw stops (
              record {
                cache = r.1;
                chunk_end = c;
                next_chunk_start = r.0;
                chunk_size = size' + bytes_per_cluster;
              },
              refl,
              record {
                more = t;
                inside = inside;
                contiguous = run;
                last = e;
                next = l;
                bytes = omega (arith, sz);
                fits = omega (arith, sz);
                holds = h';
              },
            )
          ])

  read_chunk_lem :
      (x y : Reading store p) (c : Chunk store p)
      → read_whole store p
          (record x { cache = c.cache })
          (cluster_to_sector p x.position.cluster)
          (c.chunk_size / bytes_per_sector)
        ≡ y
      → y.no_error ≡ true
      → read_chunk store p x c ≡ move_on store p y c.chunk_end c.next_chunk_start
  unfolding read_chunk
  read_chunk_lem x y c e f = rw (e, f) refl

  -- A round leaves the position at the start of a cluster, or nothing is left.
  read_chunk-Got :
      (x : Reading store p) (c : Chunk store p) (g : Here x)
      → x.position.byte ≡ 0
      → x.position.sector ≡ 0
      → IsChunk g.at.index x.remain c
      → let y = read_chunk store p x c in
        Here y
        × (y.remain + c.chunk_size ≡ x.remain)
        × ((y.remain ≡ 0) ⊎ ((y.position.byte ≡ 0) × (y.position.sector ≡ 0)))
  read_chunk-Got x c g b s ch =
      let i = g.at.index in
      let n = (ch.more + 1) * sectors_per_cluster in
      let x0 : Reading store p = record x { cache = c.cache } in
      let g0 : Here x0 = record {
        holds = ch.holds;
        fine = g.fine;
        kept_errno = g.kept_errno;
        sum = g.sum;
        at = g.at;
        copied = g.copied;
      } in
      let (lo, hi) = clusters.valid i g.at.inside in
      let (lo', hi') = clusters.valid (i + ch.more) ch.inside in
      let end = ch.contiguous ch.more (omega arith) in
      let (same, room) = run_inside p size d (cl i) ch.more lo (omega arith) in
      let bytes : n * bytes_per_sector ≡ c.chunk_size =
        omega (arith, ch.bytes, ap (λ (t : ℕ). (ch.more + 1) * t) d.cluster_size) in
      let (n_lem, r_lem) =
        div_mod_unique c.chunk_size n 0 bytes_per_sector (omega (arith, bytes))
          (some_bytes p size d) in
      let sector : cluster_to_sector p x.position.cluster ≡ cluster_to_sector p (cl i) + 0 =
        ap (cluster_to_sector p) g.at.cluster ∙ omega arith in
      let pos : start + x.ptr ≡ i * bytes_per_cluster + 0 * bytes_per_sector =
        omega (arith, g.at.offset, b, ap (λ (t : ℕ). t * bytes_per_sector) s) in
      let (done, h) =
        run_done store size p laws d sectors cl m clusters start len errno x0 g0 i (ch.more + 1) 0 n
          ch.contiguous lo (omega arith) (omega arith) pos (omega arith) in
      let copied =
        run_copied store size p laws d sectors cl m clusters start len errno x0 g0 i (ch.more + 1) 0
          n ch.contiguous lo (omega arith) (omega arith) pos (omega arith) in
      let x1 : Reading store p =
        run_end store size p laws d sectors cl m clusters start len errno x0 g0 i (ch.more + 1) 0 n
          ch.contiguous lo (omega arith) (omega arith) pos (omega arith) in
      let whole = read_chunk_lem x x1 c (rw (sector, n_lem) done) g.fine in
      let q : FilePosition = record {
        cluster = c.chunk_end;
        sector = sectors_per_cluster;
        byte = 0;
      } in
      let (here, same', where_) =
        move_on-Got store size p laws d sectors cl m clusters start len errno bound x1 q
          c.next_chunk_start
          (record {
            holds = h;
            fine = g.fine;
            kept_errno = g.kept_errno;
            sum = omega (arith, g.sum, bytes, ch.fits);
            at = record {
              index = i + ch.more;
              inside = ch.inside;
              cluster = ch.last;
              offset = omega (arith, pos, bytes, ch.bytes, d.cluster_size);
              byte = some_bytes p size d;
              sector = inr (refl, refl);
            };
            copied = copied;
          })
          refl b ch.next in
      rw whole (here, omega (arith, same', bytes, ch.fits), where_)

  -- The state that the loop keeps: nothing is left, or the position is at the start of a sector, and
  -- of a cluster where a sector or more is left.
  abbrev pub Ready : Reading store p → Type 0
  Ready x =
      (x.remain ≡ 0)
      ⊎ ((x.position.byte ≡ 0)
          × ((x.position.sector ≡ 0)
              ⊎ ((x.position.sector < sectors_per_cluster) × (x.remain < bytes_per_sector))))

  cluster_start-Ready :
      (x : Reading store p)
      → (x.remain ≡ 0) ⊎ ((x.position.byte ≡ 0) × (x.position.sector ≡ 0))
      → Ready x
  cluster_start-Ready x (inl z) = inl z
  cluster_start-Ready x (inr (b, s)) = inr (b, inl s)

  pub read_clusters-Got :
      (fuel : ℕ) (x : Reading store p)
      → Here x
      → Ready x
      → x.remain ≤ fuel
      → (y : Reading store p) × (read_clusters store p fuel x ≡ some y)
        × Here y
        × Ready y
        × (y.remain < bytes_per_cluster)
  unfolding read_clusters
  read_clusters-Got zero x g ready le =
      let t : leb bytes_per_cluster x.remain ≡ false =
        ground (arith, d.fat.some_bytes, some_cluster_bytes p size d) in
      rw t (x, refl, g, ready, omega (arith, d.fat.some_bytes, some_cluster_bytes p size d))
  read_clusters-Got (suc fuel) x g ready le = elim (dec_le bytes_per_cluster x.remain) [
    | no few ↦
        let t : leb bytes_per_cluster x.remain ≡ false = ground arith in
        rw t (x, refl, g, ready, omega arith)
    | yes many ↦
        let least = d.fat.some_bytes in
        let sector_cluster = some_cluster_bytes p size d in
        let t : (leb bytes_per_cluster x.remain && x.no_error) ≡ true = ground (arith, g.fine) in
        let b : x.position.byte ≡ 0 = ground (arith, ready) in
        let s : x.position.sector ≡ 0 = ground (arith, ready) in
        let i = g.at.index in
        let pos : start + x.ptr ≡ i * bytes_per_cluster =
          omega (arith, g.at.offset, b, ap (λ (k : ℕ). k * bytes_per_sector) s) in
        let one : (k : ℕ) → k < 1 → cl (i + k) ≡ cl i + k =
          λ k h. let z : i + k ≡ i = omega arith in ap cl z ∙ omega arith in
        let (c, e, ch) =
          chunk_from-IsChunk (suc fuel) x.cache x.position.cluster i 0 x.remain 0 g.holds
            (omega (arith, g.at.inside)) (g.at.cluster ∙ ap cl (omega arith)) (omega arith) one
            (omega arith) (omega (arith, g.sum))
            (omega (arith, le, row_after (suc fuel) 0 bytes_per_cluster (omega arith)))
            (omega (arith, g.sum)) in
        let (here, left, ready') = read_chunk-Got x c g b s ch in
        let (y, e', here', ready'', few) =
          read_clusters-Got fuel (read_chunk store p x c) here
            (cluster_start-Ready (read_chunk store p x c) ready') (omega (arith, left, ch.bytes)) in
        rw (t, e, e') (y, refl {a = some y}, here', ready'', few)
  ]
