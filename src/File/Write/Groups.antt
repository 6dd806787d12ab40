-- ===== src/File/Write/Groups.antt =====
-- The loop of `_FAT_write_r` over whole clusters, where the file has the clusters already: a group of
-- clusters that follow one another in each round.
use libfat.Base.{
  ℕ, zero, suc, ◌+◌, ◌-◌, ◌*◌, ◌^◌, ◌≤◌, ◌<◌, ◌≡◌, ◌≢◌, ◌⊎◌, inl, inr, true, false, ◌&&◌, not, some,
  arith, u32, leb, ltb, ◌==◌, ap, refl, ◌∙◌, sym, Buffer, Bool-cases,
}
use native.Mathlib.Decide.{dec_lt}
use libfat.Cache.Invariant.{Sectors}
use libfat.Cache.Run.Writing.{put_run}
use libfat.Store.{SectorStore, IsStore}
use libfat.Partition.State.{Partition, Volume}
use libfat.Fat.Entry.{cluster_first, cluster_to_sector, is_valid_cluster}
use libfat.Fat.Entry.Places.{div_mod_unique}
use libfat.Fat.Table.{table}
use libfat.Fat.Chain.Clear.{IsFat-small}
use libfat.File.State.{Errno, FilePosition, at_ptr}
use libfat.File.Content.{IsData, IsClusters, run_inside, some_bytes}
use libfat.File.Layout.{cl-injective}
use libfat.File.Layout.Puts.{mul_mono}
use libfat.File.Write.Stages.{Writing, Group, group_checked, group_clusters, write_group}
use libfat.File.Write.Kept.{Put, run-IsPut}
use libfat.File.Write.Onward.{check_position-next}

module _ (store : SectorStore) (size : ℕ) (p : Partition)
    (laws : IsStore store size p.bytes_per_sector) (d : IsData p size) (base : Sectors) (cl : ℕ → ℕ)
    (m : ℕ) (clusters : IsClusters p (table base p) cl m) where
  open p use {bytes_per_sector, sectors_per_cluster, bytes_per_cluster}

  -- What is written with the group: `x`, on the volume `w`.
  abbrev pub on_volume : Writing store p → Volume store → Writing store p
  on_volume x w = record x { volume = w; no_error = true }

  module _ (buffer : Buffer) (x : Writing store p) (s : Sectors) (i : ℕ)
      (below : (t o : ℕ) → t < p.data_start → s t o ≡ base t o) where
    -- The group has the clusters from cluster `i` of the file on, `more` behind it.
    pub record IsGroup (g : Group store p buffer) : Type 0 where
      pub more : ℕ
      pub inside : i + more < m
      pub contiguous : (k : ℕ) → k < more + 1 → cl (i + k) ≡ cl i + k
      pub last : g.chunk_end ≡ cl (i + more)
      pub bytes : g.chunk_size ≡ (more + 1) * bytes_per_cluster
      pub fits : g.chunk_size ≤ x.remain
      pub next :
          (g.next_chunk_start ≡ g.chunk_end)
          ⊎ ((i + more + 1 < m) × (g.next_chunk_start ≡ cl (i + more + 1)))
      pub volume : Volume store
      pub same : g.writing ≡ on_volume x volume
      pub holds : laws.Holds volume.cache s

    pub group_clusters-IsGroup :
        (fuel : ℕ) (w : Volume store) (q : FilePosition) (last next chunk t : ℕ)
        → laws.Holds w.cache s
        → i + t < m
        → ((k : ℕ) → k < t + 1 → cl (i + k) ≡ cl i + k)
        → last ≡ cl (i + t)
        → next ≡ cl (i + t)
        → q.cluster ≡ cl (i + t)
        → chunk ≡ (t + 1) * bytes_per_cluster
        → chunk ≤ x.remain
        → i * bytes_per_cluster + x.remain ≤ m * bytes_per_cluster
        → x.remain + bytes_per_cluster < 2 ^ 32
        → x.remain ≤ (t + 1 + fuel) * bytes_per_cluster
        → let g : Group store p buffer = record {
          writing = on_volume x w;
          next_position = q;
          chunk_end = last;
          next_chunk_start = next;
          chunk_size = chunk;
        } in
          (h : Group store p buffer) × (group_clusters store p buffer fuel g ≡ some h) × IsGroup h
    unfolding group_clusters group_checked
    group_clusters-IsGroup zero w q last next chunk t h inside run el en eq sz le room small
          enough =
        let u : u32 (chunk + bytes_per_cluster) ≡ chunk + bytes_per_cluster = omega arith in
        let f : ltb (chunk + bytes_per_cluster) x.remain ≡ false = ground (arith, sz, enough) in
        rw (u, f)
          (
            _,
            refl,
            record {
              more = t;
              inside = inside;
              contiguous = run;
              last = el;
              bytes = sz;
              fits = le;
              next = inl (en ∙ sym el);
              volume = w;
              same = refl;
              holds = h;
            },
          )
    group_clusters-IsGroup (suc fuel) w q last next chunk t h inside run el en eq sz le room small
          enough =
        let u : u32 (chunk + bytes_per_cluster) ≡ chunk + bytes_per_cluster = omega arith in
        elim (dec_lt (chunk + bytes_per_cluster) x.remain) [
          | no few ↦
              let f : ltb (chunk + bytes_per_cluster) x.remain ≡ false = ground arith in
              rw (u, f)
                (
                  _,
                  refl,
                  record {
                    more = t;
                    inside = inside;
                    contiguous = run;
                    last = el;
                    bytes = sz;
                    fits = le;
                    next = inl (en ∙ sym el);
                    volume = w;
                    same = refl;
                    holds = h;
                  },
                )
          | yes many ↦
              let f : ltb (chunk + bytes_per_cluster) x.remain ≡ true = ground arith in
              let more : i + t + 1 < m = elim (dec_lt (i + t + 1) m) [
                | yes inside' ↦ inside'
                | no end ↦
                    let all = mul_mono bytes_per_cluster m (i + t + 1) (omega arith) in
                    absurd (omega (arith, all, room, many, sz))
              ] in
              let q' : FilePosition = record q { sector = sectors_per_cluster } in
              let (v', e, h') =
                check_position-next store size p laws d base cl m clusters w s x.errno q'
                  (x.remain - chunk) (i + t) h below more eq refl (omega arith) in
              let (lo, hi) = clusters.valid (i + t) inside in
              let one : u32 (last + 1) ≡ last + 1 = omega (arith, IsFat-small d.fat, el) in
              rw (u, f, e, one)
                (elim (Bool-cases (cl (i + t + 1) == last + 1)) [
                  | inl on ↦
                      let step : cl (i + t + 1) ≡ cl (i + (t + 1)) = ap cl (omega arith) in
                      let follows : cl (i + t + 1) ≡ last + 1 = ground (arith, on) in
                      let run' : (k : ℕ) → k < t + 1 + 1 → cl (i + k) ≡ cl i + k = λ k hk.
                        elim (dec_lt k (t + 1)) [
                          | yes before ↦ run k before
                          | no at ↦
                              let z : k ≡ t + 1 = omega arith in
                              rw z (sym step ∙ follows ∙ omega (arith, el, run t (omega arith)))
                        ] in
                      rw on (
                        group_clusters-IsGroup fuel v'
                          (record q' { cluster = cl (i + t + 1); sector = 0 }) (cl (i + t + 1))
                          (cl (i + t + 1)) (chunk + bytes_per_cluster) (t + 1) h' (omega arith) run'
                          step step step (omega (arith, sz)) (omega arith) room small
                          (omega (arith, enough)))
                  | inr stop ↦ rw stop (
                    _,
                    refl,
                    record {
                      more = t;
                      inside = inside;
                      contiguous = run;
                      last = el;
                      bytes = sz;
                      fits = le;
                      next = inr (more, refl);
                      volume = v';
                      same = refl;
                      holds = h';
                    },
                  )
                ])
        ]

  module _ (start len : ℕ) (buffer : Buffer) (bytes : (k : ℕ) → buffer k < 256) (errno : Errno)
      (bound : start + len ≤ m * bytes_per_cluster) where
    abbrev Here : Writing store p → Type 0
    Here x = Put store size p laws d base cl m clusters start len buffer bytes errno x

    -- A round leaves the position at the start of the next cluster, or at the end of the last one.
    pub write_group-Put :
        (x : Writing store p) (g : Group store p buffer) (h : Here x)
        → x.position.byte ≡ 0
        → x.position.sector ≡ 0
        → IsGroup buffer x h.after h.at.index h.put.below g
        → let y = write_group store p buffer g in
          Here y
          × (y.remain + g.chunk_size ≡ x.remain)
          × (y.position.byte ≡ 0)
          × ((y.position.sector ≡ sectors_per_cluster) ⊎ (y.position.sector ≡ 0))
    unfolding write_group is_valid_cluster
    write_group-Put x g h b z gr =
        let i = h.at.index in
        let n = (gr.more + 1) * sectors_per_cluster in
        let x0 = on_volume x gr.volume in
        let h0 : Here x0 = record {
          after = h.after;
          holds = gr.holds;
          put = h.put;
          fine = refl;
          kept_errno = h.kept_errno;
          sum = h.sum;
          at = h.at;
        } in
        let (lo, hi) = clusters.valid i h.at.inside in
        let (lo', hi') = clusters.valid (i + gr.more) gr.inside in
        let end = gr.contiguous gr.more (omega arith) in
        let (same, room) = run_inside p size d (cl i) gr.more lo (omega arith) in
        let size_ : n * bytes_per_sector ≡ g.chunk_size =
          omega (arith, gr.bytes, ap (λ (t : ℕ). (gr.more + 1) * t) d.cluster_size) in
        let (n_lem, r_lem) =
          div_mod_unique g.chunk_size n 0 bytes_per_sector (omega (arith, size_))
            (some_bytes p size d) in
        let sector : cluster_to_sector p x.position.cluster ≡ cluster_to_sector p (cl i) + 0 =
          ap (cluster_to_sector p) h.at.cluster ∙ omega arith in
        let here : start + x.ptr ≡ i * bytes_per_cluster + 0 * bytes_per_sector =
          omega (arith, h.at.offset, b, ap (λ (t : ℕ). t * bytes_per_sector) z) in
        let (ok, held, put) =
          run-IsPut store size p laws d base cl m clusters start len buffer bytes errno x0 h0 bound
            i (gr.more + 1) 0 n gr.contiguous lo (omega arith) (omega arith) (omega arith)
            (omega (arith, gr.inside)) here (omega (arith, size_, gr.fits)) (omega arith) in
        let put' = rw size_ at put in
        let after =
          put_run bytes_per_sector h.after (cluster_to_sector p (cl i) + 0) n (at_ptr buffer x.ptr)
            0 in
        let sum : x.ptr + g.chunk_size + (x.remain - g.chunk_size) ≡ len =
          omega (arith, h.sum, gr.fits) in
        let left : x.remain - g.chunk_size + g.chunk_size ≡ x.remain = omega (arith, gr.fits) in
        let valid = λ (c : ℕ). leb cluster_first c && leb c p.fat.last_cluster in
        rw (gr.same, sector, n_lem, ok)
          (elim gr.next [
            | inl e ↦
                let own : (not (g.chunk_end == g.next_chunk_start) && valid g.next_chunk_start)
                    ≡ false =
                  ground (arith, e) in
                rw own (
                  record {
                    after = after;
                    holds = held;
                    put = put';
                    fine = refl;
                    kept_errno = h.kept_errno;
                    sum = sum;
                    at = record {
                      index = i + gr.more;
                      inside = gr.inside;
                      cluster = gr.last;
                      offset = omega (arith, here, gr.bytes, b, d.cluster_size);
                      byte = h.at.byte;
                      sector = inr (refl, b);
                    };
                  },
                  left,
                  b,
                  inl refl,
                )
            | inr (more, e) ↦
                let apart : g.chunk_end ≢ g.next_chunk_start =
                  λ (w : g.chunk_end ≡ g.next_chunk_start).
                    let w' =
                      cl-injective p size d (table base p) cl m clusters (i + gr.more)
                        (i + gr.more + 1) gr.inside more (sym gr.last ∙ w ∙ e) in
                    absurd (omega arith) in
                let (lo'', hi'') = clusters.valid (i + gr.more + 1) more in
                let own : (not (g.chunk_end == g.next_chunk_start) && valid g.next_chunk_start)
                    ≡ true =
                  ground (arith, apart, e, lo'', hi'') in
                rw own (
                  record {
                    after = after;
                    holds = held;
                    put = put';
                    fine = refl;
                    kept_errno = h.kept_errno;
                    sum = sum;
                    at = record {
                      index = i + gr.more + 1;
                      inside = more;
                      cluster = e;
                      offset = omega (arith, here, gr.bytes, b);
                      byte = h.at.byte;
                      sector = inl d.some_sectors;
                    };
                  },
                  left,
                  b,
                  inr refl,
                )
          ])
