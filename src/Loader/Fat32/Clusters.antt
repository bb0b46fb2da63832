-- ===== src/Loader/Fat32/Clusters.antt =====
-- Files as chains of clusters (`__load_file` of loader/grub_loader/fs/fat32.c).
use tay_huang_os.Prelude.{
  ℕ, zero, suc, true, false, some, List, [], ◌∷◌, ◌+◌, ◌-◌, ◌*◌, ◌/◌, ◌%◌, ◌^◌, ◌≤◌, ◌<◌, ◌≡◌, ◌⊎◌,
  refl, ap, ◌∙◌, arith, length, ltb,
}
use native.Mathlib.Nat.{add-mul}
use tay_huang_os.Loader.Fat32.{
  Memory, Fat32Context, partition_sector, load_clusters, sector_of, end_of_file,
}
use tay_huang_os.Loader.Fat32.Sectors.{
  read_sector-inside, read_sector-outside, fat_entry, starting, IsBuffered, next_start, InFat,
  IsNextRead, get_fat32_entry-IsNextRead,
}

-- The bytes from one cluster to the next in memory, and the first byte of a cluster on its disk.
abbrev pub step : Fat32Context → ℕ
step context = context.infomations.sectors_per_clus * context.infomations.bytes_per_sector

abbrev pub data_sector : Fat32Context → ℕ → ℕ
data_sector context x = context.data_start + (x - 2) * context.infomations.sectors_per_clus

abbrev pub cluster_at : Fat32Context → ℕ → ℕ
cluster_at context x = 512 * (context.start_lba + data_sector context x)

-- The end of the clusters `xs` that are loaded from `dst` on.
abbrev pub span : Fat32Context → ℕ → List ℕ → ℕ
span context dst [] = dst
span context dst (x ∷ xs) = span context (dst + step context) xs

span_above : (context : Fat32Context) (dst : ℕ) (xs : List ℕ) → dst ≤ span context dst xs
span_above context dst [] = omega arith
span_above context dst (x ∷ xs) = omega (arith, span_above context (dst + step context) xs)

-- The memory from `dst` on and the buffer of the FAT share no byte.
abbrev pub Beside : Fat32Context → ℕ → List ℕ → Type 0
Beside context dst xs =
    (context.fat_buffer + 2048 ≤ dst) ⊎ (span context dst xs ≤ context.fat_buffer)

sector_of_data :
    (context : Fat32Context) (x : ℕ)
    → 2 ≤ x
    → context.start_lba + data_sector context x < 2 ^ 28
    → sector_of context x ≡ data_sector context x
sector_of_data context x h g =
    let n = context.infomations.sectors_per_clus in
    let e : x + (2 ^ 32 - 2) ≡ x - 2 + 2 ^ 32 = omega arith in
    let m : (x + (2 ^ 32 - 2)) * n ≡ (x - 2) * n + 2 ^ 32 * n =
      ap (λ (t : ℕ). t * n) e ∙ add-mul (x - 2) (2 ^ 32) n in
    omega (arith, m, g)

module _ (disk : ℕ → ℕ → ℕ) where
  -- The clusters of the file that starts with cluster `c` are `xs`, the FAT tells, and each of their
  -- entries stands in the buffer, which starts with sector `b`, or behind it.
  abbrev pub IsFile : Fat32Context → ℕ → ℕ → List ℕ → Type 0
  IsFile context b c [] = end_of_file ≤ c
  IsFile context b c (x ∷ xs) =
      (c ≡ x)
      × (2 ≤ x)
      × (x < end_of_file)
      × (context.start_lba + data_sector context x < 2 ^ 28)
      × (b ≤ x / 128)
      × InFat context x
      × IsFile context (next_start b x) (fat_entry disk context x) xs

  -- The bytes of the clusters stand one behind the other from `dst` on.
  abbrev pub Contents : Fat32Context → Memory → ℕ → List ℕ → Type 0
  Contents context mem dst [] = Unit
  Contents context mem dst (x ∷ xs) =
      ((i : ℕ)
        → i < step context
        → mem (dst + i) ≡ disk context.selector (cluster_at context x + i))
      × Contents context mem (dst + step context) xs

  -- What loading a file does: the result, the bytes, the buffer, and the memory that stays.
  pub record IsLoaded (fuel : ℕ) (context : Fat32Context) (b c dst : ℕ) (mem : Memory) (xs : List ℕ)
      : Type 0 where
    pub start : ℕ
    pub mem' : Memory
    pub result :
        load_clusters disk fuel (starting context b) c dst mem ≡ some (starting context start, mem')
    pub contents : Contents context mem' dst xs
    pub buffered : IsBuffered disk context start mem'
    pub same :
        (a : ℕ)
        → (a < context.fat_buffer) ⊎ (context.fat_buffer + 2048 ≤ a)
        → (a < dst) ⊎ (span context dst xs ≤ a)
        → mem' a ≡ mem a

  -- The memory with one more cluster.
  abbrev one_more : Fat32Context → ℕ → ℕ → Memory → Memory
  one_more context x dst mem =
      partition_sector disk context (sector_of context x) context.infomations.sectors_per_clus dst
        mem

  one_more-inside :
      (context : Fat32Context) (x dst i : ℕ) (mem : Memory)
      → context.infomations.bytes_per_sector ≡ 512
      → 2 ≤ x
      → context.start_lba + data_sector context x < 2 ^ 28
      → i < step context
      → one_more context x dst mem (dst + i) ≡ disk context.selector (cluster_at context x + i)
  one_more-inside context x dst i mem bps h g l =
      let n = context.infomations.sectors_per_clus in
      let e = sector_of_data context x h g in
      let z : step context ≡ n * 512 = ap (λ (t : ℕ). n * t) bps in
      let lba : (context.start_lba + sector_of context x) % 2 ^ 32
          ≡ context.start_lba + data_sector context x =
        omega (arith, e, g) in
      read_sector-inside disk _ n context.selector dst i mem (omega (arith, lba, g))
        (omega (arith, z, l))
      ∙ ap (λ (t : ℕ). disk context.selector (512 * t + i)) lba

  one_more-outside :
      (context : Fat32Context) (x dst a : ℕ) (mem : Memory)
      → context.infomations.bytes_per_sector ≡ 512
      → (a < dst) ⊎ (dst + step context ≤ a)
      → one_more context x dst mem a ≡ mem a
  one_more-outside context x dst a mem bps h =
      let n = context.infomations.sectors_per_clus in
      let z : step context ≡ n * 512 = ap (λ (t : ℕ). n * t) bps in
      read_sector-outside disk _ n context.selector dst a mem (omega (arith, z, h))

  one_more-IsBuffered :
      (context : Fat32Context) (b x dst : ℕ) (mem : Memory) (xs : List ℕ)
      → context.infomations.bytes_per_sector ≡ 512
      → Beside context dst (x ∷ xs)
      → IsBuffered disk context b mem
      → IsBuffered disk context b (one_more context x dst mem)
  one_more-IsBuffered context b x dst mem xs bps beside buf i h =
      one_more-outside context x dst (context.fat_buffer + i) mem bps
        (omega (arith, beside, span_above context (dst + step context) xs))
      ∙ buf i h

  -- The bytes stay while nothing is written between `dst` and the end of the clusters.
  Contents-same :
      (context : Fat32Context) (mem mem' : Memory) (dst : ℕ) (xs : List ℕ)
      → ((a : ℕ) → dst ≤ a → a < span context dst xs → mem' a ≡ mem a)
      → Contents context mem dst xs
      → Contents context mem' dst xs
  Contents-same context mem mem' dst [] h c = tt
  Contents-same context mem mem' dst (x ∷ xs) h (c, cs) =
      let above = span_above context (dst + step context) xs in
      (
        λ i l. h (dst + i) (omega arith) (omega (arith, l, above)) ∙ c i l,
        Contents-same context mem mem' (dst + step context) xs
            (λ a lo hi. h a (omega (arith, lo)) hi) cs,
      )

  IsLoaded-none :
      (fuel : ℕ) (context : Fat32Context) (b c dst : ℕ) (mem : Memory)
      → end_of_file ≤ c
      → IsBuffered disk context b mem
      → IsLoaded (suc fuel) context b c dst mem []
  unfolding load_clusters
  IsLoaded-none fuel context b c dst mem h buf =
      let e : ltb c end_of_file ≡ false = ground arith in
      record {
        start = b;
        mem' = mem;
        result = rw e refl;
        contents = tt;
        buffered = buf;
        same = λ a h1 h2. refl;
      }

  IsLoaded-step :
      (fuel : ℕ) (context : Fat32Context) (b c x dst : ℕ) (mem : Memory) (xs : List ℕ)
      → context.infomations.bytes_per_sector ≡ 512
      → Beside context dst (x ∷ xs)
      → IsFile context b c (x ∷ xs)
      → (entry : IsNextRead disk context b x (one_more context x dst mem))
      → IsLoaded fuel context
          (next_start b x)
          (fat_entry disk context x)
          (dst + step context)
          entry.mem'
          xs
      → IsLoaded (suc fuel) context b c dst mem (x ∷ xs)
  unfolding load_clusters
  IsLoaded-step fuel context b c x dst mem xs bps beside (here, two, more, indata, lo, fat, file)
        entry rest =
      let e : ltb x end_of_file ≡ true = ground arith in
      let above = span_above context (dst + step context) xs in
      record {
        start = rest.start;
        mem' = rest.mem';
        result = rw here (rw (e, entry.result) rest.result);
        contents = (
          λ i l.
              rest.same (dst + i) (omega (arith, beside, l, above)) (omega (arith, l))
              ∙ entry.same (dst + i) (omega (arith, beside, l, above))
              ∙ one_more-inside context x dst i mem bps two indata l,
          rest.contents,
        );
        buffered = rest.buffered;
        same = λ a buffer out.
            rest.same a buffer (omega (arith, out, above))
            ∙ entry.same a buffer
            ∙ one_more-outside context x dst a mem bps (omega (arith, out, above));
      }

  -- A file whose clusters are a chain of the FAT, which the buffer meets in order, is loaded with fuel
  -- for each cluster: its bytes stand from `dst` on, and no other memory but the buffer changes.
  pub load_clusters-IsLoaded :
      (fuel : ℕ) (context : Fat32Context) (b c dst : ℕ) (mem : Memory) (xs : List ℕ)
      → length xs < fuel
      → context.infomations.bytes_per_sector ≡ 512
      → Beside context dst xs
      → IsFile context b c xs
      → IsBuffered disk context b mem
      → IsLoaded fuel context b c dst mem xs
  load_clusters-IsLoaded zero context b c dst mem xs h bps beside file buf = absurd (omega arith)
  load_clusters-IsLoaded (suc fuel) context b c dst mem [] h bps beside file buf =
      IsLoaded-none fuel context b c dst mem file buf
  load_clusters-IsLoaded (suc fuel) context b c dst mem (x ∷ xs) h bps beside file buf =
      let (e, two, more, indata, lo, fat, tail) = file in
      let entry =
        get_fat32_entry-IsNextRead disk context b x (one_more context x dst mem) bps
          (one_more-IsBuffered context b x dst mem xs bps beside buf) lo fat in
      IsLoaded-step fuel context b c x dst mem xs bps beside file entry (
        load_clusters-IsLoaded fuel context (next_start b x) (fat_entry disk context x)
          (dst + step context) entry.mem' xs (omega arith) bps (omega (arith, beside)) tail
          entry.buffered)
