-- ===== src/Loader/Fat32/Volume.antt =====
-- Opening a volume and loading a file of it (`load_fat32_fs` and `load_fat32_file` of
-- loader/grub_loader/fs/fat32.c).
use tay_huang_os.Prelude.{
  ℕ, true, false, some, List, ◌+◌, ◌*◌, ◌%◌, ◌^◌, ◌<◌, ◌==◌, ◌≡◌, ◌≢◌, sym, ap, ◌∙◌, arith, length,
}
use tay_huang_os.Loader.Fat32.{
  Memory, word_at, dword_at, Infomations, Fat32Context, infomations_at, Places, new_context, loaded,
  load_fat32_file, load_fat32_fs, get_file_start_clus, get_partition, load_root, load_superblock,
  read_sector, partition_sector, not_found, fat_buffer_sectors,
}
use tay_huang_os.Loader.Fat32.Convert.{text, convert}
use tay_huang_os.Loader.Fat32.Sectors.{dword_at_same, read_sector-inside, starting, IsBuffered}
use tay_huang_os.Loader.Fat32.Clusters.{Beside, IsFile, Contents, IsLoaded, load_clusters-IsLoaded}
use tay_huang_os.Loader.Fat32.Directory.{AllNonzero, IsListed, IsListed-get_file_start_clus}

-- `f` from `p` on and `g` from `q` on hold the same sector.
abbrev SameSector : Memory → ℕ → Memory → ℕ → Type 0
SameSector f p g q = (i : ℕ) → i < 512 → f (p + i) ≡ g (q + i)

word_at_same :
    (f g : Memory) (p q i : ℕ)
    → SameSector f p g q
    → i + 1 < 512
    → word_at f (p + i) ≡ word_at g (q + i)
word_at_same f g p q i h l =
    let t : (n : ℕ) → n + i + 1 ≡ n + (i + 1) = λ n. omega arith in
    let e : f (p + i + 1) ≡ g (q + i + 1) = ap f (t p) ∙ h (i + 1) l ∙ ap g (sym (t q)) in
    cc (h i (omega (arith, l)), e)

dword_at_sector :
    (f g : Memory) (p q i : ℕ)
    → SameSector f p g q
    → i + 3 < 512
    → dword_at f (p + i) ≡ dword_at g (q + i)
dword_at_sector f g p q i h l = dword_at_same f g (p + i) (q + i) (λ k less.
    let t : (n : ℕ) → n + i + k ≡ n + (i + k) = λ n. omega arith in
    ap f (t p) ∙ h (i + k) (omega (arith, less, l)) ∙ ap g (sym (t q)))

infomations_at_same :
    (f g : Memory) (p q : ℕ) → SameSector f p g q → infomations_at f p ≡ infomations_at g q
infomations_at_same f g p q h =
    let w11 = word_at_same f g p q 11 h (omega arith) in
    let w14 = word_at_same f g p q 14 h (omega arith) in
    let d36 = dword_at_sector f g p q 36 h (omega arith) in
    let d44 = dword_at_sector f g p q 44 h (omega arith) in
    let b13 = h 13 (omega arith) in
    let b16 = h 16 (omega arith) in cc (w11, b13, w14, b16, d36, d44)

module _ (disk : ℕ → ℕ → ℕ) where
  -- With sectors of 512 bytes, a file that the directory lists under the converted name, 11 characters
  -- none of which is 0, whose clusters the FAT chains and the buffer meets in order, and whose place
  -- from `dst` on is apart from the FAT buffer, is loaded, if the loop has fuel for each cluster: the
  -- answer is true, and its clusters stand one behind the other from `dst` on.
  pub load_fat32_file-IsLoaded :
      (fuel : ℕ) (context : Fat32Context) (b c dst : ℕ) (mem : Memory) (name entry xs : List ℕ)
      → convert name ≡ text entry
      → length entry ≡ 11
      → AllNonzero entry
      → IsListed mem entry 2048 context.root_directory c
      → c ≢ not_found
      → length xs < fuel
      → context.infomations.bytes_per_sector ≡ 512
      → Beside context dst xs
      → IsFile disk context b c xs
      → IsBuffered disk context b mem
      → (l : IsLoaded disk fuel context b c dst mem xs) × (load_fat32_file disk fuel
            (starting context b)
            name
            dst
            mem
          ≡ some (true, starting context l.start, l.mem'))
  unfolding load_fat32_file
  load_fat32_file-IsLoaded fuel context b c dst mem name entry xs named eleven nz listed found h bps
        beside file buf =
      let l = load_clusters-IsLoaded disk fuel context b c dst mem xs h bps beside file buf in
      let e : get_file_start_clus (starting context b) entry mem ≡ c =
        IsListed-get_file_start_clus (starting context b) entry mem c eleven nz listed in
      let there : (c == not_found) ≡ false = ground arith in
      (l, rw (named, e) (rw there (ap loaded l.result)))

  -- Where a partition starts, and the superblock there.
  abbrev pub partition_start : ℕ → ℕ → ℕ
  partition_start selector number = dword_at (disk selector) (446 + number * 16 + 8)

  abbrev pub superblock_at : ℕ → ℕ → Infomations
  superblock_at selector number =
      infomations_at (disk selector) (512 * partition_start selector number)

  get_partition_lem :
      (buffer selector number : ℕ) (mem : Memory)
      → number < 4
      → (get_partition disk buffer selector number mem).0 ≡ partition_start selector number
  unfolding get_partition
  get_partition_lem buffer selector number mem h =
      dword_at_same (read_sector disk 0 1 selector buffer mem) (disk selector)
        (buffer + 446 + number * 16 + 8) (446 + number * 16 + 8)
        (λ k less.
          ap (read_sector disk 0 1 selector buffer mem) (omega arith)
          ∙ read_sector-inside disk 0 1 selector buffer (446 + number * 16 + 8 + k) mem
              (omega arith) (omega arith)
          ∙ ap (disk selector) (omega arith))

  superblock_lem :
      (places : Places) (selector number : ℕ) (mem : Memory)
      → partition_start selector number < 2 ^ 28
      → infomations_at
          (read_sector disk (partition_start selector number) 1 selector places.superblock mem)
          places.superblock
        ≡ superblock_at selector number
  superblock_lem places selector number mem h =
      infomations_at_same
        (read_sector disk (partition_start selector number) 1 selector places.superblock mem)
        (disk selector) places.superblock (512 * partition_start selector number)
        (λ i less.
          read_sector-inside disk (partition_start selector number) 1 selector places.superblock i
            mem h (omega arith))

  -- The context that the disk describes.
  abbrev pub volume : Places → ℕ → ℕ → Fat32Context
  volume places selector number =
      new_context places selector (partition_start selector number) (superblock_at selector number)

  -- What opening a volume gives.
  pub record IsOpened (fuel : ℕ) (places : Places) (selector number : ℕ) (mem : Memory)
      (xs : List ℕ) : Type 0 where
    pub start : ℕ
    pub mem' : Memory
    pub result :
        load_fat32_fs disk fuel places selector number mem
        ≡ some (starting (volume places selector number) start, mem')
    pub root : Contents disk (volume places selector number) mem' places.root_directory xs
    pub buffered : IsBuffered disk (volume places selector number) start mem'

  first_buffer :
      (context : Fat32Context) (mem : Memory)
      → context.start_lba + context.fat1_start < 2 ^ 28
      → IsBuffered disk context 0 (
          partition_sector disk context context.fat1_start fat_buffer_sectors context.fat_buffer
            mem)
  first_buffer context mem h i less =
      let lba = (context.start_lba + context.fat1_start) % 2 ^ 32 in
      let e : lba ≡ context.start_lba + context.fat1_start = omega arith in
      read_sector-inside disk lba 4 context.selector context.fat_buffer i mem (omega (arith, e, h))
        (omega arith)
      ∙ ap (disk context.selector) (omega (arith, e))

  -- One of the first four partitions, with sectors of 512 bytes and its FAT below the sector 2^28, whose
  -- root directory is a chain of the FAT in the order of the buffer that does not reach the FAT buffer
  -- where it is loaded, is opened with the context that its superblock describes, if the loop has fuel
  -- for each cluster: the root directory stands in its place, and the buffer holds part of the FAT. The
  -- memory that the context is made of holds the disk's selector already, as the superblock is read
  -- before it is set.
  pub load_fat32_fs-IsOpened :
      (fuel : ℕ) (places : Places) (selector number : ℕ) (mem : Memory) (xs : List ℕ)
      → let context = volume places selector number in
        let info = superblock_at selector number in
        number < 4
        → places.old_selector ≡ selector
        → partition_start selector number + info.reversed_sectors < 2 ^ 28
        → info.bytes_per_sector ≡ 512
        → length xs < fuel
        → Beside context places.root_directory xs
        → IsFile disk context 0 info.root_directory_start_clus xs
        → IsOpened fuel places selector number mem xs
  unfolding load_fat32_fs
  load_fat32_fs-IsOpened fuel places selector number mem xs four old fits bps h beside file =
      let context = volume places selector number in
      let start = partition_start selector number in
      let part = get_partition disk places.table selector number mem in
      let mem2 = read_sector disk start 1 selector places.superblock part.1 in
      let mem3 =
        partition_sector disk context context.fat1_start fat_buffer_sectors context.fat_buffer
          mem2 in
      let l =
        load_clusters-IsLoaded disk fuel context 0 context.infomations.root_directory_start_clus
          places.root_directory mem3 xs h bps beside file (first_buffer context mem2 fits) in
      let at = get_partition_lem places.table selector number mem four in
      let info = superblock_lem places selector number part.1 (omega (arith, fits)) in
      record {
        start = l.start;
        mem' = l.mem';
        result =
            ap
              (λ (st : ℕ).
                load_root disk fuel places selector st
                  (infomations_at (load_superblock disk places st part.1) places.superblock)
                  (load_superblock disk places st part.1))
              at
            ∙ ap
                (λ (o : ℕ).
                  let read = read_sector disk start 1 o places.superblock part.1 in
                  load_root disk fuel places selector start (infomations_at read places.superblock)
                    read)
                old
            ∙ ap (λ (i : Infomations). load_root disk fuel places selector start i mem2) info
            ∙ l.result;
        root = l.contents;
        buffered = l.buffered;
      }
