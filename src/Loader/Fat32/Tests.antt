-- ===== src/Loader/Fat32/Tests.antt =====
-- Runs of loader/grub_loader/fs/fat32.c on a small disk: its first partition starts at sector 1, its FAT
-- at sector 2, its root directory is cluster 2, in sector 3, and lists one file, cluster 3, in sector 4.
use tay_huang_os.Prelude.{
  ℕ, zero, suc, true, some, List, [], ◌∷◌, ◌+◌, ◌-◌, ◌==◌, ◌&&◌, ◌||◌, ◌++◌, ◌≡◌, ◌⊎◌, inl, inr,
  refl, ap, arith, leb, ltb, if◌then◌else◌,
}
use tay_huang_os.Kernel.Strings.{strcmp}
use tay_huang_os.Loader.Fat32.{
  Memory, Places, get_fat32_entry, get_file_start_clus, load_fat32_file, is_fat32, get_partition,
  read_sector,
}
use tay_huang_os.Loader.Fat32.Convert.{text, null, split_dot, convert}
use tay_huang_os.Loader.Fat32.Sectors.{starting, IsBuffered}
use tay_huang_os.Loader.Fat32.Clusters.{IsLoaded}
use tay_huang_os.Loader.Fat32.Stale.{get_fat32_entry_stale}
use tay_huang_os.Loader.Fat32.Directory.{IsListed, IsMissing, get_file_start_clus-first}
use tay_huang_os.Loader.Fat32.Volume.{
  volume, IsOpened, load_fat32_file-IsLoaded, load_fat32_fs-IsOpened,
}

-- The byte of a list at a place, or 0.
abbrev nth : List ℕ → ℕ → ℕ
nth [] n = 0
nth (c ∷ cs) zero = c
nth (c ∷ cs) (suc n) = nth cs n

abbrev file_name : List ℕ
file_name = b'K' ∷ b'E' ∷ b'R' ∷ b'N' ∷ b'E' ∷ b'L' ∷ 32 ∷ 32 ∷ b'B' ∷ b'I' ∷ b'N' ∷ []

-- The end of a file, as an entry of the FAT.
abbrev ended : List ℕ
ended = 255 ∷ 255 ∷ 255 ∷ 15 ∷ []

abbrev superblock : ℕ → ℕ
superblock n =
    if n == 12
    then 2
    else if (n == 13) || (n == 14) || (n == 16) || (n == 36)
    then 1
    else if n == 44
    then 2
    else 0

abbrev disk : ℕ → ℕ → ℕ
disk selector q =
    if ltb q 512
    then if q == 454 then 1 else 0
    else if ltb q 1024
    then superblock (q - 512)
    else if ltb q 1536
    then if leb 1032 q then nth (ended ++ ended) (q - 1032) else 0
    else if ltb q 2048
    then if q == 1562 then 3 else nth file_name (q - 1536)
    else nth (7 ∷ 8 ∷ []) (q - 2048)

abbrev places : Places
places = record {
  superblock = 20000;
  table = 10000;
  root_directory = 30000;
  fat_buffer = 40000;
  old_selector = 0;
}

load_fat32_fs-IsOpened_example : IsOpened disk 2 places 0 0 (λ a. 0) (2 ∷ [])
load_fat32_fs-IsOpened_example =
    load_fat32_fs-IsOpened disk 2 places 0 0 (λ a. 0) (2 ∷ []) (omega arith) refl (omega arith) refl
      (omega arith) (inr (omega arith))
      (refl, omega arith, omega arith, omega arith, omega arith, omega arith, omega arith)

-- The memory with the root directory and the buffer of the FAT.
abbrev opened : Memory
opened a =
    if leb 40000 a
    then disk 0 (1024 + (a - 40000))
    else if leb 30000 a && ltb a 30512
    then disk 0 (1536 + (a - 30000))
    else 0

opened-IsBuffered : IsBuffered disk (volume disk places 0 0) 0 opened
opened-IsBuffered i h =
    let e : leb 40000 (40000 + i) ≡ true = ground arith in
    let at : 1024 + (40000 + i - 40000) ≡ 1024 + i = omega arith in rw e (ap (disk 0) at)

file_name-IsListed : IsListed opened file_name 2048 30000 3
file_name-IsListed = record {
  index = 0;
  inside = omega arith;
  here = refl;
  first = λ j h m. absurd (omega arith);
  cluster = refl;
}

abbrev typed_name : List ℕ
typed_name = b'k' ∷ b'e' ∷ b'r' ∷ b'n' ∷ b'e' ∷ b'l' ∷ b'.' ∷ b'b' ∷ b'i' ∷ b'n' ∷ []

convert_runs : convert typed_name ≡ text file_name
unfolding convert split_dot
convert_runs = refl

load_fat32_file-IsLoaded_example :
    (l : IsLoaded disk 2 (volume disk places 0 0) 0 3 50000 opened (3 ∷ [])) × (load_fat32_file disk
        2
        (starting (volume disk places 0 0) 0)
        typed_name
        50000
        opened
      ≡ some (true, starting (volume disk places 0 0) l.start, l.mem'))
load_fat32_file-IsLoaded_example =
    load_fat32_file-IsLoaded disk 2 (volume disk places 0 0) 0 3 50000 opened typed_name file_name
      (3 ∷ []) convert_runs refl (ground arith) file_name-IsListed (ground arith) (omega arith) refl
      (inl (omega arith))
      (refl, omega arith, omega arith, omega arith, omega arith, omega arith, omega arith)
      opened-IsBuffered

-- The buffer starts with the second sector of the FAT, and the entry of cluster 5 is in the first.
abbrev moved_on : Memory
moved_on a = if leb 40000 a then disk 0 (1536 + (a - 40000)) else 0

moved_on-IsBuffered : IsBuffered disk (volume disk places 0 0) 1 moved_on
moved_on-IsBuffered i h =
    let e : leb 40000 (40000 + i) ≡ true = ground arith in
    let at : 1536 + (40000 + i - 40000) ≡ 1536 + i = omega arith in rw e (ap (disk 0) at)

get_fat32_entry_stale_example :
    (mem' : Memory) × IsBuffered disk (volume disk places 0 0) 1 mem'
    × (get_fat32_entry disk (starting (volume disk places 0 0) 1) 5 mem'
        ≡ (77, starting (volume disk places 0 0) 1, mem'))
get_fat32_entry_stale_example =
    get_fat32_entry_stale disk (volume disk places 0 0) 1 5 77 moved_on refl (omega arith)
      (omega arith) (omega arith) moved_on-IsBuffered

get_file_start_clus-first_example :
    IsListed opened file_name 2048 30000
      (get_file_start_clus (volume disk places 0 0) file_name opened)
    ⊎ IsMissing opened file_name 2048 30000
        (get_file_start_clus (volume disk places 0 0) file_name opened)
get_file_start_clus-first_example =
    get_file_start_clus-first (volume disk places 0 0) file_name opened refl (ground arith)

-- A name of nine characters before the dot.
convert_refuses :
    convert (b'a' ∷ b'b' ∷ b'c' ∷ b'd' ∷ b'e' ∷ b'f' ∷ b'g' ∷ b'h' ∷ b'i' ∷ b'.' ∷ b'c' ∷ []) ≡ null
unfolding convert split_dot
convert_refuses = refl

-- A superblock without any name of a file system is taken for FAT32.
is_fat32_always : (is_fat32 disk places 0 0 (λ a. 0)).0 ≡ true
unfolding is_fat32 get_partition read_sector strcmp
is_fat32_always = refl
