-- ===== src/Loader/Fat32.antt =====
-- Files of a FAT32 volume (loader/grub_loader/fs/fat32.c and common.c), with the two functions of
-- loader/grub_loader/disk.c that they call. Memory and disks hold bytes.
pub mod Convert
pub mod Sectors
pub mod Clusters
pub mod Stale
pub mod Names
pub mod Directory
pub mod Volume
mod Tests
use tay_huang_os.Prelude.{
  ℕ, zero, suc, Bool, true, false, Option, none, some, List, [], ◌∷◌, ◌++◌, ◌+◌, ◌-◌, ◌*◌, ◌/◌, ◌%◌,
  ◌^◌, ◌==◌, ◌&&◌, not, ltb, leb, length, if◌then◌else◌,
}
use mathlib.Core.Option
use tay_huang_os.Prelude.Int.{pos, ==ℤ}
use tay_huang_os.Kernel.Strings.{strcmp, until_zero}
use tay_huang_os.Kernel.Printk.Syntax.{upper_char}
use tay_huang_os.Loader.Fat32.Convert.{
  Converted, overrun, null, text, extension, split_dot, pad, with_extension, joined, convert,
}

abbrev pub Memory : Type 0
Memory = ℕ → ℕ

abbrev pub word_at : Memory → ℕ → ℕ
word_at mem a = mem a + 256 * mem (a + 1)

abbrev pub dword_at : Memory → ℕ → ℕ
dword_at mem a = word_at mem a + 65536 * word_at mem (a + 2)

-- `n` bytes from `a` on.
abbrev pub bytes_at : Memory → ℕ → ℕ → List ℕ
bytes_at mem a zero = []
bytes_at mem a (suc n) = mem a ∷ bytes_at mem (a + 1) n

-- The fields of the superblock that the code uses.
pub record Infomations : Type 0 where
  pub bytes_per_sector : ℕ
  pub sectors_per_clus : ℕ
  pub reversed_sectors : ℕ
  pub num_fats : ℕ
  pub fat_sectors : ℕ
  pub root_directory_start_clus : ℕ

-- `FAT32_CONTEXT`, with the start of its partition.
pub record Fat32Context : Type 0 where
  pub selector : ℕ
  pub start_lba : ℕ
  pub infomations : Infomations
  pub fat1_start : ℕ
  pub data_start : ℕ
  pub root_directory : ℕ
  pub fat_buffer : ℕ
  pub buffer_start : ℕ

abbrev pub fat32_entries_per_sector : ℕ
fat32_entries_per_sector = 128

abbrev pub fat_buffer_sectors : ℕ
fat_buffer_sectors = 4

abbrev pub fat32_entry_size : ℕ
fat32_entry_size = 4

-- The clusters from here on end a file.
abbrev pub end_of_file : ℕ
end_of_file = 268435440

-- A 32-bit pointer moved down.
abbrev pub lowered : ℕ → ℕ → ℕ
lowered p n = (p + (2 ^ 32 - n % 2 ^ 32)) % 2 ^ 32

-- The first sector of cluster `clus`, a dword.
abbrev pub sector_of : Fat32Context → ℕ → ℕ
sector_of context clus =
    (context.data_start + (clus + (2 ^ 32 - 2)) * context.infomations.sectors_per_clus) % 2 ^ 32

-- `disk` gives the bytes of each disk from its first on.
module _ (disk : ℕ → ℕ → ℕ) where
  -- `read_sector`: `num` sectors of 512 bytes, their number in the 28 bits of the drive's registers.
  unfoldable pub read_sector : ℕ → ℕ → ℕ → ℕ → Memory → Memory
  read_sector lba num selector dst mem a =
      if leb dst a && ltb a (dst + 512 * num)
      then disk selector (512 * (lba % 2 ^ 28) + (a - dst))
      else mem a

  -- `get_partition`: the field `start_lba` of the entry, which goes through `buffer`.
  unfoldable pub get_partition : ℕ → ℕ → ℕ → Memory → ℕ × Memory
  get_partition buffer selector number mem =
      let mem1 = read_sector 0 1 selector buffer mem in
      (dword_at mem1 (buffer + 446 + number * 16 + 8), mem1)

  -- `__read_sector`, in the partition.
  abbrev pub partition_sector : Fat32Context → ℕ → ℕ → ℕ → Memory → Memory
  partition_sector context lba num dst mem =
      read_sector ((context.start_lba + lba) % 2 ^ 32) num context.selector dst mem

  -- `get_fat32_entry`: the entry of cluster `last`, and the context and memory after.
  unfoldable pub get_fat32_entry : Fat32Context → ℕ → Memory → ℕ × Fat32Context × Memory
  get_fat32_entry context last mem =
      let num = last / fat32_entries_per_sector in
      let sector = num + context.fat1_start in
      let offset = last % fat32_entries_per_sector in
      let outside = leb (context.buffer_start + fat_buffer_sectors) num in
      let start = if outside then num else context.buffer_start in
      let mem1 =
        if outside
        then partition_sector context sector fat_buffer_sectors context.fat_buffer mem
        else mem in
      let bytes = context.infomations.bytes_per_sector in
      let place =
        if leb start num
        then context.fat_buffer + ((num - start) * bytes + offset * 4)
        else lowered (context.fat_buffer + offset * 4) ((start - num) * bytes) in
      (dword_at mem1 place, record context { buffer_start = start }, mem1)

  -- `__load_file`; `none` when the fuel runs out.
  unfoldable pub load_clusters : ℕ → Fat32Context → ℕ → ℕ → Memory → Option (Fat32Context × Memory)
  load_clusters zero context clus dst mem = none
  load_clusters (suc fuel) context clus dst mem =
      let info = context.infomations in
      let mem1 = partition_sector context (sector_of context clus) info.sectors_per_clus dst mem in
      let (next, context1, mem2) = get_fat32_entry context clus mem1 in
      let rest =
        load_clusters fuel context1 next (dst + info.sectors_per_clus * info.bytes_per_sector)
          mem2 in
      if ltb clus end_of_file then rest else some (context, mem)

-- `get_file_start_clus`: the search goes on in steps of FAT32_ENTRY_SIZE, four bytes.
abbrev pub start_clus_at : Memory → ℕ → ℕ
start_clus_at mem a = (word_at mem (a + 20) * 65536 + word_at mem (a + 26)) % 2 ^ 32

abbrev pub not_found : ℕ
not_found = 2 ^ 32 - 1

unfoldable pub find_name : ℕ → List ℕ → ℕ → Memory → ℕ
find_name zero name a mem = not_found
find_name (suc n) name a mem =
    let rest = find_name n name (a + fat32_entry_size) mem in
    if ==ℤ (strcmp name (until_zero (bytes_at mem a 11))) (pos 0) then start_clus_at mem a else rest

unfoldable pub get_file_start_clus : Fat32Context → List ℕ → Memory → ℕ
get_file_start_clus context name mem =
    if length name == 11
    then find_name (16 * fat32_entries_per_sector) name context.root_directory mem
    else not_found

-- What `convert` ends with: a read behind the name or a write behind the buffer of 12 bytes, NULL, or
abbrev pub fat32_context_magic : ℕ
fat32_context_magic = 2468899470

-- The fields of `struct fat32_info_struct` that stand in a superblock in memory.
abbrev pub infomations_at : Memory → ℕ → Infomations
infomations_at mem a = record {
  bytes_per_sector = word_at mem (a + 11);
  sectors_per_clus = mem (a + 13);
  reversed_sectors = word_at mem (a + 14);
  num_fats = mem (a + 16);
  fat_sectors = dword_at mem (a + 36);
  root_directory_start_clus = dword_at mem (a + 44);
}

-- The addresses that `lmalloc` gives for the superblock, the sector with the table of partitions, the
-- root directory and the buffer of the FAT, and the `selector` that stands in the new context.
pub record Places : Type 0 where
  pub superblock : ℕ
  pub table : ℕ
  pub root_directory : ℕ
  pub fat_buffer : ℕ
  pub old_selector : ℕ

abbrev pub loaded : Option (Fat32Context × Memory) → Option (Bool × Fat32Context × Memory)
loaded none = none
loaded (some (context, mem)) = some (true, context, mem)

-- The context that `load_fat32_fs` fills in before it loads the root directory.
abbrev pub new_context : Places → ℕ → ℕ → Infomations → Fat32Context
new_context places selector start_lba info = record {
  selector = selector;
  start_lba = start_lba;
  infomations = info;
  fat1_start = info.reversed_sectors;
  data_start = (info.reversed_sectors + info.num_fats * info.fat_sectors) % 2 ^ 32;
  root_directory = places.root_directory;
  fat_buffer = places.fat_buffer;
  buffer_start = 0;
}

module _ (disk : ℕ → ℕ → ℕ) where
  -- `load_fat32_file` with the converted name: the answer, and the context and memory after.
  abbrev pub load_named :
      ℕ → Fat32Context → Converted → ℕ → Memory → Option (Bool × Fat32Context × Memory)
  load_named fuel context overrun dst mem = none
  load_named fuel context null dst mem = some (false, context, mem)
  load_named fuel context (text name) dst mem =
      let clus = get_file_start_clus context name mem in
      if clus == not_found
      then some (false, context, mem)
      else loaded (load_clusters disk fuel context clus dst mem)

  -- `none` is an overrun of `convert`, or a load that ran out of fuel.
  unfoldable pub load_fat32_file :
      ℕ → Fat32Context → List ℕ → ℕ → Memory → Option (Bool × Fat32Context × Memory)
  load_fat32_file fuel context name dst mem = load_named fuel context (convert name) dst mem

  -- The end of `load_fat32_fs`, with the superblock in `info`: the buffer of the FAT, and the root
  -- directory.
  abbrev pub load_root : ℕ → Places → ℕ → ℕ → Infomations → Memory → Option (Fat32Context × Memory)
  load_root fuel places selector start_lba info mem =
      let context = new_context places selector start_lba info in
      load_clusters disk fuel context info.root_directory_start_clus context.root_directory
        (partition_sector disk context context.fat1_start fat_buffer_sectors context.fat_buffer mem)

  -- The superblock is read before `selector` is set.
  abbrev pub load_superblock : Places → ℕ → Memory → Memory
  load_superblock places start_lba mem =
      read_sector disk start_lba 1 places.old_selector places.superblock mem

  unfoldable pub load_fat32_fs : ℕ → Places → ℕ → ℕ → Memory → Option (Fat32Context × Memory)
  load_fat32_fs fuel places disk_selector partition_id mem =
      let (start_lba, mem1) = get_partition disk places.table disk_selector partition_id mem in
      let mem2 = load_superblock places start_lba mem1 in
      load_root fuel places disk_selector start_lba (infomations_at mem2 places.superblock) mem2

  -- `get_fs_type` of common.c: whether it gives FS_FAT32. The test is of `strcmp` not being 0.
  unfoldable pub is_fat32 : Places → ℕ → ℕ → Memory → Bool × Memory
  is_fat32 places disk_selector partition_id mem =
      let (start_lba, mem1) = get_partition disk places.table disk_selector partition_id mem in
      let mem2 = read_sector disk start_lba 1 disk_selector places.superblock mem1 in
      let name = until_zero (bytes_at mem2 (places.superblock + 54) 8) in
      (not (==ℤ (strcmp name (b'f' ∷ b'a' ∷ b't' ∷ b'3' ∷ b'2' ∷ [])) (pos 0)), mem2)

  -- `load_fs` of common.c; `some none` is the answer NULL.
  unfoldable pub load_fs : ℕ → Places → ℕ → ℕ → Memory → Option (Option Fat32Context × Memory)
  load_fs fuel places disk_selector partition_id mem =
      let (found, mem1) = is_fat32 places disk_selector partition_id mem in
      let context = load_fat32_fs fuel places disk_selector partition_id mem1 in
      if found then Option.map (λ r. (some r.0, r.1)) context else some (none, mem1)
