-- ===== src/Loader/Fat32/Sectors.antt =====
-- Reading of sectors, and the entries of the FAT that go through the context's buffer (`get_fat32_entry`
-- of loader/grub_loader/fs/fat32.c).
use tay_huang_os.Prelude.{
  ℕ, true, ◌+◌, ◌-◌, ◌*◌, ◌/◌, ◌%◌, ◌^◌, ◌≤◌, ◌<◌, ◌≡◌, ◌⊎◌, inl, inr, refl, sym, ap, ◌∙◌, arith,
  leb, ltb, if◌then◌else◌, Bool-cases,
}
use tay_huang_os.Loader.Fat32.{
  Memory, dword_at, Fat32Context, read_sector, partition_sector, get_fat32_entry,
}

-- The four bytes of a dword decide it.
pub dword_at_same :
    (f g : Memory) (p q : ℕ)
    → ((k : ℕ) → k < 4 → f (p + k) ≡ g (q + k))
    → dword_at f p ≡ dword_at g q
dword_at_same f g p q h =
    let z : (n : ℕ) → n ≡ n + 0 = λ n. omega arith in
    let t : (n : ℕ) → n + 2 + 1 ≡ n + 3 = λ n. omega arith in
    let e0 : f p ≡ g q = ap f (z p) ∙ h 0 (omega arith) ∙ ap g (sym (z q)) in
    let e1 = h 1 (omega arith) in
    let e2 = h 2 (omega arith) in
    let e3 : f (p + 2 + 1) ≡ g (q + 2 + 1) = ap f (t p) ∙ h 3 (omega arith) ∙ ap g (sym (t q)) in
    cc (e0, e1, e2, e3)

-- The first byte of the FAT on its disk.
abbrev pub fat_at : Fat32Context → ℕ
fat_at context = 512 * (context.start_lba + context.fat1_start)

abbrev pub starting : Fat32Context → ℕ → Fat32Context
starting context b = record context { buffer_start = b }

-- The first sector in the buffer after the entry of `x` was asked for.
abbrev pub next_start : ℕ → ℕ → ℕ
next_start b x = if leb (b + 4) (x / 128) then x / 128 else b

-- The sector with the entry of `x`, in the 28 bits of the drive.
abbrev pub InFat : Fat32Context → ℕ → Type 0
InFat context x = context.start_lba + context.fat1_start + x / 128 < 2 ^ 28

-- The memory after the entry of `x` was asked for: nothing outside the buffer has changed.
abbrev pub SameOutside : Fat32Context → Memory → Memory → Type 0
SameOutside context mem mem' =
    (a : ℕ) → (a < context.fat_buffer) ⊎ (context.fat_buffer + 2048 ≤ a) → mem' a ≡ mem a

-- The address that an entry is read from when its sector is in the buffer from number `b` on.
abbrev slot : Fat32Context → ℕ → ℕ → ℕ
slot context b x = (x / 128 - b) * 512 + x % 128 * 4

module _ (disk : ℕ → ℕ → ℕ) where
  pub read_sector-inside :
      (lba num selector dst i : ℕ) (mem : Memory)
      → lba < 2 ^ 28
      → i < 512 * num
      → read_sector disk lba num selector dst mem (dst + i) ≡ disk selector (512 * lba + i)
  unfolding read_sector
  read_sector-inside lba num selector dst i mem h l =
      let in1 : leb dst (dst + i) ≡ true = ground arith in
      let in2 : ltb (dst + i) (dst + 512 * num) ≡ true = ground arith in
      let at : 512 * (lba % 2 ^ 28) + (dst + i - dst) ≡ 512 * lba + i = omega arith in
      rw (in1, in2) (ap (disk selector) at)

  pub read_sector-outside :
      (lba num selector dst a : ℕ) (mem : Memory)
      → (a < dst) ⊎ (dst + 512 * num ≤ a)
      → read_sector disk lba num selector dst mem a ≡ mem a
  unfolding read_sector
  read_sector-outside lba num selector dst a mem h = ground arith

  -- The entry of cluster `x` on the disk.
  abbrev pub fat_entry : Fat32Context → ℕ → ℕ
  fat_entry context x = dword_at (disk context.selector) (fat_at context + 4 * x)

  -- The buffer holds the four sectors of the FAT from number `b` on.
  abbrev pub IsBuffered : Fat32Context → ℕ → Memory → Type 0
  IsBuffered context b mem =
      (i : ℕ)
      → i < 2048
      → mem (context.fat_buffer + i) ≡ disk context.selector (fat_at context + 512 * b + i)

  -- The memory with the sectors of the FAT from the one with the entry of `x` on in the buffer.
  abbrev refilled : Fat32Context → ℕ → Memory → Memory
  refilled context x mem =
      partition_sector disk context (x / 128 + context.fat1_start) 4 context.fat_buffer mem

  refilled-IsBuffered :
      (context : Fat32Context) (x : ℕ) (mem : Memory)
      → InFat context x
      → IsBuffered context (x / 128) (refilled context x mem)
  refilled-IsBuffered context x mem f i h =
      let lba = (context.start_lba + (x / 128 + context.fat1_start)) % 2 ^ 32 in
      let e : lba ≡ context.start_lba + context.fat1_start + x / 128 = omega arith in
      read_sector-inside lba 4 context.selector context.fat_buffer i mem (omega arith) (omega arith)
      ∙ ap (disk context.selector) (omega (arith, e))

  entry-IsBuffered :
      (context : Fat32Context) (b x : ℕ) (mem : Memory)
      → IsBuffered context b mem
      → b ≤ x / 128
      → x / 128 < b + 4
      → dword_at mem (context.fat_buffer + slot context b x) ≡ fat_entry context x
  entry-IsBuffered context b x mem buf lo hi =
      dword_at_same mem (disk context.selector) (context.fat_buffer + slot context b x)
        (fat_at context + 4 * x)
        (λ k h.
          ap mem (omega arith)
          ∙ buf (slot context b x + k) (omega arith)
          ∙ ap (disk context.selector) (omega arith))

  -- The same at the address that the code computes, with sectors of 512 bytes.
  slot-IsBuffered :
      (context : Fat32Context) (b x : ℕ) (mem : Memory)
      → context.infomations.bytes_per_sector ≡ 512
      → IsBuffered context b mem
      → b ≤ x / 128
      → x / 128 < b + 4
      → dword_at mem (
          context.fat_buffer + ((x / 128 - b) * context.infomations.bytes_per_sector + x % 128 * 4))
        ≡ fat_entry context x
  slot-IsBuffered context b x mem bps buf lo hi =
      ap (λ (n : ℕ). dword_at mem (context.fat_buffer + ((x / 128 - b) * n + x % 128 * 4))) bps
      ∙ entry-IsBuffered context b x mem buf lo hi

  -- What `get_fat32_entry` gives when it need not go back: the entry on the disk, with the buffer
  -- filled from the sector `next_start`.
  pub record IsNextRead (context : Fat32Context) (b x : ℕ) (mem : Memory) : Type 0 where
    pub mem' : Memory
    pub result :
        get_fat32_entry disk (starting context b) x mem
        ≡ (fat_entry context x, starting context (next_start b x), mem')
    pub buffered : IsBuffered context (next_start b x) mem'
    pub same : SameOutside context mem mem'

  -- Asking for the entry of a cluster whose sector is not before the buffer gives the entry on the
  -- disk; the buffer still holds part of the FAT, and no other memory changes.
  pub get_fat32_entry-IsNextRead :
      (context : Fat32Context) (b x : ℕ) (mem : Memory)
      → context.infomations.bytes_per_sector ≡ 512
      → IsBuffered context b mem
      → b ≤ x / 128
      → InFat context x
      → IsNextRead context b x mem
  unfolding get_fat32_entry
  get_fat32_entry-IsNextRead context b x mem bps buf lo f =
      elim (Bool-cases (leb (b + 4) (x / 128))) [
        | inl out ↦
            let num = x / 128 in
            let mem' = refilled context x mem in
            let buf' = refilled-IsBuffered context x mem f in
            let le : leb num num ≡ true = ground arith in
            record {
              mem' = mem';
              result =
                  rw (out, le)
                    (ap (λ (v : ℕ). (v, starting context num, mem'))
                      (slot-IsBuffered context num x mem' bps buf' (omega arith) (omega arith)));
              buffered = rw out buf';
              same = λ a h.
                  read_sector-outside _ 4 context.selector context.fat_buffer a mem
                    (omega (arith, h));
            }
        | inr in' ↦
            let le : leb b (x / 128) ≡ true = ground arith in
            record {
              mem' = mem;
              result =
                  rw (in', le)
                    (ap (λ (v : ℕ). (v, starting context b, mem))
                      (slot-IsBuffered context b x mem bps buf lo (ground arith)));
              buffered = rw in' buf;
              same = λ a h. refl;
            }
      ]
