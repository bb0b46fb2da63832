-- ===== src/Loader/Fat32/Stale.antt =====
-- A file whose FAT entries go back before the buffer (`get_fat32_entry` of
-- loader/grub_loader/fs/fat32.c tests one end of the buffer only).
use tay_huang_os.Prelude.{
  ℕ, false, ◌+◌, ◌-◌, ◌*◌, ◌/◌, ◌%◌, ◌^◌, ◌≤◌, ◌<◌, ◌==◌, ◌&&◌, ◌≡◌, ap, ◌∙◌, arith, leb, ltb,
  if◌then◌else◌,
}
use tay_huang_os.Loader.Fat32.{Memory, dword_at, Fat32Context, get_fat32_entry, lowered}
use tay_huang_os.Loader.Fat32.Sectors.{starting, IsBuffered}

-- The dword at `p` is `v`.
abbrev planted : ℕ → ℕ → Memory → Memory
planted p v mem a = if a == p then v else if leb p a && ltb a (p + 4) then 0 else mem a

dword_at-planted : (p v : ℕ) (mem : Memory) → dword_at (planted p v mem) p ≡ v
dword_at-planted p v mem = ground arith

planted_above : (p v a : ℕ) (mem : Memory) → p + 4 ≤ a → planted p v mem a ≡ mem a
planted_above p v a mem h = ground arith

-- The address below the buffer that the code reads.
abbrev below : Fat32Context → ℕ → ℕ → ℕ
below context b x =
    lowered (context.fat_buffer + x % 128 * 4)
      ((b - x / 128) * context.infomations.bytes_per_sector)

below_lem :
    (context : Fat32Context) (b x : ℕ)
    → context.infomations.bytes_per_sector ≡ 512
    → x / 128 < b
    → (b - x / 128) * 512 ≤ context.fat_buffer
    → context.fat_buffer + 2048 ≤ 2 ^ 32
    → below context b x + 4 ≤ context.fat_buffer
below_lem context b x bps back room top =
    let e : (b - x / 128) * context.infomations.bytes_per_sector ≡ (b - x / 128) * 512 =
      ap (λ (n : ℕ). (b - x / 128) * n) bps in
    let f : below context b x ≡ context.fat_buffer + x % 128 * 4 - (b - x / 128) * 512 =
      ap (λ (n : ℕ). lowered (context.fat_buffer + x % 128 * 4) n) e
      ∙ omega (arith, room, top, back) in
    omega (arith, f, room, back)

-- When the entry of a cluster stands in a sector of the FAT before those in the buffer, what is
-- given does not depend on the disk: for each byte there is a memory with the same buffer in which
-- that byte is given as the next cluster.
pub get_fat32_entry_stale :
    (disk : ℕ → ℕ → ℕ) (context : Fat32Context) (b x v : ℕ) (mem : Memory)
    → context.infomations.bytes_per_sector ≡ 512
    → x / 128 < b
    → (b - x / 128) * 512 ≤ context.fat_buffer
    → context.fat_buffer + 2048 ≤ 2 ^ 32
    → IsBuffered disk context b mem
    → (mem' : Memory) × IsBuffered disk context b mem'
      × (get_fat32_entry disk (starting context b) x mem' ≡ (v, starting context b, mem'))
unfolding get_fat32_entry
get_fat32_entry_stale disk context b x v mem bps back room top buf =
    let p = below context b x in
    let mem' = planted p v mem in
    let far = below_lem context b x bps back room top in
    let e1 : leb (b + 4) (x / 128) ≡ false = ground (arith, back) in
    let e2 : leb b (x / 128) ≡ false = ground (arith, back) in
    (
      mem',
      λ i h. planted_above p v (context.fat_buffer + i) mem (omega (arith, far)) ∙ buf i h,
      rw (e1, e2) (ap (λ (n : ℕ). (n, starting context b, mem')) (dword_at-planted p v mem)),
    )
