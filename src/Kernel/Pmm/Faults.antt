-- ===== src/Kernel/Pmm/Faults.antt =====
-- `alloc_pages` of kernel/memory/pmm.c when it finds no area, and the first loop of `init_pmm`.
use tay_huang_os.Prelude.{
  ℕ, zero, suc, true, [], none, ◌+◌, ◌-◌, ◌*◌, ◌%◌, ◌^◌, ◌<◌, ◌≤◌, ◌≡◌, refl, arith, Bool-cases,
  inl, inr,
}
use native.Mathlib.Nat.{pow-suc}
use tay_huang_os.Prelude.Int.{ℤ, pos, negsuc, ◌-ℤ◌}
use tay_huang_os.Kernel.Pmm.{
  Areas, memunit_sz, max_order, area_size, add_free_area, return_whole, return_bits, return_pages,
  alloc_from, alloc_free_pages, alloc_pages, is_odd, half, rounds_of, init_pmm, init_bits, pages_of,
}
use tay_huang_os.Kernel.Pmm.Cover.{within, cover, cover-add_free_area, cover-return_whole}

alloc_from_empty :
    (rounds i : ℕ) (free : Areas)
    → ((j : ℕ) → i ≤ j → j < i + rounds → free j ≡ [])
    → alloc_from rounds i free ≡ none
unfolding alloc_from
alloc_from_empty zero i free h = refl
alloc_from_empty (suc rounds) i free h =
    rw (h i (omega arith) (omega arith))
      (alloc_from_empty rounds (i + 1) free (λ j p q. h j (omega arith) (omega arith)))

-- Giving back never takes an address out, for any number of pages, negative ones too.
cover-le-return_bits :
    (rounds i : ℕ) (pages : ℤ) (start : ℕ) (free : Areas) (b : ℕ)
    → i + rounds ≡ max_order
    → cover free b ≤ cover (return_bits rounds i pages start free) b
unfolding return_bits
cover-le-return_bits zero i pages start free b h =
    omega (arith, cover-return_whole (rounds_of pages) start free b)
cover-le-return_bits (suc rounds) i pages start free b h = elim (Bool-cases (is_odd pages)) [
  | inl odd ↦ rw odd (
      omega (
        arith,
        cover-le-return_bits rounds (i + 1) (half pages) (start + area_size i)
            (add_free_area i start free) b (omega arith),
        cover-add_free_area i start free b (omega arith),
      ))
  | inr even ↦ rw even (cover-le-return_bits rounds (i + 1) (half pages) start free b (omega arith))
]

pow_pos : (o : ℕ) → 1 ≤ 2 ^ o
pow_pos zero = omega arith
pow_pos (suc o) = rw pow-suc (omega (arith, pow_pos o))

cover-return_bits_odd :
    (rounds i : ℕ) (pages : ℤ) (start : ℕ) (free : Areas) (b : ℕ)
    → i + suc rounds ≡ max_order
    → is_odd pages ≡ true
    → cover free b + within start (start + area_size i) b
      ≤ cover (return_bits (suc rounds) i pages start free) b
unfolding return_bits
cover-return_bits_odd rounds i pages start free b h odd = rw odd (
    omega (
      arith,
      cover-le-return_bits rounds (i + 1) (half pages) (start + area_size i)
          (add_free_area i start free) b (omega arith),
      cover-add_free_area i start free b (omega arith),
    ))

-- 1 - 2 ^ order is odd and negative.
negative : (o : ℕ) → (n : ℕ) × (pos 1 -ℤ pos (2 ^ suc o) ≡ negsuc n) × (n % 2 ≡ 0)
unfolding ◌-ℤ◌
negative o =
    let p : 2 ^ suc o ≡ 2 ^ o * 2 = pow-suc _ _ in
    let q : 1 ≤ 2 ^ o = pow_pos o in (2 ^ suc o - 2, ground arith, omega arith)

-- With no area of the order or above, an order from 1 to 9 makes `alloc_pages` return NULL, and still
-- the page behind where the block would have ended, at the address `area_size order` that nothing
-- gave back, joins the free lists.
alloc_pages_exhausted :
    (o : ℕ) (free : Areas)
    → suc o ≤ max_order
    → ((j : ℕ) → suc o ≤ j → j ≤ max_order → free j ≡ [])
    → let (addr, free') = alloc_pages (suc o) free in
      (addr ≡ 0) × (cover free (area_size (suc o)) + 1 ≤ cover free' (area_size (suc o)))
unfolding alloc_pages alloc_free_pages return_pages
alloc_pages_exhausted o free h empty =
    let b = area_size (suc o) in
    let (n, en, even) = negative o in
    let e : alloc_free_pages (suc o) free ≡ none =
      alloc_from_empty (max_order + 1 - suc o) (suc o) free (λ j p q. empty j p (omega arith)) in
    let odd : is_odd (negsuc n) ≡ true = ground arith in
    let first = cover-return_bits_odd 8 0 (negsuc n) b free b refl odd in
    let inside : within b (b + area_size 0) b ≡ 1 = ground arith in
    rw (e, alloc_pages, en) (refl, omega (arith, first, inside))

-- With twelve pages of memory behind a page-aligned limit, the free lists that `init_pmm` builds
-- hold the third page twice.
init_pmm_overlaps :
    (frame : ℕ)
    → cover
        (init_pmm (frame * memunit_sz + 12 * memunit_sz) (frame * memunit_sz))
        (frame * memunit_sz + 2 * memunit_sz)
      ≡ 2
unfolding init_pmm init_bits return_whole add_free_area cover
init_pmm_overlaps frame =
    let e : pages_of (frame * memunit_sz + 12 * memunit_sz) - pages_of (frame * memunit_sz) ≡ 12 =
      omega arith in
    rw e (ground arith)
