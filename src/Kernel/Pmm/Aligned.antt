-- ===== src/Kernel/Pmm/Aligned.antt =====
-- Single pages from kernel/memory/pmm.c: their alignment, and whether they are free.
use tay_huang_os.Prelude.{
  ℕ, zero, suc, some, List, [], ◌∷◌, ◌++◌, ◌==◌, ◌+◌, ◌-◌, ◌%◌, ◌^◌, ◌≤◌, ◌≡◌, ◌≢◌, refl, arith,
  Bool-cases, Option-cases, inl, inr,
}
use tay_huang_os.Prelude.Int.{ℤ, pos, ◌-ℤ◌}
use tay_huang_os.Kernel.State.{update}
use tay_huang_os.Kernel.Pmm.{
  Areas, memunit_sz, max_order, area_size, add_free_area, return_whole, return_bits, return_pages,
  alloc_from, alloc_free_pages, alloc_pages, is_odd, half, rounds_of, take_area,
}
use tay_huang_os.Kernel.Pmm.Cover.{within, cover}
use tay_huang_os.Kernel.Pmm.Alloc.{cover-alloc_pages_found}

abbrev pub AllAligned : List ℕ → Type 0
AllAligned [] = Unit
AllAligned (a ∷ rest) = (a % memunit_sz ≡ 0) × AllAligned rest

abbrev pub IsAligned : Areas → Type 0
IsAligned free = (i : ℕ) → AllAligned (free i)

AllAligned-append :
    (rest : List ℕ) (a : ℕ) → AllAligned rest → a % memunit_sz ≡ 0 → AllAligned (rest ++ (a ∷ []))
AllAligned-append [] a h k = (k, tt)
AllAligned-append (x ∷ rest) a (h, hs) k = (h, AllAligned-append rest a hs k)

IsAligned-update :
    (free : Areas) (o : ℕ) (l : List ℕ)
    → IsAligned free
    → AllAligned l
    → IsAligned (update free o l)
IsAligned-update free o l h k i = elim (Bool-cases (o == i)) [ inl e ↦ rw e k | inr e ↦ rw e (h i) ]

add_free_area-IsAligned :
    (o a : ℕ) (free : Areas)
    → IsAligned free
    → a % memunit_sz ≡ 0
    → IsAligned (add_free_area o a free)
unfolding add_free_area
add_free_area-IsAligned o a free h k =
    IsAligned-update free o (free o ++ (a ∷ [])) h (AllAligned-append (free o) a (h o) k)

return_whole-IsAligned :
    (n start : ℕ) (free : Areas)
    → IsAligned free
    → start % memunit_sz ≡ 0
    → IsAligned (return_whole n start free)
unfolding return_whole
return_whole-IsAligned zero start free h k = h
return_whole-IsAligned (suc n) start free h k =
    return_whole-IsAligned n (start + area_size max_order) (add_free_area max_order start free)
      (add_free_area-IsAligned max_order start free h k) (omega arith)

return_bits-IsAligned :
    (rounds i : ℕ) (pages : ℤ) (start : ℕ) (free : Areas)
    → IsAligned free
    → start % memunit_sz ≡ 0
    → IsAligned (return_bits rounds i pages start free)
unfolding return_bits
return_bits-IsAligned zero i pages start free h k =
    return_whole-IsAligned (rounds_of pages) start free h k
return_bits-IsAligned (suc rounds) i pages start free h k = elim (Bool-cases (is_odd pages)) [
  | inl odd ↦ rw odd (
      return_bits-IsAligned rounds (i + 1) (half pages) (start + area_size i)
        (add_free_area i start free) (add_free_area-IsAligned i start free h k) (omega arith))
  | inr even ↦ rw even (return_bits-IsAligned rounds (i + 1) (half pages) start free h k)
]

alloc_from-IsAligned :
    (rounds i : ℕ) (free : Areas) (a give : ℕ) (free1 : Areas)
    → IsAligned free
    → alloc_from rounds i free ≡ some (a, give, free1)
    → (a % memunit_sz ≡ 0) × IsAligned free1
unfolding alloc_from
alloc_from-IsAligned zero i free a give free1 h e = cc
alloc_from-IsAligned (suc rounds) i free a give free1 h e =
    go (free i) (h i) (alloc_from-IsAligned rounds (i + 1) free a give free1 h) e
  where
    go :
        (l : List ℕ)
        → AllAligned l
        → (alloc_from rounds (i + 1) free ≡ some (a, give, free1)
            → (a % memunit_sz ≡ 0) × IsAligned free1)
        → take_area i l free (alloc_from rounds (i + 1) free) ≡ some (a, give, free1)
        → (a % memunit_sz ≡ 0) × IsAligned free1
    go [] al ih e = ih e
    go (x ∷ rest) (al, als) ih e =
        let ea : x ≡ a = cc in
        let ef : update free i rest ≡ free1 = cc in
        (rw (← ea) al, rw (← ef) (IsAligned-update free i rest h als))

alloc_free_pages-IsAligned :
    (order : ℕ) (free : Areas) (a give : ℕ) (free1 : Areas)
    → IsAligned free
    → alloc_free_pages order free ≡ some (a, give, free1)
    → (a % memunit_sz ≡ 0) × IsAligned free1
unfolding alloc_free_pages
alloc_free_pages-IsAligned order free a give free1 h e =
    alloc_from-IsAligned (max_order + 1 - order) order free a give free1 h e

-- A block of `2 ^ order` pages that was taken out of aligned areas: they cover its addresses once less,
-- and all others as before.
pub record TakenBlock (order : ℕ) (free : Areas) (page : ℕ) (free' : Areas) : Type 0 where
  pub part : (b : ℕ) → cover free' b + within page (page + area_size order) b ≡ cover free b
  pub aligned_page : page % memunit_sz ≡ 0
  pub aligned : IsAligned free'

pub alloc_pages-TakenBlock :
    (order : ℕ) (free : Areas)
    → order ≤ max_order
    → IsAligned free
    → (alloc_pages order free).0 ≢ 0
    → TakenBlock order free (alloc_pages order free).0 (alloc_pages order free).1
unfolding alloc_pages return_pages
alloc_pages-TakenBlock order free o h = elim (Option-cases (alloc_free_pages order free)) [
  | inl e ↦ rw (e, alloc_pages) (λ ne. absurd (ne refl))
  | inr ((addr, give, free1), e) ↦
      let (page, rest) = alloc_free_pages-IsAligned order free addr give free1 h e in
      rw (e, alloc_pages)
        (λ ne. record {
          part = cover-alloc_pages_found order free addr give free1 o e;
          aligned_page = page;
          aligned =
              return_bits-IsAligned max_order 0 (pos (2 ^ give) -ℤ pos (2 ^ order))
                (addr + area_size order) free1 rest (omega (arith, page));
        })
]

-- One page from aligned areas that cover no address twice: the page was free and is not after, no
-- other address becomes free, and the areas stay as they should be.
pub record Taken (free : Areas) (page : ℕ) (free' : Areas) : Type 0 where
  pub was_free : cover free page ≡ 1
  pub is_taken : cover free' page ≡ 0
  pub fewer : (b : ℕ) → cover free' b ≤ cover free b
  pub aligned_page : page % memunit_sz ≡ 0
  pub aligned : IsAligned free'

pub alloc_pages-Taken :
    (free : Areas)
    → IsAligned free
    → ((b : ℕ) → cover free b ≤ 1)
    → (alloc_pages 0 free).0 ≢ 0
    → Taken free (alloc_pages 0 free).0 (alloc_pages 0 free).1
alloc_pages-Taken free h one ne =
    let page = (alloc_pages 0 free).0 in
    let t = alloc_pages-TakenBlock 0 free (omega arith) h ne in
    let inside : within page (page + area_size 0) page ≡ 1 = ground arith in
    record {
      was_free = omega (arith, t.part page, inside, one page);
      is_taken = omega (arith, t.part page, inside, one page);
      fewer = λ b. omega (arith, t.part b);
      aligned_page = t.aligned_page;
      aligned = t.aligned;
    }
