-- ===== src/Kernel/Pmm/Alloc.antt =====
-- What `alloc_pages` of kernel/memory/pmm.c hands out.
use native.Mathlib.Nat.{pow-suc, add-zero, add-suc, le_refl}
use tay_huang_os.Prelude.{
  ℕ, zero, suc, none, some, List, [], ◌∷◌, ◌==◌, ◌+◌, ◌-◌, ◌*◌, ◌^◌, ◌<◌, ◌≤◌, ◌≡◌, ◌≢◌, refl,
  subst, ap, arith, Bool-cases, Option-cases, ==_iff, inl, inr,
}
use tay_huang_os.Prelude.Int.{pos, ◌-ℤ◌}
use tay_huang_os.Kernel.State.{update}
use tay_huang_os.Kernel.Pmm.{
  Areas, memunit_sz, max_order, area_size, return_pages, alloc_from, alloc_free_pages, alloc_pages,
  take_area,
}
use tay_huang_os.Kernel.Pmm.Cover.{
  cover_list, within, within-add, cover, cover-update, cover-return_pages,
}

-- What a search for an area says of the area it found.
record Found (i : ℕ) (free : Areas) (addr give : ℕ) (free1 : Areas) : Type 0 where
  from : i ≤ give
  upto : give ≤ max_order
  taken : (b : ℕ) → cover free1 b + within addr (addr + area_size give) b ≡ cover free b

alloc_from-Found :
    (rounds i : ℕ) (free : Areas) (addr give : ℕ) (free1 : Areas)
    → i + rounds ≡ max_order + 1
    → alloc_from rounds i free ≡ some (addr, give, free1)
    → Found i free addr give free1
unfolding alloc_from
alloc_from-Found zero i free addr give free1 h e = cc
alloc_from-Found (suc rounds) i free addr give free1 h e =
    go (free i) refl (alloc_from-Found rounds (i + 1) free addr give free1 (omega arith)) e
  where
    go :
        (l : List ℕ)
        → free i ≡ l
        → (alloc_from rounds (i + 1) free ≡ some (addr, give, free1)
            → Found (i + 1) free addr give free1)
        → take_area i l free (alloc_from rounds (i + 1) free) ≡ some (addr, give, free1)
        → Found i free addr give free1
    go [] q ih e =
        let f = ih e in record { from = omega (arith, f.from); upto = f.upto; taken = f.taken }
    go (a ∷ rest) q ih e =
        let ea : a ≡ addr = cc in
        let ei : i ≡ give = cc in
        let ef : update free i rest ≡ free1 = cc in
        record {
          from = omega arith;
          upto = omega arith;
          taken = λ b.
              let listed : cover_list (area_size i) (free i) b
                  ≡ within a (a + area_size i) b + cover_list (area_size i) rest b =
                ap (λ l. cover_list (area_size i) l b) q in
              rw (← ea, ← ei, ← ef) (omega (arith, cover-update free i rest b (omega arith)));
        }

pub alloc_from-none :
    (rounds i : ℕ) (free : Areas)
    → alloc_from rounds i free ≡ none
    → (j : ℕ) → i ≤ j
    → j < i + rounds
    → free j ≡ []
unfolding alloc_from
alloc_from-none zero i free e j h k = absurd (omega arith)
alloc_from-none (suc rounds) i free e j h k =
    go (free i) refl (λ e' h'. alloc_from-none rounds (i + 1) free e' j h' (omega arith)) e
  where
    go :
        (l : List ℕ)
        → free i ≡ l
        → (alloc_from rounds (i + 1) free ≡ none → i + 1 ≤ j → free j ≡ [])
        → take_area i l free (alloc_from rounds (i + 1) free) ≡ none
        → free j ≡ []
    go [] q ih e = elim (Bool-cases (i == j)) [
      | inl eq ↦ subst (λ n. free n ≡ []) ((==_iff i j).0 eq) q
      | inr ne ↦ ih e (ground arith)
    ]
    go (a ∷ rest) q ih e = cc

pub pow_mono : (a k : ℕ) → 2 ^ a ≤ 2 ^ (a + k)
pow_mono a zero = rw add-zero (le_refl _)
pow_mono a (suc k) = rw (add-suc, pow-suc) (omega (arith, pow_mono a k))

-- What is left of an area of `2 ^ give` pages behind the first `2 ^ order`.
remainder :
    (order give : ℕ)
    → order ≤ give
    → (n : ℕ) × (pos (2 ^ give) -ℤ pos (2 ^ order) ≡ pos n)
      × (area_size give ≡ area_size order + n * memunit_sz)
unfolding ◌-ℤ◌
remainder order give h =
    let p : 2 ^ order ≤ 2 ^ give =
      subst (λ n. 2 ^ order ≤ 2 ^ n) (omega arith) (pow_mono order (give - order)) in
    (2 ^ give - 2 ^ order, ground arith, omega arith)

-- Where an area was found, giving its remainder back leaves out exactly the pages asked for.
pub cover-alloc_pages_found :
    (order : ℕ) (free : Areas) (addr give : ℕ) (free1 : Areas)
    → order ≤ max_order
    → alloc_free_pages order free ≡ some (addr, give, free1)
    → let free' = return_pages (addr + area_size order) (pos (2 ^ give) -ℤ pos (2 ^ order)) free1 in
      (b : ℕ) → cover free' b + within addr (addr + area_size order) b ≡ cover free b
unfolding alloc_free_pages
cover-alloc_pages_found order free addr give free1 h e b =
    let f = alloc_from-Found (max_order + 1 - order) order free addr give free1 (omega arith) e in
    let (n, en, size) = remainder order give f.from in
    rw en (
      omega (
        arith,
        cover-return_pages n (addr + area_size order) free1 b,
        f.taken b,
        within-add addr (area_size order) (n * memunit_sz) (area_size give) b size,
      ))

-- While some list of the order or above holds an area, `alloc_pages` takes exactly its pages out of
-- the free lists: before, they covered each address of the block that it returns once more than
-- after, and every other address equally often.
pub cover-alloc_pages :
    (order j : ℕ) (free : Areas)
    → order ≤ j
    → j ≤ max_order
    → free j ≢ []
    → let (addr, free') = alloc_pages order free in
      (b : ℕ) → cover free' b + within addr (addr + area_size order) b ≡ cover free b
unfolding alloc_pages alloc_free_pages
cover-alloc_pages order j free h k ne b = elim (Option-cases (alloc_free_pages order free)) [
  | inl e ↦ absurd (ne (alloc_from-none (max_order + 1 - order) order free e j h (omega arith)))
  | inr ((addr, give, free1), e) ↦
      rw (e, alloc_pages) (cover-alloc_pages_found order free addr give free1 (omega arith) e b)
]
