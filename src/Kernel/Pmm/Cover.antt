-- ===== src/Kernel/Pmm/Cover.antt =====
-- Which addresses the free areas cover, and how often.
use tay_huang_os.Prelude.{
  ℕ, zero, suc, List, [], ◌∷◌, ◌++◌, ◌==◌, ltb, leb, ◌&&◌, if◌then◌else◌, ◌+◌, ◌*◌, ◌/◌, ◌%◌, ◌<◌,
  ◌≤◌, ◌≡◌, refl, ◌∙◌, ap, arith, Bool-cases, inl, inr,
}
use native.Mathlib.Nat.{pow-suc}
use native.Mathlib.Numerals.{add-one}
use tay_huang_os.Prelude.Int.{pos}
use tay_huang_os.Kernel.State.{update}
use tay_huang_os.Kernel.Pmm.{
  Areas, memunit_sz, max_order, area_size, add_free_area, return_whole, return_bits, return_pages,
}

-- 1 if `b` lies in the range from `lo` up to `hi`, and 0 if not.
abbrev pub within : ℕ → ℕ → ℕ → ℕ
within lo hi b = if leb lo b && ltb b hi then 1 else 0

-- A range of `m` and a range of `n` that meet.
pub within-add :
    (lo m n total b : ℕ)
    → total ≡ m + n
    → within lo (lo + m) b + within (lo + m) (lo + m + n) b ≡ within lo (lo + total) b
within-add lo m n total b e = ground arith

-- How many areas of size `n` at the addresses cover `b`.
abbrev pub cover_list : ℕ → List ℕ → ℕ → ℕ
cover_list n [] b = 0
cover_list n (a ∷ rest) b = within a (a + n) b + cover_list n rest b

-- The sum over the orders below `n`.
abbrev pub cover_below : ℕ → Areas → ℕ → ℕ
cover_below zero free b = 0
cover_below (suc i) free b = cover_list (area_size i) (free i) b + cover_below i free b

-- How many free areas, of all ten orders, cover `b`.
unfoldable pub cover : Areas → ℕ → ℕ
cover free b = cover_below (max_order + 1) free b

cover_list-append :
    (n : ℕ) (rest : List ℕ) (a b : ℕ)
    → cover_list n (rest ++ (a ∷ [])) b ≡ cover_list n rest b + within a (a + n) b
cover_list-append n [] a b = omega arith
cover_list-append n (x ∷ rest) a b = omega (arith, cover_list-append n rest a b)

cover_below-update_above :
    (n : ℕ) (free : Areas) (i : ℕ) (rest : List ℕ) (b : ℕ)
    → n ≤ i
    → cover_below n (update free i rest) b ≡ cover_below n free b
cover_below-update_above zero free i rest b h = refl
cover_below-update_above (suc n) free i rest b h =
    ground (arith, cover_below-update_above n free i rest b)

-- One list replaced.
cover_below-update :
    (n : ℕ) (free : Areas) (i : ℕ) (rest : List ℕ) (b : ℕ)
    → i < n
    → cover_below n (update free i rest) b + cover_list (area_size i) (free i) b
      ≡ cover_below n free b + cover_list (area_size i) rest b
cover_below-update zero free i rest b h = elim h [ ]
cover_below-update (suc n) free i rest b h =
    ground (arith, cover_below-update n free i rest b, cover_below-update_above n free i rest b)

pub cover-update :
    (free : Areas) (i : ℕ) (rest : List ℕ) (b : ℕ)
    → i ≤ max_order
    → cover (update free i rest) b + cover_list (area_size i) (free i) b
      ≡ cover free b + cover_list (area_size i) rest b
unfolding cover
cover-update free i rest b h = cover_below-update 10 free i rest b (omega arith)

pub cover-add_free_area :
    (order address : ℕ) (free : Areas) (b : ℕ)
    → order ≤ max_order
    → cover (add_free_area order address free) b
      ≡ cover free b + within address (address + area_size order) b
unfolding add_free_area
cover-add_free_area order address free b h = omega (
  arith,
  cover-update free order (free order ++ (address ∷ [])) b h,
  cover_list-append (area_size order) (free order) address b,
)

pub cover-return_whole :
    (n start : ℕ) (free : Areas) (b : ℕ)
    → cover (return_whole n start free) b
      ≡ cover free b + within start (start + n * area_size max_order) b
unfolding return_whole
cover-return_whole zero start free b = ground arith
cover-return_whole (suc n) start free b = omega (
  arith,
  cover-return_whole n (start + area_size max_order) (add_free_area max_order start free) b,
  cover-add_free_area max_order start free b (omega arith),
  within-add start (area_size max_order) (n * area_size max_order) (suc n * area_size max_order) b
      (omega arith),
)

-- `n` units of `size` are a unit, if `n` is odd, and `n / 2` units of twice the size.
halved : (n size : ℕ) → n / 2 * (2 * size) + n % 2 * size ≡ n * size
halved n size =
    let e : n ≡ n / 2 * 2 + n % 2 = omega arith in omega (arith, ap (λ (t : ℕ). t * size) e)

pub odd_total : (n size twice : ℕ) → n % 2 ≡ 1 → twice ≡ 2 * size → n * size ≡ size + n / 2 * twice
odd_total n size twice one e =
    omega (arith, halved n size, ap (λ (t : ℕ). t * size) one, ap (λ (t : ℕ). n / 2 * t) e)

pub even_total : (n size twice : ℕ) → n % 2 ≡ 0 → twice ≡ 2 * size → n / 2 * twice ≡ n * size
even_total n size twice even e =
    omega (arith, halved n size, ap (λ (t : ℕ). t * size) even, ap (λ (t : ℕ). n / 2 * t) e)

area_size-suc : (i : ℕ) → area_size (i + 1) ≡ 2 * area_size i
area_size-suc i = rw add-one (rw pow-suc (omega arith))

cover-return_bits :
    (rounds i n start : ℕ) (free : Areas) (b : ℕ)
    → i + rounds ≡ max_order
    → cover (return_bits rounds i (pos n) start free) b
      ≡ cover free b + within start (start + n * area_size i) b
unfolding return_bits
cover-return_bits zero i n start free b h =
    let e : i ≡ max_order = omega arith in rw e (cover-return_whole n start free b)
cover-return_bits (suc rounds) i n start free b h = elim (Bool-cases (n % 2 == 1)) [
  | inl odd ↦
      let one : n % 2 ≡ 1 = ground arith in
      let total : n * area_size i ≡ area_size i + n / 2 * area_size (i + 1) =
        odd_total n (area_size i) (area_size (i + 1)) one (area_size-suc i) in
      rw odd (
        omega (
          arith,
          cover-return_bits rounds (i + 1) (n / 2) (start + area_size i)
              (add_free_area i start free) b (omega arith),
          cover-add_free_area i start free b (omega arith),
          within-add start (area_size i) (n / 2 * area_size (i + 1)) (n * area_size i) b total,
        ))
  | inr even ↦
      let none_odd : n % 2 ≡ 0 = ground arith in
      rw even (
        cover-return_bits rounds (i + 1) (n / 2) start free b (omega arith)
        ∙ ap (λ size. cover free b + within start (start + size) b)
            (even_total n (area_size i) (area_size (i + 1)) none_odd (area_size-suc i)))
]

-- Giving back `n` pages at `addr` makes the free lists cover each address of those pages once more,
-- and no other address.
pub cover-return_pages :
    (n addr : ℕ) (free : Areas) (b : ℕ)
    → cover (return_pages addr (pos n) free) b
      ≡ cover free b + within addr (addr + n * memunit_sz) b
unfolding return_pages
cover-return_pages n addr free b = cover-return_bits max_order 0 n addr free b refl
