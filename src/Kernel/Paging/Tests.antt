-- ===== src/Kernel/Paging/Tests.antt =====
-- A mapping in empty page tables.
use tay_huang_os.Prelude.{
  ℕ, true, false, ◌==◌, if◌then◌else◌, ◌≡◌, refl, [], ◌∷◌, arith, Bool-cases, inl, inr,
}
use tay_huang_os.Kernel.Pmm.{
  no_areas, Areas, alloc_pages, alloc_free_pages, alloc_from, return_pages, return_bits,
  return_whole,
}
use tay_huang_os.Prelude.Int.{◌-ℤ◌}
use tay_huang_os.Kernel.Pmm.Cover.{cover}
use tay_huang_os.Kernel.Paging.{
  no_entry, Paging, set_mapping, map_pages, set_mapping1, set_level, map_page, ensure,
  get_free_page, get_physical_address,
}
use tay_huang_os.Kernel.Paging.Tree.Paths.{IsTree}
use tay_huang_os.Kernel.Paging.Levels.{IsPaged}
use tay_huang_os.Kernel.Paging.Range.{set_mapping-IsRange}
use tay_huang_os.Kernel.Paging.Range.Page.{IsRange, set_mapping1-others}
use tay_huang_os.Kernel.Paging.Failure.{IsExhausted, set_mapping1-IsExhausted}

abbrev three_pages : Areas
three_pages order = if order == 0 then 8192 ∷ 12288 ∷ 16384 ∷ [] else []

abbrev empty_tables : Paging
empty_tables = record { tables = λ t i. no_entry; free = three_pages }

abbrev only_root : ℕ → ℕ
only_root t = if t == 4096 then 4 else 0

empty_tables-IsPaged : IsPaged only_root empty_tables
unfolding cover
empty_tables-IsPaged = record {
  levels = λ t i n h p. cc;
  apart = λ t h. ground arith;
  single = λ b. ground arith;
  aligned =
      λ i. elim (Bool-cases (i == 0)) [ inl e ↦ rw e (refl, (refl, (refl, tt))) | inr e ↦ rw e tt ];
  no_null = refl;
}

three_tables_made : (set_mapping1 true true 4096 123456789 40960 empty_tables).0 ≡ true
unfolding set_mapping1 set_level ensure get_free_page alloc_pages alloc_free_pages alloc_from
    return_pages return_bits return_whole ◌-ℤ◌
three_tables_made = refl

-- With no page free.
abbrev no_pages : Paging
no_pages = record { tables = λ t i. no_entry; free = no_areas }

no_pages-IsPaged : IsPaged only_root no_pages
unfolding cover
no_pages-IsPaged = record {
  levels = λ t i n h p. cc;
  apart = λ t h. refl;
  single = λ b. omega arith;
  aligned = λ i. tt;
  no_null = refl;
}

no_table_made : (set_mapping1 true true 4096 123456789 40960 no_pages).0 ≡ false
unfolding set_mapping1 set_level ensure get_free_page alloc_pages alloc_free_pages alloc_from
    return_pages return_bits return_whole ◌-ℤ◌
no_table_made = refl

set_mapping1-IsExhausted_example :
    IsExhausted (set_mapping1 true true 4096 123456789 40960 no_pages).1.free
unfolding cover
set_mapping1-IsExhausted_example =
    set_mapping1-IsExhausted true true 4096 123456789 40960 only_root no_pages no_pages-IsPaged refl
      refl no_table_made

empty_tables-IsTree : IsTree only_root empty_tables
empty_tables-IsTree n x j x' j' l l' p p' e = cc

-- Two pages from one address on, which need three tables.
two_mapped : (set_mapping 4096 123456789 40960 2 true true empty_tables).0 ≡ true
unfolding set_mapping map_pages set_mapping1 set_level ensure get_free_page alloc_pages
    alloc_free_pages alloc_from return_pages return_bits return_whole map_page ◌-ℤ◌
two_mapped = refl

set_mapping-IsRange_example :
    IsRange 4096 123453440 40960 2 only_root empty_tables
      (set_mapping 4096 123456789 40960 2 true true empty_tables).1
set_mapping-IsRange_example =
    set_mapping-IsRange 4096 123456789 40960 2 true true only_root empty_tables empty_tables-IsPaged
      empty_tables-IsTree refl refl (omega arith) (omega arith) two_mapped

-- The root of another address space is at 20480.
abbrev two_roots : ℕ → ℕ
two_roots t = if t == 4096 then 4 else if t == 20480 then 4 else 0

two_roots-IsPaged : IsPaged two_roots empty_tables
unfolding cover
two_roots-IsPaged = record {
  levels = λ t i n h p. cc;
  apart = λ t h. ground arith;
  single = λ b. ground arith;
  aligned =
      λ i. elim (Bool-cases (i == 0)) [ inl e ↦ rw e (refl, (refl, (refl, tt))) | inr e ↦ rw e tt ];
  no_null = refl;
}

set_mapping1-others_example :
    get_physical_address
      (set_mapping1 true true 4096 123456789 40960 empty_tables).1
      20480
      123456789
    ≡ get_physical_address empty_tables 20480 123456789
set_mapping1-others_example =
    set_mapping1-others true true 4096 123456789 40960 two_roots empty_tables 20480 123456789
      two_roots-IsPaged (λ n x j x' j' l l' p p' e. cc) refl refl three_tables_made (omega arith)
      (omega arith) (inl (λ e. absurd (omega arith)))
