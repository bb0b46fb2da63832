-- ===== src/Loader/Fat32/Directory.antt =====
-- The search for a name in the root directory (`get_file_start_clus` of
-- loader/grub_loader/fs/fat32.c).
use tay_huang_os.Prelude.{
  ℕ, zero, suc, true, false, List, [], ◌∷◌, ◌+◌, ◌*◌, ◌≤◌, ◌<◌, ◌==◌, ◌-◌, ◌≡◌, ◌≢◌, ◌⊎◌, inl, inr,
  refl, sym, subst, ℕ-cases, ap, ◌∙◌, arith, length, Bool-cases, ltb,
}
use tay_huang_os.Prelude.Int.{pos, ==ℤ, ==ℤ_sound}
use tay_huang_os.Kernel.Strings.{strcmp, until_zero}
use tay_huang_os.Kernel.Strings.Compare.{strcmp-eq}
use tay_huang_os.Loader.Fat32.{
  Memory, Fat32Context, bytes_at, start_clus_at, not_found, find_name, get_file_start_clus,
}

-- No character is the terminator.
abbrev pub AllNonzero : List ℕ → Type 0
AllNonzero [] = Unit
AllNonzero (c ∷ cs) = (c ≢ 0) × AllNonzero cs

until_zero_whole : (s : List ℕ) → AllNonzero s → until_zero s ≡ s
until_zero_whole [] h = refl
until_zero_whole (c ∷ cs) (h, hs) =
    let e : (c == 0) ≡ false = ground arith in rw e (ap (λ t. c ∷ t) (until_zero_whole cs hs))

until_zero_shorter : (s : List ℕ) → length (until_zero s) ≤ length s
until_zero_shorter [] = omega arith
until_zero_shorter (c ∷ cs) = ground (arith, until_zero_shorter cs)

-- A text with as many characters as the buffer has is all of it.
until_zero_full : (s : List ℕ) → length (until_zero s) ≡ length s → until_zero s ≡ s
until_zero_full [] h = refl
until_zero_full (c ∷ cs) h = elim (Bool-cases (c == 0)) [
  | inl e ↦ absurd (ground (arith, h, e))
  | inr e ↦
      let l : length (until_zero cs) ≡ length cs = ground (arith, h, e) in
      rw e (ap (λ t. c ∷ t) (until_zero_full cs l))
]

length-bytes_at : (mem : Memory) (a n : ℕ) → length (bytes_at mem a n) ≡ n
length-bytes_at mem a zero = refl
length-bytes_at mem a (suc n) = ap suc (length-bytes_at mem (a + 1) n)

-- The eleven bytes at `a` are the name.
abbrev pub Matches : Memory → List ℕ → ℕ → Type 0
Matches mem name a = bytes_at mem a 11 ≡ name

test-Matches :
    (mem : Memory) (name : List ℕ) (a : ℕ)
    → AllNonzero name
    → Matches mem name a
    → ==ℤ (strcmp name (until_zero (bytes_at mem a 11))) (pos 0) ≡ true
test-Matches mem name a nz m =
    let e : name ≡ until_zero (bytes_at mem a 11) =
      sym (ap until_zero m ∙ until_zero_whole name nz) in
    ap (λ z. ==ℤ z (pos 0)) ((strcmp-eq name (until_zero (bytes_at mem a 11))).0.1 e)

Matches-test :
    (mem : Memory) (name : List ℕ) (a : ℕ)
    → length name ≡ 11
    → ==ℤ (strcmp name (until_zero (bytes_at mem a 11))) (pos 0) ≡ true
    → Matches mem name a
Matches-test mem name a l t =
    let buffer = bytes_at mem a 11 in
    let e : name ≡ until_zero buffer = (strcmp-eq name (until_zero buffer)).0.0 (==ℤ_sound _ _ t) in
    let whole : length (until_zero buffer) ≡ length buffer =
      sym (ap length e) ∙ l ∙ sym (length-bytes_at mem a 11) in
    sym (e ∙ until_zero_full buffer whole)

-- `c` is what stands at the first of the `n` places from `a` on, four bytes apart, that hold the name.
pub record IsListed (mem : Memory) (name : List ℕ) (n a c : ℕ) : Type 0 where
  pub index : ℕ
  pub inside : index < n
  pub here : Matches mem name (a + index * 4)
  pub first : (j : ℕ) → j < index → Matches mem name (a + j * 4) → ⊥
  pub cluster : c ≡ start_clus_at mem (a + index * 4)

abbrev pub IsMissing : Memory → List ℕ → ℕ → ℕ → ℕ → Type 0
IsMissing mem name n a c = ((j : ℕ) → j < n → Matches mem name (a + j * 4) → ⊥) × (c ≡ not_found)

-- A step further: what holds of the places from `a + 4` on.
IsListed-step :
    (mem : Memory) (name : List ℕ) (n a c : ℕ)
    → (Matches mem name a → ⊥)
    → IsListed mem name n (a + 4) c
    → IsListed mem name (suc n) a c
IsListed-step mem name n a c not_here l =
    let shift : (j : ℕ) → a + 4 + j * 4 ≡ a + suc j * 4 = λ j. omega arith in
    record {
      index = suc l.index;
      inside = omega (arith, l.inside);
      here = subst (Matches mem name) (shift l.index) l.here;
      first = λ j h m. elim (ℕ-cases j 0) [
        | inl z ↦ not_here (subst (Matches mem name) (omega (arith, z)) m)
        | inr nz ↦
            l.first (j - 1) (omega (arith, h, nz)) (subst (Matches mem name) (omega (arith, nz)) m)
      ];
      cluster = l.cluster ∙ ap (start_clus_at mem) (shift l.index);
    }

IsMissing-step :
    (mem : Memory) (name : List ℕ) (n a c : ℕ)
    → (Matches mem name a → ⊥)
    → IsMissing mem name n (a + 4) c
    → IsMissing mem name (suc n) a c
IsMissing-step mem name n a c not_here (none', e) = (
  λ j h m. elim (ℕ-cases j 0) [
    | inl z ↦ not_here (subst (Matches mem name) (omega (arith, z)) m)
    | inr nz ↦ none' (j - 1) (omega (arith, h, nz)) (subst (Matches mem name) (omega (arith, nz)) m)
  ],
  e,
)

find_name_lem :
    (mem : Memory) (name : List ℕ) (n a : ℕ)
    → length name ≡ 11
    → AllNonzero name
    → IsListed mem name n a (find_name n name a mem)
      ⊎ IsMissing mem name n a (find_name n name a mem)
unfolding find_name
find_name_lem mem name zero a l nz = inr (λ j h m. absurd (omega arith), refl)
find_name_lem mem name (suc n) a l nz =
    let test = ==ℤ (strcmp name (until_zero (bytes_at mem a 11))) (pos 0) in
    let z : a ≡ a + 0 * 4 = omega arith in
    elim (Bool-cases test) [
      | inl yes' ↦ rw yes' (
          inl (record {
            index = 0;
            inside = omega arith;
            here = subst (Matches mem name) z (Matches-test mem name a l yes');
            first = λ j h m. absurd (omega arith);
            cluster = ap (start_clus_at mem) z;
          }))
      | inr no' ↦
          let not_here : Matches mem name a → ⊥ =
            λ m. absurd (cc (test-Matches mem name a nz m, no')) in
          rw no' (elim (find_name_lem mem name n (a + 4) l nz) [
            | inl listed ↦ inl (IsListed-step mem name n a _ not_here listed)
            | inr missing ↦ inr (IsMissing-step mem name n a _ not_here missing)
          ])
    ]

-- The search for a name of eleven characters ends with the cluster that stands at the first of the
-- 2048 places, four bytes apart, that hold the name, or with -1 if none does.
pub get_file_start_clus-first :
    (context : Fat32Context) (name : List ℕ) (mem : Memory)
    → length name ≡ 11
    → AllNonzero name
    → let c = get_file_start_clus context name mem in
      IsListed mem name 2048 context.root_directory c
      ⊎ IsMissing mem name 2048 context.root_directory c
unfolding get_file_start_clus
get_file_start_clus-first context name mem l nz =
    let e : (length name == 11) ≡ true = ground (arith, l) in
    rw e (find_name_lem mem name 2048 context.root_directory l nz)

IsListed-unique :
    (mem : Memory) (name : List ℕ) (n a c d : ℕ)
    → IsListed mem name n a c
    → IsListed mem name n a d
    → c ≡ d
IsListed-unique mem name n a c d l m = elim (Bool-cases (ltb l.index m.index)) [
  | inl less ↦ absurd (m.first l.index (ground (arith, less)) l.here)
  | inr not_less ↦ elim (Bool-cases (ltb m.index l.index)) [
    | inl less ↦ absurd (l.first m.index (ground (arith, less)) m.here)
    | inr neither ↦
        let e : l.index ≡ m.index = ground (arith, not_less, neither) in
        l.cluster ∙ ap (λ (i : ℕ). start_clus_at mem (a + i * 4)) e ∙ sym m.cluster
  ]
]

-- The place that the record names is where the search ends.
pub IsListed-get_file_start_clus :
    (context : Fat32Context) (name : List ℕ) (mem : Memory) (c : ℕ)
    → length name ≡ 11
    → AllNonzero name
    → IsListed mem name 2048 context.root_directory c
    → get_file_start_clus context name mem ≡ c
IsListed-get_file_start_clus context name mem c l nz listed =
    elim (get_file_start_clus-first context name mem l nz) [
      | inl other ↦ IsListed-unique mem name 2048 context.root_directory _ c other listed
      | inr missing ↦ absurd (missing.0 listed.index listed.inside listed.here)
    ]
