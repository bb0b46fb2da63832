-- ===== src/Kernel/Kheap/Blocks.antt =====
-- The segments of kernel/memory/kheap.c as ranges of memory that share no byte.
use tay_huang_os.Prelude.{
  ℕ, Bool, true, false, List, [], ◌∷◌, ◌++◌, ◌+◌, ◌≤◌, ◌<◌, ◌≡◌, ◌≢◌, ◌⊎◌, inl, inr, refl, ap, ◌∙◌,
  arith,
}

-- A segment: where its header stands, its size with the header, and whether it is used.
pub record Block : Type 0 where
  pub addr : ℕ
  pub size : ℕ
  pub used : Bool

abbrev pub Apart : Block → Block → Type 0
Apart x y = (x.addr + x.size ≤ y.addr) ⊎ (y.addr + y.size ≤ x.addr)

-- Apart from each block of the list.
abbrev pub Clear : Block → List Block → Type 0
Clear x [] = Unit
Clear x (y ∷ ys) = Apart x y × Clear x ys

abbrev pub AllApart : List Block → Type 0
AllApart [] = Unit
AllApart (x ∷ xs) = Clear x xs × AllApart xs

abbrev pub AllSized : List Block → Type 0
AllSized [] = Unit
AllSized (x ∷ xs) = (0 < x.size) × AllSized xs

-- Each block of the one list is apart from each of the other.
abbrev pub Between : List Block → List Block → Type 0
Between [] ys = Unit
Between (x ∷ xs) ys = Clear x ys × Between xs ys

Clear-append : (x : Block) (ys zs : List Block) → Clear x ys → Clear x zs → Clear x (ys ++ zs)
Clear-append x [] zs a b = b
Clear-append x (y ∷ ys) zs (a, as') b = (a, Clear-append x ys zs as' b)

pub Clear-split : (x : Block) (ys zs : List Block) → Clear x (ys ++ zs) → Clear x ys × Clear x zs
Clear-split x [] zs c = (tt, c)
Clear-split x (y ∷ ys) zs (a, c) = let (c1, c2) = Clear-split x ys zs c in ((a, c1), c2)

Apart-sym : (x y : Block) → Apart x y → Apart y x
Apart-sym x y (inl h) = inr h
Apart-sym x y (inr h) = inl h

pub Between-nil : (xs : List Block) → Between xs []
Between-nil [] = tt
Between-nil (x ∷ xs) = (tt, Between-nil xs)

pub Between-cons :
    (xs : List Block) (y : Block) (ys : List Block)
    → Clear y xs
    → Between xs ys
    → Between xs (y ∷ ys)
Between-cons [] y ys c b = tt
Between-cons (x ∷ xs) y ys (a, c) (d, b) = ((Apart-sym y x a, d), Between-cons xs y ys c b)

pub Between-sym : (xs ys : List Block) → Between xs ys → Between ys xs
Between-sym [] ys b = Between-nil ys
Between-sym (x ∷ xs) ys (c, b) = Between-cons ys x xs c (Between-sym xs ys b)

pub AllApart-append :
    (xs ys : List Block) → AllApart xs → AllApart ys → Between xs ys → AllApart (xs ++ ys)
AllApart-append [] ys a b c = b
AllApart-append (x ∷ xs) ys (a, as') b (c, cs) =
    (Clear-append x xs ys a c, AllApart-append xs ys as' b cs)

pub AllApart-split :
    (xs ys : List Block) → AllApart (xs ++ ys) → AllApart xs × AllApart ys × Between xs ys
AllApart-split [] ys a = (tt, a, tt)
AllApart-split (x ∷ xs) ys (c, a) =
    let (c1, c2) = Clear-split x xs ys c in
    let (a1, a2, b) = AllApart-split xs ys a in ((c1, a1), a2, (c2, b))

pub AllSized-append : (xs ys : List Block) → AllSized xs → AllSized ys → AllSized (xs ++ ys)
AllSized-append [] ys a b = b
AllSized-append (x ∷ xs) ys (h, a) b = (h, AllSized-append xs ys a b)

pub AllSized-split : (xs ys : List Block) → AllSized (xs ++ ys) → AllSized xs × AllSized ys
AllSized-split [] ys a = (tt, a)
AllSized-split (x ∷ xs) ys (h, a) = let (a1, a2) = AllSized-split xs ys a in ((h, a1), a2)

Between-append : (xs ys zs : List Block) → Between xs ys → Between xs zs → Between xs (ys ++ zs)
Between-append [] ys zs b c = tt
Between-append (x ∷ xs) ys zs (b, bs) (c, cs) =
    (Clear-append x ys zs b c, Between-append xs ys zs bs cs)

Between-split : (xs ys zs : List Block) → Between xs (ys ++ zs) → Between xs ys × Between xs zs
Between-split [] ys zs b = (tt, tt)
Between-split (x ∷ xs) ys zs (c, b) =
    let (c1, c2) = Clear-split x ys zs c in
    let (b1, b2) = Between-split xs ys zs b in ((c1, b1), (c2, b2))

-- Blocks that keep within the ranges of others: what is apart from these is apart from them.
abbrev pub Within : List Block → List Block → Type 0
Within mid' mid = (x : Block) → 0 < x.size → Clear x mid → Clear x mid'

Between-Within :
    (xs mid mid' : List Block) → AllSized xs → Within mid' mid → Between xs mid → Between xs mid'
Between-Within [] mid mid' z w b = tt
Between-Within (x ∷ xs) mid mid' (h, z) w (c, b) = (w x h c, Between-Within xs mid mid' z w b)

-- Blocks in the middle of a list can be replaced by others within their ranges.
pub AllApart-replace :
    (pre mid mid' post : List Block)
    → AllSized (pre ++ (mid ++ post))
    → Within mid' mid
    → AllApart mid'
    → AllApart (pre ++ (mid ++ post))
    → AllApart (pre ++ (mid' ++ post))
AllApart-replace pre mid mid' post z w a' a =
    let (z1, z2) = AllSized-split pre (mid ++ post) z in
    let (z3, z4) = AllSized-split mid post z2 in
    let (a1, a2, b) = AllApart-split pre (mid ++ post) a in
    let (a3, a4, c) = AllApart-split mid post a2 in
    let (b1, b2) = Between-split pre mid post b in
    let c' = Between-sym post mid' (Between-Within post mid mid' z4 w (Between-sym mid post c)) in
    AllApart-append pre (mid' ++ post) a1 (AllApart-append mid' post a' a4 c')
      (Between-append pre mid' post (Between-Within pre mid mid' z1 w b1) b2)

-- Bytes in all, and the blocks that are used.
abbrev pub total_size : List Block → ℕ
total_size [] = 0
total_size (x ∷ xs) = x.size + total_size xs

abbrev pub keep : Bool → Block → List Block → List Block
keep true x xs = x ∷ xs
keep false x xs = xs

abbrev pub used_blocks : List Block → List Block
used_blocks [] = []
used_blocks (x ∷ xs) = keep x.used x (used_blocks xs)

pub total_size-append : (xs ys : List Block) → total_size (xs ++ ys) ≡ total_size xs + total_size ys
total_size-append [] ys = omega arith
total_size-append (x ∷ xs) ys = omega (arith, total_size-append xs ys)

keep-append : (b : Bool) (x : Block) (xs ys : List Block) → keep b x (xs ++ ys) ≡ keep b x xs ++ ys
keep-append true x xs ys = refl
keep-append false x xs ys = refl

pub used_blocks-append :
    (xs ys : List Block) → used_blocks (xs ++ ys) ≡ used_blocks xs ++ used_blocks ys
used_blocks-append [] ys = refl
used_blocks-append (x ∷ xs) ys =
    ap (keep x.used x) (used_blocks-append xs ys)
    ∙ keep-append x.used x (used_blocks xs) (used_blocks ys)

-- The header's address is no block's of the list.
abbrev pub Fresh : ℕ → List Block → Type 0
Fresh a [] = Unit
Fresh a (x ∷ xs) = (a ≢ x.addr) × Fresh a xs

pub Clear-Fresh :
    (x : Block) (xs : List Block) → 0 < x.size → AllSized xs → Clear x xs → Fresh x.addr xs
Clear-Fresh x [] h z c = tt
Clear-Fresh x (y ∷ ys) h (k, z) (a, c) = (omega arith, Clear-Fresh x ys h z c)

abbrev pub AllDistinct : List Block → Type 0
AllDistinct [] = Unit
AllDistinct (x ∷ xs) = Fresh x.addr xs × AllDistinct xs

pub AllApart-AllDistinct : (xs : List Block) → AllSized xs → AllApart xs → AllDistinct xs
AllApart-AllDistinct [] z a = tt
AllApart-AllDistinct (x ∷ xs) (h, z) (c, a) = (Clear-Fresh x xs h z c, AllApart-AllDistinct xs z a)
