-- ===== src/Kernel/Signal/Tree/Balance.antt =====
-- The balance of the tree of kernel/task/signal.c, for ids that are handed out in rising order: a new
-- semaphore goes to the far left.
use tay_huang_os.Prelude.{
  ℕ, zero, suc, some, List, [], ◌∷◌, ◌++◌, max, ◌+◌, ◌<◌, ◌≤◌, ◌≡◌, ◌⊎◌, inl, inr, refl, subst,
  arith, false, ◌==◌, lt→ltb,
}
use tay_huang_os.Prelude.Int.{ℤ, pos, negsuc, pos_part, neg_part, ◌-ℤ◌}
use tay_huang_os.Kernel.Signal.Tree.{
  Signal, Tree, leaf, node, Frame, left, right, fix_ll, fix_left, rebuild, descend, climb,
  insert_signal,
}
use tay_huang_os.Kernel.Signal.Tree.Order.{flatten}
use tay_huang_os.Kernel.Signal.Tree.Falling.{Below}

abbrev pub height : Tree → ℕ
height leaf = 0
height (node l s f r) = 1 + max (height l) (height r)

-- `f` is the difference of the heights, and is -1, 0 or 1.
abbrev pub IsFactor : ℤ → ℕ → ℕ → Type 0
IsFactor f hl hr = (pos_part f + hl ≡ neg_part f + hr) × (hr ≤ hl + 1) × (hl ≤ hr + 1)

abbrev pub IsBalanced : Tree → Type 0
IsBalanced leaf = Unit
IsBalanced (node l s f r) = IsBalanced l × IsFactor f (height l) (height r) × IsBalanced r

-- A path to the far left of a balanced tree, whose hole was a subtree of height `h`.
abbrev Fits : List Frame → ℕ → Type 0
Fits [] h = Unit
Fits (left s f r ∷ path) h =
    IsBalanced r × IsFactor f h (height r) × Fits path (1 + max h (height r))
Fits (right s f l ∷ path) h = ⊥

rebuild-IsBalanced :
    (path : List Frame) (t : Tree) (h : ℕ)
    → Fits path h
    → IsBalanced t
    → height t ≡ h
    → IsBalanced (rebuild path t)
rebuild-IsBalanced [] t h p b e = b
rebuild-IsBalanced (left s f r ∷ path) t h (br, ok, p) b e =
    rebuild-IsBalanced path (node t s f r) (1 + max h (height r)) p (b, omega arith, br)
      (omega arith)
rebuild-IsBalanced (right s f l ∷ path) t h p b e = elim p [ ]

-- A subtree that grew by one in the hole: it leans to the left, or is the new node alone.
climb-IsBalanced :
    (path : List Frame) (a : Tree) (x : Signal) (fx : ℤ) (b : Tree) (h : ℕ)
    → Fits path h
    → IsBalanced (node a x fx b)
    → height (node a x fx b) ≡ h + 1
    → ((fx ≡ negsuc 0) ⊎ (h ≡ 0))
    → (t : Tree) × (climb path (node a x fx b) ≡ some t) × IsBalanced t
unfolding climb fix_left fix_ll ◌-ℤ◌
climb-IsBalanced [] a x fx b h p bal e lean = (node a x fx b, refl, bal)
climb-IsBalanced (right s f l ∷ path) a x fx b h p bal e lean = elim p [ ]
climb-IsBalanced (left s (pos zero) r ∷ path) a x fx b h (br, ok, p) bal e lean =
    climb-IsBalanced path (node a x fx b) s (negsuc 0) r (1 + max h (height r)) p
      (bal, omega arith, br) (omega arith) (inl refl)
climb-IsBalanced (left s (pos (suc zero)) r ∷ path) a x fx b h (br, ok, p) bal e lean =
    let t = node (node a x fx b) s (pos 0) r in
    (
      rebuild path t,
      refl,
      rebuild-IsBalanced path t (1 + max h (height r)) p (bal, omega arith, br) (omega arith),
    )
climb-IsBalanced (left s (pos (suc (suc n))) r ∷ path) a x fx b h (br, ok, p) bal e lean =
    absurd (omega arith)
climb-IsBalanced (left s (negsuc zero) r ∷ path) a x fx b h (br, ok, p) (ba, fb, bb) e (inl lean) =
    let t = node a x (pos 0) (node b s (pos 0) r) in
    let fx' : IsFactor (negsuc 0) (height a) (height b) =
      subst (λ g. IsFactor g (height a) (height b)) lean fb in
    (
      rebuild path t,
      rw lean,
      rebuild-IsBalanced path t (1 + max h (height r)) p (ba, omega arith, (bb, omega arith, br))
          (omega arith),
    )
climb-IsBalanced (left s (negsuc zero) r ∷ path) a x fx b h (br, ok, p) bal e (inr low) =
    absurd (omega arith)
climb-IsBalanced (left s (negsuc (suc n)) r ∷ path) a x fx b h (br, ok, p) bal e lean =
    absurd (omega arith)

Below-split :
    (i : ℕ) (xs : List Signal) (s : Signal) (ys : List Signal)
    → Below i (xs ++ (s ∷ ys))
    → Below i xs × (s.id < i)
Below-split i [] s ys (h, b) = (tt, h)
Below-split i (x ∷ xs) s ys (h, b) = let (bs, lt) = Below-split i xs s ys b in ((h, bs), lt)

-- An id above all others goes down to the far left.
descend-Fits :
    (id : ℕ) (t : Tree) (path : List Frame)
    → IsBalanced t
    → Below id (flatten t)
    → Fits path (height t)
    → (path' : List Frame) × (descend id t path ≡ some path') × Fits path' 0
unfolding descend
descend-Fits id leaf path b low p = (path, refl, p)
descend-Fits id (node l s f r) path (bl, ok, br) low p =
    let (bel, lt) = Below-split id (flatten l) s (flatten r) low in
    let ne : (id == s.id) ≡ false = ground arith in
    rw (ne, lt→ltb s.id id lt) (descend-Fits id l (left s f r ∷ path) bl bel (br, ok, p))

-- Inserting a semaphore whose id is above all others into a balanced tree never reads through null,
-- and gives a balanced tree with exact factors.
pub insert_signal-IsBalanced :
    (s : Signal) (t : Tree)
    → IsBalanced t
    → Below s.id (flatten t)
    → (t' : Tree) × (insert_signal s t ≡ some t') × IsBalanced t'
unfolding insert_signal
insert_signal-IsBalanced s t b low =
    let (path, d, p) = descend-Fits s.id t [] b low tt in
    rw (d, insert_signal)
      (climb-IsBalanced path leaf s (pos 0) leaf 0 p (tt, omega arith, tt) (omega arith) (inr refl))
