-- ===== src/Kernel/Signal/Tree/Order.antt =====
-- The semaphores of the tree of kernel/task/signal.c in order, under its rotations.
use tay_huang_os.Prelude.{
  Option, none, some, List, [], ◌∷◌, ◌++◌, ◌≡◌, refl, sym, ap, ◌∙◌, arith, some_injective,
}
use tay_huang_os.Prelude.Int.{ℤ}
use mathlib.Core.Option
use mathlib.Core.List.{append_assoc}
use tay_huang_os.Kernel.Signal.Tree.{
  Signal, Tree, leaf, node, left, right, Frame, fix_left, fix_right, fix_ll, fix_rr, fix_lr, fix_rl,
  adjust_lr, rebuild, climb, grown,
}

-- The semaphores in order, greatest id first.
abbrev pub flatten : Tree → List Signal
flatten leaf = []
flatten (node l s f r) = flatten l ++ (s ∷ flatten r)

-- The order of the whole tree, with `m` in the place of the hole of a path.
abbrev pub around : List Frame → List Signal → List Signal
around [] m = m
around (left s f r ∷ path) m = around path (m ++ (s ∷ flatten r))
around (right s f l ∷ path) m = around path (flatten l ++ (s ∷ m))

flatten-rebuild :
    (path : List Frame) (t : Tree) → flatten (rebuild path t) ≡ around path (flatten t)
flatten-rebuild [] t = refl
flatten-rebuild (left s f r ∷ path) t = flatten-rebuild path (node t s f r)
flatten-rebuild (right s f l ∷ path) t = flatten-rebuild path (node l s f t)

-- Rotations keep the order.
flatten-fix_ll : (t t' : Tree) → fix_ll t ≡ some t' → flatten t' ≡ flatten t
unfolding fix_ll
flatten-fix_ll (node (node a x fx b) y fy c) t' e =
    ap flatten (sym (some_injective e)) ∙ simp append_assoc
flatten-fix_ll (node leaf y fy c) t' e = cc
flatten-fix_ll leaf t' e = cc

flatten-fix_rr : (t t' : Tree) → fix_rr t ≡ some t' → flatten t' ≡ flatten t
unfolding fix_rr
flatten-fix_rr (node a x fx (node b y fy c)) t' e =
    ap flatten (sym (some_injective e)) ∙ simp append_assoc
flatten-fix_rr (node a x fx leaf) t' e = cc
flatten-fix_rr leaf t' e = cc

flatten-adjust_lr : (f : ℤ) (t : Tree) → flatten (adjust_lr f t) ≡ flatten t
flatten-adjust_lr f (node (node a x fx b) z fz (node c y fy d)) = ground arith
flatten-adjust_lr f leaf = refl
flatten-adjust_lr f (node leaf s g r) = refl
flatten-adjust_lr f (node (node a x fx b) z fz leaf) = refl

flatten-fix_lr : (t t' : Tree) → fix_lr t ≡ some t' → flatten t' ≡ flatten t
unfolding fix_lr
flatten-fix_lr (node (node a x fx (node b z fz c)) y fy d) t' e =
    ap flatten (sym (some_injective e)) ∙ simp (flatten-adjust_lr, append_assoc)
flatten-fix_lr (node (node a x fx leaf) y fy d) t' e = cc
flatten-fix_lr (node leaf y fy d) t' e = cc
flatten-fix_lr leaf t' e = cc

flatten-fix_rl : (t t' : Tree) → fix_rl t ≡ some t' → flatten t' ≡ flatten t
unfolding fix_rl
flatten-fix_rl (node a x fx (node (node b z fz c) y fy d)) t' e =
    ap flatten (sym (some_injective e)) ∙ simp append_assoc
flatten-fix_rl (node a x fx (node leaf y fy d)) t' e = cc
flatten-fix_rl (node a x fx leaf) t' e = cc
flatten-fix_rl leaf t' e = cc

flatten-fix_left : (t t' : Tree) → fix_left t ≡ some t' → flatten t' ≡ flatten t
unfolding fix_left
flatten-fix_left (node (node a x fx b) y fy c) t' e = ground (
  arith,
  flatten-fix_ll (node (node a x fx b) y fy c) t',
  flatten-fix_lr (node (node a x fx b) y fy c) t',
)
flatten-fix_left (node leaf y fy c) t' e = cc
flatten-fix_left leaf t' e = cc

flatten-fix_right : (t t' : Tree) → fix_right t ≡ some t' → flatten t' ≡ flatten t
unfolding fix_right
flatten-fix_right (node a x fx (node b y fy c)) t' e = ground (
  arith,
  flatten-fix_rr (node a x fx (node b y fy c)) t',
  flatten-fix_rl (node a x fx (node b y fy c)) t',
)
flatten-fix_right (node a x fx leaf) t' e = cc
flatten-fix_right leaf t' e = cc

flatten_of_map :
    (path : List Frame) (p : Tree) (o : Option Tree) (t' : Tree)
    → ((p' : Tree) → o ≡ some p' → flatten p' ≡ flatten p)
    → Option.map (rebuild path) o ≡ some t'
    → flatten t' ≡ around path (flatten p)
flatten_of_map path p none t' h e = cc
flatten_of_map path p (some p') t' h e =
    ap flatten (sym (some_injective e)) ∙ flatten-rebuild path p' ∙ ap (around path) (h p' refl)

-- Whatever the factors are, climbing keeps the order.
pub flatten-climb :
    (path : List Frame) (t t' : Tree)
    → climb path t ≡ some t'
    → flatten t' ≡ around path (flatten t)
unfolding climb
flatten-climb [] t t' e = ap flatten (sym (some_injective e))
flatten-climb (left s f r ∷ path) t t' e =
    let p = node t s (grown (left s f r)) r in
    ground (
      arith,
      flatten-climb path p t',
      flatten-rebuild path p,
      flatten_of_map path p (fix_left p) t' (flatten-fix_left p),
      flatten_of_map path p (fix_right p) t' (flatten-fix_right p),
    )
flatten-climb (right s f l ∷ path) t t' e =
    let p = node l s (grown (right s f l)) t in
    ground (
      arith,
      flatten-climb path p t',
      flatten-rebuild path p,
      flatten_of_map path p (fix_left p) t' (flatten-fix_left p),
      flatten_of_map path p (fix_right p) t' (flatten-fix_right p),
    )
