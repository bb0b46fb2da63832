-- ===== src/Kernel/Signal/Tree.antt =====
-- The tree of semaphores (kernel/task/signal.c): greater ids stand to the left, and `factor` is the
-- height of the right side less that of the left. The parent pointers that the code climbs are the
-- path from the new node to the root.
pub mod Order
pub mod Falling
pub mod Search
pub mod Balance
use mathlib.Core.Option
use tay_huang_os.Prelude.{
  ℕ, Bool, true, false, Option, none, some, List, [], ◌∷◌, ◌==◌, ◌||◌, ltb, if◌then◌else◌,
}
use tay_huang_os.Prelude.Int.{ℤ, pos, negsuc, ==ℤ, ◌+ℤ◌, ◌-ℤ◌}

-- `signal_t`. The queue of waiting threads is the list of their addresses, first to wake first; its
-- nodes are allocated by `enqueue_wt` and seen by nothing else.
pub record Signal : Type 0 where
  pub id : ℕ
  pub signals : ℤ
  pub max_signals : ℤ
  pub soft : Bool
  pub waiters : List ℕ

-- `signal_node *`; `leaf` is NULL.
pub data Tree : Type 0 where
  leaf : Tree
  node : Tree → Signal → ℤ → Tree → Tree

-- A node on the way down, without the child on the path: that child is its left or its right one,
-- and the other child is kept.
pub data Frame : Type 0 where
  left : Signal → ℤ → Tree → Frame
  right : Signal → ℤ → Tree → Frame

infixl 5 ◌>>=◌
abbrev pub ◌>>=◌ {ℓ κ} : {A : Type ℓ} {B : Type κ} → Option A → (A → Option B) → Option B
none >>= f = none
some a >>= f = f a

-- A rotation at a node without the child that it turns is a read through null, `none`.
unfoldable pub fix_ll : Tree → Option Tree
fix_ll (node (node a x fx b) y fy c) = some (node a x (pos 0) (node b y (pos 0) c))
fix_ll _ = none

unfoldable pub fix_rr : Tree → Option Tree
fix_rr (node a x fx (node b y fy c)) = some (node (node a x (pos 0) b) y (pos 0) c)
fix_rr _ = none

-- `node->factor` by the address of the child, after the double rotation of `fix_lr`.
abbrev pub adjust_lr : ℤ → Tree → Tree
adjust_lr f (node (node a x fx b) z fz (node c y fy d)) =
    if ==ℤ f (pos 1)
    then node (node a x (negsuc 0) b) z fz (node c y fy d)
    else if ==ℤ f (negsuc 0)
    then node (node a x fx b) z fz (node c y (pos 1) d)
    else node (node a x fx b) z fz (node c y fy d)
adjust_lr f t = t

unfoldable pub fix_lr : Tree → Option Tree
unfolding fix_ll fix_rr
fix_lr (node (node a x fx (node b z fz c)) y fy d) = do
  sub ← fix_rr (node a x fx (node b z fz c))
  t ← fix_ll (node sub y fy d)
  some (adjust_lr fz t)
fix_lr _ = none

-- No factor is adjusted here.
unfoldable pub fix_rl : Tree → Option Tree
unfolding fix_ll fix_rr
fix_rl (node a x fx (node (node b z fz c) y fy d)) = do
  sub ← fix_ll (node (node b z fz c) y fy d)
  fix_rr (node a x fx sub)
fix_rl _ = none

-- The node of a frame with its child and a factor put in.
abbrev pub plug : Frame → ℤ → Tree → Tree
plug (left s f r) g t = node t s g r
plug (right s f l) g t = node l s g t

abbrev pub factor : Frame → ℤ
factor (left s f r) = f
factor (right s f l) = f

abbrev pub rebuild : List Frame → Tree → Tree
rebuild [] t = t
rebuild (frame ∷ path) t = rebuild path (plug frame (factor frame) t)

-- The first loop of `__insert_signal`: `none` when the id is there.
unfoldable pub descend : ℕ → Tree → List Frame → Option (List Frame)
descend id leaf path = some path
descend id (node l s f r) path =
    let go_left = descend id l (left s f r ∷ path) in
    let go_right = descend id r (right s f l ∷ path) in
    if id == s.id then none else if ltb s.id id then go_left else go_right

-- `parent->factor --` on the left, `parent->factor ++` on the right.
abbrev pub grown : Frame → ℤ
grown (left s f r) = f -ℤ pos 1
grown (right s f l) = f +ℤ pos 1

-- The rotations at a parent whose factor is -2, by the factor of its left child, and at one whose
-- factor is 2, by that of its right child. A child that is not there is a read through null.
unfoldable pub fix_left : Tree → Option Tree
fix_left (node (node a x fx b) y fy c) =
    if ==ℤ fx (negsuc 0)
    then fix_ll (node (node a x fx b) y fy c)
    else fix_lr (node (node a x fx b) y fy c)
fix_left _ = none

unfoldable pub fix_right : Tree → Option Tree
fix_right (node a x fx (node b y fy c)) =
    if ==ℤ fy (pos 1)
    then fix_rr (node a x fx (node b y fy c))
    else fix_rl (node a x fx (node b y fy c))
fix_right _ = none

-- The second loop: `t` is the subtree of `node`, below the frames of its parents.
unfoldable pub climb : List Frame → Tree → Option Tree
climb [] t = some t
climb (frame ∷ path) t =
    let f = grown frame in
    let p = plug frame f t in
    let on = climb path p in
    if ==ℤ f (pos 0)
    then some (rebuild path p)
    else if ==ℤ f (pos 1) || ==ℤ f (negsuc 0)
    then on
    else if ==ℤ f (negsuc 1)
    then Option.map (rebuild path) (fix_left p)
    else if ==ℤ f (pos 2)
    then Option.map (rebuild path) (fix_right p)
    else some (rebuild path p)

-- `insert_signal`: an id that exists is reported and the tree stays.
unfoldable pub insert_signal : Signal → Tree → Option Tree
insert_signal s t = elim (descend s.id t []) [
  | none ↦ some t
  | some path ↦ climb path (node leaf s (pos 0) leaf)
]

-- `get_signal`; `none` is NULL.
unfoldable pub get_signal : ℕ → Tree → Option Signal
get_signal id leaf = none
get_signal id (node l s f r) =
    let in_left = get_signal id l in
    let in_right = get_signal id r in
    if s.id == id then some s else if ltb s.id id then in_left else in_right
