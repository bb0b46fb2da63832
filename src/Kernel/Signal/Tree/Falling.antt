-- ===== src/Kernel/Signal/Tree/Falling.antt =====
-- Lists of semaphores whose ids fall, as the tree of kernel/task/signal.c keeps them.
use tay_huang_os.Prelude.{
  ℕ, Option, none, some, List, [], ◌∷◌, ◌++◌, ◌==◌, ◌≡◌, ◌<◌, ◌≤◌, refl, arith, if◌then◌else◌,
}
use tay_huang_os.Kernel.Signal.Tree.{Signal, Tree, leaf, node, get_signal}
use tay_huang_os.Kernel.Signal.Tree.Order.{flatten}

-- The tree is a search tree: its ids fall from left to right.
abbrev pub Above : ℕ → List Signal → Type 0
Above i [] = Unit
Above i (s ∷ ss) = (i < s.id) × Above i ss

abbrev pub Below : ℕ → List Signal → Type 0
Below i [] = Unit
Below i (s ∷ ss) = (s.id < i) × Below i ss

abbrev pub IsFalling : List Signal → Type 0
IsFalling [] = Unit
IsFalling (s ∷ ss) = Below s.id ss × IsFalling ss

abbrev pub IsOrdered : Tree → Type 0
IsOrdered t = IsFalling (flatten t)

-- The first semaphore of a list with an id.
abbrev pub find : ℕ → List Signal → Option Signal
find id [] = none
find id (s ∷ ss) = if s.id == id then some s else find id ss

pub find-Below : (i j : ℕ) (ss : List Signal) → Below i ss → i ≤ j → find j ss ≡ none
find-Below i j [] b h = refl
find-Below i j (s ∷ ss) (b, bs) h = ground (arith, find-Below i j ss bs h)

find-Above : (i j : ℕ) (ss : List Signal) → Above i ss → j ≤ i → find j ss ≡ none
find-Above i j [] b h = refl
find-Above i j (s ∷ ss) (b, bs) h = ground (arith, find-Above i j ss bs h)

unfoldable pub or_else : Option Signal → Option Signal → Option Signal
or_else none o = o
or_else (some s) o = some s

find-append : (j : ℕ) (xs ys : List Signal) → find j (xs ++ ys) ≡ or_else (find j xs) (find j ys)
unfolding or_else
find-append j [] ys = refl
find-append j (x ∷ xs) ys = ground (arith, find-append j xs ys)

-- What falling says of a node's two sides.
pub IsFalling-node :
    (xs : List Signal) (s : Signal) (ys : List Signal)
    → IsFalling (xs ++ (s ∷ ys))
    → IsFalling xs × Above s.id xs × Below s.id ys × IsFalling ys
IsFalling-node [] s ys (b, f) = (tt, tt, b, f)
IsFalling-node (x ∷ xs) s ys (b, f) =
    let (fx, a, by, fy) = IsFalling-node xs s ys f in
    let (bx, lt) = Below-append x.id xs s ys b in ((bx, fx), (lt, a), by, fy)
  where
    Below-append :
        (i : ℕ) (xs : List Signal) (s : Signal) (ys : List Signal)
        → Below i (xs ++ (s ∷ ys))
        → Below i xs × (s.id < i)
    Below-append i [] s ys (h, b) = (tt, h)
    Below-append i (x ∷ xs) s ys (h, b) = let (bs, lt) = Below-append i xs s ys b in ((h, bs), lt)

-- In a search tree `get_signal` finds what stands in it.
pub get_signal-eq-find : (j : ℕ) (t : Tree) → IsOrdered t → get_signal j t ≡ find j (flatten t)
unfolding get_signal or_else
get_signal-eq-find j leaf o = refl
get_signal-eq-find j (node l s f r) o =
    let (ol, a, b, or) = IsFalling-node (flatten l) s (flatten r) o in
    ground (
      arith,
      find-append j (flatten l) (s ∷ flatten r),
      get_signal-eq-find j l ol,
      get_signal-eq-find j r or,
      find-Above s.id j (flatten l) a,
      find-Below s.id j (flatten r) b,
    )

pub Below-weaken : (i j : ℕ) (ss : List Signal) → Below i ss → i ≤ j → Below j ss
Below-weaken i j [] b h = tt
Below-weaken i j (s ∷ ss) (b, bs) h = (omega arith, Below-weaken i j ss bs h)

pub Above-weaken : (i j : ℕ) (ss : List Signal) → Above i ss → j ≤ i → Above j ss
Above-weaken i j [] b h = tt
Above-weaken i j (s ∷ ss) (b, bs) h = (omega arith, Above-weaken i j ss bs h)

pub Below-join :
    (i : ℕ) (xs : List Signal) (s : Signal) (ys : List Signal)
    → Below i xs
    → s.id < i
    → Below i ys
    → Below i (xs ++ (s ∷ ys))
Below-join i [] s ys b h bs = (h, bs)
Below-join i (x ∷ xs) s ys (b, bx) h bs = (b, Below-join i xs s ys bx h bs)

pub Above-join :
    (i : ℕ) (xs : List Signal) (s : Signal) (ys : List Signal)
    → Above i xs
    → i < s.id
    → Above i ys
    → Above i (xs ++ (s ∷ ys))
Above-join i [] s ys b h bs = (h, bs)
Above-join i (x ∷ xs) s ys (b, bx) h bs = (b, Above-join i xs s ys bx h bs)
