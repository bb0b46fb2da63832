-- ===== src/Kernel/Signal/Tree/Search.antt =====
-- Insertion and lookup in the tree of kernel/task/signal.c.
use tay_huang_os.Prelude.{
  ℕ, Option, none, some, List, [], ◌∷◌, ◌++◌, ◌==◌, ltb, ◌≡◌, ◌≢◌, ◌<◌, refl, sym, ap, subst,
  ltb→lt, ◌∙◌, arith, inl, inr, Bool-cases, Option-cases, some_injective, if◌then◌else◌,
}
use tay_huang_os.Prelude.Int.{ℤ, pos}
use mathlib.Core.List.{append_assoc, append-nil}
use tay_huang_os.Kernel.Signal.Tree.{
  Signal, Tree, leaf, node, left, right, Frame, descend, insert_signal, get_signal,
}
use tay_huang_os.Kernel.Signal.Tree.Order.{flatten, around, flatten-climb}
use tay_huang_os.Kernel.Signal.Tree.Falling.{
  Above, Below, IsFalling, IsOrdered, find, IsFalling-node, get_signal-eq-find, Below-weaken,
  Above-weaken, Below-join, Above-join,
}

-- Where the descent for a new id ends, the tree's order splits into the greater and smaller ids.
record Splits (id : ℕ) (m : List Signal) (path' path : List Frame) : Type 0 where
  xs : List Signal
  ys : List Signal
  whole : m ≡ xs ++ ys
  hole : (n : List Signal) → around path' n ≡ around path (xs ++ (n ++ ys))
  above : Above id xs
  below : Below id ys

Splits-left :
    (id : ℕ) (l : Tree) (s : Signal) (f : ℤ) (r : Tree) (path path' : List Frame)
    → Splits id (flatten l) path' (left s f r ∷ path)
    → s.id < id
    → Below s.id (flatten r)
    → Splits id (flatten l ++ (s ∷ flatten r)) path' path
Splits-left id l s f r path path' i lt b = record {
  xs = i.xs;
  ys = i.ys ++ (s ∷ flatten r);
  whole = ap (λ m. m ++ (s ∷ flatten r)) i.whole ∙ simp append_assoc;
  hole = λ n. i.hole n ∙ ap (around path) (simp append_assoc);
  above = i.above;
  below =
      Below-join id i.ys s (flatten r) i.below lt
        (Below-weaken s.id id (flatten r) b (omega arith));
}

Splits-right :
    (id : ℕ) (l : Tree) (s : Signal) (f : ℤ) (r : Tree) (path path' : List Frame)
    → Splits id (flatten r) path' (right s f l ∷ path)
    → id < s.id
    → Above s.id (flatten l)
    → Splits id (flatten l ++ (s ∷ flatten r)) path' path
Splits-right id l s f r path path' i lt a = record {
  xs = flatten l ++ (s ∷ i.xs);
  ys = i.ys;
  whole = ap (λ m. flatten l ++ (s ∷ m)) i.whole ∙ simp append_assoc;
  hole = λ n. i.hole n ∙ ap (around path) (simp append_assoc);
  above =
      Above-join id (flatten l) s i.xs (Above-weaken s.id id (flatten l) a (omega arith)) lt
        i.above;
  below = i.below;
}

descend-Splits :
    (id : ℕ) (t : Tree) (path path' : List Frame)
    → IsOrdered t
    → descend id t path ≡ some path'
    → Splits id (flatten t) path' path
unfolding descend
descend-Splits id leaf path path' o e = record {
  xs = [];
  ys = [];
  whole = refl;
  hole = λ n. rw (some_injective e, append-nil) refl;
  above = tt;
  below = tt;
}
descend-Splits id (node l s f r) path path' o e =
    let (ol, a, b, or) = IsFalling-node (flatten l) s (flatten r) o in
    elim (Bool-cases (id == s.id)) [
      | inl eq ↦ let e' = rw (eq, descend) at e in cc
      | inr ne ↦ elim (Bool-cases (ltb s.id id)) [
        | inl lt ↦
            let e' = rw (ne, lt, descend) at e in
            Splits-left id l s f r path path' (descend-Splits id l (left s f r ∷ path) path' ol e')
              (ltb→lt s.id id lt) b
        | inr ge ↦
            let e' = rw (ne, ge, descend) at e in
            Splits-right id l s f r path path'
              (descend-Splits id r (right s f l ∷ path) path' or e') (ground arith) a
      ]
    ]

descend-none :
    (id : ℕ) (t : Tree) (path : List Frame) → descend id t path ≡ none → get_signal id t ≢ none
unfolding descend get_signal
descend-none id leaf path e = cc
descend-none id (node l s f r) path e =
    ground (arith, descend-none id l (left s f r ∷ path), descend-none id r (right s f l ∷ path))

-- The order with the new semaphore in its place.
find-between :
    (j : ℕ) (s : Signal) (xs ys : List Signal)
    → Above s.id xs
    → Below s.id ys
    → find j (xs ++ (s ∷ ys)) ≡ (if s.id == j then some s else find j (xs ++ ys))
find-between j s [] ys a b = refl
find-between j s (x ∷ xs) ys (lt, a) b = ground (arith, find-between j s xs ys a b)

Below-between :
    (i : ℕ) (s : Signal) (xs ys : List Signal)
    → s.id < i
    → Below i (xs ++ ys)
    → Below i (xs ++ (s ∷ ys))
Below-between i s [] ys h b = (h, b)
Below-between i s (x ∷ xs) ys h (hb, b) = (hb, Below-between i s xs ys h b)

IsFalling-between :
    (s : Signal) (xs ys : List Signal)
    → IsFalling (xs ++ ys)
    → Above s.id xs
    → Below s.id ys
    → IsFalling (xs ++ (s ∷ ys))
IsFalling-between s [] ys f a b = (b, f)
IsFalling-between s (x ∷ xs) ys (bx, f) (lt, a) b =
    (Below-between x.id s xs ys lt bx, IsFalling-between s xs ys f a b)

-- Inserting a semaphore with a new id into a search tree, when no rotation reads through null, gives
-- a search tree in which the new id leads to that semaphore and every other id to what it led to
-- before.
pub insert_signal-get_signal :
    (s : Signal) (t t' : Tree)
    → IsOrdered t
    → get_signal s.id t ≡ none
    → insert_signal s t ≡ some t'
    → IsOrdered t' × ((j : ℕ) → get_signal j t' ≡ (if s.id == j then some s else get_signal j t))
unfolding insert_signal
insert_signal-get_signal s t t' o fresh e = elim (Option-cases (descend s.id t [])) [
  | inl d ↦ absurd (descend-none s.id t [] d fresh)
  | inr (path, d) ↦
      let i = descend-Splits s.id t [] path o d in
      let flat : flatten t' ≡ i.xs ++ (s ∷ i.ys) =
        flatten-climb path (node leaf s (pos 0) leaf) t' (rw (d, insert_signal) at e)
        ∙ i.hole (s ∷ []) in
      let o' : IsOrdered t' =
        subst IsFalling (sym flat)
          (IsFalling-between s i.xs i.ys (subst IsFalling i.whole o) i.above i.below) in
      (
        o',
        λ j.
            get_signal-eq-find j t' o'
            ∙ ap (find j) flat
            ∙ find-between j s i.xs i.ys i.above i.below
            ∙ ap (λ (r : Option Signal). if s.id == j then some s else r)
                (ap (find j) (sym i.whole) ∙ sym (get_signal-eq-find j t o)),
      )
]

-- A bound on the ids that the new one meets too stays a bound.
pub insert_signal-Below :
    (i : ℕ) (s : Signal) (t t' : Tree)
    → IsOrdered t
    → insert_signal s t ≡ some t'
    → s.id < i
    → Below i (flatten t)
    → Below i (flatten t')
unfolding insert_signal
insert_signal-Below i s t t' o e lt b = elim (Option-cases (descend s.id t [])) [
  | inl d ↦
      let e' = rw (d, insert_signal) at e in subst (λ u. Below i (flatten u)) (some_injective e') b
  | inr (path, d) ↦
      let p = descend-Splits s.id t [] path o d in
      subst (Below i)
        (sym (
          flatten-climb path (node leaf s (pos 0) leaf) t' (rw (d, insert_signal) at e)
          ∙ p.hole (s ∷ [])))
        (Below-between i s p.xs p.ys lt (subst (Below i) p.whole b))
]
