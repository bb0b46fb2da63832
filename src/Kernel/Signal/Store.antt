-- ===== src/Kernel/Signal/Store.antt =====
-- The table of semaphores as a map from ids: what creation, `up` and `down` do to it.
use mathlib.Core.List.{map-append}
use tay_huang_os.Prelude.{
  ℕ, Bool, none, some, List, [], ◌∷◌, map, ◌==◌, ltb, if◌then◌else◌, ◌+◌, ◌%◌, ◌^◌, ◌<◌, ◌≡◌, refl,
  sym, ◌∙◌, subst, arith, Bool-cases, ==_iff, inl, inr,
}
use tay_huang_os.Prelude.Int.{ℤ, pos_part}
use tay_huang_os.Kernel.State.{Kernel}
use tay_huang_os.Kernel.Signal.Tree.{Signal, Tree, leaf, node, get_signal}
use tay_huang_os.Kernel.Signal.Tree.Order.{flatten}
use tay_huang_os.Kernel.Signal.Tree.Falling.{
  Below, IsFalling, IsOrdered, find-Below, get_signal-eq-find, Below-weaken,
}
use tay_huang_os.Kernel.Signal.Tree.Search.{insert_signal-get_signal, insert_signal-Below}
use tay_huang_os.Kernel.Signal.Tree.Balance.{IsBalanced, IsFactor, height, insert_signal-IsBalanced}
use tay_huang_os.Kernel.Signal.Wait.{
  IsCounted, view, wake_first, wait_if, give_unit, take_unit, raise_refines, lower_refines,
}
use tay_huang_os.Kernel.Signal.{
  Signals, new_signal, create_signal, put_signal, lower, up_signal, down_signal,
}

-- The table between two calls: a balanced search tree of ids below the next one.
pub record IsTable (sg : Signals) : Type 0 where
  pub ordered : IsOrdered sg.root
  pub balanced : IsBalanced sg.root
  pub below : Below sg.cur_id (flatten sg.root)

-- A search for an id gives a semaphore of that id.
id-get_signal : (id : ℕ) (t : Tree) (s : Signal) → get_signal id t ≡ some s → s.id ≡ id
unfolding get_signal
id-get_signal id leaf s e = cc
id-get_signal id (node l x f r) s e = ground (arith, id-get_signal id l s, id-get_signal id r s)

-- A write through the pointer that `get_signal` gave changes what that id leads to, and no other.
get_signal-put_signal :
    (id j : ℕ) (v s : Signal) (t : Tree)
    → v.id ≡ id
    → get_signal id t ≡ some s
    → get_signal j (put_signal id v t) ≡ (if id == j then some v else get_signal j t)
unfolding get_signal put_signal
get_signal-put_signal id j v s leaf h e = cc
get_signal-put_signal id j v s (node l x f r) h e =
    ground (arith, get_signal-put_signal id j v s l h, get_signal-put_signal id j v s r h)

abbrev ids : List Signal → List ℕ
ids = map (λ (s : Signal). s.id)

ids-put_signal :
    (id : ℕ) (v : Signal) (t : Tree)
    → v.id ≡ id
    → ids (flatten (put_signal id v t)) ≡ ids (flatten t)
unfolding put_signal
ids-put_signal id v leaf h = refl
ids-put_signal id v (node l x f r) h = elim (Bool-cases (x.id == id)) [
  | inl eq ↦ rw eq (simp map-append (rw (h ∙ sym ((==_iff x.id id).0 eq))))
  | inr ne ↦ elim (Bool-cases (ltb x.id id)) [
    | inl lt ↦ rw (ne, lt) (simp map-append (rw (ids-put_signal id v l h)))
    | inr ge ↦ rw (ne, ge) (simp map-append (rw (ids-put_signal id v r h)))
  ]
]

Below-ids : (i : ℕ) (xs ys : List Signal) → ids xs ≡ ids ys → Below i xs → Below i ys
Below-ids i [] [] e b = tt
Below-ids i [] (y ∷ ys) e b = cc
Below-ids i (x ∷ xs) [] e b = cc
Below-ids i (x ∷ xs) (y ∷ ys) e (h, b) =
    let e0 : x.id ≡ y.id = cc in
    let e1 : ids xs ≡ ids ys = cc in (omega arith, Below-ids i xs ys e1 b)

IsFalling-ids : (xs ys : List Signal) → ids xs ≡ ids ys → IsFalling xs → IsFalling ys
IsFalling-ids [] [] e f = tt
IsFalling-ids [] (y ∷ ys) e f = cc
IsFalling-ids (x ∷ xs) [] e f = cc
IsFalling-ids (x ∷ xs) (y ∷ ys) e (b, f) =
    let e0 : x.id ≡ y.id = cc in
    let e1 : ids xs ≡ ids ys = cc in
    (subst (λ i. Below i ys) e0 (Below-ids x.id xs ys e1 b), IsFalling-ids xs ys e1 f)

height-put_signal : (id : ℕ) (v : Signal) (t : Tree) → height (put_signal id v t) ≡ height t
unfolding put_signal
height-put_signal id v leaf = refl
height-put_signal id v (node l x f r) =
    ground (arith, height-put_signal id v l, height-put_signal id v r)

put_signal-IsBalanced :
    (id : ℕ) (v : Signal) (t : Tree) → IsBalanced t → IsBalanced (put_signal id v t)
unfolding put_signal
put_signal-IsBalanced id v leaf b = tt
put_signal-IsBalanced id v (node l x f r) (bl, ok, br) = elim (Bool-cases (x.id == id)) [
  | inl eq ↦ rw eq (bl, ok, br)
  | inr ne ↦ elim (Bool-cases (ltb x.id id)) [
    | inl lt ↦
        rw (ne, lt)
          (
            put_signal-IsBalanced id v l bl,
            subst (λ h. IsFactor f h (height r)) (sym (height-put_signal id v l)) ok,
            br,
          )
    | inr ge ↦
        rw (ne, ge)
          (
            bl,
            subst (IsFactor f (height l)) (sym (height-put_signal id v r)) ok,
            put_signal-IsBalanced id v r br,
          )
  ]
]

-- A write at an id that is there keeps the table.
put_signal-IsTable :
    (id : ℕ) (v : Signal) (sg : Signals)
    → v.id ≡ id
    → IsTable sg
    → IsTable (record sg { root = put_signal id v sg.root })
put_signal-IsTable id v sg h w = record {
  ordered =
      IsFalling-ids (flatten sg.root) (flatten (put_signal id v sg.root))
        (sym (ids-put_signal id v sg.root h)) w.ordered;
  balanced = put_signal-IsBalanced id v sg.root w.balanced;
  below =
      Below-ids sg.cur_id (flatten sg.root) (flatten (put_signal id v sg.root))
        (sym (ids-put_signal id v sg.root h)) w.below;
}

-- `create_signal` never reads through null while ids are left; it returns an id that was free, under
-- which the new semaphore is found with no thread waiting, and every other id is as before. The
-- table stays a balanced search tree.
pub create_signal-IsTable :
    (most value : ℤ) (soft : Bool) (sg : Signals)
    → IsTable sg
    → sg.cur_id + 1 < 2 ^ 32
    → get_signal sg.cur_id sg.root ≡ none
      × ((sg' : Signals) × (create_signal most value soft sg ≡ some (sg.cur_id, sg'))
          × IsTable sg'
          × ((j : ℕ)
              → get_signal j sg'.root ≡ (
                  if sg.cur_id == j
                  then some (new_signal sg.cur_id most value soft)
                  else get_signal j sg.root)))
unfolding create_signal
create_signal-IsTable most value soft sg w lt =
    let s = new_signal sg.cur_id most value soft in
    let fresh : get_signal sg.cur_id sg.root ≡ none =
      get_signal-eq-find sg.cur_id sg.root w.ordered
      ∙ find-Below sg.cur_id sg.cur_id (flatten sg.root) w.below (omega arith) in
    let (t, e, b) = insert_signal-IsBalanced s sg.root w.balanced w.below in
    let (o, found) = insert_signal-get_signal s sg.root t w.ordered fresh e in
    let next = (sg.cur_id + 1) % 2 ^ 32 in
    let low : Below next (flatten t) =
      insert_signal-Below next s sg.root t w.ordered e (omega arith)
        (Below-weaken sg.cur_id next (flatten sg.root) w.below (omega arith)) in
    (
      fresh,
      (
        record { root = t; cur_id = (sg.cur_id + 1) % 2 ^ 32 },
        rw e,
        record { ordered = o; balanced = b; below = low },
        found,
      ),
    )

-- `up` at an id that holds a counted semaphore is never a fault: that id then holds the semaphore
-- after the textbook operation, the thread that was given the unit is ready and enqueued, every
-- other id is as before, and the table stays well formed.
pub up_signal-IsTable :
    (id : ℕ) (sg : Signals) (k : Kernel) (s : Signal)
    → IsTable sg
    → get_signal id sg.root ≡ some s
    → IsCounted s
    → let (m, woken) = give_unit (pos_part s.max_signals) (view s) in
      (sg' : Signals) × (up_signal id sg k ≡ some (sg', wake_first woken k))
      × IsTable sg'
      × ((s' : Signal) × IsCounted s'
          × (view s' ≡ m)
          × ((j : ℕ) → get_signal j sg'.root ≡ (if id == j then some s' else get_signal j sg.root)))
unfolding up_signal
up_signal-IsTable id sg k s w e c =
    let (s', re, c', v, h) = raise_refines s k c in
    let same : s'.id ≡ id = h ∙ id-get_signal id sg.root s e in
    (
      record sg { root = put_signal id s' sg.root },
      rw (e, re) refl,
      put_signal-IsTable id s' sg same w,
      (s', c', v, λ j. get_signal-put_signal id j s' s sg.root same e),
    )

-- `down` at an id that holds a counted semaphore does the same for the current thread, which waits
-- exactly when no unit is free.
pub down_signal-IsTable :
    (id : ℕ) (sg : Signals) (k : Kernel) (s : Signal)
    → IsTable sg
    → get_signal id sg.root ≡ some s
    → IsCounted s
    → let (m, waits) = take_unit k.current_thread (view s) in
      (sg' : Signals) × (down_signal id sg k ≡ some (sg', wait_if waits k))
      × IsTable sg'
      × ((s' : Signal) × IsCounted s'
          × (view s' ≡ m)
          × ((j : ℕ) → get_signal j sg'.root ≡ (if id == j then some s' else get_signal j sg.root)))
unfolding down_signal
down_signal-IsTable id sg k s w e c =
    let (c', v, k', h) = lower_refines s k c in
    let s' = (lower s k).0 in
    let same : s'.id ≡ id = h ∙ id-get_signal id sg.root s e in
    (
      record sg { root = put_signal id s' sg.root },
      rw (e, k') refl,
      put_signal-IsTable id s' sg same w,
      (s', c', v, λ j. get_signal-put_signal id j s' s sg.root same e),
    )
