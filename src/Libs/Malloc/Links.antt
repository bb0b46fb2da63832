-- ===== src/Libs/Malloc/Links.antt =====
-- The free chunks of libs/libkmod/memory/malloc.c as a list in one direction.
use mathlib.Core.List.{append_assoc}
use tay_huang_os.Prelude.{
  ℕ, List, [], ◌∷◌, ◌++◌, ◌+◌, ◌<◌, ◌≤◌, ◌≡◌, ◌≢◌, sym, ap, ◌∙◌, subst, arith,
}
use tay_huang_os.Kernel.State.{update}
use tay_huang_os.Kernel.Ready.Chain.{update_ne}
use tay_huang_os.Libs.Malloc.{Chunk, Chunks}

-- A free chunk: where its header stands, and its size with the header.
pub record Area : Type 0 where
  pub addr : ℕ
  pub size : ℕ

abbrev pub first_or : ℕ → List Area → ℕ
first_or e [] = e
first_or e (x ∷ xs) = x.addr

-- The headers of the chunks in the order of their links, with what stands behind the last one.
abbrev pub Linked : Chunks → List Area → ℕ → Type 0
Linked m [] next = Unit
Linked m (x ∷ xs) next =
    (x.addr ≢ 0)
    × ((m x.addr).size ≡ x.size)
    × ((m x.addr).next ≡ first_or next xs)
    × Linked m xs next

-- No chunk has its header there.
abbrev pub Fresh : ℕ → List Area → Type 0
Fresh a [] = Unit
Fresh a (x ∷ xs) = (a ≢ x.addr) × Fresh a xs

abbrev pub AllDistinct : List Area → Type 0
AllDistinct [] = Unit
AllDistinct (x ∷ xs) = Fresh x.addr xs × AllDistinct xs

-- In the order of the addresses, from above `low` on.
abbrev pub Ascends : ℕ → List Area → Type 0
Ascends low [] = Unit
Ascends low (x ∷ xs) = (low < x.addr) × Ascends x.addr xs

pub Linked-append :
    (m : Chunks) (xs ys : List Area) (next : ℕ)
    → Linked m xs (first_or next ys)
    → Linked m ys next
    → Linked m (xs ++ ys) next
Linked-append m [] ys next a b = b
Linked-append m (x ∷ []) ys next (n, s, e, a) b = (n, s, e, b)
Linked-append m (x ∷ y ∷ xs) ys next (n, s, e, a) b =
    (n, s, e, Linked-append m (y ∷ xs) ys next a b)

pub Linked-split :
    (m : Chunks) (xs ys : List Area) (next : ℕ)
    → Linked m (xs ++ ys) next
    → Linked m xs (first_or next ys) × Linked m ys next
Linked-split m [] ys next a = (tt, a)
Linked-split m (x ∷ []) ys next (n, s, e, a) = ((n, s, e, tt), a)
Linked-split m (x ∷ y ∷ xs) ys next (n, s, e, a) =
    let (a1, a2) = Linked-split m (y ∷ xs) ys next a in ((n, s, e, a1), a2)

-- A write that misses the headers.
pub Linked-update :
    (m : Chunks) (a : ℕ) (v : Chunk) (xs : List Area) (next : ℕ)
    → Fresh a xs
    → Linked m xs next
    → Linked (update m a v) xs next
Linked-update m a v [] next f l = tt
Linked-update m a v (x ∷ xs) next (n, f) (z, s, e, l) = (
  z,
  ap Chunk.size (update_ne m a v x.addr n) ∙ s,
  ap Chunk.next (update_ne m a v x.addr n) ∙ e,
  Linked-update m a v xs next f l,
)

Fresh-append : (a : ℕ) (xs ys : List Area) → Fresh a xs → Fresh a ys → Fresh a (xs ++ ys)
Fresh-append a [] ys f g = g
Fresh-append a (x ∷ xs) ys (n, f) g = (n, Fresh-append a xs ys f g)

pub Ascends-Fresh : (low a : ℕ) (xs : List Area) → a ≤ low → Ascends low xs → Fresh a xs
Ascends-Fresh low a [] h s = tt
Ascends-Fresh low a (x ∷ xs) h (k, s) = (omega arith, Ascends-Fresh x.addr a xs (omega arith) s)

-- The parts of an ascending list around one of its chunks.
pub Ascends-split :
    (low : ℕ) (xs : List Area) (y : Area) (ys : List Area)
    → Ascends low (xs ++ (y ∷ ys))
    → Ascends y.addr ys × Fresh y.addr xs × (low < y.addr)
Ascends-split low [] y ys (k, s) = (s, tt, k)
Ascends-split low (x ∷ xs) y ys (k, s) =
    let (a, f, b) = Ascends-split x.addr xs y ys s in (a, (omega arith, f), omega arith)

-- Behind each chunk there is space before the next one of the list.
abbrev pub AllGapped : List Area → Type 0
AllGapped [] = Unit
AllGapped (x ∷ xs) = Ascends (x.addr + x.size) xs × AllGapped xs

pub AllGapped-split :
    (xs : List Area) (y : Area) (ys : List Area)
    → AllGapped (xs ++ (y ∷ ys))
    → Ascends (y.addr + y.size) ys
AllGapped-split [] y ys (a, g) = a
AllGapped-split (x ∷ xs) y ys (a, g) = AllGapped-split xs y ys g

pub Ascends-weaken : (low low' : ℕ) (xs : List Area) → low' ≤ low → Ascends low xs → Ascends low' xs
Ascends-weaken low low' [] h s = tt
Ascends-weaken low low' (x ∷ xs) h (k, s) = (omega arith, s)

-- The list of the free chunks behind its head, the first chunk of all, which is never given away.
pub record IsHeap (m : Chunks) (heap : ℕ) (head : Area) (xs : List Area) : Type 0 where
  pub linked : Linked m (head ∷ xs) 0
  pub begins : head.addr ≡ heap
  pub ascends : Ascends 0 (head ∷ xs)

-- The two chunks `l` and `c` in the list.
pub record Around (m : Chunks) (pre : List Area) (l c : Area) (post : List Area) : Type 0 where
  pub before : Linked m pre l.addr
  pub size_l : (m l.addr).size ≡ l.size
  pub next_l : (m l.addr).next ≡ c.addr
  pub size_c : (m c.addr).size ≡ c.size
  pub next_c : (m c.addr).next ≡ first_or 0 post
  pub behind : Linked m post 0
  pub nonzero : 0 < l.addr
  pub order : l.addr < c.addr
  pub fresh_l : Fresh l.addr pre
  pub fresh_c : Fresh c.addr pre
  pub ascends_pre : Ascends 0 (pre ++ (l ∷ []))
  pub above : Ascends c.addr post

pub Ascends-front : (low : ℕ) (xs ys : List Area) → Ascends low (xs ++ ys) → Ascends low xs
Ascends-front low [] ys s = tt
Ascends-front low (x ∷ xs) ys (k, s) = (k, Ascends-front x.addr xs ys s)

Fresh-front : (a : ℕ) (xs ys : List Area) → Fresh a (xs ++ ys) → Fresh a xs
Fresh-front a [] ys f = tt
Fresh-front a (x ∷ xs) ys (n, f) = (n, Fresh-front a xs ys f)

-- Above the last chunk no header stands.
pub Ascends-above :
    (low : ℕ) (xs : List Area) (l : Area) (a : ℕ)
    → Ascends low (xs ++ (l ∷ []))
    → l.addr < a
    → Fresh a xs
Ascends-above low [] l a s h = tt
Ascends-above low (x ∷ xs) l a (k, s) h =
    let (u, f, b) = Ascends-split x.addr xs l [] s in (omega arith, Ascends-above x.addr xs l a s h)

pub IsHeap-Around :
    (m : Chunks) (heap : ℕ) (head : Area) (xs pre : List Area) (l c : Area) (post : List Area)
    → IsHeap m heap head xs
    → head ∷ xs ≡ pre ++ (l ∷ c ∷ post)
    → Around m pre l c post
IsHeap-Around m heap head xs pre l c post h e =
    let linked = subst (λ ys. Linked m ys 0) e h.linked in
    let s = subst (Ascends 0) e h.ascends in
    let (l1, (lz, ls, ln, (cz, cs, cn, l2))) = Linked-split m pre (l ∷ c ∷ post) 0 linked in
    let ((o, up), f, b) = Ascends-split 0 pre l (c ∷ post) s in
    let s' = subst (Ascends 0) (sym (append_assoc pre (l ∷ []) (c ∷ post))) s in
    let a = Ascends-front 0 (pre ++ (l ∷ [])) (c ∷ post) s' in
    record {
      before = l1;
      size_l = ls;
      next_l = ln;
      size_c = cs;
      next_c = cn;
      behind = l2;
      nonzero = b;
      order = o;
      fresh_l = f;
      fresh_c = Ascends-above 0 pre l c.addr a o;
      ascends_pre = a;
      above = up;
    }

-- What stands behind a chunk can be exchanged for chunks above it.
pub Ascends-join :
    (low : ℕ) (pre : List Area) (l : Area) (ys : List Area)
    → Ascends low (pre ++ (l ∷ []))
    → Ascends l.addr ys
    → Ascends low (pre ++ (l ∷ ys))
Ascends-join low [] l ys (k, s) t = (k, t)
Ascends-join low (x ∷ pre) l ys (k, s) t = (k, Ascends-join x.addr pre l ys s t)

-- A chunk's size has no part in the order.
pub Ascends-same :
    (low : ℕ) (pre : List Area) (a c : Area) (ys : List Area)
    → a.addr ≡ c.addr
    → Ascends low (pre ++ (a ∷ ys))
    → Ascends low (pre ++ (c ∷ ys))
Ascends-same low [] a c ys e (k, s) = (omega arith, subst (λ l. Ascends l ys) e s)
Ascends-same low (x ∷ pre) a c ys e (k, s) = (k, Ascends-same x.addr pre a c ys e s)
