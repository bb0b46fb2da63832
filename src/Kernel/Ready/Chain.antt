-- ===== src/Kernel/Ready/Chain.antt =====
-- A null-terminated chain of addresses through a `next` field, and what writes do to it.
use tay_huang_os.Prelude.{
  ℕ, ◌≡◌, ◌≢◌, refl, sym, subst, ◌∙◌, List, [], ◌∷◌, ◌++◌, arith, ◌==◌, if◌then◌else◌,
}
use tay_huang_os.Kernel.State.{update}

-- `x` is no element.
abbrev pub NotIn : ℕ → List ℕ → Type 0
NotIn x [] = Unit
NotIn x (y ∷ ys) = (x ≢ y) × NotIn x ys

abbrev pub AllDistinct : List ℕ → Type 0
AllDistinct [] = Unit
AllDistinct (x ∷ xs) = NotIn x xs × AllDistinct xs

abbrev pub Disjoint : List ℕ → List ℕ → Type 0
Disjoint [] ys = Unit
Disjoint (x ∷ xs) ys = NotIn x ys × Disjoint xs ys

-- From `p` the field `next` leads through exactly `xs` to null.
abbrev pub Chain : (ℕ → ℕ) → ℕ → List ℕ → Type 0
Chain next p [] = p ≡ 0
Chain next p (x ∷ xs) = (p ≡ x) × (x ≢ 0) × Chain next (next x) xs

abbrev pub last_or : ℕ → List ℕ → ℕ
last_or d [] = d
last_or d (x ∷ xs) = last_or x xs

pub Chain-ext :
    (f g : ℕ → ℕ) → ((q : ℕ) → f q ≡ g q) → (p : ℕ) (xs : List ℕ) → Chain f p xs → Chain g p xs
Chain-ext f g e p [] h = h
Chain-ext f g e p (x ∷ xs) (h, n, c) =
    (h, n, Chain-ext f g e (g x) xs (subst (λ y. Chain f y xs) (e x) c))

pub update_ne {ℓ} : {A : Type ℓ} (f : ℕ → A) (a : ℕ) (v : A) (q : ℕ) → a ≢ q → update f a v q ≡ f q
update_ne f a v q h = ground arith

pub update_self {ℓ} : {A : Type ℓ} (f : ℕ → A) (a : ℕ) (v : A) → update f a v a ≡ v
update_self f a v = ground arith

pub Chain-update :
    (next : ℕ → ℕ) (a v p : ℕ) (xs : List ℕ)
    → NotIn a xs
    → Chain next p xs
    → Chain (update next a v) p xs
Chain-update next a v p [] m h = h
Chain-update next a v p (x ∷ xs) (m, ms) (h, n, c) =
    (h, n, rw (update_ne next a v x m) (Chain-update next a v (next x) xs ms c))

NotIn-append : (a x : ℕ) (xs : List ℕ) → NotIn a xs → a ≢ x → NotIn a (xs ++ x ∷ [])
NotIn-append a x [] h n = (n, tt)
NotIn-append a x (y ∷ ys) (h, hs) n = (h, NotIn-append a x ys hs n)

pub AllDistinct-append :
    (x : ℕ) (xs : List ℕ) → AllDistinct xs → NotIn x xs → AllDistinct (xs ++ x ∷ [])
AllDistinct-append x [] d n = (tt, tt)
AllDistinct-append x (y ∷ ys) (d, ds) (n, ns) =
    (NotIn-append y x ys d (λ e. n (sym e)), AllDistinct-append x ys ds ns)

last_or-append : (d x : ℕ) (xs : List ℕ) → last_or d (xs ++ x ∷ []) ≡ x
last_or-append d x [] = refl
last_or-append d x (y ∷ ys) = last_or-append y x ys

pub last_or-NotIn : (a y : ℕ) (ys : List ℕ) → NotIn a (y ∷ ys) → a ≢ last_or y ys
last_or-NotIn a y [] (n, ns) = n
last_or-NotIn a y (z ∷ zs) (n, ns) = last_or-NotIn a z zs ns

pub last_or_nonzero :
    (next : ℕ → ℕ) (p y : ℕ) (ys : List ℕ) → Chain next p (y ∷ ys) → last_or y ys ≢ 0
last_or_nonzero next p y [] (h, n, c) = n
last_or_nonzero next p y (z ∷ zs) (h, n, c) = last_or_nonzero next (next y) z zs c

-- Linking a fresh node behind the last one extends the chain by it.
pub Chain-append :
    (next : ℕ → ℕ) (x p y : ℕ) (ys : List ℕ)
    → x ≢ 0
    → AllDistinct (y ∷ ys)
    → NotIn x (y ∷ ys)
    → Chain next p (y ∷ ys)
    → Chain (update (update next x 0) (last_or y ys) x) p (y ∷ ys ++ x ∷ [])
Chain-append next x p y [] x0 d (n, ns) (h, y0, c) = (
  h,
  y0,
  (
    update_self (update next x 0) y x,
    x0,
    update_ne (update next x 0) y x x (λ e. n (sym e)) ∙ update_self next x 0,
  ),
)
Chain-append next x p y (z ∷ zs) x0 (d, ds) (n, ns) (h, y0, c) = (
  h,
  y0,
  subst (λ q. Chain (update (update next x 0) (last_or z zs) x) q (z ∷ zs ++ x ∷ []))
      (sym (
        update_ne (update next x 0) (last_or z zs) x y (λ e. last_or-NotIn y z zs d (sym e))
        ∙ update_ne next x 0 y n))
      (Chain-append next x (next y) z zs x0 ds ns c),
)

-- A head and a tail pointer hold the queue `xs`.
pub record IsQueue (next : ℕ → ℕ) (head tail : ℕ) (xs : List ℕ) : Type 0 where
  pub chain : Chain next head xs
  pub tail_last : tail ≡ last_or 0 xs
  pub distinct : AllDistinct xs

IsQueue-empty : (next : ℕ → ℕ) → IsQueue next 0 0 []
IsQueue-empty next = record { chain = refl; tail_last = refl; distinct = tt }

pub IsQueue-update :
    (next : ℕ → ℕ) (a v head tail : ℕ) (xs : List ℕ)
    → NotIn a xs
    → IsQueue next head tail xs
    → IsQueue (update next a v) head tail xs
IsQueue-update next a v head tail xs n q = record {
  chain = Chain-update next a v head xs n q.chain;
  tail_last = q.tail_last;
  distinct = q.distinct;
}

pub IsQueue-ext :
    (f g : ℕ → ℕ)
    → ((q : ℕ) → f q ≡ g q)
    → {head tail : ℕ} {xs : List ℕ} → IsQueue f head tail xs
    → IsQueue g head tail xs
IsQueue-ext f g e {head} {tail} {xs} q = record {
  chain = Chain-ext f g e head xs q.chain;
  tail_last = q.tail_last;
  distinct = q.distinct;
}

-- Appending a fresh node to a queue that is not empty, and to one that is.
pub IsQueue-append :
    (next : ℕ → ℕ) (x head tail y : ℕ) (ys : List ℕ)
    → x ≢ 0
    → NotIn x (y ∷ ys)
    → IsQueue next head tail (y ∷ ys)
    → IsQueue (update (update next x 0) tail x) head x (y ∷ ys ++ x ∷ [])
IsQueue-append next x head tail y ys x0 n q = record {
  chain =
      subst (λ t. Chain (update (update next x 0) t x) head (y ∷ ys ++ x ∷ [])) (sym q.tail_last)
        (Chain-append next x head y ys x0 q.distinct n q.chain);
  tail_last = sym (last_or-append y x ys);
  distinct = AllDistinct-append x (y ∷ ys) q.distinct n;
}

pub IsQueue-singleton : (next : ℕ → ℕ) (x : ℕ) → x ≢ 0 → IsQueue (update next x 0) x x (x ∷ [])
IsQueue-singleton next x x0 = record {
  chain = (refl, x0, update_self next x 0);
  tail_last = refl;
  distinct = (tt, tt);
}

-- Taking the first node off.
pub IsQueue-tail :
    (next : ℕ → ℕ) (head tail x : ℕ) (xs : List ℕ)
    → IsQueue next head tail (x ∷ xs)
    → IsQueue (update next x 0) (next x) (if next x == 0 then 0 else tail) xs
IsQueue-tail next head tail x [] q = record {
  chain = q.chain.2;
  tail_last = ground (arith, q.chain);
  distinct = tt;
}
IsQueue-tail next head tail x (y ∷ ys) q = record {
  chain = Chain-update next x 0 (next x) (y ∷ ys) q.distinct.0 q.chain.2;
  tail_last = ground (arith, q.chain, q.tail_last);
  distinct = q.distinct.1;
}
