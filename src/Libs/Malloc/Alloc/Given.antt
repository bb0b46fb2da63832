-- ===== src/Libs/Malloc/Alloc/Given.antt =====
-- What `malloc` gives, and the list after (libs/libkmod/memory/malloc.c).
use mathlib.Core.List.{append_assoc}
use tay_huang_os.Prelude.{
  ℕ, Bool, true, false, List, [], ◌∷◌, ◌++◌, ◌+◌, ◌≤◌, ◌≡◌, refl, sym, ap, ◌∙◌, subst, arith,
  Bool-cases, inl, inr, if◌then◌else◌,
}
use tay_huang_os.Kernel.State.{update}
use tay_huang_os.Kernel.Ready.Chain.{update_self}
use tay_huang_os.Libs.Malloc.{Chunk, Chunks, chunk_header, set_next, chunk_size, take_chunk}
use tay_huang_os.Libs.Malloc.Links.{
  Area, first_or, Linked, Ascends, Ascends-weaken, Ascends-join, AllGapped, AllGapped-split, IsHeap,
  Around, IsHeap-Around,
}
use tay_huang_os.Libs.Malloc.Alloc.Search.{First}
use tay_huang_os.Libs.Malloc.Alloc.Divide.{
  divided-Linked, whole-Linked, left_over, is_divided, in_place, given_size, take_chunk_lem,
}

-- The first chunk behind the head that is large enough leaves the list. A part of it that is not given
-- takes its place, and the other free chunks stay.
pub record IsGiven (m m' : Chunks) (heap size addr : ℕ) (head : Area) (xs : List Area)
    : Type 0 where
  pub first : First (chunk_size size) head xs
  pub ys : List Area
  pub parts :
      head ∷ ys
      ≡ first.pre ++ (first.before ∷ (in_place (chunk_size size) first.chunk ++ first.post))
  pub is_heap : IsHeap m' heap head ys
  pub place : addr ≡ first.chunk.addr + chunk_header
  pub given : (m' first.chunk.addr).size ≡ given_size (chunk_size size) first.chunk
  pub enough : size + chunk_header ≤ given_size (chunk_size size) first.chunk

pub same-head :
    (head : Area) (xs pre : List Area) (l : Area) (ys zs : List Area)
    → head ∷ xs ≡ pre ++ (l ∷ ys)
    → (us : List Area) × (head ∷ us ≡ pre ++ (l ∷ zs))
same-head head xs [] l ys zs e = (zs, let h : head ≡ l = cc in ap (λ x. x ∷ zs) h)
same-head head xs (p ∷ pre) l ys zs e =
    (pre ++ (l ∷ zs), let h : head ≡ p = cc in ap (λ x. x ∷ (pre ++ (l ∷ zs))) h)

pub gap-behind :
    (head : Area) (xs pre : List Area) (l c : Area) (post : List Area)
    → head ∷ xs ≡ pre ++ (l ∷ c ∷ post)
    → AllGapped xs
    → Ascends (c.addr + c.size) post
gap-behind head xs [] l c post e g = let t : xs ≡ c ∷ post = cc in (subst AllGapped t g).0
gap-behind head xs (p ∷ pre) l c post e g =
    let t : xs ≡ pre ++ (l ∷ c ∷ post) = cc in
    AllGapped-split (pre ++ (l ∷ [])) c post
      (subst AllGapped (t ∙ sym (append_assoc pre (l ∷ []) (c ∷ post))) g)

-- The store when the chunk was divided, and when not.
abbrev pub divided_store : Chunks → ℕ → Area → Area → ℕ → Chunks
divided_store m fixed l c next =
    update
      (set_next l.addr (left_over fixed c).addr (
        update m (left_over fixed c).addr
          (record { size = (left_over fixed c).size; used = false; next = next })))
      c.addr (record { size = fixed; used = true; next = 0 })

abbrev pub whole_store : Chunks → Area → Area → ℕ → Chunks
whole_store m l c next =
    update (set_next l.addr next m) c.addr (record { size = c.size; used = true; next = 0 })

-- What is to be shown of the store `s`, where `q` says whether the chunk was divided.
pub record After (s : Chunks) (fixed : ℕ) (pre : List Area) (l c : Area) (post : List Area)
    (q : Bool) : Type 0 where
  pub links : Linked s (pre ++ (l ∷ ((if q then left_over fixed c ∷ [] else []) ++ post))) 0
  pub order : Ascends 0 (pre ++ (l ∷ ((if q then left_over fixed c ∷ [] else []) ++ post)))
  pub given : (s c.addr).size ≡ (if q then fixed else c.size)

pub take_chunk-After :
    (m : Chunks) (fixed : ℕ) (pre : List Area) (l c : Area) (post : List Area)
    → Around m pre l c post
    → Ascends (c.addr + c.size) post
    → After (take_chunk fixed l.addr m) fixed pre l c post (is_divided fixed c)
take_chunk-After m fixed pre l c post r gap =
    let next = first_or 0 post in
    let eq = take_chunk_lem m fixed l.addr next c r.next_l r.size_c r.next_c in
    let choice =
      λ (q : Bool). if q then divided_store m fixed l c next else whole_store m l c next in
    subst (λ s. After s fixed pre l c post (is_divided fixed c)) (sym eq)
      (elim (Bool-cases (is_divided fixed c)) [
        | inl e ↦
            let up : Ascends (left_over fixed c).addr post =
              Ascends-weaken (c.addr + c.size) (left_over fixed c).addr post (ground arith) gap in
            subst (λ q. After (choice q) fixed pre l c post q) (sym e)
              (record {
                links =
                    divided-Linked m fixed pre l c post r
                      (record { size = fixed; used = true; next = 0 }) up;
                order =
                    Ascends-join 0 pre l (left_over fixed c ∷ post) r.ascends_pre
                      (omega (arith, r.order), up);
                given = ap Chunk.size (
                    update_self
                      (set_next l.addr (left_over fixed c).addr (
                        update m (left_over fixed c).addr
                          (record { size = (left_over fixed c).size; used = false; next = next })))
                      c.addr (record { size = fixed; used = true; next = 0 }));
              })
        | inr e ↦
            subst (λ q. After (choice q) fixed pre l c post q) (sym e)
              (record {
                links =
                    whole-Linked m fixed pre l c post r
                      (record { size = c.size; used = true; next = 0 });
                order =
                    Ascends-join 0 pre l post r.ascends_pre
                      (Ascends-weaken c.addr l.addr post (omega (arith, r.order)) r.above);
                given = ap Chunk.size (
                    update_self (set_next l.addr next m) c.addr
                      (record { size = c.size; used = true; next = 0 }));
              })
      ])

pub take_chunk-IsGiven :
    (m : Chunks) (heap size : ℕ) (head : Area) (xs : List Area)
    → IsHeap m heap head xs
    → AllGapped xs
    → (f : First (chunk_size size) head xs)
    → IsGiven m
        (take_chunk (chunk_size size) f.before.addr m)
        heap
        size
        (f.chunk.addr + chunk_header)
        head
        xs
take_chunk-IsGiven m heap size head xs h g f =
    let fixed = chunk_size size in
    let r = IsHeap-Around m heap head xs f.pre f.before f.chunk f.post h f.parts in
    let gap = gap-behind head xs f.pre f.before f.chunk f.post f.parts g in
    let s = take_chunk-After m fixed f.pre f.before f.chunk f.post r gap in
    let (ys, e) =
      same-head head xs f.pre f.before (f.chunk ∷ f.post) (in_place fixed f.chunk ++ f.post)
        f.parts in
    record {
      first = f;
      ys = ys;
      parts = e;
      is_heap = record {
        linked = subst (λ l. Linked (take_chunk fixed f.before.addr m) l 0) (sym e) s.links;
        begins = h.begins;
        ascends = subst (Ascends 0) (sym e) s.order;
      };
      place = refl;
      given = s.given;
      enough = ground (arith, f.fits);
    }
