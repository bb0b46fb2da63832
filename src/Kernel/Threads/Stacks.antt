-- ===== src/Kernel/Threads/Stacks.antt =====
-- The stacks of the threads of one task (`__create_thread__` of kernel/task/thread.c).
use tay_huang_os.Prelude.{
  ℕ, false, some, List, [], ◌∷◌, ◌+◌, ◌-◌, ◌*◌, ◌/◌, ◌^◌, ◌<◌, ◌≤◌, ◌≡◌, arith, length,
}
use tay_huang_os.Kernel.Ready.Chain.{NotIn, last_or}
use tay_huang_os.Kernel.Pmm.{memunit_sz}
use tay_huang_os.Kernel.Threads.{
  Machine, StackPages, lowered, thread_stack_size, thread_init_stack_size, prepare,
  create_thread_info, create_thread, attach,
}
use tay_huang_os.Kernel.Threads.Chain.{IsThreads}
use tay_huang_os.Kernel.Threads.Create.Prepare.{create_thread_lem}

-- Every stack of the list starts at `b` or above.
abbrev pub AllOver : ℕ → List StackPages → Type 0
AllOver b [] = Unit
AllOver b (r ∷ rs) = (b ≤ r.bottom) × AllOver b rs

-- Each stack ends where those before it start, or below.
abbrev pub IsFalling : List StackPages → Type 0
IsFalling [] = Unit
IsFalling (r ∷ rs) = AllOver (r.bottom + r.pages * memunit_sz) rs × IsFalling rs

-- The stacks that were asked for lie apart from each other and above the place for the next one.
abbrev pub IsStacked : Machine → ℕ → Type 0
IsStacked w task = AllOver (w.info task).stack_bottom w.stacks × IsFalling w.stacks

AllOver-weaken : (a b : ℕ) (rs : List StackPages) → a ≤ b → AllOver b rs → AllOver a rs
AllOver-weaken a b [] h o = tt
AllOver-weaken a b (r ∷ rs) h (o, os) = (omega arith, AllOver-weaken a b rs h os)

lowered_lem : (n p : ℕ) → n ≤ p → n < 2 ^ 64 → p < 2 ^ 64 → lowered p n ≡ p - n
lowered_lem n p h g b = omega arith

-- The pages that the creation of a thread of a user task asks for.
abbrev pub first_pages : Machine → ℕ → StackPages
first_pages w task = record {
  pgd = (w.kernel.task task).pgd;
  bottom = lowered (w.info task).stack_bottom thread_init_stack_size;
  pages = thread_init_stack_size / memunit_sz;
}

stacks-prepare :
    (p entry task : ℕ) (w : Machine)
    → (w.info task).kernel_task ≡ false
    → ((prepare p entry task w).stacks ≡ first_pages w task ∷ w.stacks)
      × (((prepare p entry task w).info task).stack_bottom
          ≡ lowered (w.info task).stack_bottom thread_stack_size)
unfolding prepare create_thread_info
stacks-prepare p entry task w u = ground arith

first_pages-IsFalling :
    (w : Machine) (task : ℕ)
    → thread_stack_size ≤ (w.info task).stack_bottom
    → (w.info task).stack_bottom < 2 ^ 64
    → IsStacked w task
    → AllOver (lowered (w.info task).stack_bottom thread_stack_size) (first_pages w task ∷ w.stacks)
      × IsFalling (first_pages w task ∷ w.stacks)
first_pages-IsFalling w task lo hi (over, falling) =
    let b = (w.info task).stack_bottom in
    let bottom : lowered b thread_stack_size ≡ b - thread_stack_size =
      lowered_lem thread_stack_size b lo (omega arith) hi in
    let first : lowered b thread_init_stack_size ≡ b - thread_init_stack_size =
      lowered_lem thread_init_stack_size b (omega (arith, lo)) (omega arith) hi in
    (
      (
        omega (arith, bottom, first, lo),
        AllOver-weaken (lowered b thread_stack_size) b w.stacks (omega (arith, bottom)) over,
      ),
      (AllOver-weaken _ b w.stacks (omega (arith, first, lo)) over, falling),
    )

-- When a user task has room for one more stack, the pages asked for as the stack of a new thread lie
-- apart from all that were asked for before, inside the room of that stack, and all of them lie above
-- the place for the next one, which is one whole stack lower.
pub create_thread-IsStacked :
    (fuel p entry task : ℕ) (w : Machine) (y : ℕ) (ys : List ℕ)
    → length ys < fuel
    → NotIn p (y ∷ ys)
    → IsThreads w task (y ∷ ys)
    → (w.info task).kernel_task ≡ false
    → thread_stack_size ≤ (w.info task).stack_bottom
    → (w.info task).stack_bottom < 2 ^ 64
    → IsStacked w task
    → (w' : Machine) × (create_thread fuel p entry task w ≡ some w')
      × IsStacked w' task
      × (w'.stacks ≡ first_pages w task ∷ w.stacks)
      × ((w'.info task).stack_bottom + thread_stack_size ≡ (w.info task).stack_bottom)
create_thread-IsStacked fuel p entry task w y ys h n t user lo hi s =
    let w1 = prepare p entry task w in
    let (pages, bottom) = stacks-prepare p entry task w user in
    let (over, falling) = first_pages-IsFalling w task lo hi s in
    let b = (w.info task).stack_bottom in
    let low : lowered b thread_stack_size ≡ b - thread_stack_size =
      lowered_lem thread_stack_size b lo (omega arith) hi in
    (
      attach p w1 (last_or y ys),
      create_thread_lem fuel p entry task w y ys h n t,
      (rw (bottom, pages) over, rw pages falling),
      pages,
      omega (arith, bottom, low, lo),
    )
