-- ===== src/Kernel/Scheduler/Context.antt =====
-- What a switch does to the contexts of the threads.
use mathlib.Core.Option
use tay_huang_os.Prelude.{ℕ, ◌≡◌, ◌≢◌, sym, some, ◌∙◌, ap, arith}
use tay_huang_os.Kernel.State.{ready, running, IntterupArgs, Thread, Kernel, set_state}
use tay_huang_os.Kernel.Ready.{
  enqueue_thread, enqueue_level0_thread, dequeue_level0_thread, dequeue_level1_thread,
}
use tay_huang_os.Kernel.Ready.Chain.{update_self, update_ne}
use tay_huang_os.Kernel.Scheduler.{
  save, save_context, release_thread, get_next_run_thread, remove_thread, down_thread, up_thread,
  refill, run_thread, do_switch,
}

-- The linking operations leave the saved registers alone.
registers-enqueue_thread :
    (k : Kernel) (x p : ℕ) → ((enqueue_thread k x).thread p).registers ≡ (k.thread p).registers
unfolding enqueue_thread enqueue_level0_thread
registers-enqueue_thread k x p = ground arith

registers-remove_thread :
    (k : Kernel) (x p : ℕ) → ((remove_thread k x).thread p).registers ≡ (k.thread p).registers
unfolding remove_thread
registers-remove_thread k x p = ground arith

registers-release_thread :
    (k : Kernel) (p : ℕ) → ((release_thread k).thread p).registers ≡ (k.thread p).registers
unfolding release_thread
registers-release_thread k p = ground (
  arith,
  registers-enqueue_thread (set_state k k.current_thread ready) k.current_thread p,
  registers-remove_thread k k.current_thread p,
)

registers-save_context_self :
    (k : Kernel) (regs : IntterupArgs)
    → ((save_context k regs).thread k.current_thread).registers ≡ save regs
unfolding save_context
registers-save_context_self k regs =
    ap (λ (t : Thread). t.registers) (update_self k.thread k.current_thread _)

registers-save_context_ne :
    (k : Kernel) (regs : IntterupArgs) (p : ℕ)
    → k.current_thread ≢ p
    → ((save_context k regs).thread p).registers ≡ (k.thread p).registers
unfolding save_context
registers-save_context_ne k regs p n =
    ap (λ (t : Thread). t.registers) (update_ne k.thread k.current_thread _ p n)

registers-get_next_run_thread :
    (k k' : Kernel) (x p : ℕ)
    → get_next_run_thread k ≡ some (x, k')
    → (k'.thread p).registers ≡ (k.thread p).registers
unfolding get_next_run_thread dequeue_level0_thread dequeue_level1_thread
registers-get_next_run_thread k k' x p e = ground arith

-- What the second half of a switch does for the chosen thread `x`.
run_thread-contexts :
    (k : Kernel) (x : ℕ) (regs : IntterupArgs)
    → let (k1, regs1) = run_thread regs (x, k) in
      ((p : ℕ) → (k1.thread p).registers ≡ (k.thread p).registers)
      × (save regs1 ≡ (k.thread x).registers)
      × (k1.current_thread ≡ x)
      × ((k1.thread x).state ≡ running)
unfolding run_thread up_thread refill
run_thread-contexts k x regs = (λ p. ground arith, ground arith, ground arith, ground arith)

-- A switch that succeeds saves the interrupted context in the thread that ran, leaves every other
-- saved context as it was, and returns to exactly the context that the thread which runs now had
-- saved; that thread is marked as running.
pub do_switch_contexts :
    (k : Kernel) (regs : IntterupArgs) (r : Kernel × IntterupArgs)
    → do_switch k regs ≡ some r
    → ((r.0.thread k.current_thread).registers ≡ save regs)
      × ((p : ℕ) → k.current_thread ≢ p → (r.0.thread p).registers ≡ (k.thread p).registers)
      × (save r.1 ≡ (r.0.thread r.0.current_thread).registers)
      × ((r.0.thread r.0.current_thread).state ≡ running)
unfolding do_switch down_thread
do_switch_contexts k regs r e =
    let (n, q, er) =
      (Option.map-eq-some_iff (run_thread regs) (get_next_run_thread (down_thread k regs))).0 e in
    let x = n.0 in
    let k1 = n.1 in
    let (same, back, cur, run) = run_thread-contexts k1 x regs in
    let kept : (p : ℕ)
        → ((run_thread regs n).0.thread p).registers ≡ ((save_context k regs).thread p).registers =
      λ p.
        same p
        ∙ registers-get_next_run_thread (down_thread k regs) k1 x p q
        ∙ registers-release_thread (save_context k regs) p in
    rw (← er) (
      kept k.current_thread ∙ registers-save_context_self k regs,
      λ p n. kept p ∙ registers-save_context_ne k regs p n,
      rw cur (back ∙ sym (same x)),
      rw cur run,
    )
