-- ===== src/Libs/Fifo/Family.antt =====
-- Sums of a weight over the first threads of libs/libfifo/fifo.c's users.
use tay_huang_os.Prelude.{ℕ, zero, suc, ◌+◌, ◌≤◌, ◌<◌, ◌≡◌, ◌≢◌, inl, inr, refl, arith, ℕ-cases}
use tay_huang_os.Kernel.State.{update}

module _ {A : Type 0} (weight : A → ℕ) where
  pub weigh : ℕ → (ℕ → A) → ℕ
  weigh zero f = 0
  weigh (suc n) f = weight (f n) + weigh n f

  weigh-update_beyond :
      (n : ℕ) (f : ℕ → A) (i : ℕ) (a : A) → n ≤ i → weigh n (update f i a) ≡ weigh n f
  unfolding weigh
  weigh-update_beyond zero f i a h = refl
  weigh-update_beyond (suc n) f i a h = ground (arith, weigh-update_beyond n f i a)

  -- A thread that moves changes the sum by the difference of its own weights.
  pub weigh-update :
      (n : ℕ) (f : ℕ → A) (i : ℕ) (a : A)
      → i < n
      → weight (f i) + weigh n (update f i a) ≡ weight a + weigh n f
  unfolding weigh
  weigh-update zero f i a h = absurd (omega arith)
  weigh-update (suc n) f i a h = elim (ℕ-cases i n) [
    | inl last ↦ ground (arith, weigh-update_beyond n f i a)
    | inr before ↦ ground (arith, weigh-update n f i a (omega arith))
  ]

  pub weigh-zero : (n : ℕ) (f : ℕ → A) → ((i : ℕ) → i < n → weight (f i) ≡ 0) → weigh n f ≡ 0
  unfolding weigh
  weigh-zero zero f h = refl
  weigh-zero (suc n) f h =
      omega (arith, h n (omega arith), weigh-zero n f (λ i k. h i (omega arith)))

  pub weigh-find : (n : ℕ) (f : ℕ → A) → weigh n f ≢ 0 → (i : ℕ) × (i < n) × (weight (f i) ≢ 0)
  unfolding weigh
  weigh-find zero f h = absurd (h refl)
  weigh-find (suc n) f h = elim (ℕ-cases (weight (f n)) 0) [
    | inl e ↦ let (i, k, w) = weigh-find n f (λ z. h (omega arith)) in (i, omega arith, w)
    | inr ne ↦ (n, omega arith, ne)
  ]

  pub weigh-one : (n : ℕ) (f : ℕ → A) (i : ℕ) → i < n → weight (f i) ≤ weigh n f
  unfolding weigh
  weigh-one zero f i h = absurd (omega arith)
  weigh-one (suc n) f i h = elim (ℕ-cases i n) [
    | inl last ↦ ground arith
    | inr before ↦ omega (arith, weigh-one n f i (omega arith))
  ]

  -- Two threads weigh no more than all.
  pub weigh-two :
      (n : ℕ) (f : ℕ → A) (i j : ℕ)
      → i < n
      → j < n
      → i ≢ j
      → weight (f i) + weight (f j) ≤ weigh n f
  unfolding weigh
  weigh-two zero f i j h k ne = absurd (omega arith)
  weigh-two (suc n) f i j h k ne = elim (ℕ-cases i n) [
    | inl last ↦ ground (arith, weigh-one n f j)
    | inr before ↦ elim (ℕ-cases j n) [
      | inl last ↦ ground (arith, weigh-one n f i)
      | inr other ↦ omega (arith, weigh-two n f i j (omega arith) (omega arith) ne)
    ]
  ]
