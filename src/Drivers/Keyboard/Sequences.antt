-- ===== src/Drivers/Keyboard/Sequences.antt =====
-- What sequences of scan codes give.
use tay_huang_os.Prelude.{
  ℕ, Bool, true, false, Option, none, some, List, [], ◌∷◌, ◌==◌, ◌||◌, leb, if◌then◌else◌, ◌%◌, ◌<◌,
  ◌≤◌, ◌≡◌, ◌≢◌, refl, ap, ◌∙◌, arith,
}
use tay_huang_os.Drivers.Keyboard.Keymap.{key_of}
use tay_huang_os.Drivers.Keyboard.{
  Keys, normal, lshift, rshift, capslock, numlock, do_normal, do_e0, do_e1, do_shift, parse,
  lock_or_emit, irq_handler, locked_key,
}

-- The keys that a sequence of codes puts into the fifo, in order, and the state behind it.
abbrev pub scan : List ℕ → Keys → List ℕ × Keys
scan [] s = ([], s)
scan (code ∷ codes) s =
    let (emitted, s1) = irq_handler true code s in
    let (keys, s2) = scan codes s1 in (elim emitted [ none ↦ keys | some k ↦ k ∷ keys ], s2)

-- No prefix is being read.
pub record IsIdle (s : Keys) : Type 0 where
  pub no_e0 : s.e0_xx ≡ false
  pub no_e1 : s.e1_xx ≡ false
  pub no_stage : s.e1_stage ≡ 0
  pub no_failure : s.e1_failed ≡ false

-- `stage` codes behind 0xE1 were read, and one of them was wrong if `failed`.
abbrev in_e1 : Keys → ℕ → Bool → Keys
in_e1 s stage failed = record s { e1_xx = true; e1_stage = stage; e1_failed = failed }

scan_quiet :
    (c : ℕ) (cs : List ℕ) (s s1 : Keys)
    → irq_handler true c s ≡ (none, s1)
    → scan (c ∷ cs) s ≡ scan cs s1
scan_quiet c cs s s1 e =
    ap
      (λ (r : Option ℕ × Keys).
        (elim r.0 [ none ↦ (scan cs r.1).0 | some k ↦ k ∷ (scan cs r.1).0 ], (scan cs r.1).1))
      e

abbrev as_list : Option ℕ → List ℕ
as_list none = []
as_list (some k) = k ∷ []

scan_one :
    (c : ℕ) (s s1 : Keys) (o : Option ℕ)
    → irq_handler true c s ≡ (o, s1)
    → scan (c ∷ []) s ≡ (as_list o, s1)
scan_one c s s1 o e = ap (λ (r : Option ℕ × Keys). (as_list r.0, r.1)) e

irq_handler-e0 :
    (s : Keys)
    → IsIdle s
    → s.lshift_pushed ≡ false
    → s.rshift_pushed ≡ false
    → irq_handler true 224 s ≡ (none, record normal { e0_xx = true })
unfolding irq_handler parse do_normal lock_or_emit
irq_handler-e0 s i l r = rw (i.no_e1, i.no_e0, l, r) refl

irq_handler-break :
    (b : ℕ)
    → 128 ≤ b
    → irq_handler true b (record normal { e0_xx = true }) ≡ (none, record normal { e0_xx = true })
unfolding irq_handler parse do_e0 lock_or_emit
irq_handler-break b h = let e : leb 128 b ≡ true = ground arith in rw e refl

irq_handler-make :
    (c : ℕ)
    → c < 128
    → irq_handler true c (record normal { e0_xx = true }) ≡ lock_or_emit ((key_of c).e0, normal)
unfolding irq_handler parse do_e0
irq_handler-make c h =
    let e : leb 128 c ≡ false = ground arith in let m : c % 128 ≡ c = omega arith in rw (e, m) refl

-- A code behind 0xE0 that has its top bit set, as for a key that is let go, gives nothing and leaves
-- the prefix pending; so the next code below 0x80 is looked up in the E0 column, whatever key it is.
scan-e0_break :
    (s : Keys) (b c : ℕ)
    → IsIdle s
    → 128 ≤ b
    → c < 128
    → s.lshift_pushed ≡ false
    → s.rshift_pushed ≡ false
    → scan (224 ∷ b ∷ c ∷ []) s
      ≡ (let r = lock_or_emit ((key_of c).e0, normal) in (as_list r.0, r.1))
scan-e0_break s b c i hb hc l r =
    let pending = record normal { e0_xx = true } in
    scan_quiet 224 (b ∷ c ∷ []) s pending (irq_handler-e0 s i l r)
    ∙ scan_quiet b (c ∷ []) pending pending (irq_handler-break b hb)
    ∙ scan_one c pending (lock_or_emit ((key_of c).e0, normal)).1
        (lock_or_emit ((key_of c).e0, normal)).0 (irq_handler-make c hc)

lock_or_emit-plain :
    (k : ℕ) (s : Keys) → k ≢ 0 → k ≢ capslock → k ≢ numlock → lock_or_emit (k, s) ≡ (some k, s)
unfolding lock_or_emit
lock_or_emit-plain k s n0 nc nn = ground arith

do_normal-plain :
    (s : Keys) (c : ℕ)
    → c < 128
    → (key_of c).normal ≢ lshift
    → (key_of c).normal ≢ rshift
    → do_normal c s ≡ (locked_key s c, s)
unfolding do_normal
do_normal-plain s c h nl nr =
    let e1 : (c == 224) ≡ false = ground arith in
    let e2 : (c == 225) ≡ false = ground arith in
    let e3 : leb 128 c ≡ false = ground arith in
    let m : c % 128 ≡ c = omega arith in
    let e4 : ((key_of c).normal == lshift) ≡ false = ground arith in
    let e5 : ((key_of c).normal == rshift) ≡ false = ground arith in
    rw (e1, e2, e3) (rw m (rw (e4, e5) refl))

parse-normal :
    (s : Keys) (c : ℕ)
    → IsIdle s
    → s.lshift_pushed ≡ false
    → s.rshift_pushed ≡ false
    → parse c s ≡ do_normal c s
unfolding parse
parse-normal s c i l r =
    let third = if s.lshift_pushed || s.rshift_pushed then do_shift c s else do_normal c s in
    ap (λ b. if b then do_e1 c s else if s.e0_xx then do_e0 c s else third) i.no_e1
    ∙ ap (λ b. if b then do_e0 c s else third) i.no_e0
    ∙ ap (λ b. if b || s.rshift_pushed then do_shift c s else do_normal c s) l
    ∙ ap (λ b. if b then do_shift c s else do_normal c s) r

-- Without a prefix and without shift, a key below 0x80 that is no shift and no lock gives one key: of
-- the SHIFT column if it is a letter under caps lock or a key of the pad under num lock, else of the
-- NORMAL column. The state stays.
irq_handler-plain :
    (s : Keys) (c : ℕ)
    → IsIdle s
    → s.lshift_pushed ≡ false
    → s.rshift_pushed ≡ false
    → c < 128
    → (key_of c).normal ≢ lshift
    → (key_of c).normal ≢ rshift
    → locked_key s c ≢ 0
    → locked_key s c ≢ capslock
    → locked_key s c ≢ numlock
    → irq_handler true c s ≡ (some (locked_key s c), s)
unfolding irq_handler
irq_handler-plain s c i l r h nl nr n0 nc nn =
    ap lock_or_emit (parse-normal s c i l r ∙ do_normal-plain s c h nl nr)
    ∙ lock_or_emit-plain (locked_key s c) s n0 nc nn
