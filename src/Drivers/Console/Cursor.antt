-- ===== src/Drivers/Console/Cursor.antt =====
-- Where characters go on the console, and what a backspace takes back.
use tay_huang_os.Prelude.{
  ℕ, zero, suc, List, [], ◌∷◌, ◌+◌, ◌-◌, ◌*◌, ◌<◌, ◌≤◌, ◌≡◌, ◌⊎◌, inl, refl, sym, subst, ◌∙◌, arith,
  length,
}
use tay_huang_os.Kernel.State.{update}
use tay_huang_os.Kernel.Ready.Chain.{update_ne, update_self}
use tay_huang_os.Drivers.Console.{
  Console, position, console_columns, console_lines, putrawchar, back, back_again, backspace,
  putchar, puts,
}

-- A character that is not one of the six that `__putchar` treats on their own.
abbrev pub IsPlain : ℕ → Type 0
IsPlain ch = (14 ≤ ch) ⊎ (ch < 8)

-- The cells from `pos` on hold the characters in a color.
abbrev pub Shows : ℕ → ℕ → (ℕ → ℕ) → ℕ → List ℕ → Type 0
Shows fb color mem pos [] = Unit
Shows fb color mem pos (ch ∷ chs) =
    (mem (fb + pos * 2) ≡ ch) × (mem (fb + pos * 2 + 1) ≡ color) × Shows fb color mem (pos + 1) chs

Shows-cast :
    {fb fb' color color' pos pos' : ℕ} (mem : ℕ → ℕ)
    → fb ≡ fb'
    → color ≡ color'
    → pos ≡ pos'
    → (chs : List ℕ) → Shows fb color mem pos chs
    → Shows fb' color' mem pos' chs
Shows-cast {fb} {fb'} {color} {color'} {pos} {pos'} mem ef ec ep chs h =
    subst (λ f. Shows f color' mem pos' chs) ef
      (subst (λ k. Shows fb k mem pos' chs) ec (subst (λ n. Shows fb color mem n chs) ep h))

abbrev pub AllPlain : List ℕ → Type 0
AllPlain [] = Unit
AllPlain (ch ∷ chs) = IsPlain ch × AllPlain chs

-- One plain character.
putchar_plain :
    (ch : ℕ) (c : Console) (mem : ℕ → ℕ) → IsPlain ch → putchar ch (c, mem) ≡ putrawchar ch (c, mem)
unfolding putchar
putchar_plain ch c mem h = ground arith

-- What writing one cell does: the cursor moves on by one cell.
record Step (c : Console) (c' : Console) : Type 0 where
  column : c'.pos_x < console_columns
  moved : position c' ≡ position c + 1
  same_buffer : c'.framebuffer ≡ c.framebuffer
  same_color : c'.color ≡ c.color

putrawchar-Step :
    (ch : ℕ) (c : Console) (mem : ℕ → ℕ)
    → c.pos_x < console_columns
    → Step c (putrawchar ch (c, mem)).0
unfolding putrawchar
putrawchar-Step ch c mem h = record {
  column = ground arith;
  moved = ground arith;
  same_buffer = ground arith;
  same_color = ground arith;
}

-- The bytes of the cell, and any byte outside it.
putrawchar-cell :
    (ch : ℕ) (c : Console) (mem : ℕ → ℕ)
    → ((putrawchar ch (c, mem)).1 (c.framebuffer + position c * 2) ≡ ch)
      × ((putrawchar ch (c, mem)).1 (c.framebuffer + position c * 2 + 1) ≡ c.color)
unfolding putrawchar
putrawchar-cell ch c mem =
    let at = c.framebuffer + position c * 2 in
    (
      update_ne (update mem at ch) (at + 1) c.color at (omega arith) ∙ update_self mem at ch,
      update_self (update mem at ch) (at + 1) c.color,
    )

putrawchar-elsewhere :
    (ch : ℕ) (c : Console) (mem : ℕ → ℕ) (q : ℕ)
    → (q < c.framebuffer + position c * 2) ⊎ (c.framebuffer + (position c + 1) * 2 ≤ q)
    → (putrawchar ch (c, mem)).1 q ≡ mem q
unfolding putrawchar
putrawchar-elsewhere ch c mem q o =
    let at = c.framebuffer + position c * 2 in
    update_ne (update mem at ch) (at + 1) c.color q (omega arith)
    ∙ update_ne mem at ch q (omega arith)

-- Memory outside the cells from `pos` up to `pos + n` is as before.
abbrev pub Elsewhere : Console → ℕ → ℕ → (ℕ → ℕ) → (ℕ → ℕ) → Type 0
Elsewhere c pos n mem mem' =
    (q : ℕ) → (q < c.framebuffer + pos * 2) ⊎ (c.framebuffer + (pos + n) * 2 ≤ q) → mem' q ≡ mem q

-- Plain characters are written from the cursor on, left to right and from line to line, in the
-- console's color; the cursor ends behind them and no other byte of memory changes.
pub puts-Shows :
    (chs : List ℕ) (c : Console) (mem : ℕ → ℕ)
    → AllPlain chs
    → c.pos_x < console_columns
    → let (c', mem') = puts chs (c, mem) in
      Shows c.framebuffer c.color mem' (position c) chs
      × (position c' ≡ position c + length chs)
      × (c'.pos_x < console_columns)
      × Elsewhere c (position c) (length chs) mem mem'
unfolding puts
puts-Shows [] c mem p h = (tt, omega arith, h, λ q o. refl)
puts-Shows (ch ∷ chs) c mem (p, ps) h =
    let next = putrawchar ch (c, mem) in
    let s = putrawchar-Step ch c mem h in
    let (shows, at, column, same) = puts-Shows chs next.0 next.1 ps s.column in
    subst
      (λ (r : Console × (ℕ → ℕ)).
        let (c', mem') = puts chs r in
        Shows c.framebuffer c.color mem' (position c) (ch ∷ chs)
        × (position c' ≡ position c + length (ch ∷ chs))
        × (c'.pos_x < console_columns)
        × Elsewhere c (position c) (length (ch ∷ chs)) mem mem')
      (sym (putchar_plain ch c mem p))
      (
        (
          same (c.framebuffer + position c * 2) (inl (omega (arith, s.moved, s.same_buffer)))
              ∙ (putrawchar-cell ch c mem).0,
          same (c.framebuffer + position c * 2 + 1) (inl (omega (arith, s.moved, s.same_buffer)))
              ∙ (putrawchar-cell ch c mem).1,
          Shows-cast (puts chs next).1 s.same_buffer s.same_color s.moved chs shows,
        ),
        omega (arith, at, s.moved),
        column,
        λ q o.
            same q (omega (arith, s.moved, s.same_buffer))
            ∙ putrawchar-elsewhere ch c mem q (omega arith),
      )

back-position :
    (c : Console)
    → c.pos_x < console_columns
    → (position (back c) ≡ position c - 1)
      × ((back c).pos_x < console_columns)
      × ((back c).framebuffer ≡ c.framebuffer)
      × ((back c).color ≡ c.color)
unfolding back
back-position c h = (ground arith, ground arith, ground arith, ground arith)

back_again-position :
    (c c1 : Console)
    → Step c c1
    → (position (back_again c1) ≡ position c) × ((back_again c1).pos_x < console_columns)
unfolding back_again
back_again-position c c1 s = (ground (arith, s.moved, s.column), ground (arith, s.column))

-- A backspace moves the cursor back by one cell, or leaves it at the first one, and puts a blank into
-- the cell where it then is; no other byte of memory changes.
putchar-backspace :
    (c : Console) (mem : ℕ → ℕ)
    → c.pos_x < console_columns
    → let (c', mem') = putchar 8 (c, mem) in
      (position c' ≡ position c - 1)
      × (c'.pos_x < console_columns)
      × Shows c.framebuffer c.color mem' (position c - 1) (32 ∷ [])
      × Elsewhere c (position c - 1) 1 mem mem'
unfolding putchar backspace
putchar-backspace c mem h =
    let b = back c in
    let (at, column, fb, color) = back-position c h in
    let (again, column') =
      back_again-position b (putrawchar 32 (b, mem)).0 (putrawchar-Step 32 b mem column) in
    let (shown, lit) = putrawchar-cell 32 b mem in
    let mem' = (putrawchar 32 (b, mem)).1 in
    (
      again ∙ at,
      column',
      Shows-cast mem' fb color at (32 ∷ []) (shown, lit, tt),
      λ q o. putrawchar-elsewhere 32 b mem q (omega arith),
    )

-- Characters that are plain take back as many backspaces: the cursor ends where it began.
puts-erased :
    (ch : ℕ) (c : Console) (mem : ℕ → ℕ)
    → IsPlain ch
    → c.pos_x < console_columns
    → let (c', mem') = puts (ch ∷ 8 ∷ []) (c, mem) in
      (position c' ≡ position c)
      × Shows c.framebuffer c.color mem' (position c) (32 ∷ [])
      × Elsewhere c (position c) 1 mem mem'
unfolding puts
puts-erased ch c mem p h =
    let next = putrawchar ch (c, mem) in
    let s = putrawchar-Step ch c mem h in
    let (at, column, shown, same) = putchar-backspace next.0 next.1 s.column in
    subst
      (λ (r : Console × (ℕ → ℕ)).
        let (c', mem') = putchar 8 r in
        (position c' ≡ position c)
        × Shows c.framebuffer c.color mem' (position c) (32 ∷ [])
        × Elsewhere c (position c) 1 mem mem')
      (sym (putchar_plain ch c mem p))
      (
        omega (arith, at, s.moved),
        Shows-cast (putchar 8 next).1 s.same_buffer s.same_color (omega (arith, s.moved)) (32 ∷ [])
            shown,
        λ q o.
            same q (omega (arith, s.moved, s.same_buffer))
            ∙ putrawchar-elsewhere ch c mem q (omega arith),
      )

abbrev pub newlines : ℕ → List ℕ
newlines zero = []
newlines (suc n) = 10 ∷ newlines n

rows-newlines :
    (n : ℕ) (c : Console) (mem : ℕ → ℕ) → (puts (newlines n) (c, mem)).0.pos_y ≡ c.pos_y + n
unfolding puts putchar
rows-newlines zero c mem = omega arith
rows-newlines (suc n) c mem =
    omega (arith, rows-newlines n (record c { pos_x = 0; pos_y = c.pos_y + 1 }) mem)

-- Nothing scrolls: enough line ends take the cursor past the last cell of the framebuffer, from
-- whatever row.
newlines-leave :
    (n : ℕ) (c : Console) (mem : ℕ → ℕ)
    → console_lines ≤ c.pos_y + n
    → console_lines * console_columns ≤ position (puts (newlines n) (c, mem)).0
newlines-leave n c mem h = omega (arith, rows-newlines n c mem)
