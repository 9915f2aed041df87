-- ===== src/Window/Layout/Erases.antt =====
-- What laying a component's children out again keeps of the first time.
use kiv_ups.Prelude.{ℕ, suc, ◌≤◌, ◌≡◌, refl, ap, ◌∙◌, Bool, true, false, arith, if◌then◌else◌}
use kiv_ups.Window.Geometry.{Float32, Rectangle}
use kiv_ups.Window.Component.{
  RgComponent, Stack, stack, Components, end, child, MaybeComponent, absent, present,
  count_children,
}
use kiv_ups.Window.Layout.{
  depth, stack_depth, children_depth, maybe_depth, Method, row_children, calculate_row,
  column_children, calculate_column, calculate_maybe, center_child,
}
use kiv_ups.Window.Layout.Depth.{KeepsDepth}

-- The method `m` undoes what `k` did to a component of at most this depth.
abbrev pub Erases : (F : Float32) (R : Type 0) → ℕ → Method F R → Method F R → Type 0
Erases F R d m k =
    (c : RgComponent F.Float R) → depth c ≤ d → (q r : Rectangle F.Float) → m (k c q) r ≡ m c r

module _ (F : Float32) {R : Type 0} where
  open F use {Float, equal, of_int}

  module _ (d : ℕ) (m k : Method F R) (erases : Erases F R d m k) where
    row_children-Erases :
        (cs : Components Float R)
        → children_depth cs ≤ d
        → (a area : Rectangle Float) (s step : Float)
        → row_children F m (row_children F k cs a s) area step ≡ row_children F m cs area step
    unfolding children_depth row_children
    row_children-Erases end h a area s step = refl
    row_children-Erases (child c cs) h a area s step =
        rw
          (erases c (omega (arith, h)) a area, row_children-Erases cs (omega (arith, h)) _ _ s step)
          refl

    column_children-Erases :
        (cs : Components Float R)
        → children_depth cs ≤ d
        → (a area : Rectangle Float) (s step : Float)
        → column_children F m (column_children F k cs a s) area step
          ≡ column_children F m cs area step
    unfolding children_depth column_children
    column_children-Erases end h a area s step = refl
    column_children-Erases (child c cs) h a area s step =
        rw
          (
            erases c (omega (arith, h)) a area,
            column_children-Erases cs (omega (arith, h)) _ _ s step,
          )
          refl

    count_children-row_children :
        (cs : Components Float R) (a : Rectangle Float) (s : Float)
        → count_children (row_children F k cs a s) ≡ count_children cs
    unfolding count_children row_children
    count_children-row_children end a s = refl
    count_children-row_children (child c cs) a s = ap suc (count_children-row_children cs _ s)

    count_children-column_children :
        (cs : Components Float R) (a : Rectangle Float) (s : Float)
        → count_children (column_children F k cs a s) ≡ count_children cs
    unfolding count_children column_children
    count_children-column_children end a s = refl
    count_children-column_children (child c cs) a s = ap suc (count_children-column_children cs _ s)

    row_again :
        (b : Bool) (cs ds : Components Float R) (padding : Float) (p q r : Rectangle Float)
        → equal (of_int (count_children cs)) (of_int 0) ≡ b
        → count_children ds ≡ count_children cs
        → ((a : Rectangle Float) (s : Float) → row_children F m ds a s ≡ row_children F m cs a s)
        → calculate_row F m (stack q (if b then cs else ds) padding) r
          ≡ calculate_row F m (stack p cs padding) r
    unfolding calculate_row
    row_again true cs ds padding p q r h e same = refl
    row_again false cs ds padding p q r h e same = rw (e, h, same _ _) refl

    column_again :
        (b : Bool) (cs ds : Components Float R) (padding : Float) (p q r : Rectangle Float)
        → equal (of_int (count_children cs)) (of_int 0) ≡ b
        → count_children ds ≡ count_children cs
        → ((a : Rectangle Float) (s : Float)
            → column_children F m ds a s ≡ column_children F m cs a s)
        → calculate_column F m (stack q (if b then cs else ds) padding) r
          ≡ calculate_column F m (stack p cs padding) r
    unfolding calculate_column
    column_again true cs ds padding p q r h e same = refl
    column_again false cs ds padding p q r h e same = rw (e, h, same _ _) refl

    pub calculate_row-Erases :
        (s : Stack Float R)
        → stack_depth s ≤ d
        → (q r : Rectangle Float)
        → calculate_row F m (calculate_row F k s q) r ≡ calculate_row F m s r
    unfolding stack_depth calculate_row
    calculate_row-Erases (stack b cs padding) h q r =
        row_again _ cs _ padding b q r refl (count_children-row_children cs _ _)
          λ a s. row_children-Erases cs h _ a _ s

    pub calculate_column-Erases :
        (s : Stack Float R)
        → stack_depth s ≤ d
        → (q r : Rectangle Float)
        → calculate_column F m (calculate_column F k s q) r ≡ calculate_column F m s r
    unfolding stack_depth calculate_column
    calculate_column-Erases (stack b cs padding) h q r =
        column_again _ cs _ padding b q r refl (count_children-column_children cs _ _)
          λ a s. column_children-Erases cs h _ a _ s

    pub calculate_maybe-Erases :
        (c : MaybeComponent Float R)
        → maybe_depth c ≤ d
        → (q r : Rectangle Float)
        → calculate_maybe F m (calculate_maybe F k c q) r ≡ calculate_maybe F m c r
    unfolding maybe_depth calculate_maybe
    calculate_maybe-Erases absent h q r = refl
    calculate_maybe-Erases (present c) h q r = ap present (erases c h q r)

    center_again :
        (b : Bool) (c : RgComponent Float R) (p q : Rectangle Float)
        → KeepsDepth F k
        → depth c ≤ d
        → (r : Rectangle Float) → m (if b then k (k c q) p else k c q) r ≡ m c r
    center_again true c p q keeps h r =
        erases (k c q) (omega (arith, keeps c q, h)) p r ∙ erases c h q r
    center_again false c p q keeps h r = erases c h q r

    pub center_child-Erases :
        (c : RgComponent Float R)
        → KeepsDepth F k
        → depth c ≤ d
        → (q r : Rectangle Float) → center_child F m (center_child F k c q) r ≡ center_child F m c r
    unfolding center_child
    center_child-Erases c keeps h q r = rw (center_again _ c _ q keeps h r) refl
