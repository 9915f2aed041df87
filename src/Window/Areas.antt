-- ===== src/Window/Areas.antt =====
-- The rectangles that the methods `Calculate` hand to the children.
use kiv_ups.Prelude.{Bool, ◌||◌, if◌then◌else◌}
use kiv_ups.Window.Geometry.{Float32, Rectangle}
use kiv_ups.Window.Component.{ButtonComponent}

module _ (F : Float32) where
  open F use {Float, plus, minus, times, over, less, equal, ratio, of_int}

  abbrev Area : Type 0
  Area = Rectangle Float

  -- The size of a stack without its padding: `size - (padding * 2)`.
  unfoldable inner : Float → Float → Float
  inner size padding = minus size (times padding (of_int 2))

  -- A child's share of it: what the padding between the children leaves, divided by their count.
  unfoldable share : Float → Float → Float → Float
  share size padding count = over (minus size (times padding (minus count (of_int 1)))) count

  -- `ButtonComponent.Calculate`
  unfoldable pub clip : ButtonComponent Float → Area → ButtonComponent Float
  clip b r = record b {
    bounds = record r {
      width = if less b.max_width r.width then b.max_width else r.width;
      height = if less b.max_height r.height then b.max_height else r.height;
    };
  }

  -- The rectangle of the child of a `BoundsBox`.
  unfoldable pub shrink : Float → Float → Area → Area
  shrink width_ratio height_ratio r =
      let wide = times r.width width_ratio in
      let high = times r.height height_ratio in
      record {
        x = plus r.x (over (minus r.width wide) (of_int 2));
        y = plus r.y (over (minus r.height high) (of_int 2));
        width = wide;
        height = high;
      }

  -- `recalculate` and `new_bounds` of `CenterComponent.Calculate`, from the bounds that the child took.
  unfoldable pub needs_centering : Area → Area → Bool
  needs_centering r taken = less taken.width r.width || less taken.height r.height

  unfoldable pub centered : Area → Area → Area
  centered r taken = record {
    x =
        if less taken.width r.width
        then plus r.x (over (minus r.width taken.width) (of_int 2))
        else r.x;
    y =
        if less taken.height r.height
        then plus r.y (over (minus r.height taken.height) (of_int 2))
        else r.y;
    width = if less taken.width r.width then taken.width else r.width;
    height = if less taken.height r.height then taken.height else r.height;
  }

  -- The rectangles of `desc` and `cards` of a `PlayerInfoComponent`.
  unfoldable pub upper_half : Area → Area
  upper_half r = record r { height = over r.height (of_int 2) }

  unfoldable pub lower_half : Area → Area
  lower_half r = record r {
    y = plus r.y (over r.height (of_int 2));
    height = over r.height (of_int 2);
  }

  -- The rectangle of a bar of the game screen at height `y`.
  unfoldable pub bar : Area → Float → Float → Float → Area
  bar r padding y height = record {
    x = plus r.x padding;
    y = y;
    width = minus r.width (times padding (of_int 2));
    height = height;
  }

  -- The rectangles of the game screen's bars, from the top, and of the pot if there is one.
  pub record GameAreas : Type 0 where
    pub pot_area : Area
    pub river_area : Area
    pub others_area : Area
    pub hand_area : Area
    pub actions_area : Area

  unfoldable pub game_areas : Bool → Float → Area → GameAreas
  game_areas has_pot padding r =
      let height = minus r.height (times padding (of_int 6)) in
      let top = plus r.y padding in
      let river_top =
        if has_pot then plus top (plus (times height (ratio 13 100)) padding) else top in
      let others_top = plus river_top (plus (times height (ratio 15 100)) padding) in
      let hand_top = plus others_top (plus (times height (ratio 35 100)) padding) in
      let actions_top = plus hand_top (plus (times height (ratio 10 100)) padding) in
      record {
        pot_area = bar r padding top (times height (ratio 13 100));
        river_area = bar r padding river_top (times height (ratio 15 100));
        others_area = bar r padding others_top (times height (ratio 35 100));
        hand_area = bar r padding hand_top (times height (ratio 10 100));
        actions_area = bar r padding actions_top (times height (ratio 12 100));
      }

  -- The first child's rectangle of an `HStack` with `count` children, and the step to the next one.
  unfoldable pub row_area : Float → Float → Area → Area
  unfolding inner share
  row_area padding count r = record {
    x = plus r.x padding;
    y = plus r.y padding;
    width = share (inner r.width padding) padding count;
    height = inner r.height padding;
  }

  -- The same of a `VStack`.
  unfoldable pub column_area : Float → Float → Area → Area
  unfolding inner share
  column_area padding count r = record {
    x = plus r.x padding;
    y = plus r.y padding;
    width = inner r.width padding;
    height = share (inner r.height padding) padding count;
  }
