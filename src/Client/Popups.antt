-- ===== src/Client/Popups.antt =====
-- PopupManager.go and the `TimedPopup` of window/Popup.go: which popups stay, and where they stand.
-- The clock and the size of a text on the screen are arguments.
use kiv_ups.Prelude.{ℕ, Bool, List, [], ◌∷◌, if◌then◌else◌, ltb, Bytes}
use kiv_ups.Window.Geometry.{Float32, Rectangle}
use kiv_ups.Client.Data.{Popup}

-- `TimedPopup.Update`, for the seconds that have passed since the popup was made.
unfoldable is_alive : (Popup → ℕ) → Popup → Bool
is_alive elapsed p = ltb (elapsed p) p.seconds

-- `PopupManager.Update`
unfoldable pub update_popups : (Popup → ℕ) → List Popup → List Popup
unfolding is_alive
update_popups elapsed [] = []
update_popups elapsed (p ∷ ps) =
    let rest = update_popups elapsed ps in if is_alive elapsed p then p ∷ rest else rest

module _ (F : Float32) (measure : Bytes → F.Float × F.Float) where
  open F use {Float, plus, times, of_int}

  -- `TimedPopup.Calculate`: the place is the upper left corner, the size that of the text with a
  -- margin of 5.
  unfoldable popup_bounds : Popup → Rectangle Float → Rectangle Float
  popup_bounds p r =
      let text_size = measure p.text in
      record r {
        width = plus text_size.0 (times (of_int 2) (of_int 5));
        height = plus text_size.1 (times (of_int 2) (of_int 5));
      }

  -- `PopupManager.Calculate`: the popups stand below one another.
  unfoldable pub calculate_popups : List Popup → Rectangle Float → List (Rectangle Float)
  unfolding popup_bounds
  calculate_popups [] r = []
  calculate_popups (p ∷ ps) r =
      let b = popup_bounds p r in
      b ∷ calculate_popups ps (record r { y = plus r.y (plus b.height (of_int 5)) })
