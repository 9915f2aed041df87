-- ===== src/Window/Geometry.antt =====
-- What the components use of the raylib types and of `float32`. The operations on floats are an
-- argument, as are the results of the library's functions; raylib's named colours stay symbolic.
use kiv_ups.Prelude.{ℕ, Bool}

-- `float32`, with `ratio n d` for the constant `n / d` and `of_int` for the conversion of a length.
pub record Float32 : Type 1 where
  pub Float : Type 0
  pub plus : Float → Float → Float
  pub minus : Float → Float → Float
  pub times : Float → Float → Float
  pub over : Float → Float → Float
  pub less : Float → Float → Bool
  pub equal : Float → Float → Bool
  pub ratio : ℕ → ℕ → Float
  pub of_int : ℕ → Float

-- `rl.Rectangle`
pub record Rectangle (X : Type 0) : Type 0 where
  pub x : X
  pub y : X
  pub width : X
  pub height : X

-- `rl.Color`: the colours that the screens name, and those given by their parts.
pub data Color : Type 0 where
  white ray_white gray dark_gray black red gold yellow orange dark_blue : Color
  rgba : ℕ → ℕ → ℕ → ℕ → Color
