-- ===== src/Kuser/Recipe.antt =====
-- The enum `Recipe` of protocol/kuser.rs and its numbers.
use linuwux_runtime.Base.{ℕ, Option, none, some, ◌==◌, if◌then◌else◌, ◌≡◌, refl}

pub data Recipe : Type 0 where
  resume selector dispatch : Recipe

-- `recipe as c_int`
unfoldable pub to_raw : Recipe → ℕ
to_raw Recipe.resume = 0
to_raw Recipe.selector = 1
to_raw Recipe.dispatch = 2

unfoldable pub from_raw : ℕ → Option Recipe
from_raw value =
    if value == 0
    then some Recipe.resume
    else if value == 1
    then some Recipe.selector
    else if value == 2
    then some Recipe.dispatch
    else none

pub from_raw-to_raw : (r : Recipe) → from_raw (to_raw r) ≡ some r
unfolding from_raw to_raw
from_raw-to_raw Recipe.resume = refl
from_raw-to_raw _ = refl
