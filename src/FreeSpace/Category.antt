-- ===== src/FreeSpace/Category.antt =====
-- Categories of free space: bounds, order, and what the rounding loses.
use storage_prototype.Common.{ℕ, ◌+◌, ◌≤◌, ◌<◌, ◌≡◌, min, arith}
use storage_prototype.FreeSpace.{bytes_to_category, category_to_bytes}

-- A category is at most 255, a larger amount of free space never gets a smaller category, and an
-- amount that gets a strictly larger category is strictly larger.
pub bytes_to_category_order :
    (a b : ℕ)
    → (bytes_to_category a ≤ 255)
      × (a ≤ b → bytes_to_category a ≤ bytes_to_category b)
      × (bytes_to_category a < bytes_to_category b → a < b)
unfolding bytes_to_category
bytes_to_category_order a b = (ground arith, λ h. ground arith, λ h. ground arith)

-- The bytes that a category stands for are never more than the page has, and at most 33 fewer; and
-- the category of those bytes is the category itself or the one below.
pub category_round_trip :
    (a c : ℕ)
    → a ≤ 8192
    → c ≤ 255
    → (category_to_bytes (bytes_to_category a) ≤ a)
      × (a ≤ category_to_bytes (bytes_to_category a) + 33)
      × (c ≤ bytes_to_category (category_to_bytes c) + 1)
      × (bytes_to_category (category_to_bytes c) ≤ c)
unfolding bytes_to_category category_to_bytes
category_round_trip a c ha hc = (ground arith, ground arith, ground arith, ground arith)

-- A category that is as large as that of the space required: at most 32 bytes are missing, where a
-- request above a page counts as a page.
pub category_enough :
    (avail required : ℕ)
    → bytes_to_category required ≤ bytes_to_category avail
    → min required 8192 ≤ avail + 32
unfolding bytes_to_category
category_enough avail required h = ground arith

pub category_zero : (avail : ℕ) → bytes_to_category avail ≡ 0 → avail < 33
unfolding bytes_to_category
category_zero avail h = ground arith

pub category_positive : {avail : ℕ} → 0 < bytes_to_category avail → 0 < avail
unfolding bytes_to_category
category_positive h = ground arith
