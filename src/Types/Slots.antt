-- ===== src/Types/Slots.antt =====
-- The arrays of two elements in the latches of include/common.h, and the index of a slot.
use simple_rv.Prelude.{ℕ}

pub data Lane : Type 0 where
  first second : Lane

pub record Lanes (A : Type 0) : Type 0 where
  pub lane0 : A
  pub lane1 : A

abbrev pub both : {A : Type 0} → A → Lanes A
both a = record { lane0 = a; lane1 = a }

abbrev pub get_lane : {A : Type 0} → Lanes A → Lane → A
get_lane l first = l.lane0
get_lane l second = l.lane1

abbrev pub set_lane : {A : Type 0} → Lanes A → Lane → A → Lanes A
set_lane l first a = record l { lane0 = a }
set_lane l second a = record l { lane1 = a }

-- `i * 4`, the distance of a slot's instruction from the first.
abbrev pub lane_offset : Lane → ℕ
lane_offset first = 0
lane_offset second = 4
