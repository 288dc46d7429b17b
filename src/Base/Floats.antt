-- ===== src/Base/Floats.antt =====
-- A finite float64 as the exact rational that it stands for; `den` is never 0. The numbers of a
-- JSON document are finite.
use quire_server.Base.{ℕ, ◌*◌, Bool, not, ◌&&◌, ltb, ◌==◌, nat_eq}

pub record Float : Type 0 where
  pub negative : Bool
  pub num : ℕ
  pub den : ℕ

-- f < 0
abbrev pub below_zero : Float → Bool
below_zero f = f.negative && ltb 0 f.num

-- f > n / d
abbrev pub above : Float → ℕ → ℕ → Bool
above f n d = not f.negative && ltb (n * f.den) (f.num * d)

-- f == n
abbrev pub equals : Float → ℕ → Bool
equals f n = not (below_zero f) && f.num == n * f.den
