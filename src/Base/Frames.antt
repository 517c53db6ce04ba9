-- ===== src/Base/Frames.antt =====
-- Frames: a relation of what may become of a world, which every call of a computation keeps to.
use search_engine_service.Base.{String}
use search_engine_service.Base.Effects.{Result, ok, err, Eff, pure, ◌>>=◌, on_ok}

-- Nothing may happen, and one thing after another.
pub record IsFrame {W : Type 0} (R : W → W → Type 0) : Type 0 where
  pub idle : (w : W) → R w w
  pub joins : (u v w : W) → R u v → R v w → R u w

module _ {W : Type 0} (R : W → W → Type 0) where
  abbrev pub Moves : {A : Type 0} → Eff W A → Type 0
  Moves m = (w : W) → R w (m w).1

  module _ (frame : IsFrame R) where
    pub Moves-pure : {A : Type 0} (a : A) → Moves (pure a)
    Moves-pure a w = frame.idle w

    pub Moves-bind :
        {A B : Type 0} (m : Eff W A) (k : A → Eff W B)
        → Moves m
        → ((a : A) → Moves (k a))
        → Moves (m >>= k)
    Moves-bind m k first next w = frame.joins w _ _ (first w) (next (m w).0 (m w).1)

    pub Moves-on_ok :
        {A B : Type 0} (text : String) (r : Result A) (k : A → Eff W (Result B))
        → ((a : A) → Moves (k a))
        → Moves (on_ok text r k)
    Moves-on_ok text (ok a) k next w = next a w
    Moves-on_ok text (err e) k next w = frame.idle w
