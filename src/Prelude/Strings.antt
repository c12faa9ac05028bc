-- ===== src/Prelude/Strings.antt =====
-- Whole texts that are compared: `std::string::operator==`.
use Prim.Native.String.{String}
use text.Mathlib.Text
use text.Mathlib.TextEquality.{eq_iff}
use text.Mathlib.TextPositions.{eq_refl}
use mathlib.Core.Path.{◌≡◌}
use mathlib.Core.Logic.{◌↔◌}
use mathlib.Core.Bool.{Bool, true}

abbrev pub same : String → String → Bool
same a b = Text.◌==◌ a b

pub same_iff : (a b : String) → (same a b ≡ true) ↔ (a ≡ b)
same_iff a b = eq_iff a b

pub same_refl : (a : String) → same a a ≡ true
same_refl a = eq_refl a
