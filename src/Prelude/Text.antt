-- ===== src/Prelude/Text.antt =====
-- Texts compared for equality: Go strings whose bytes the code does not look into.
pub use text.Mathlib.Text.{◌==◌ as str_eq}
pub use text.Mathlib.TextEquality.{eq_iff}
pub use text.Mathlib.TextPositions.{eq_refl}
