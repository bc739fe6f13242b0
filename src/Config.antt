-- ===== src/Config.antt =====
-- noray/src/config.parsers.mjs: how the settings are read from the texts of the environment.
pub mod Numbers
pub mod Ports
pub mod Units
pub mod Settings
use bevy_noray.Base.{
  ℕ, Bool, Option, none, some, List, [], ◌∷◌, Text, text_beq, text_eq, codes, elem, if◌then◌else◌,
}

unfoldable pub boolean : Option Text → Option Bool
boolean none = none
boolean (some value) = some (text_beq value (codes "true"))

unfoldable pub enumerated : Text → List Text → Option Text
enumerated value values = if elem value values then some value else none
