-- ===== src/Prelude/Maps.antt =====
-- Go maps with texts for keys, as association lists: the entry that was set last comes first.
use Prim.Native.String.{String}
use mathlib.Core.Option.{Option, none, some}
use mathlib.Core.List.{List, [], ◌∷◌}
use text.Mathlib.Text.{◌==◌ as str_eq}
use realtime_messaging_platf.Prelude.Tests.{if◌then◌else◌}

unfoldable pub lookup : {A : Type 0} → String → List (String × A) → Option A
lookup key [] = none
lookup key ((k, a) ∷ rest) = if str_eq k key then some a else lookup key rest
