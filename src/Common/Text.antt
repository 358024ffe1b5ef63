-- ===== src/Common/Text.antt =====
-- Python's `in` on texts. `str.lower` is Unicode's case mapping, a table that no file of the
-- repository holds: the definitions that use it take it as a function `lower`.
use Prim.Native.String.{String}
use mathlib.Core.Bool.{Bool, not}
use text.Mathlib.Text.{find?}
use ynab_agent.Common.Tests.{is_none}

-- `needle in text`
unfoldable pub is_in : String → String → Bool
is_in needle text = not (is_none (find? text needle))
