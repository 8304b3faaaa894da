-- ===== src/Shared/Texts.antt =====
-- Python's `str` as its list of code points.
use Prim.Native.Nat.{ℕ}
use Prim.Native.Char.{code}
use Prim.Native.String.{String}
use mathlib.Core.List.{List, [], ◌∷◌}
use mathlib.Core.Bool.{Bool, true, false, ◌&&◌, ◌||◌}
use xserver_mail_lineworks.Shared.Tests.{leb, nat_beq}
use xserver_mail_lineworks.Shared.Lists.{length, all}

abbrev pub Text : Type 0
Text = List ℕ

-- A literal of the source.
abbrev pub codes : String → Text
codes String.[] = []
codes (String.◌∷◌ c s) = code c ∷ codes s

-- `s.startswith(prefix)`
unfoldable pub starts_with : Text → Text → Bool
starts_with [] s = true
starts_with (c ∷ prefix) [] = false
starts_with (c ∷ prefix) (d ∷ s) = nat_beq c d && starts_with prefix s

abbrev pub is_digit : ℕ → Bool
is_digit c = leb 48 c && leb c 57

-- `[0-9a-f]`
abbrev pub is_hex_digit : ℕ → Bool
is_hex_digit c = is_digit c || (leb 97 c && leb c 102)

-- `re.fullmatch(r"[0-9a-f]{n}", s)`
unfoldable pub is_hex : ℕ → Text → Bool
unfolding all
is_hex n s = nat_beq (length s) n && all is_hex_digit s

abbrev pub is_sha256 : Text → Bool
is_sha256 = is_hex 64
