-- ===== src/Prelude/Text.antt =====
-- A `std::string` is the list of its bytes. `text` reads a literal; the program's literals are ASCII.
use Prim.Native.Char.{code}
use Prim.Native.String.{String}
use vigil_low_latency_tcp_he.Prelude.{ℕ, Bool, true, false, List, [], ◌∷◌, ◌==◌, ◌&&◌}

abbrev pub Text : Type 0
Text = List ℕ

abbrev pub text : String → Text
text String.[] = []
text (String.◌∷◌ c s) = code c ∷ text s

unfoldable pub text_eq : Text → Text → Bool
text_eq [] [] = true
text_eq [] (b ∷ t) = false
text_eq (a ∷ s) [] = false
text_eq (a ∷ s) (b ∷ t) = (a == b) && text_eq s t
