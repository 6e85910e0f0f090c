-- ===== src/Base/Paths.antt =====
-- path.Base of the Go library, on a path that does not end in a slash.
use mathlib.Core.Path.{◌≡◌, refl}
use mathlib.Core.Bool.{false}
use mathlib.Core.List.{List, [], ◌∷◌, ◌++◌}
use Prim.Native.Nat.{ℕ}
use native.Mathlib.Omega.{arith}
use waveguide.Base.Tests.{◌==◌, if◌then◌else◌}
use waveguide.Base.Split.{Lacks}

-- What is behind the last slash.
abbrev pub base_loop : List ℕ → List ℕ → List ℕ
base_loop last [] = last
base_loop last (c ∷ path) = base_loop (if c == b'/' then path else last) path

abbrev pub base : List ℕ → List ℕ
base path = base_loop path path

base_loop_plain : (last path : List ℕ) → Lacks b'/' path → base_loop last path ≡ last
base_loop_plain last [] plain = refl
base_loop_plain last (c ∷ path) (ne, plain) =
    let other : (c == b'/') ≡ false = ground arith in rw other (base_loop_plain last path plain)

base_loop_slash :
    (last front path : List ℕ) → Lacks b'/' path → base_loop last (front ++ b'/' ∷ path) ≡ path
base_loop_slash last [] path plain = base_loop_plain path path plain
base_loop_slash last (c ∷ front) path plain =
    base_loop_slash (if c == b'/' then front ++ b'/' ∷ path else last) front path plain

pub base-append : (front path : List ℕ) → Lacks b'/' path → base (front ++ b'/' ∷ path) ≡ path
base-append front path plain = base_loop_slash (front ++ b'/' ∷ path) front path plain
