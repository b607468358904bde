-- ===== src/Prelude/Python.antt =====
-- What the program takes from Python's runtime and standard library: parameters of the model.
use inferlog.Prelude.Json.{Json, Fields}
use inferlog.Prelude.Text.{Text}
use Prim.Native.Nat.{ℕ}
use mathlib.Core.Option.{Option}

-- `str(v)` on a value of another type, `len(json.dumps(d, default=str).encode())`, `isoformat` of a
-- time in microseconds, `json.loads` (`none` if it raises), and a sum of two numbers of which one
-- is a float.
pub record Python : Type 0 where
  pub str_of : Json → Text
  pub dumps_size : Fields → ℕ
  pub isoformat : ℕ → Text
  pub loads : Text → Option Json
  pub float_add : Json → Json → Json
