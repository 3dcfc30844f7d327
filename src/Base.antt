-- ===== src/Base.antt =====
-- The names that the other modules share: those of the libraries, passed on, and those of the
-- children: tests on numbers, lists over the native numbers, bytes and text, 64-bit integers.
mod Tests
mod Lists
mod Select
mod Streams
mod Inputs
mod Commands
pub mod Lines
pub mod Decimal
mod Results
pub mod Split
pub mod Int64
pub use Tests.*
pub use Lists.*
pub use Select.*
unfoldable pub use Streams.{passed_on}
pub use Results.*
pub use Inputs.{File, Files}
pub use Commands.*
pub use Streams.{Source, buffer_size, Chunk, read_exactly, next_byte, read_exactly-append}
pub use Prim.Native.Nat.{ℕ, zero, suc, ◌+◌, ◌-◌, ◌*◌, ◌/◌, ◌%◌, ◌^◌, ◌≤◌, ◌<◌, min, max}
pub use mathlib.Core.Path.{◌≡◌, refl, sym, ap, ap₂, ◌∙◌}
pub use mathlib.Core.Logic.{◌≢◌, ◌↔◌, ◌⊎◌, inl, inr}
pub use mathlib.Core.Bool.{Bool, true, false, not, ◌&&◌, ◌||◌}
pub use mathlib.Core.Option.{Option, none, some}
pub use mathlib.Core.List.{List, [], ◌∷◌, ◌++◌, map, append_assoc, append-nil}
pub use native.Mathlib.Omega.{arith}
