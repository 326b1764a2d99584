-- ===== src/Device.antt =====
-- Open descriptors of the operating system: `read` and `write`, and what their manual promises.
-- The kernel is not part of the repository, so a descriptor is an interface over an unknown state.
pub mod Memory
pub mod Blocks
use iteso_codigos.Common.{ℕ, suc, ◌≤◌, ◌≡◌, ◌≢◌, Option, none, some, List, [], ◌++◌, length, take}
use iteso_codigos.Common.Text.{Bytes}

-- `none` is the answer -1. A `read` that gives no byte is the end of the file.
pub record Device : Type 1 where
  pub State : Type 0
  pub read : State → ℕ → Option Bytes × State
  pub write : State → Bytes → Option ℕ × State

-- `read` takes a prefix of what is pending, and `write` delivers a prefix of what it is given.
pub record IsLawful (D : Device) : Type 0 where
  pub pending : D.State → Bytes
  pub sent : D.State → Bytes
  pub read-some :
      (s : D.State) (n : ℕ) {b : Bytes}
      → (D.read s n).0 ≡ some b
      → (length b ≤ n) × (pending s ≡ b ++ pending (D.read s n).1)
  pub read-none : (s : D.State) (n : ℕ) → (D.read s n).0 ≡ none → pending (D.read s n).1 ≡ pending s
  pub read-eof : (s : D.State) (n : ℕ) → (D.read s (suc n)).0 ≡ some [] → pending s ≡ []
  pub read_keeps-sent : (s : D.State) (n : ℕ) → sent (D.read s n).1 ≡ sent s
  pub write-some :
      (s : D.State) (b : Bytes) {k : ℕ}
      → (D.write s b).0 ≡ some k
      → (k ≤ length b) × (sent (D.write s b).1 ≡ sent s ++ take k b)
  pub write-none :
      (s : D.State) (b : Bytes) → (D.write s b).0 ≡ none → sent (D.write s b).1 ≡ sent s
  pub write_keeps-pending : (s : D.State) (b : Bytes) → pending (D.write s b).1 ≡ pending s

-- Calls do not fail, and a write of one byte or more makes progress. How much a call moves is open.
pub record IsReliable (D : Device) : Type 0 where
  pub reads : (s : D.State) (n : ℕ) → (b : Bytes) × ((D.read s n).0 ≡ some b)
  pub writes : (s : D.State) (b : Bytes) → b ≢ [] → (k : ℕ) × ((D.write s b).0 ≡ some (suc k))
