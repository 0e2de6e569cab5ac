-- ===== src/MemStore/Invariant.antt =====
-- What holds of a memstore between two calls: ids are distinct and were issued by the store, so
-- were the lease tokens of running tasks, no two active tasks share a unique key, and a task that
-- is done or dead has released its key.
pub mod Put
pub mod Calls
pub mod Batches
pub mod Insert
use gotasks.Task.{running, Task}
use gotasks.Prelude.Text.{text_eq, Text}
use gotasks.Prelude.{List, ◌≤◌, not, arith, [], ◌≡◌, ℕ, false, Bool, ◌&&◌, Pairwise, All}
use gotasks.MemStore.TaskMap.{DistinctIds}
use gotasks.MemStore.State.{new, Store, lease_token, task_id, is_active}

-- One of the names that the counter has given out so far.
abbrev pub IsIssued : (ℕ → Text) → ℕ → Text → Type 0
IsIssued name n x = (k : ℕ) × (k ≤ n) × (x ≡ name k)

pub IsIssued-mono :
    (name : ℕ → Text) (m n : ℕ) (x : Text) → m ≤ n → IsIssued name m x → IsIssued name n x
IsIssued-mono name m n x h (k, le, e) = (k, omega arith, e)

-- Both tasks are active and hold the same unique key.
unfoldable pub clash : Task → Task → Bool
clash t u =
    is_active t
    && (is_active u && (not (text_eq t.unique_key []) && text_eq t.unique_key u.unique_key))

abbrev pub KeysApart : List Task → Type 0
KeysApart = Pairwise (λ t u. clash t u ≡ false)

abbrev pub KeyReleased : Task → Type 0
KeyReleased t = is_active t ≡ false → t.unique_key ≡ []

abbrev pub TokenIssued : ℕ → Task → Type 0
TokenIssued n t = t.status ≡ running → IsIssued lease_token n t.lease_token

pub record IsValid (s : Store) : Type 0 where
  pub distinct : DistinctIds s.tasks
  pub ids_issued : All (λ t. IsIssued task_id s.seq t.id) s.tasks
  pub tokens_issued : All (TokenIssued s.seq) s.tasks
  pub keys_apart : KeysApart s.tasks
  pub keys_released : All KeyReleased s.tasks

pub IsValid-new : IsValid new
unfolding new
IsValid-new = record {
  distinct = tt;
  ids_issued = tt;
  tokens_issued = tt;
  keys_apart = tt;
  keys_released = tt;
}
